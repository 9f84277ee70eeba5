-- ===== src/Stream/Recv.antt =====
-- From the socket to messages: msg_parsed, msg_repair, msg_parse, msg_recv_chain and msg_recv of
-- src/gf_message.c. `none` is a use of a NULL pointer, or a loop that runs out of rounds.
use gfwproxy.Base.{
  ℕ, zero, suc, ◌+◌, ◌-◌, ◌%◌, ◌^◌, true, false, Option, none, some, List, [], ◌∷◌, ◌==◌,
  if◌then◌else◌, length,
}
use mathlib.Core.Option
use gfwproxy.Status.{Status, gf_ok, gf_error, gf_enomem}
use gfwproxy.Mbuf.{
  Mbuf, Bufs, last, mbuf_get, mbuf_insert, mbuf_copy, mbuf_size, mbuf_full, mbuf_put, mbuf_length,
  mbuf_split, last_mbuf, set_last,
}
use gfwproxy.Msg.{World, Conn, Sys, set_msg, msg_get}
use gfwproxy.Stream.{
  Answer, moved, is_eagain, is_error, conn_recv, Handlers, parse_ok, parse_repair, parse_again,
  parse_error,
}

abbrev Outcome : Type 0
Outcome = Option (Status × Conn × World)

-- The end of the branches that hand the message over.
abbrev pub hand_over : Status → Option (Conn × World) → Option (Status × Conn × World)
hand_over status none = none
hand_over status (some (c, w)) = some (status, c, w)

-- The unread rest `b` of message `m` becomes the message `n`.
abbrev pub divided : ℕ → ℕ → Mbuf → World → World
divided m n b w =
    let rest = mbuf_length b in
    let u =
      set_msg n (record (w.msg n) { mhdr = mbuf_insert (w.msg n).mhdr b; pos = b.pos; mlen = rest })
        w in
    set_msg m (record (u.msg m) { mlen = ((u.msg m).mlen + (2 ^ 32 - rest)) % 2 ^ 32 }) u

abbrev pub put_back : ℕ → List Mbuf → Bufs → World → World
put_back m mhdr bufs w = set_msg m (record (w.msg m) { mhdr = mhdr }) (record w { bufs = bufs })

-- The end of `msg_parsed`, from the test of the new message on.
abbrev pub with_new : Handlers → ℕ → Conn → Mbuf → Option ℕ × World → Option (Status × Conn × World)
with_new h m c b (none, u) = some (gf_enomem, c, record u { bufs = mbuf_put u.bufs })
with_new h m c b (some n, u) = hand_over gf_ok (h.recv_done m (some n) c (divided m n b u))

unfoldable pub msg_parsed : Handlers → Sys → ℕ → Conn → World → Option (Status × Conn × World)
unfolding mbuf_split msg_get
msg_parsed h sys m c w = elim (last_mbuf (w.msg m).mhdr) [
  | none ↦ none
  | some v ↦
      if (w.msg m).pos == last v
      then hand_over gf_ok (h.recv_done m none c w)
      else elim (mbuf_split sys.has_memory (λ b. b) (w.msg m).pos (w.msg m).mhdr w.bufs) [
        | none ↦ none
        | some none ↦ some (gf_enomem, c, w)
        | some (some (mhdr, b, bufs)) ↦
            with_new h m c b (msg_get sys (w.msg m).owner (put_back m mhdr bufs w))
      ]
]

unfoldable pub msg_repair : Sys → ℕ → Conn → World → Option (Status × Conn × World)
unfolding mbuf_split
msg_repair sys m c w =
    elim (mbuf_split sys.has_memory (λ b. b) (w.msg m).pos (w.msg m).mhdr w.bufs) [
      | none ↦ none
      | some none ↦ some (gf_enomem, c, w)
      | some (some (mhdr, b, bufs)) ↦ some (
        gf_ok,
        c,
        set_msg m (record (w.msg m) { mhdr = mbuf_insert mhdr b; pos = b.pos })
            (record w { bufs = bufs }),
      )
    ]

-- An error that the connection has noted wins.
abbrev settled : Option (Status × Conn × World) → Option (Status × Conn × World)
settled none = none
settled (some (status, c, w)) = some (if c.err == 0 then status else gf_error, c, w)

unfoldable pub msg_parse : Handlers → Sys → ℕ → Conn → World → Option (Status × Conn × World)
unfolding msg_parsed msg_repair
msg_parse h sys m c w =
    if (w.msg m).mlen == 0
    then hand_over gf_ok (h.recv_done m none c w)
    else let (result, u) = h.parser m w in
      settled (elim result [
        | parse_ok ↦ msg_parsed h sys m c u
        | parse_repair ↦ msg_repair sys m c u
        | parse_again ↦ some (gf_ok, c, u)
        | parse_error e ↦ some (gf_error, record c { err = e }, u)
      ])

-- The loop of `msg_recv_chain` over the messages that a read has brought.
unfoldable pub parse_loop : ℕ → Handlers → Sys → ℕ → Conn → World → Option (Status × Conn × World)
unfolding msg_parse
parse_loop zero h sys m c w = none
parse_loop (suc rounds) h sys m c w = elim (msg_parse h sys m c w) [
  | none ↦ none
  | some (gf_ok, d, u) ↦ elim (h.recv_next false d u) [
    | none ↦ none
    | some (none, e, v) ↦ some (gf_ok, e, v)
    | some (some n, e, v) ↦ elim (n == m) [
      | true ↦ some (gf_ok, e, v)
      | false ↦ parse_loop rounds h sys n e v
    ]
  ]
  | some (status, d, u) ↦ some (status, d, u)
]

-- The buffer that is read into: the last one, or a new one where it is full.
pub room : Sys → ℕ → World → Option (Mbuf × World)
unfolding mbuf_get
room sys m w =
    let more =
      Option.map
        (λ (r : Mbuf × Bufs). (
          r.0,
          set_msg m (record (w.msg m) { mhdr = mbuf_insert (w.msg m).mhdr r.0; pos = r.0.pos })
              (record w { bufs = r.1 }),
        ))
        (mbuf_get sys.has_memory w.bufs) in
    elim (last_mbuf (w.msg m).mhdr) [
      | none ↦ more
      | some v ↦ if mbuf_full v then more else some (v, w)
    ]

-- The bytes that were read, in the buffer `b` at the end of the queue.
abbrev pub received : ℕ → Mbuf → List ℕ → World → World
received m b bytes w =
    set_msg m
      (record (w.msg m) {
        mhdr = set_last (w.msg m).mhdr (mbuf_copy b bytes);
        mlen = ((w.msg m).mlen + length bytes) % 2 ^ 32;
      })
      w

unfoldable pub msg_recv_chain :
    ℕ → Handlers → Sys → List (Answer (List ℕ)) → ℕ → Conn → World → Option (Status × Conn × World)
unfolding room conn_recv parse_loop
msg_recv_chain rounds h sys answers m c w = elim (room sys m w) [
  | none ↦ some (gf_enomem, c, w)
  | some (b, u) ↦ elim (conn_recv answers (mbuf_size b) c) [
    | none ↦ none
    | some (is_eagain, d) ↦ some (gf_ok, d, u)
    | some (is_error, d) ↦ some (gf_error, d, u)
    | some (moved bytes, d) ↦ parse_loop rounds h sys m d (received m b bytes u)
  ]
]

-- `msg_recv`; each round has its own answers of the system.
recv_loop :
    ℕ
    → Handlers
    → Sys
    → List (List (Answer (List ℕ)))
    → Conn
    → World
    → Option (Status × Conn × World)
unfolding msg_recv_chain
recv_loop rounds h sys [] c w = none
recv_loop rounds h sys (answers ∷ more) c w = elim (h.recv_next true c w) [
  | none ↦ none
  | some (none, d, u) ↦ some (gf_ok, d, u)
  | some (some m, d, u) ↦ elim (msg_recv_chain rounds h sys answers m d u) [
    | none ↦ none
    | some (gf_ok, e, v) ↦ elim e.recv_ready [
      | true ↦ recv_loop rounds h sys more e v
      | false ↦ some (gf_ok, e, v)
    ]
    | some (status, e, v) ↦ some (status, e, v)
  ]
]

unfoldable msg_recv :
    ℕ
    → Handlers
    → Sys
    → List (List (Answer (List ℕ)))
    → Conn
    → World
    → Option (Status × Conn × World)
unfolding recv_loop
msg_recv rounds h sys answers c w =
    recv_loop rounds h sys answers (record c { recv_ready = true }) w
