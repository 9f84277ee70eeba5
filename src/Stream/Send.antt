-- ===== src/Stream/Send.antt =====
-- From messages to the socket: msg_send_chain and msg_send of src/gf_message.c.
use gfwproxy.Base.{
  ℕ, zero, suc, ◌+◌, ◌-◌, ◌^◌, Bool, true, false, ◌&&◌, Option, none, some, List, [], ◌∷◌, ◌++◌,
  ltb, ◌==◌, if◌then◌else◌, length, take,
}
use gfwproxy.Status.{Status, gf_ok, gf_error}
use gfwproxy.Mbuf.{Mbuf, last, unread, mbuf_length, mbuf_empty}
use gfwproxy.Msg.{World, Conn, set_msg}
use gfwproxy.Stream.{Answer, Io, moved, is_eagain, is_error, conn_sendv, Handlers}
use gfwproxy.Stream.Recv.{hand_over}

-- GF_IOV_MAX and SSIZE_MAX.
abbrev pub iov_max : ℕ
iov_max = 128

abbrev pub limit : ℕ
limit = 2 ^ 63 - 1

-- The vector of what is to be sent: the bytes of each element, and their sum.
pub record Sendv : Type 0 where
  pub iov : List (List ℕ)
  pub nsend : ℕ

abbrev pub has_room : Sendv → Bool
has_room v = ltb (length v.iov) iov_max && ltb v.nsend limit

-- The loop over the buffers of one message.
unfoldable pub gather_mbufs : List Mbuf → Sendv → Sendv
gather_mbufs [] v = v
gather_mbufs (b ∷ mhdr) v =
    let mlen = if ltb limit (v.nsend + mbuf_length b) then limit - v.nsend else mbuf_length b in
    let pushed : Sendv = record {
      iov = v.iov ++ (take mlen (unread b) ∷ []);
      nsend = v.nsend + mlen;
    } in
    let rest = gather_mbufs mhdr (if mbuf_empty b then v else pushed) in
    if has_room v then rest else v

-- The loop over the messages: those that are gathered, the vector, and the state. `none` is a use
-- of a NULL pointer, or rounds that run out.
unfoldable pub gather :
    ℕ → Handlers → ℕ → List ℕ → Sendv → Conn → World → Option (List ℕ × Sendv × Conn × World)
unfolding gather_mbufs
gather zero h m send_msgq v c w = none
gather (suc rounds) h m send_msgq v c w =
    let u = gather_mbufs (w.msg m).mhdr v in
    let q = send_msgq ++ (m ∷ []) in
    elim (has_room u) [
      | false ↦ some (q, u, c, w)
      | true ↦ elim (h.send_next c w) [
        | none ↦ none
        | some (none, d, x) ↦ some (q, u, d, x)
        | some (some n, d, x) ↦ gather rounds h n q u d x
      ]
    ]

-- The loop over the buffers of a message after `nsent` bytes have been sent: the buffers, the bytes
-- that are left for the messages behind, and whether all were sent.
unfoldable pub adjust : ℕ → List Mbuf → List Mbuf × ℕ × Bool
adjust nsent [] = ([], nsent, true)
adjust nsent (b ∷ mhdr) =
    let skip = adjust nsent mhdr in
    let (rest, left, done) = adjust (nsent - mbuf_length b) mhdr in
    if mbuf_empty b
    then (b ∷ skip.0, skip.1, skip.2)
    else if ltb nsent (mbuf_length b)
    then (record b { pos = b.pos + nsent } ∷ mhdr, 0, false)
    else (record b { pos = last b } ∷ rest, left, done)

abbrev pub set_mhdr : ℕ → List Mbuf → World → World
set_mhdr m mhdr w = set_msg m (record (w.msg m) { mhdr = mhdr }) w

-- The loop over the messages that were gathered.
unfoldable pub settle : Handlers → ℕ → List ℕ → Conn → World → Option (Conn × World)
unfolding adjust
settle h nsent [] c w = some (c, w)
settle h nsent (m ∷ ms) c w = elim (nsent == 0) [
  | true ↦ elim ((w.msg m).mlen == 0) [
    | true ↦ elim (h.send_done m c w) [ none ↦ none | some (d, u) ↦ settle h nsent ms d u ]
    | false ↦ settle h nsent ms c w
  ]
  | false ↦
      let (mhdr, left, done) = adjust nsent (w.msg m).mhdr in
      let u = set_mhdr m mhdr w in
      elim done [
        | true ↦ elim (h.send_done m c u) [ none ↦ none | some (d, x) ↦ settle h left ms d x ]
        | false ↦ settle h left ms c u
      ]
]

abbrev pub nothing : Sendv
nothing = record { iov = []; nsend = 0 }

-- The call of `conn_sendv`, if there is something to send.
unfoldable pub send_out : List (Answer ℕ) → Sendv → Conn → Option (Io ℕ × Conn)
unfolding conn_sendv
send_out answers v c = if v.nsend == 0 then some (moved 0, c) else conn_sendv answers v.nsend c

-- `nsent`, and what is returned.
abbrev pub nsent : Io ℕ → ℕ
nsent (moved n) = n
nsent is_eagain = 0
nsent is_error = 0

abbrev pub sent_status : Io ℕ → Status
sent_status is_error = gf_error
sent_status is_eagain = gf_ok
sent_status (moved n) = gf_ok

unfoldable pub msg_send_chain :
    ℕ → Handlers → List (Answer ℕ) → ℕ → Conn → World → Option (Status × Conn × World)
unfolding gather send_out settle
msg_send_chain rounds h answers m c w = elim (gather rounds h m [] nothing c w) [
  | none ↦ none
  | some (q, v, d, u) ↦ elim (send_out answers v (record d { smsg = none })) [
    | none ↦ none
    | some (n, e) ↦ hand_over (sent_status n) (settle h (nsent n) q e u)
  ]
]

-- `msg_send`; each round has its own answers of the system.
send_loop : ℕ → Handlers → List (List (Answer ℕ)) → Conn → World → Option (Status × Conn × World)
unfolding msg_send_chain
send_loop rounds h [] c w = none
send_loop rounds h (answers ∷ more) c w = elim (h.send_next c w) [
  | none ↦ none
  | some (none, d, u) ↦ some (gf_ok, d, u)
  | some (some m, d, u) ↦ elim (msg_send_chain rounds h answers m d u) [
    | none ↦ none
    | some (gf_ok, e, v) ↦ elim e.send_ready [
      | true ↦ send_loop rounds h more e v
      | false ↦ some (gf_ok, e, v)
    ]
    | some (status, e, v) ↦ some (status, e, v)
  ]
]

unfoldable msg_send :
    ℕ → Handlers → List (List (Answer ℕ)) → Conn → World → Option (Status × Conn × World)
unfolding send_loop
msg_send rounds h answers c w = send_loop rounds h answers (record c { send_ready = true }) w
