-- ===== src/Msg/Reply.antt =====
-- The answers on their way to a client: `rsp_make_error`, `rsp_send_next` and `rsp_send_done` of
-- src/gf_response.c; and `req_recv_next` and `rsp_recv_next`, which give the message to read into.
pub mod Errors
pub mod Queue
use gfwproxy.Base.{
  ℕ, zero, suc, ◌-◌, Bool, true, false, not, ◌&&◌, Option, none, some, List, [], ◌∷◌, arith, ◌==◌,
  if◌then◌else◌, length, take,
}
use gfwproxy.Msg.{
  World, Conn, Sys, after, set_msg, msg_get, msg_put, req_put, rsp_put, req_client_dequeue_omsgq,
}
use gfwproxy.Mbuf.{mbuf_get, mbuf_insert, mbuf_copy, mbuf_size}
use gfwproxy.Msg.Done.{req_done, req_error}

-- The loop of `rsp_make_error` over the messages behind the failed one: the fragments of the same
-- request leave the queue, and the first error number that is not 0 is kept.
unfoldable pub make_error_loop : ℕ → List ℕ → ℕ → Conn → World → ℕ × Conn × World
make_error_loop id [] err c w = (err, c, w)
make_error_loop id (m ∷ ms) err c w =
    let rest =
      make_error_loop id ms (if err == 0 && not ((w.msg m).err == 0) then (w.msg m).err else err)
        (req_client_dequeue_omsgq m c) (req_put m w) in
    if (w.msg m).frag_id == id then rest else (err, c, w)

-- The failed request's own answer, if there is one, is put away.
unfoldable pub drop_peer : ℕ → World → World
drop_peer m w = elim (w.msg m).peer [
  | none ↦ w
  | some r ↦
      let u = set_msg m (record (w.msg m) { peer = none }) w in
      let v = set_msg r (record (u.msg r) { peer = none }) u in rsp_put r v
]

-- `rsp_make_error` up to its last call, `msg_get_error` with the error number that it gives.
unfoldable pub rsp_make_error : ℕ → Conn → World → ℕ × Conn × World
unfolding make_error_loop drop_peer
rsp_make_error m c w =
    let id = (w.msg m).frag_id in
    let (err, d, u) =
      if not (id == 0)
      then make_error_loop id (after m c.omsg_q) 0 c w
      else ((w.msg m).err, c, w) in
    (err, d, drop_peer m u)

abbrev first : List ℕ → Option ℕ
first [] = none
first (m ∷ q) = some m

-- The request whose answer comes next: the one behind the request of the last answer that was
-- gathered, or the first. `none` is a use of the peer where it is NULL.
pub next_answer : Conn → World → Option (Option ℕ)
next_answer c w = elim c.smsg [
  | none ↦ some (first c.omsg_q)
  | some s ↦ elim (w.msg s).peer [ none ↦ none | some p ↦ some (first (after p c.omsg_q)) ]
]

abbrev link : ℕ → ℕ → World → World
link m p w =
    let u = set_msg m (record (w.msg m) { peer = some p }) w in
    set_msg p (record (u.msg p) { peer = some m }) u

-- `msg_get_error`, with `text` for the line of the error number; a line that does not fit its
-- buffer is cut.
unfoldable pub msg_get_error : (ℕ → List ℕ) → Sys → ℕ → World → Option ℕ × World
unfolding msg_get mbuf_get
msg_get_error text sys err w =
    let (got, u) = msg_get sys 0 w in
    elim got [
      | none ↦ (none, u)
      | some m ↦ elim (mbuf_get sys.has_memory u.bufs) [
        | none ↦ (none, msg_put m u)
        | some (b, bufs) ↦
            let line = take (mbuf_size b - 1) (text err) in
            (
              some m,
              set_msg m
                  (record (u.msg m) {
                    mhdr = mbuf_insert (u.msg m).mhdr (mbuf_copy b line);
                    mlen = length line;
                  })
                  (record u { bufs = bufs }),
            )
      ]
    ]

-- From the test `req_error` on: the request `p` is done. `none` is a use of its peer where it is
-- NULL.
answer : (ℕ → List ℕ) → Sys → ℕ → Conn → World → Option (Option ℕ × Conn × World)
unfolding rsp_make_error req_error msg_get_error
answer text sys p c w =
    let (is_error, w1) = req_error c.omsg_q p w in
    if is_error
    then (let (err, d, w2) = rsp_make_error p c w1 in
        let (got, w3) = msg_get_error text sys err w2 in
        elim got [
          | none ↦ some (none, record d { err = sys.errno }, w3)
          | some m ↦ some (some m, record d { smsg = some m }, link m p w3)
        ])
    else elim (w1.msg p).peer [
      | none ↦ none
      | some m ↦ some (some m, record c { smsg = some m }, w1)
    ]

-- `none` is a use of a NULL pointer: with no request outstanding, the first test calls `req_done`
-- on NULL.
unfoldable pub rsp_send_next :
    (ℕ → List ℕ)
    → Option (Option ℕ → World → World)
    → Sys
    → Conn
    → World
    → Option (Option ℕ × Conn × World)
unfolding answer next_answer req_done
rsp_send_next text post_coalesce sys c w = elim c.omsg_q [
  | [] ↦ none
  | m ∷ q ↦ elim (next_answer c w) [
    | none ↦ none
    | some none ↦ some (none, record c { smsg = none }, w)
    | some (some p) ↦ elim (req_done post_coalesce c.omsg_q p w) [
      | none ↦ none
      | some (is_done, u) ↦
          if is_done then answer text sys p c u else some (none, record c { smsg = none }, u)
    ]
  ]
]

-- The answer `m` has been written. `none` is a use of its peer where it is NULL.
pub rsp_send_done : ℕ → Conn → World → Option (Conn × World)
unfolding req_put
rsp_send_done m c w = elim (w.msg m).peer [
  | none ↦ none
  | some p ↦ some (req_client_dequeue_omsgq p c, req_put p w)
]

-- `client_active` of src/gf_client.c.
unfoldable pub client_active : Conn → Bool
client_active c = elim c.omsg_q [
  | m ∷ q ↦ true
  | [] ↦ elim c.rmsg [ some m ↦ true | none ↦ elim c.smsg [ some m ↦ true | none ↦ false ] ]
]

-- `req_get` and `rsp_get`, and what their callers do with the message.
get_next : Sys → Conn → World → Option ℕ × Conn × World
unfolding msg_get
get_next sys c w =
    let (got, u) = msg_get sys c.self w in
    elim got [
      | none ↦ (none, record c { err = sys.errno }, u)
      | some m ↦ (some m, record c { rmsg = some m }, u)
    ]

-- At the end of the input, the message that was being read is put away.
discard : (ℕ → World → World) → Conn → World → Conn × World
discard put c w = elim c.rmsg [ none ↦ (c, w) | some m ↦ (record c { rmsg = none }, put m w) ]

unfoldable pub req_recv_next : Sys → Bool → Conn → World → Option ℕ × Conn × World
unfolding client_active discard get_next
req_recv_next sys alloc c w =
    if c.eof
    then (let (d, u) = discard req_put c w in
        (none, (if not (client_active d) then record d { done = true } else d), u))
    else elim c.rmsg [
      | some m ↦ (some m, c, w)
      | none ↦ if not alloc then (none, c, w) else get_next sys c w
    ]

pub rsp_recv_next : Sys → Bool → Conn → World → Option ℕ × Conn × World
unfolding discard get_next
rsp_recv_next sys alloc c w =
    if c.eof
    then (let (d, u) = discard rsp_put c w in (none, record d { done = true }, u))
    else elim c.rmsg [
      | some m ↦ (some m, c, w)
      | none ↦ if not alloc then (none, c, w) else get_next sys c w
    ]
