-- ===== src/Msg/Send.antt =====
-- The requests on their way to a server: `req_send_next` and `req_send_done` of src/gf_request.c.
pub mod Order
use gfwproxy.Base.{
  ℕ, zero, suc, true, false, not, Option, none, some, List, [], ◌∷◌, arith, if◌then◌else◌,
}
use gfwproxy.Msg.{
  World, Conn, Sys, after, req_put, event_del_out, req_server_dequeue_imsgq,
  req_server_enqueue_omsgq,
}

-- `server_connected` of src/gf_server.c; `post_connect` is the function of the connection's protocol.
pub server_connected : (Conn → World → Conn × World) → Conn → World → Conn × World
server_connected post_connect c w =
    post_connect (record c { connecting = false; connected = true }) w

abbrev pub head : List ℕ → Option ℕ
head [] = none
head (m ∷ q) = some m

-- The second part of `req_send_next`, once the connection stands.
pub send_next : Sys → Conn → Option ℕ × Conn
send_next sys c = elim c.imsg_q [
  | [] ↦ (none, event_del_out sys c)
  | m ∷ q ↦ elim c.smsg [
    | none ↦ (some m, record c { smsg = some m })
    | some s ↦ (head (after s (m ∷ q)), record c { smsg = head (after s (m ∷ q)) })
  ]
]

unfoldable pub req_send_next :
    (Conn → World → Conn × World) → Sys → Conn → World → Option ℕ × Conn × World
unfolding server_connected send_next
req_send_next post_connect sys c w =
    let (d, u) = if c.connecting then server_connected post_connect c w else (c, w) in
    let (m, e) = send_next sys d in (m, e, u)

unfoldable pub req_send_done : ℕ → Conn → World → Conn × World
req_send_done m c w =
    let d = req_server_dequeue_imsgq m c in
    if not (w.msg m).noreply then (req_server_enqueue_omsgq m d, w) else (d, req_put m w)
