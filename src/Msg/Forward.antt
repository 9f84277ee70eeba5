-- ===== src/Msg/Forward.antt =====
-- A response from a server (`rsp_filter`, `rsp_forward` and `rsp_recv_done` of
-- src/gf_response.c), and `req_forward_error` of src/gf_request.c.
use gfwproxy.Base.{List, ℕ, Bool, true, false, Option, none, some, [], ◌∷◌, ◌==◌, if◌then◌else◌}
use gfwproxy.Server.{Pool}
use gfwproxy.Pool.{server_ok}
use gfwproxy.Msg.{
  Msg, World, Conn, Sys, set_msg, req_put, rsp_put, event_add_out, req_server_dequeue_omsgq,
}
use gfwproxy.Msg.Done.{req_done}

-- The messages, the connections of the clients, and the pool of the server.
pub record Proxy : Type 0 where
  pub world : World
  pub client : ℕ → Conn
  pub pool : Pool

abbrev pub set_client : ℕ → Conn → Proxy → Proxy
set_client i c x = record x { client = λ j. if j == i then c else x.client j }

-- The pointers to functions of a protocol, which messages and connections carry; `none` is NULL.
-- `msg_get` sets those of the messages to NULL and `conn_get` the last one; the files set no other
-- values. `failure` tells a response that says the server failed.
pub record Protocol : Type 0 where
  pub failure : Option (World → ℕ → Bool)
  pub pre_coalesce : Option (ℕ → World → World)
  pub post_coalesce : Option (Option ℕ → World → World)
  pub swallow_msg : Option (ℕ → ℕ → Conn → World → Conn × World)

abbrev einval : ℕ
einval = 22

abbrev msg_empty : Msg → Bool
msg_empty v = v.mlen == 0

-- The answer `m` to a request `p` that nobody waits for. `none` is the call of `swallow_msg` where it
-- is NULL.
swallow_rsp : Protocol → ℕ → ℕ → Conn → World → Option (Bool × Conn × World)
unfolding rsp_put req_put req_server_dequeue_omsgq
swallow_rsp proto m p s w = elim proto.swallow_msg [
  | none ↦ none
  | some swallow_msg ↦
      let (s1, w1) = swallow_msg p m s w in
      let (s2, w2) = req_server_dequeue_omsgq p s1 w1 in
      let w3 = set_msg p (record (w2.msg p) { done = true }) w2 in
      some (true, s2, req_put p (rsp_put m w3))
]

-- `rsp_filter`; true says that the response goes no further. `none` is the call of a function
-- through a NULL pointer.
unfoldable pub rsp_filter : Protocol → ℕ → Conn → World → Option (Bool × Conn × World)
unfolding rsp_put swallow_rsp
rsp_filter proto m s w =
    if msg_empty (w.msg m) then some (true, s, rsp_put m w) else elim s.omsg_q [
      | [] ↦ some (true, record s { err = einval; done = true }, rsp_put m w)
      | p ∷ q ↦ elim proto.failure [
        | none ↦ none
        | some failure ↦
            if failure w m
            then some (true, record s { err = einval; done = true }, rsp_put m w)
            else if (w.msg p).swallow
            then swallow_rsp proto m p s w
            else some (false, s, w)
      ]
    ]

-- Where the first request of a client's queue is answered, its connection is to be written.
wake_on : Protocol → Sys → ℕ → Proxy → List ℕ → Option Proxy
unfolding req_done event_add_out
wake_on proto sys i x [] = none
wake_on proto sys i x (h ∷ q) = elim (req_done proto.post_coalesce (h ∷ q) h x.world) [
  | none ↦ none
  | some (is_done, w) ↦
      let y : Proxy = record x { world = w } in
      some (if is_done then set_client i (event_add_out sys (y.client i)) y else y)
]

pub wake_client : Protocol → Sys → ℕ → Proxy → Option Proxy
unfolding wake_on
wake_client proto sys i x = wake_on proto sys i x (x.client i).omsg_q

abbrev note_conn : Conn → Option Proxy → Option (Conn × Proxy)
note_conn s none = none
note_conn s (some y) = some (s, y)

-- `establish msg <-> pmsg link`, for a response `m` and its request `p`.
abbrev linked : ℕ → ℕ → World → World
linked m p w =
    let u = set_msg p (record (w.msg p) { done = true; peer = some m }) w in
    set_msg m (record (u.msg m) { peer = some p }) u

forward_to : Protocol → Sys → ℕ → ℕ → Conn → Proxy → List ℕ → Option (Conn × Proxy)
unfolding wake_client req_server_dequeue_omsgq
forward_to proto sys i m s x [] = none
forward_to proto sys i m s x (p ∷ q) =
    let (s1, w1) = req_server_dequeue_omsgq p s x.world in
    elim proto.pre_coalesce [
      | none ↦ none
      | some pre_coalesce ↦
          let w2 = pre_coalesce m (linked m p w1) in
          note_conn s1 (
            wake_client proto sys (w2.msg p).owner
              (record x { world = w2; pool = server_ok i x.pool }))
    ]

-- `rsp_forward` of a response `m` from server `i`. `none` is a use of a NULL pointer: no request
-- waits at the server, or none at its client, or a function of the protocol is NULL.
unfoldable pub rsp_forward : Protocol → Sys → ℕ → ℕ → Conn → Proxy → Option (Conn × Proxy)
unfolding forward_to
rsp_forward proto sys i m s x = forward_to proto sys i m s x s.omsg_q

-- `rsp_recv_done`; `nmsg` is the message that is read next.
unfoldable pub rsp_recv_done :
    Protocol → Sys → ℕ → ℕ → Option ℕ → Conn → Proxy → Option (Conn × Proxy)
unfolding rsp_filter rsp_forward
rsp_recv_done proto sys i m nmsg s x =
    elim (rsp_filter proto m (record s { rmsg = nmsg }) x.world) [
      | none ↦ none
      | some (filtered, s1, w1) ↦
          let y : Proxy = record x { world = w1 } in
          if filtered then some (s1, y) else rsp_forward proto sys i m s1 y
    ]

-- `req_forward_error` of a request `m` from client `i`.
pub req_forward_error : Protocol → Sys → ℕ → ℕ → Proxy → Option Proxy
unfolding wake_client req_put
req_forward_error proto sys i m x =
    let v = record (x.world.msg m) { done = true; error = true; err = sys.errno } in
    let y = record x { world = set_msg m v x.world } in
    if v.noreply then some (record y { world = req_put m y.world }) else wake_client proto sys i y
