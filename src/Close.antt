-- ===== src/Close.antt =====
-- How a connection ends: `client_close` of src/gf_client.c, `proxy_close` of src/gf_proxy.c (on the
-- connections alone) and `server_close` of src/gf_server.c. `sd` is `none` for -1. Statistics and the
-- result of `close` are left out.
pub mod Client
mod Tests
use gfwproxy.Base.{
  ℕ, zero, suc, ◌+◌, ◌%◌, ◌^◌, Bool, true, false, ◌||◌, Option, none, some, List, [], ◌∷◌, map,
  arith, ltb, if◌then◌else◌,
}
use gfwproxy.Msg.{
  Msg, World, Conn, Sys, set_msg, event_add_out, req_put, rsp_put, req_client_dequeue_omsgq,
  req_server_dequeue_imsgq, req_server_dequeue_omsgq,
}
use gfwproxy.Msg.Done.{req_done}
use gfwproxy.Msg.Forward.{Proxy, Protocol, set_client}
use gfwproxy.Server.{Continuum, Pool, Env}
use gfwproxy.Pool.{server_failure}
use mathlib.Core.Option
use gfwproxy.Conns.{Conns, Owned, set_conn, unref, proxy_unref, conn_put}

-- A request that is answered is put away, another one is marked.
unfoldable pub drop_request : ℕ → World → World
unfolding req_put
drop_request m w =
    if (w.msg m).done then req_put m w else set_msg m (record (w.msg m) { swallow = true }) w

-- The loop of `client_close` over the requests that are outstanding.
unfoldable pub drop_requests : List ℕ → Conn → World → Conn × World
unfolding drop_request
drop_requests [] c w = (c, w)
drop_requests (m ∷ ms) c w = drop_requests ms (req_client_dequeue_omsgq m c) (drop_request m w)

-- `unref`, `close`, and the return to the queue of free connections.
unfoldable pub release : ℕ → Conns → Owned → Conns × Owned
unfolding unref conn_put
release i t o =
    let (u, p) = unref i t o in (conn_put i (set_conn i (record (u.conn i) { sd = none }) u), p)

unfoldable pub drop_reading : (ℕ → World → World) → Conn → World → Conn × World
drop_reading put c w = elim c.rmsg [ none ↦ (c, w) | some m ↦ (record c { rmsg = none }, put m w) ]

unfoldable pub client_close : ℕ → World → Conns → Owned → World × Conns × Owned
unfolding drop_requests release drop_reading
client_close i w t o = elim (t.conn i).sd [
  | none ↦ let (u, p) = release i t o in (w, u, p)
  | some n ↦
      let (c, w1) = drop_reading req_put (t.conn i) w in
      let (d, w2) = drop_requests c.omsg_q c w1 in
      let (u, p) = release i (set_conn i d t) o in (w2, u, p)
]

-- The state of the pool is its `p_conn`.
unfoldable proxy_close : ℕ → Conns → Option ℕ → Conns × Option ℕ
unfolding conn_put proxy_unref
proxy_close i t p_conn =
    let (u, p) = proxy_unref i t p_conn in
    (conn_put i (set_conn i (record (u.conn i) { sd = none }) u), p)

-- `msg->frag_owner->nfrag_done++`, on a `uint32_t`.
abbrev pub one_more : Option ℕ → World → World
one_more none w = w
one_more (some p) w =
    set_msg p (record (w.msg p) { nfrag_done = ((w.msg p).nfrag_done + 1) % 2 ^ 32 }) w

-- A write event for the client, if its first request is done now; that `event_add_out` fails is
-- ignored.
unfoldable pub schedule : Protocol → Sys → ℕ → Proxy → List ℕ → Option Proxy
unfolding req_done event_add_out
schedule proto sys i x [] = none
schedule proto sys i x (h ∷ q) =
    let c : Conn = record (event_add_out sys (x.client i)) { err = (x.client i).err } in
    elim (req_done proto.post_coalesce (h ∷ q) h x.world) [
      | none ↦ none
      | some (is_done, w) ↦
          let y : Proxy = record x { world = w } in some (if is_done then set_client i c y else y)
    ]

-- A request that gets an error instead of its answer.
unfoldable pub fail_request : Protocol → Sys → ℕ → ℕ → Proxy → Option Proxy
unfolding schedule
fail_request proto sys err m x =
    let w1 = set_msg m (record (x.world.msg m) { done = true; error = true; err = err }) x.world in
    let w2 = one_more (w1.msg m).frag_owner w1 in
    let i = (w2.msg m).owner in schedule proto sys i (record x { world = w2 }) (x.client i).omsg_q

-- What both loops of `server_close` do with a request; one that is `silent` is put away.
unfoldable pub give_up : (Msg → Bool) → Protocol → Sys → ℕ → ℕ → Proxy → Option Proxy
unfolding fail_request
give_up silent proto sys err m x =
    if silent (x.world.msg m)
    then some (record x { world = req_put m x.world })
    else fail_request proto sys err m x

abbrev pub wants_none : Msg → Bool
wants_none v = v.swallow || v.noreply

abbrev pub wants_swallow : Msg → Bool
wants_swallow v = v.swallow

-- The loops over the requests that wait and those that are outstanding. `none` is a use of a NULL
-- pointer: a client without outstanding requests, or a function of the protocol that is NULL.
unfoldable pub fail_waiting : Protocol → Sys → List ℕ → Conn → Proxy → Option (Conn × Proxy)
unfolding give_up
fail_waiting proto sys [] s x = some (s, x)
fail_waiting proto sys (m ∷ ms) s x = elim (give_up wants_none proto sys s.err m x) [
  | none ↦ none
  | some y ↦ fail_waiting proto sys ms (req_server_dequeue_imsgq m s) y
]

unfoldable pub fail_outstanding : Protocol → Sys → List ℕ → Conn → Proxy → Option (Conn × Proxy)
unfolding give_up
fail_outstanding proto sys [] s x = some (s, x)
fail_outstanding proto sys (m ∷ ms) s x =
    let (d, w) = req_server_dequeue_omsgq m s x.world in
    elim (give_up wants_swallow proto sys s.err m (record x { world = w })) [
      | none ↦ none
      | some y ↦ fail_outstanding proto sys ms d y
    ]

-- The part of `server_close` between the test of `sd` and `server_failure`.
unfoldable pub fail_all : Protocol → Sys → Conn → Proxy → Option (Conn × Proxy)
unfolding fail_waiting fail_outstanding drop_reading
fail_all proto sys s x = elim (fail_waiting proto sys s.imsg_q s x) [
  | none ↦ none
  | some (s1, x1) ↦ elim (fail_outstanding proto sys s1.omsg_q s1 x1) [
    | none ↦ none
    | some (s2, x2) ↦
        let (s3, w) = drop_reading rsp_put s2 x2.world in some (s3, record x2 { world = w })
  ]
]

-- The test that the code makes: a descriptor above 0.
abbrev pub opened : Option ℕ → Bool
opened none = false
opened (some n) = ltb 0 n

module _ (md5_signature : List ℕ → List ℕ) (qsort : List Continuum → List Continuum) where
  unfoldable pub fail_server : Option ℕ → Env → ℕ → Proxy → Option Proxy
  fail_server clock env server x =
      Option.map (λ (p : Pool). record x { pool = p })
        (server_failure md5_signature qsort clock env server x.pool)

  -- `server` is the number of the server that owns the connection.
  unfoldable pub server_close :
      Option ℕ
      → Env
      → ℕ
      → Protocol
      → Sys
      → ℕ
      → Proxy
      → Conns
      → Owned
      → Option (Proxy × Conns × Owned)
  unfolding fail_all release fail_server
  server_close clock env server proto sys i x t o =
      let s : Conn = record (t.conn i) { connected = false } in
      if opened s.sd
      then elim (fail_server clock env server x) [
        | none ↦ none
        | some y ↦ let (u, p) = unref i (set_conn i s t) o in some (y, conn_put i u, p)
      ]
      else elim (fail_all proto sys s x) [
        | none ↦ none
        | some (d, y) ↦ elim (fail_server clock env server y) [
          | none ↦ none
          | some z ↦ let (u, p) = release i (set_conn i d t) o in some (z, u, p)
        ]
      ]
