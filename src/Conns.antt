-- ===== src/Conns.antt =====
-- src/gf_connection.c: the connections, the queue of free ones and the counters; and what owns a
-- connection: server_ref, server_unref, server_active and server_conn of src/gf_server.c, client_ref
-- and client_unref of src/gf_client.c, proxy_ref and proxy_unref of src/gf_proxy.c. A pointer to a
-- connection is a number. Addresses are left out.
pub mod Sound
pub mod Counts
pub mod Refs
pub mod Turns
pub mod Connect
mod Tests
use gfwproxy.Base.{
  ℕ, zero, suc, ◌+◌, ◌-◌, ◌%◌, ◌^◌, Bool, true, false, not, Option, none, some, List, [], ◌∷◌, ◌++◌,
  map, arith, ltb, ◌==◌, if◌then◌else◌,
}
use mathlib.Core.Option
use gfwproxy.Msg.{Conn, remove}

pub record Conns : Type 0 where
  pub conn : ℕ → Conn
  pub free_connq : List ℕ
  pub nfree_connq : ℕ
  pub ntotal_conn : ℕ
  pub ncurr_conn : ℕ
  pub ncurr_cconn : ℕ

abbrev pub set_conn : ℕ → Conn → Conns → Conns
set_conn c v s = record s { conn = λ j. if j == c then v else s.conn j }

-- The connections of a server (ns_conn_q, s_conn_q), or of the clients of a pool (nc_conn_q, c_conn_q).
pub record Owned : Type 0 where
  pub n_conn_q : ℕ
  pub conn_q : List ℕ

-- The counters are `uint32_t`.
abbrev pub inc32 : ℕ → ℕ
inc32 n = (n + 1) % 2 ^ 32

abbrev pub dec32 : ℕ → ℕ
dec32 n = (n + (2 ^ 32 - 1)) % 2 ^ 32

-- `conn_init`; the counters of connections start at 0.
pub conn_init : (ℕ → Conn) → Conns
conn_init conn = record {
  conn = conn;
  free_connq = [];
  nfree_connq = 0;
  ntotal_conn = 0;
  ncurr_conn = 0;
  ncurr_cconn = 0;
}

-- What `_conn_get` writes into a connection.
abbrev pub no_conn : ℕ → Bool → Conn
no_conn self timed = record {
  self = self;
  imsg_q = [];
  omsg_q = [];
  rmsg = none;
  smsg = none;
  err = 0;
  eof = false;
  done = false;
  connecting = false;
  connected = false;
  send_active = false;
  recv_ready = false;
  send_ready = false;
  recv_bytes = 0;
  send_bytes = 0;
  timed = timed;
  owner = none;
  sd = none;
  client = false;
  proxy = false;
  redis = false;
  authenticated = false;
  recv_active = false;
}

-- The first free connection, or the one that an allocation gives.
abbrev pub take_from : Option ℕ → List ℕ → Conns → Option (ℕ × Conns)
take_from alloc [] s = Option.map (λ c. (c, s)) alloc
take_from alloc (c ∷ q) s = some (c, record s { free_connq = q; nfree_connq = dec32 s.nfree_connq })

unfoldable pub take_conn : Option ℕ → Conns → Option (ℕ × Conns)
take_conn alloc s = take_from alloc s.free_connq s

abbrev pub blanked : ℕ → Conns → Conns
blanked c s =
    let u : Conns = set_conn c (no_conn c (s.conn c).timed) s in
    record u { ntotal_conn = (u.ntotal_conn + 1) % 2 ^ 64; ncurr_conn = inc32 u.ncurr_conn }

-- `_conn_get`.
unfoldable pub blank_conn : Option ℕ → Conns → Option (ℕ × Conns)
unfolding take_conn
blank_conn alloc s = Option.map (λ (r : ℕ × Conns). (r.0, blanked r.0 r.1)) (take_conn alloc s)

abbrev pub marked : Bool → Bool → ℕ → Conns → Conns
marked client redis c s =
    let u : Conns = set_conn c (record (s.conn c) { redis = redis; client = client }) s in
    if client then record u { ncurr_cconn = inc32 u.ncurr_cconn } else u

-- `conn_get`, where `ref` is `client_ref` or `server_ref` with the state of the owner.
unfoldable pub conn_get :
    {X : Type 0}
    → (ℕ → Conns → X → Conns × X)
    → Option ℕ
    → Bool
    → Bool
    → Conns
    → X
    → Option (ℕ × Conns × X)
unfolding blank_conn
conn_get {X} ref alloc client redis s owner =
    Option.map
      (λ (r : ℕ × Conns).
        let t : Conns × X = ref r.0 (marked client redis r.0 r.1) owner in (r.0, t.0, t.1))
      (blank_conn alloc s)

-- `conn_get_proxy`; `ref` is `proxy_ref`.
unfoldable pub conn_get_proxy :
    {X : Type 0}
    → (ℕ → Conns → X → Conns × X)
    → Option ℕ
    → Bool
    → Conns
    → X
    → Option (ℕ × Conns × X)
unfolding blank_conn
conn_get_proxy {X} ref alloc redis s owner =
    Option.map
      (λ (r : ℕ × Conns).
        let u : Conns = set_conn r.0 (record (r.1.conn r.0) { redis = redis; proxy = true }) r.1 in
        let t : Conns × X = ref r.0 u owner in (r.0, t.0, t.1))
      (blank_conn alloc s)

unfoldable pub conn_put : ℕ → Conns → Conns
conn_put c s = record s {
  nfree_connq = inc32 s.nfree_connq;
  free_connq = c ∷ s.free_connq;
  ncurr_cconn = if (s.conn c).client then dec32 s.ncurr_cconn else s.ncurr_cconn;
  ncurr_conn = dec32 s.ncurr_conn;
}

-- The loop of `conn_deinit` over the free connections.
abbrev conn_deinit : List ℕ → Conns → Conns
conn_deinit [] s = s
conn_deinit (c ∷ q) s =
    conn_deinit q (record s { free_connq = q; nfree_connq = dec32 s.nfree_connq })

-- `resolved` is the result of `gf_resolve`: `none`, or what it returns on failure.
unfoldable pub server_ref : Option ℕ → ℕ → ℕ → Conns → Owned → Conns × Owned
server_ref resolved server c s o =
    let v : Conn = elim resolved [
      | none ↦ s.conn c
      | some e ↦ record (s.conn c) { err = e; done = true }
    ] in
    (
      set_conn c (record v { owner = some server }) s,
      record { n_conn_q = inc32 o.n_conn_q; conn_q = o.conn_q ++ (c ∷ []) },
    )

unfoldable pub client_ref : ℕ → ℕ → Conns → Owned → Conns × Owned
client_ref pool c s o = (
  set_conn c (record (s.conn c) { owner = some pool }) s,
  record { n_conn_q = inc32 o.n_conn_q; conn_q = o.conn_q ++ (c ∷ []) },
)

-- `server_unref` and `client_unref`.
unfoldable pub unref : ℕ → Conns → Owned → Conns × Owned
unref c s o = (
  set_conn c (record (s.conn c) { owner = none }) s,
  record { n_conn_q = dec32 o.n_conn_q; conn_q = remove c o.conn_q },
)

-- The state of the pool is its `p_conn`.
abbrev proxy_ref : ℕ → ℕ → Conns → Option ℕ → Conns × Option ℕ
proxy_ref pool c s p_conn = (set_conn c (record (s.conn c) { owner = some pool }) s, some c)

unfoldable pub proxy_unref : ℕ → Conns → Option ℕ → Conns × Option ℕ
proxy_unref c s p_conn = (set_conn c (record (s.conn c) { owner = none }) s, none)

abbrev server_active : Conn → Bool
server_active c = elim c.imsg_q [
  | m ∷ q ↦ true
  | [] ↦ elim c.omsg_q [
    | m ∷ q ↦ true
    | [] ↦ elim c.rmsg [ some m ↦ true | none ↦ elim c.smsg [ some m ↦ true | none ↦ false ] ]
  ]
]

-- The answer is `none` where no connection can be had, and outside that `none` is a use of a NULL
-- pointer: a server that may have no connection.
unfoldable pub server_conn :
    Option ℕ → Option ℕ → ℕ → Bool → ℕ → Conns → Owned → Option (Option ℕ × Conns × Owned)
unfolding conn_get server_ref
server_conn alloc resolved server_connections redis server s o =
    if ltb o.n_conn_q server_connections
    then elim (conn_get (server_ref resolved server) alloc false redis s o) [
      | none ↦ some (none, s, o)
      | some (c, t, p) ↦ some (some c, t, p)
    ]
    else elim o.conn_q [ [] ↦ none | c ∷ q ↦ some (some c, s, record o { conn_q = q ++ (c ∷ []) }) ]

-- `auth` says whether the pool wants a password.
abbrev conn_authenticated : Bool → Conn → Bool
conn_authenticated auth c = if not auth then true else c.authenticated
