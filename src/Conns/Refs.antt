-- ===== src/Conns/Refs.antt =====
-- `server_ref` and `client_ref` take a connection into a queue, and leave the counters as they are.
use gfwproxy.Base.{
  ℕ, ◌≡◌, refl, sym, ap, ◌∙◌, inl, inr, true, Option, none, some, ◌==◌, ==_iff, Bool-cases,
}
use gfwproxy.Msg.{Conn}
use gfwproxy.Conns.{Conns, set_conn, server_ref, client_ref}
use gfwproxy.Conns.Counts.{Refs}

set_conn-client :
    (c : ℕ) (v : Conn) (s : Conns)
    → v.client ≡ (s.conn c).client
    → (j : ℕ) → ((set_conn c v s).conn j).client ≡ (s.conn j).client
set_conn-client c v s h j = elim (Bool-cases (j == c)) [
  | inl e ↦ rw e (h ∙ ap (λ i. (s.conn i).client) (sym ((==_iff j c).0 e)))
  | inr e ↦ rw e refl
]

pub client_ref-Refs : (pool : ℕ) → Refs (client_ref pool)
unfolding client_ref
client_ref-Refs pool = record {
  same_free = λ c s o. refl;
  same_nfree = λ c s o. refl;
  same_curr = λ c s o. refl;
  same_cconn = λ c s o. refl;
  same_client = λ c s o. set_conn-client c (record (s.conn c) { owner = some pool }) s refl;
}

pub server_ref-Refs : (resolved : Option ℕ) (server : ℕ) → Refs (server_ref resolved server)
unfolding server_ref
server_ref-Refs none server = record {
  same_free = λ c s o. refl;
  same_nfree = λ c s o. refl;
  same_curr = λ c s o. refl;
  same_cconn = λ c s o. refl;
  same_client = λ c s o. set_conn-client c (record (s.conn c) { owner = some server }) s refl;
}
server_ref-Refs (some e) server = record {
  same_free = λ c s o. refl;
  same_nfree = λ c s o. refl;
  same_curr = λ c s o. refl;
  same_cconn = λ c s o. refl;
  same_client = λ c s o.
      set_conn-client c (record (s.conn c) { err = e; done = true; owner = some server }) s refl;
}
