-- ===== src/Conns/Turns.antt =====
-- In which order `server_conn` uses the connections of a server.
use gfwproxy.Base.{
  ℕ, zero, suc, ◌≡◌, refl, sym, ap, ◌∙◌, subst, Bool, false, Option, none, some, List, [], ◌∷◌,
  ◌++◌, append-nil, append_assoc, ltb, length,
}
use gfwproxy.Conns.{Conns, Owned, server_conn}

module _ (alloc resolved : Option ℕ) (server_connections : ℕ) (redis : Bool) (server : ℕ) where
  -- The connections that `k` calls give, and the queue after them.
  abbrev pub turns : ℕ → Conns → Owned → Option (List ℕ × Owned)
  turns zero s o = some ([], o)
  turns (suc k) s o = elim (server_conn alloc resolved server_connections redis server s o) [
    | none ↦ none
    | some (none, t, p) ↦ none
    | some (some c, t, p) ↦ elim (turns k t p) [ none ↦ none | some (cs, r) ↦ some (c ∷ cs, r) ]
  ]

  turn :
      (s : Conns) (n c : ℕ) (q : List ℕ)
      → ltb n server_connections ≡ false
      → server_conn alloc resolved server_connections redis server s
          (record { n_conn_q = n; conn_q = c ∷ q })
        ≡ some (some c, s, record { n_conn_q = n; conn_q = q ++ (c ∷ []) })
  unfolding server_conn
  turn s n c q full = rw full refl

  turns-split :
      (s : Conns) (n : ℕ) (a b : List ℕ)
      → ltb n server_connections ≡ false
      → turns (length a) s (record { n_conn_q = n; conn_q = a ++ b })
        ≡ some (a, record { n_conn_q = n; conn_q = b ++ a })
  turns-split s n [] b full =
      ap (λ q. some ([], record { n_conn_q = n; conn_q = q })) (sym (append-nil b))
  turns-split s n (c ∷ a) b full =
      let step : turns (length a) s (record { n_conn_q = n; conn_q = (a ++ b) ++ (c ∷ []) })
          ≡ some (a, record { n_conn_q = n; conn_q = b ++ (c ∷ a) }) =
        ap (λ q. turns (length a) s (record { n_conn_q = n; conn_q = q }))
          (append_assoc a b (c ∷ []))
        ∙ turns-split s n a (b ++ (c ∷ [])) full
        ∙ ap (λ q. some (a, record { n_conn_q = n; conn_q = q })) (append_assoc b (c ∷ []) a) in
      rw (turn s n c (a ++ b) full, step, turns) refl

  -- With as many connections as a server may have, `server_conn` gives them in turn: as many calls as
  -- there are connections give each of them, in the order of the queue, and leave the queue as it was.
  pub server_conn-turns :
      (s : Conns) (o : Owned)
      → ltb o.n_conn_q server_connections ≡ false
      → turns (length o.conn_q) s o ≡ some (o.conn_q, o)
  server_conn-turns s o full =
      subst (λ q. turns (length o.conn_q) s (record o { conn_q = q }) ≡ some (o.conn_q, o))
        (append-nil o.conn_q) (turns-split s o.n_conn_q o.conn_q [] full)
