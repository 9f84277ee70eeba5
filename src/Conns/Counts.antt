-- ===== src/Conns/Counts.antt =====
-- The counters of src/gf_connection.c along any run, and which connections are handed out.
use gfwproxy.Base.{
  ℕ, ◌+◌, ◌%◌, ◌^◌, ◌≡◌, refl, sym, ap, ◌∙◌, subst, inl, inr, Bool, true, false, Option, some, List,
  [], ◌∷◌, arith, ◌==◌, if◌then◌else◌, ==_iff, Bool-cases, Option-cases, length, some_inj,
}
use gfwproxy.Msg.{mem, Conn, remove}
use gfwproxy.Msg.Send.Order.{Distinct}
use gfwproxy.Conns.{
  Conns, inc32, dec32, conn_init, take_from, take_conn, blanked, marked, blank_conn, conn_get,
  conn_put,
}
use gfwproxy.Conns.Sound.{
  nclients, Sound, inc_count, dec_count, length-remove, nclients-remove, mem-remove, removed,
  Distinct-remove, nclients-same, take_from-Unused, marked-Sound, clash,
}

-- What taking a connection into an owner's queue leaves as it was.
pub record Refs {X : Type 0} (ref : ℕ → Conns → X → Conns × X) : Type 0 where
  pub same_free : (c : ℕ) (s : Conns) (o : X) → (ref c s o).0.free_connq ≡ s.free_connq
  pub same_nfree : (c : ℕ) (s : Conns) (o : X) → (ref c s o).0.nfree_connq ≡ s.nfree_connq
  pub same_curr : (c : ℕ) (s : Conns) (o : X) → (ref c s o).0.ncurr_conn ≡ s.ncurr_conn
  pub same_cconn : (c : ℕ) (s : Conns) (o : X) → (ref c s o).0.ncurr_cconn ≡ s.ncurr_cconn
  pub same_client :
      (c : ℕ) (s : Conns) (o : X) (j : ℕ) → ((ref c s o).0.conn j).client ≡ (s.conn j).client

-- A run of the program, as far as connections are got and put back; `live` are those in use. In
-- between, connections change in any way, but for the mark of a client.
pub data Run : List ℕ → Conns → Type 1 where
  start : (conn : ℕ → Conn) → Run [] (conn_init conn)
  get :
      {X : Type 0} {live : List ℕ} {s : Conns}
      → Run live s
      → (ref : ℕ → Conns → X → Conns × X) → Refs ref
      → (alloc : Option ℕ) (client redis : Bool) (o : X) (c : ℕ) (t : Conns) (p : X)
      → ((k : ℕ) → alloc ≡ some k → (mem k live ≡ false) × (mem k s.free_connq ≡ false))
      → conn_get ref alloc client redis s o ≡ some (c, t, p)
      → Run (c ∷ live) t
  put :
      {live : List ℕ} {s : Conns}
      → Run live s
      → (c : ℕ) → mem c live ≡ true
      → Run (remove c live) (conn_put c s)
  other :
      {live : List ℕ} {s : Conns}
      → Run live s
      → (conn : ℕ → Conn) → ((j : ℕ) → (conn j).client ≡ (s.conn j).client)
      → Run live (record s { conn = conn })

Sound-ref :
    {X : Type 0} (ref : ℕ → Conns → X → Conns × X)
    → Refs ref
    → (live : List ℕ) (c : ℕ) (s : Conns) (o : X) → Sound live s
    → Sound live (ref c s o).0
Sound-ref ref keeps live c s o sound = record {
  count_free =
      keeps.same_nfree c s o
      ∙ sound.count_free
      ∙ ap (λ q. length q % 2 ^ 32) (sym (keeps.same_free c s o));
  count_live = keeps.same_curr c s o ∙ sound.count_live;
  count_clients =
      keeps.same_cconn c s o
      ∙ sound.count_clients
      ∙ ap (λ n. n % 2 ^ 32)
          (sym (nclients-same (ref c s o).0.conn s.conn live (λ j i. keeps.same_client c s o j)));
  distinct_live = sound.distinct_live;
  distinct_free = subst Distinct (sym (keeps.same_free c s o)) sound.distinct_free;
  apart = λ j i. sound.apart j (subst (λ q. mem j q ≡ true) (keeps.same_free c s o) i);
}

conn_get-Sound :
    {X : Type 0} (ref : ℕ → Conns → X → Conns × X)
    → Refs ref
    → (alloc : Option ℕ) (client redis : Bool) (live : List ℕ) (s : Conns) (o : X) → Sound live s
    → ((k : ℕ) → alloc ≡ some k → (mem k live ≡ false) × (mem k s.free_connq ≡ false))
    → (r : ℕ × Conns × X) → conn_get ref alloc client redis s o ≡ some r
    → (mem r.0 live ≡ false) × Sound (r.0 ∷ live) r.1
unfolding conn_get blank_conn take_conn
conn_get-Sound {X} ref keeps alloc client redis live s o sound new r =
    elim (Option-cases (take_from alloc s.free_connq s)) [
      | inl e ↦ rw (e, conn_get, blank_conn, take_conn) (λ h. absurd (cc))
      | inr ((c, u), e) ↦
          rw (e, conn_get, blank_conn, take_conn)
            (λ h.
              let n = (take_from-Unused alloc live s c u sound new s.free_connq refl e).1 in
              let v = marked client redis c (blanked c u) in
              subst (λ (t : ℕ × Conns × X). (mem t.0 live ≡ false) × Sound (t.0 ∷ live) t.1)
                (some_inj h)
                (
                  n.not_live,
                  Sound-ref ref keeps (c ∷ live) c v o (marked-Sound live c u client redis n),
                ))
    ]

one_less :
    (b : Bool) (x n k : ℕ)
    → x ≡ n % 2 ^ 32
    → n ≡ (if b then 1 else 0) + k
    → (if b then dec32 x else x) ≡ k % 2 ^ 32
one_less true x n k e f = ap dec32 (e ∙ ap (λ i. i % 2 ^ 32) (f ∙ omega arith)) ∙ dec_count k
one_less false x n k e f = e ∙ ap (λ i. i % 2 ^ 32) (f ∙ omega arith)

not_both :
    (c : ℕ) (live : List ℕ) (s : Conns)
    → Sound live s
    → mem c live ≡ true
    → mem c s.free_connq ≡ false
not_both c live s sound i = elim (Bool-cases (mem c s.free_connq)) [
  | inl e ↦ absurd (clash i (sound.apart c e))
  | inr e ↦ e
]

put_apart :
    (c j : ℕ) (live : List ℕ) (s : Conns)
    → Sound live s
    → mem j (c ∷ s.free_connq) ≡ true
    → mem j (remove c live) ≡ false
put_apart c j live s sound k = elim (Bool-cases (c == j)) [
  | inl e ↦
      subst (λ t. mem t (remove c live) ≡ false) ((==_iff c j).0 e)
        (removed c live sound.distinct_live)
  | inr e ↦ mem-remove j c live (sound.apart j (ground arith))
]

conn_put-Sound :
    (c : ℕ) (live : List ℕ) (s : Conns)
    → mem c live ≡ true
    → Sound live s
    → Sound (remove c live) (conn_put c s)
unfolding conn_put
conn_put-Sound c live s i sound = record {
  count_free = ap inc32 sound.count_free ∙ inc_count (length s.free_connq);
  count_live =
      ap dec32 (sound.count_live ∙ ap (λ n. n % 2 ^ 32) (length-remove c live i))
      ∙ dec_count (length (remove c live));
  count_clients =
      one_less (s.conn c).client s.ncurr_cconn (nclients s.conn live)
        (nclients s.conn (remove c live)) sound.count_clients (nclients-remove s.conn c live i);
  distinct_live = Distinct-remove c live sound.distinct_live;
  distinct_free = (not_both c live s sound i, sound.distinct_free);
  apart = λ j k. put_apart c j live s sound k;
}

-- Along every run the three counters are the numbers of free connections, of connections in use and of
-- clients' connections in use (as `uint32_t`), no connection is in use twice, and none is in use
-- while it is free: `conn_get` never hands out a connection that is in use.
pub Run-Sound : {live : List ℕ} {s : Conns} → Run live s → Sound live s
unfolding conn_init
Run-Sound (start conn) = record {
  count_free = refl;
  count_live = refl;
  count_clients = refl;
  distinct_live = tt;
  distinct_free = tt;
  apart = λ j i. refl;
}
Run-Sound (get {X} {live} {s} run ref keeps alloc client redis o c t p new e) =
    (conn_get-Sound ref keeps alloc client redis live s o (Run-Sound run) new (c, t, p) e).1
Run-Sound (put {live} {s} run c i) = conn_put-Sound c live s i (Run-Sound run)
Run-Sound (other {live} {s} run conn same) =
    let sound = Run-Sound run in
    record {
      count_free = sound.count_free;
      count_live = sound.count_live;
      count_clients =
          sound.count_clients
          ∙ ap (λ n. n % 2 ^ 32) (sym (nclients-same conn s.conn live (λ j i. same j)));
      distinct_live = sound.distinct_live;
      distinct_free = sound.distinct_free;
      apart = sound.apart;
    }
