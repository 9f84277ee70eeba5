-- ===== src/Conns/Sound.antt =====
-- The counters of the connections, against the connections that are free and in use.
use gfwproxy.Base.{
  ℕ, suc, ◌+◌, ◌%◌, ◌^◌, ◌≡◌, refl, sym, ap, ap₂, ◌∙◌, subst, inl, inr, Bool, true, false, Option,
  some, List, [], ◌∷◌, arith, ◌==◌, if◌then◌else◌, ==_iff, Bool-cases, Option-cases, length,
  some_inj,
}
use gfwproxy.Msg.{mem, Conn, remove}
use gfwproxy.Msg.Send.Order.{Distinct}
use gfwproxy.Conns.{Conns, inc32, dec32, take_from, blanked, marked}

-- The connections in use that are clients'.
abbrev pub nclients : (ℕ → Conn) → List ℕ → ℕ
nclients conn [] = 0
nclients conn (c ∷ live) = (if (conn c).client then 1 else 0) + nclients conn live

pub record Sound (live : List ℕ) (s : Conns) : Type 0 where
  pub count_free : s.nfree_connq ≡ length s.free_connq % 2 ^ 32
  pub count_live : s.ncurr_conn ≡ length live % 2 ^ 32
  pub count_clients : s.ncurr_cconn ≡ nclients s.conn live % 2 ^ 32
  pub distinct_live : Distinct live
  pub distinct_free : Distinct s.free_connq
  pub apart : (j : ℕ) → mem j s.free_connq ≡ true → mem j live ≡ false

pub inc_count : (n : ℕ) → inc32 (n % 2 ^ 32) ≡ suc n % 2 ^ 32
inc_count n = omega arith

pub dec_count : (n : ℕ) → dec32 (suc n % 2 ^ 32) ≡ n % 2 ^ 32
dec_count n = omega arith

pub length-remove : (c : ℕ) (q : List ℕ) → mem c q ≡ true → length q ≡ suc (length (remove c q))
length-remove c [] h = absurd (cc)
length-remove c (x ∷ q) h = ground (arith, length-remove c q)

pub nclients-remove :
    (conn : ℕ → Conn) (c : ℕ) (q : List ℕ)
    → mem c q ≡ true
    → nclients conn q ≡ (if (conn c).client then 1 else 0) + nclients conn (remove c q)
nclients-remove conn c [] h = absurd (cc)
nclients-remove conn c (x ∷ q) h = elim (Bool-cases (x == c)) [
  | inl e ↦
      let same : x ≡ c = (==_iff x c).0 e in
      rw e (ap (λ t. (if (conn t).client then 1 else 0) + nclients conn q) same)
  | inr e ↦ rw e (omega (arith, nclients-remove conn c q (ground arith)))
]

pub mem-remove : (j c : ℕ) (q : List ℕ) → mem j q ≡ false → mem j (remove c q) ≡ false
mem-remove j c [] h = refl
mem-remove j c (x ∷ q) h = ground (arith, mem-remove j c q)

pub removed : (c : ℕ) (q : List ℕ) → Distinct q → mem c (remove c q) ≡ false
removed c [] d = refl
removed c (x ∷ q) d = elim (Bool-cases (x == c)) [
  | inl e ↦ let same : x ≡ c = (==_iff x c).0 e in rw e (subst (λ t. mem t q ≡ false) same d.0)
  | inr e ↦ rw e (rw e (removed c q d.1))
]

pub Distinct-remove : (c : ℕ) (q : List ℕ) → Distinct q → Distinct (remove c q)
Distinct-remove c [] d = tt
Distinct-remove c (x ∷ q) d = elim (Bool-cases (x == c)) [
  | inl e ↦ rw e d.1
  | inr e ↦ rw e (mem-remove x c q d.0, Distinct-remove c q d.1)
]

pub nclients-same :
    (f g : ℕ → Conn) (q : List ℕ)
    → ((j : ℕ) → mem j q ≡ true → (f j).client ≡ (g j).client)
    → nclients f q ≡ nclients g q
nclients-same f g [] h = refl
nclients-same f g (c ∷ q) h =
    ap₂ (λ b n. (if b then 1 else 0) + n) (h c (ground arith))
      (nclients-same f g q (λ j i. h j (ground arith)))

-- A connection that is neither in use nor free.
pub record Unused (live : List ℕ) (c : ℕ) (s : Conns) : Type 0 where
  pub sound : Sound live s
  pub not_live : mem c live ≡ false
  pub not_free : mem c s.free_connq ≡ false

pub in_tail : (x j : ℕ) (q : List ℕ) → mem j q ≡ true → mem j (x ∷ q) ≡ true
in_tail x j q h = ground arith

pub in_head : (x : ℕ) (q : List ℕ) → mem x (x ∷ q) ≡ true
in_head x q = ground arith

module _ (alloc : Option ℕ) (live : List ℕ) (s : Conns) (c : ℕ) (u : Conns) (sound : Sound live s)
    (new : (k : ℕ) → alloc ≡ some k → (mem k live ≡ false) × (mem k s.free_connq ≡ false)) where
  pub take_from-Unused :
      (q : List ℕ)
      → s.free_connq ≡ q
      → take_from alloc q s ≡ some (c, u)
      → (u.conn ≡ s.conn) × Unused live c u
  take_from-Unused [] e = elim (Option-cases alloc) [
    | inl none_left ↦ rw none_left (λ h. absurd (cc))
    | inr (k, got) ↦ rw got (λ h.
        let r : (k, s) ≡ (c, u) = some_inj h in
        subst (λ (t : ℕ × Conns). (t.1.conn ≡ s.conn) × Unused live t.0 t.1) r
          (refl, record { sound = sound; not_live = (new k got).0; not_free = (new k got).1 }))
  ]
  take_from-Unused (x ∷ q) e = λ h.
      let v : Conns = record s { free_connq = q; nfree_connq = dec32 s.nfree_connq } in
      let r : (x, v) ≡ (c, u) = some_inj h in
      let d : Distinct (x ∷ q) = subst Distinct e sound.distinct_free in
      let still : (j : ℕ) → mem j (x ∷ q) ≡ true → mem j live ≡ false =
        λ j i. sound.apart j (subst (λ t. mem j t ≡ true) (sym e) i) in
      let kept : Sound live v = record {
        count_free =
            ap dec32 sound.count_free
            ∙ ap (λ t. dec32 (length t % 2 ^ 32)) e
            ∙ dec_count (length q);
        count_live = sound.count_live;
        count_clients = sound.count_clients;
        distinct_live = sound.distinct_live;
        distinct_free = d.1;
        apart = λ j i. still j (in_tail x j q i);
      } in
      subst (λ (t : ℕ × Conns). (t.1.conn ≡ s.conn) × Unused live t.0 t.1) r
        (refl, record { sound = kept; not_live = still x (in_head x q); not_free = d.0 })

module _ (c : ℕ) (u : Conns) where
  marked-free :
      (client redis : Bool) → (marked client redis c (blanked c u)).free_connq ≡ u.free_connq
  marked-free true redis = refl
  marked-free false redis = refl

  marked-nfree :
      (client redis : Bool) → (marked client redis c (blanked c u)).nfree_connq ≡ u.nfree_connq
  marked-nfree true redis = refl
  marked-nfree false redis = refl

  marked-curr :
      (client redis : Bool) → (marked client redis c (blanked c u)).ncurr_conn ≡ inc32 u.ncurr_conn
  marked-curr true redis = refl
  marked-curr false redis = refl

  marked-cconn :
      (client redis : Bool) (n : ℕ)
      → u.ncurr_cconn ≡ n % 2 ^ 32
      → (marked client redis c (blanked c u)).ncurr_cconn ≡ ((if client then 1 else 0) + n) % 2 ^ 32
  marked-cconn true redis n e = ap inc32 e ∙ inc_count n ∙ ap (λ k. k % 2 ^ 32) (omega arith)
  marked-cconn false redis n e = e ∙ ap (λ k. k % 2 ^ 32) (omega arith)

  marked-client :
      (client redis : Bool) (j : ℕ)
      → ((marked client redis c (blanked c u)).conn j).client
        ≡ (if j == c then client else (u.conn j).client)
  marked-client true redis j = elim (Bool-cases (j == c)) [ inl e ↦ rw e refl | inr e ↦ rw e refl ]
  marked-client false redis j = elim (Bool-cases (j == c)) [ inl e ↦ rw e refl | inr e ↦ rw e refl ]

pub clash : {b : Bool} → b ≡ true → b ≡ false → ⊥
clash e n = cc

pub other_one : (j c : ℕ) (q : List ℕ) → mem j q ≡ true → mem c q ≡ false → (j == c) ≡ false
other_one j c q i n = elim (Bool-cases (j == c)) [
  | inl e ↦
      let same : j ≡ c = (==_iff j c).0 e in absurd (clash (subst (λ t. mem t q ≡ true) same i) n)
  | inr e ↦ e
]

pub beyond :
    (j c : ℕ) (live q : List ℕ)
    → mem c q ≡ false
    → ((j : ℕ) → mem j q ≡ true → mem j live ≡ false)
    → mem j q ≡ true
    → mem j (c ∷ live) ≡ false
beyond j c live q n h i = ground (arith, h j i, other_one j c q i n)

-- A new connection in use.
pub marked-Sound :
    (live : List ℕ) (c : ℕ) (u : Conns) (client redis : Bool)
    → Unused live c u
    → Sound (c ∷ live) (marked client redis c (blanked c u))
marked-Sound live c u client redis n =
    let conn = (marked client redis c (blanked c u)).conn in
    let self : (c == c) ≡ true = ground arith in
    let mine : (conn c).client ≡ client = marked-client c u client redis c ∙ rw self refl in
    let rest : nclients conn live ≡ nclients u.conn live =
      nclients-same conn u.conn live
        (λ j i. marked-client c u client redis j ∙ rw (other_one j c live i n.not_live) refl) in
    record {
      count_free =
          marked-nfree c u client redis
          ∙ n.sound.count_free
          ∙ ap (λ q. length q % 2 ^ 32) (sym (marked-free c u client redis));
      count_live =
          marked-curr c u client redis ∙ ap inc32 n.sound.count_live ∙ inc_count (length live);
      count_clients =
          marked-cconn c u client redis (nclients u.conn live) n.sound.count_clients
          ∙ ap₂ (λ b k. ((if b then 1 else 0) + k) % 2 ^ 32) (sym mine) (sym rest);
      distinct_live = (n.not_live, n.sound.distinct_live);
      distinct_free = subst Distinct (sym (marked-free c u client redis)) n.sound.distinct_free;
      apart = λ j i.
          beyond j c live u.free_connq n.not_free n.sound.apart
            (subst (λ q. mem j q ≡ true) (marked-free c u client redis) i);
    }
