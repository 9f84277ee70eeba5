-- ===== src/Array/Stack.antt =====
-- An array as the list of its elements, with its last element on top.
use gfwproxy.Base.{
  ℕ, zero, suc, ◌+◌, ◌-◌, ◌*◌, ◌%◌, ◌^◌, ◌≤◌, ◌<◌, ◌≡◌, refl, ap, ap₂, ◌∙◌, ◌⊎◌, inl, inr, Bool,
  true, false, none, some, List, [], ◌∷◌, ◌++◌, arith, ltb, ◌==◌, if◌then◌else◌, lt→ltb, ==_iff,
  Bool-cases,
}
use gfwproxy.Array.{Array, grow, next, store, array_push, array_pop, array_top}

wraps : (n m : ℕ) → n < m → m < 2 ^ 32 → (n + 1) % 2 ^ 32 ≡ suc n
wraps n m h k = omega arith

minus_one : (n : ℕ) → suc n - 1 ≡ n
minus_one n = omega arith

module _ {A : Type 0} where
  -- The first elements of the memory.
  abbrev pub prefix : ℕ → (ℕ → A) → List A
  prefix zero f = []
  prefix (suc n) f = prefix n f ++ (f n ∷ [])

  abbrev pub elements : Array A → List A
  elements a = prefix a.nelem a.elem

  prefix-same : (n : ℕ) (f g : ℕ → A) → ((i : ℕ) → i < n → f i ≡ g i) → prefix n f ≡ prefix n g
  prefix-same zero f g h = refl
  prefix-same (suc n) f g h =
      ap₂ (λ xs x. xs ++ (x ∷ [])) (prefix-same n f g (λ i l. h i (omega arith)))
        (h n (omega arith))

  -- The elements have room.
  pub record Valid (a : Array A) : Type 0 where
    pub room : a.nelem ≤ a.nalloc
    pub some_room : 0 < a.nalloc

  -- What a push, and the write of `v` to the place that it gives, do to an array; and that a pop takes
  -- it back.
  pub record Pushed (v : A) (a : Array A) (r : ℕ × Array A) : Type 0 where
    pub valid : Valid (store r.0 v r.1)
    pub inside : r.0 < r.1.nalloc
    pub behind : elements (store r.0 v r.1) ≡ elements a ++ (v ∷ [])
    pub top : array_top (store r.0 v r.1) ≡ v
    pub popped : (array_pop (store r.0 v r.1)).0 ≡ r.0
    pub back : elements (array_pop (store r.0 v r.1)).1 ≡ elements a

  next-Pushed :
      (v : A) (a b : Array A)
      → b.nelem < b.nalloc
      → b.nalloc < 2 ^ 32
      → elements b ≡ elements a
      → Pushed v a (next b)
  next-Pushed v a b h k same =
      let n = b.nelem in
      let f : ℕ → A = λ j. if j == n then v else b.elem j in
      let self : (n == n) ≡ true = ground arith in
      let here : f n ≡ v = rw self refl in
      let below : prefix n f ≡ prefix n b.elem =
        prefix-same n f b.elem (λ i l. let e : (i == n) ≡ false = ground arith in rw e refl) in
      let count : (n + 1) % 2 ^ 32 ≡ suc n = wraps n b.nalloc h k in
      let less : (n + 1) % 2 ^ 32 - 1 ≡ n = ap (λ i. i - 1) count ∙ minus_one n in
      record {
        valid = record { room = omega (arith, count); some_room = omega arith };
        inside = h;
        behind = ap (λ i. prefix i f) count ∙ ap₂ (λ xs x. xs ++ (x ∷ [])) (below ∙ same) here;
        top = ap f less ∙ here;
        popped = less;
        back = ap (λ i. prefix i f) less ∙ below ∙ same;
      }

  grown-elements : (junk : ℕ → A) (a : Array A) → Valid a → elements (grow junk a) ≡ elements a
  grown-elements junk a valid = prefix-same a.nelem (grow junk a).elem a.elem (λ i h.
      let e : ltb i a.nalloc ≡ true = lt→ltb i a.nalloc (omega (arith, valid.room)) in rw e refl)

  doubled : (a : Array A) → a.nalloc < 2 ^ 31 → (a.nalloc * 2) % 2 ^ 32 ≡ a.nalloc * 2
  doubled a h = omega arith

  -- While an array has room for fewer than 2 ^ 31 elements, `array_push` fails exactly if the array is
  -- full and no memory can be had. Else the new element, once it is written, stands behind the others
  -- and on top, in memory that is the array's, and `array_pop` takes it away again.
  pub array_push-Pushed :
      (has_memory : Bool) (junk : ℕ → A) (v : A) (a : Array A)
      → Valid a
      → a.nalloc < 2 ^ 31
      → ((array_push has_memory junk a ≡ none) × (has_memory ≡ false) × (a.nelem ≡ a.nalloc))
        ⊎ ((r : ℕ × Array A) × (array_push has_memory junk a ≡ some r) × Pushed v a r)
  unfolding array_push
  array_push-Pushed has_memory junk v a valid h = elim (Bool-cases (a.nelem == a.nalloc)) [
    | inl full ↦ elim (Bool-cases has_memory) [
      | inr no_memory ↦
          inl (rw (full, no_memory, array_push) refl, no_memory, (==_iff a.nelem a.nalloc).0 full)
      | inl memory ↦
          let d = doubled a h in
          inr (
            next (grow junk a),
            rw (full, memory, array_push) refl,
            next-Pushed v a (grow junk a)
                (omega (arith, d, valid.some_room, (==_iff a.nelem a.nalloc).0 full))
                (omega (arith, d)) (grown-elements junk a valid),
          )
    ]
    | inr fits ↦
        let less : a.nelem < a.nalloc = ground (arith, valid.room) in
        inr (next a, rw (fits, array_push) refl, next-Pushed v a a less (omega arith) refl)
  ]
