-- ===== src/Text/Find.antt =====
-- `_gf_strchr` finds the first occurrence.
use gfwproxy.Base.{
  ℕ, zero, suc, ◌≡◌, refl, inl, inr, true, false, none, some, List, [], ◌∷◌, ◌++◌, arith, ◌==◌,
  Bool-cases, Option-cases, length, get_elem?, take,
}
use gfwproxy.Text.{strchr}

-- In a text that goes on with `c` after a part without it, the search stops right there.
pub strchr-append :
    (a b : List ℕ) (c : ℕ) → strchr a c ≡ none → strchr (a ++ (c ∷ b)) c ≡ some (length a)
unfolding strchr
strchr-append [] b c h = ground arith
strchr-append (x ∷ a) b c h = elim (Bool-cases (x == c)) [
  | inl e ↦ absurd (hit x c a e h)
  | inr ne ↦ rw (ne, strchr-append a b c (missed x c a ne h))
]
  where
    hit : (x c : ℕ) (a : List ℕ) → (x == c) ≡ true → strchr (x ∷ a) c ≡ none → ⊥
    hit x c a e h = ground arith

    missed : (x c : ℕ) (a : List ℕ) → (x == c) ≡ false → strchr (x ∷ a) c ≡ none → strchr a c ≡ none
    missed x c a ne h = ground arith

-- A hit is an offset of `c` in the text, and no earlier byte is `c`.
pub strchr-first :
    (bs : List ℕ) (c i : ℕ)
    → strchr bs c ≡ some i
    → (get_elem? bs i ≡ some c) × (strchr (take i bs) c ≡ none)
unfolding strchr
strchr-first [] c i h = absurd (cc)
strchr-first (b ∷ bs) c i h = elim (Bool-cases (b == c)) [
  | inl e ↦ at_start b bs c i e h
  | inr ne ↦ elim (Option-cases (strchr bs c)) [
    | inl nowhere ↦ absurd (misses b bs c i ne nowhere h)
    | inr (j, found) ↦
        let (got, before) = strchr-first bs c j found in
        let e : i ≡ suc j = later b bs c i j ne found h in rw e (got, rw (ne, before))
  ]
]
  where
    at_start :
        (b : ℕ) (bs : List ℕ) (c i : ℕ)
        → (b == c) ≡ true
        → strchr (b ∷ bs) c ≡ some i
        → (get_elem? (b ∷ bs) i ≡ some c) × (strchr (take i (b ∷ bs)) c ≡ none)
    at_start b bs c zero e h = (ground arith, refl)
    at_start b bs c (suc i) e h = absurd (ground arith)

    misses :
        (b : ℕ) (bs : List ℕ) (c i : ℕ)
        → (b == c) ≡ false
        → strchr bs c ≡ none
        → strchr (b ∷ bs) c ≡ some i
        → ⊥
    misses b bs c i ne nowhere h = ground arith

    later :
        (b : ℕ) (bs : List ℕ) (c i j : ℕ)
        → (b == c) ≡ false
        → strchr bs c ≡ some j
        → strchr (b ∷ bs) c ≡ some i
        → i ≡ suc j
    later b bs c i j ne found h = ground arith
