-- ===== src/Stream/Cuts.antt =====
-- Sequences that are cut at a place, and sequences of sequences.
use gfwproxy.Base.{
  ℕ, zero, suc, ◌+◌, ◌-◌, ◌≤◌, ◌≡◌, refl, sym, ap, ◌∙◌, List, [], ◌∷◌, ◌++◌, append_assoc, arith,
  length, take, drop,
}

module _ {A : Type 0} where
  abbrev pub flat : List (List A) → List A
  flat [] = []
  flat (x ∷ xs) = x ++ flat xs

  pub flat-append : (xs ys : List (List A)) → flat (xs ++ ys) ≡ flat xs ++ flat ys
  flat-append [] ys = refl
  flat-append (x ∷ xs) ys =
      ap (λ t. x ++ t) (flat-append xs ys) ∙ sym (append_assoc x (flat xs) (flat ys))

  pub take_past : (xs ys : List A) (k : ℕ) → take (length xs + k) (xs ++ ys) ≡ xs ++ take k ys
  take_past [] ys k = ap (λ n. take n ys) (omega arith)
  take_past (x ∷ xs) ys k =
      let e : suc (length xs) + k ≡ suc (length xs + k) = omega arith in
      ap (λ n. take n (x ∷ xs ++ ys)) e ∙ ap (λ t. x ∷ t) (take_past xs ys k)

  pub take_within : (xs ys : List A) (k : ℕ) → k ≤ length xs → take k (xs ++ ys) ≡ take k xs
  take_within xs ys zero h = refl
  take_within [] ys (suc k) h = absurd (omega arith)
  take_within (x ∷ xs) ys (suc k) h = ap (λ t. x ∷ t) (take_within xs ys k (omega arith))

  pub take-take : (n k : ℕ) (xs : List A) → n ≤ k → take n (take k xs) ≡ take n xs
  take-take zero k xs h = refl
  take-take (suc n) zero xs h = absurd (omega arith)
  take-take (suc n) (suc k) [] h = refl
  take-take (suc n) (suc k) (x ∷ xs) h = ap (λ t. x ∷ t) (take-take n k xs (omega arith))

  pub drop_both :
      (n : ℕ) (xs ys : List A) → drop n (xs ++ ys) ≡ drop n xs ++ drop (n - length xs) ys
  drop_both zero [] ys = refl
  drop_both zero (x ∷ xs) ys =
      let e : 0 ≡ 0 - length (x ∷ xs) = omega arith in ap (λ k. (x ∷ xs) ++ drop k ys) e
  drop_both (suc n) [] ys = let e : suc n ≡ suc n - 0 = omega arith in ap (λ k. drop k ys) e
  drop_both (suc n) (x ∷ xs) ys = drop_both n xs ys ∙ ap (λ k. drop n xs ++ drop k ys) (omega arith)

  pub drop_all : (n : ℕ) (xs : List A) → length xs ≤ n → drop n xs ≡ []
  drop_all zero [] h = refl
  drop_all zero (x ∷ xs) h = absurd (omega arith)
  drop_all (suc n) [] h = refl
  drop_all (suc n) (x ∷ xs) h = drop_all n xs (omega arith)

  pub drop-drop : (a b : ℕ) (xs : List A) → drop b (drop a xs) ≡ drop (a + b) xs
  drop-drop zero b xs = ap (λ n. drop n xs) (omega arith)
  drop-drop (suc a) b [] = drop_all b [] (omega arith) ∙ sym (drop_all (suc a + b) [] (omega arith))
  drop-drop (suc a) b (x ∷ xs) =
      let e : suc (a + b) ≡ suc a + b = omega arith in
      drop-drop a b xs ∙ ap (λ n. drop n (x ∷ xs)) e
