-- ===== src/Text/Last.antt =====
-- `_gf_strrchr` finds the last occurrence.
use gfwproxy.Base.{
  ℕ, zero, suc, ◌+◌, ◌-◌, ◌≡◌, refl, sym, ap, ◌∙◌, subst, ◌≢◌, inl, inr, true, false, none, some,
  List, [], ◌∷◌, ◌++◌, arith, Option-cases, length, get_elem?, length-append, All,
  get_elem?-append_right, some_inj,
}
use gfwproxy.Text.{strrchr_loop, strrchr, is_digit, safe_utoa}
use gfwproxy.Text.Number.{all_digits, is_number, is_number-safe_utoa}

abbrev pub Without : ℕ → List ℕ → Type 0
Without c = All (λ b. b ≢ c)

of_All {ℓ κ} :
    {A : Type ℓ} (P : A → Type κ) (xs : List A) (i : ℕ) {a : A}
    → All P xs
    → get_elem? xs i ≡ some a
    → P a
of_All P [] i h e = absurd (cc)
of_All P (x ∷ xs) zero (p, h) e = subst P (some_inj e) p
of_All P (x ∷ xs) (suc i) (p, h) e = of_All P xs i h e

-- One step of the search.
strrchr_loop_miss :
    (p : ℕ) (text : List ℕ) (c : ℕ)
    → ((b : ℕ) → get_elem? text p ≡ some b → b ≢ c)
    → strrchr_loop (suc p) text c ≡ strrchr_loop p text c
unfolding strrchr_loop
strrchr_loop_miss p text c h = elim (Option-cases (get_elem? text p)) [
  | inl e ↦ rw (strrchr_loop, e) refl
  | inr (b, e) ↦ rw (strrchr_loop, e) (ground (arith, h b e))
]

strrchr_loop-none : (p : ℕ) (text : List ℕ) (c : ℕ) → Without c text → strrchr_loop p text c ≡ none
strrchr_loop-none zero text c h = unfold strrchr_loop in refl
strrchr_loop-none (suc p) text c h =
    strrchr_loop_miss p text c (λ b e. of_All (λ t. t ≢ c) text p h e)
    ∙ strrchr_loop-none p text c h

pub strrchr-none : (text : List ℕ) (c : ℕ) → Without c text → strrchr text c ≡ none
unfolding strrchr
strrchr-none text c h = strrchr_loop-none (length text) text c h

module _ (before after : List ℕ) (c : ℕ) (h : Without c after) where
  here : get_elem? (before ++ c ∷ after) (length before) ≡ some c
  here =
      let e : length before - length before ≡ 0 = omega arith in
      get_elem?-append_right before (c ∷ after) (length before) (omega arith)
      ∙ ap (get_elem? (c ∷ after)) e

  beyond : (k : ℕ) → get_elem? (before ++ c ∷ after) (suc (length before + k)) ≡ get_elem? after k
  beyond k =
      let e : suc (length before + k) - length before ≡ suc k = omega arith in
      get_elem?-append_right before (c ∷ after) (suc (length before + k)) (omega arith)
      ∙ ap (get_elem? (c ∷ after)) e

  strrchr_loop_last :
      (k : ℕ)
      → strrchr_loop (suc (length before + k)) (before ++ c ∷ after) c ≡ some (length before)
  unfolding strrchr_loop
  strrchr_loop_last zero =
      let e : length before + 0 ≡ length before = omega arith in
      rw e (rw (strrchr_loop, here) (ground arith))
  strrchr_loop_last (suc k) =
      let e : length before + suc k ≡ suc (length before + k) = omega arith in
      rw e (
        strrchr_loop_miss (suc (length before + k)) (before ++ c ∷ after) c
          (λ b found. of_All (λ t. t ≢ c) after k h (sym (beyond k) ∙ found))
        ∙ strrchr_loop_last k)

  pub strrchr_last : strrchr (before ++ c ∷ after) c ≡ some (length before)
  unfolding strrchr
  strrchr_last =
      let e : length (before ++ c ∷ after) ≡ suc (length before + length after) =
        omega (arith, length-append before (c ∷ after)) in
      rw e (strrchr_loop_last (length after))

pub Without-append : (c : ℕ) (xs ys : List ℕ) → Without c xs → Without c ys → Without c (xs ++ ys)
Without-append c [] ys h k = k
Without-append c (x ∷ xs) ys (p, h) k = (p, Without-append c xs ys h k)

Without-all_digits :
    (c : ℕ) (xs : List ℕ) → is_digit c ≡ false → all_digits xs ≡ true → Without c xs
Without-all_digits c [] n h = tt
Without-all_digits c (x ∷ xs) n h =
    let first : is_digit x ≡ true = ground arith in
    let rest : all_digits xs ≡ true = ground arith in
    ((λ e. absurd (cc (ap is_digit e, first, n))), Without-all_digits c xs n rest)

of_is_number : (xs : List ℕ) → is_number xs ≡ true → all_digits xs ≡ true
of_is_number [] h = absurd (cc)
of_is_number (x ∷ xs) h = h

-- A printed number holds nothing but digits.
pub Without-safe_utoa : (c n : ℕ) → is_digit c ≡ false → Without c (safe_utoa 10 n)
Without-safe_utoa c n h =
    Without-all_digits c (safe_utoa 10 n) h (of_is_number (safe_utoa 10 n) (is_number-safe_utoa n))
