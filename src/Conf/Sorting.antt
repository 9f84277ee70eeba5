-- ===== src/Conf/Sorting.antt =====
-- A sort that does what is asked of the C library's `qsort` in src/gf_conf.c.
use gfwproxy.Base.{ℕ, ◌≡◌, refl, sym, subst, ◌≢◌, ◌⊎◌, inl, inr, List, [], ◌∷◌}
use Prim.Native.Nat.{Ordering}
use mathlib.Core.List.{Permᴰ}
use gfwproxy.Text.{string_compare}
use gfwproxy.Text.Order.{string_compare-flip}
use gfwproxy.Conf.Validate.{Sort}
use gfwproxy.Conf.Valid.{Ordered, Sorts}

module _ {ℓ} {A : Type ℓ} (key : A → List ℕ) where
  abbrev order : A → A → Ordering
  order a b = string_compare (key a) (key b)

  abbrev pub put : Ordering → A → A → List A → List A → List A
  put Ordering.gt x y ys rest = y ∷ rest
  put Ordering.lt x y ys rest = x ∷ y ∷ ys
  put Ordering.eq x y ys rest = x ∷ y ∷ ys

  unfoldable pub place : A → List A → List A
  place x [] = x ∷ []
  place x (y ∷ ys) = put (string_compare (key x) (key y)) x y ys (place x ys)

  unfoldable pub insertion_sort : List A → List A
  insertion_sort [] = []
  insertion_sort (x ∷ xs) = place x (insertion_sort xs)

  Ordering-cases : (o : Ordering) → (o ≡ Ordering.gt) ⊎ (o ≢ Ordering.gt)
  Ordering-cases Ordering.gt = inl refl
  Ordering-cases Ordering.lt = inr (λ e. absurd (cc))
  Ordering-cases Ordering.eq = inr (λ e. absurd (cc))

  below : (a b : A) → order a b ≡ Ordering.gt → order b a ≢ Ordering.gt
  below a b h e = absurd (cc (string_compare-flip (key a) (key b), h, e))

  same : (xs : List A) → Permᴰ xs xs
  same [] = Permᴰ.nil
  same (x ∷ xs) = Permᴰ.cons refl (same xs)

  put-Permᴰ :
      (o : Ordering) (x y : A) (ys rest : List A)
      → Permᴰ (x ∷ ys) rest
      → Permᴰ (x ∷ y ∷ ys) (put o x y ys rest)
  put-Permᴰ Ordering.gt x y ys rest p = Permᴰ.trans (Permᴰ.swap refl refl) (Permᴰ.cons refl p)
  put-Permᴰ Ordering.lt x y ys rest p = same (x ∷ y ∷ ys)
  put-Permᴰ Ordering.eq x y ys rest p = same (x ∷ y ∷ ys)

  place-Permᴰ : (x : A) (ys : List A) → Permᴰ (x ∷ ys) (place x ys)
  unfolding place
  place-Permᴰ x [] = same (x ∷ [])
  place-Permᴰ x (y ∷ ys) =
      put-Permᴰ (string_compare (key x) (key y)) x y ys (place x ys) (place-Permᴰ x ys)

  pub insertion_sort-Permᴰ : (xs : List A) → Permᴰ xs (insertion_sort xs)
  unfolding insertion_sort
  insertion_sort-Permᴰ [] = Permᴰ.nil
  insertion_sort-Permᴰ (x ∷ xs) =
      Permᴰ.trans (Permᴰ.cons refl (insertion_sort-Permᴰ xs)) (place-Permᴰ x (insertion_sort xs))

  put_not_gt :
      (o : Ordering) (x y : A) (ys rest : List A) → o ≢ Ordering.gt → put o x y ys rest ≡ x ∷ y ∷ ys
  put_not_gt Ordering.gt x y ys rest h = absurd (h refl)
  put_not_gt Ordering.lt x y ys rest h = refl
  put_not_gt Ordering.eq x y ys rest h = refl

  -- What is placed behind `z`.
  place_behind :
      (x z : A) (ys : List A)
      → order z x ≢ Ordering.gt
      → Ordered order (z ∷ ys)
      → Ordered order (z ∷ place x ys)
  unfolding place
  place_behind x z [] h o = (h, tt)
  place_behind x z (y ∷ ys) h (le, o) = elim (Ordering-cases (string_compare (key x) (key y))) [
    | inl gt ↦
        subst (λ t. Ordered order (z ∷ put t x y ys (place x ys))) (sym gt)
          (le, place_behind x y ys (below x y gt) o)
    | inr ng ↦
        subst (λ t. Ordered order (z ∷ t))
          (sym (put_not_gt (string_compare (key x) (key y)) x y ys (place x ys) ng)) (h, (ng, o))
  ]

  place-Ordered : (x : A) (ys : List A) → Ordered order ys → Ordered order (place x ys)
  unfolding place
  place-Ordered x [] o = tt
  place-Ordered x (y ∷ ys) o = elim (Ordering-cases (string_compare (key x) (key y))) [
    | inl gt ↦
        subst (λ t. Ordered order (put t x y ys (place x ys))) (sym gt)
          (place_behind x y ys (below x y gt) o)
    | inr ng ↦
        subst (Ordered order)
          (sym (put_not_gt (string_compare (key x) (key y)) x y ys (place x ys) ng)) (ng, o)
  ]

  pub insertion_sort-Ordered : (xs : List A) → Ordered order (insertion_sort xs)
  unfolding insertion_sort
  insertion_sort-Ordered [] = tt
  insertion_sort-Ordered (x ∷ xs) = place-Ordered x (insertion_sort xs) (insertion_sort-Ordered xs)

abbrev pub sorting : Sort
sorting = record {
  by_server_name = insertion_sort (λ s. s.name);
  by_listen = insertion_sort (λ p. p.listen.pname);
  by_pool_name = insertion_sort (λ p. p.name);
}

pub sorting-Sorts : Sorts sorting
sorting-Sorts = record {
  servers_kept = insertion_sort-Permᴰ (λ s. s.name);
  servers_ordered = insertion_sort-Ordered (λ s. s.name);
  listens_kept = insertion_sort-Permᴰ (λ p. p.listen.pname);
  listens_ordered = insertion_sort-Ordered (λ p. p.listen.pname);
  names_kept = insertion_sort-Permᴰ (λ p. p.name);
  names_ordered = insertion_sort-Ordered (λ p. p.name);
}
