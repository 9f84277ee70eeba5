-- ===== src/Conf/Valid.antt =====
-- What the checks of src/gf_conf.c after the parser guarantee.
use gfwproxy.Base.{ℕ, ◌≡◌, sym, subst, ◌≢◌, false, List, [], ◌∷◌, arith, All}
use Prim.Native.Nat.{Ordering}
use mathlib.Core.List.{Permᴰ}
use gfwproxy.Base.Distinct.{Distinct, All_imp}
use gfwproxy.Text.{string_compare}
use gfwproxy.Text.Order.{string_compare_trans, string_compare_refl}
use gfwproxy.Conf.{ConfPool, ConfServer}
use gfwproxy.Conf.Validate.{
  conf_server_name_cmp, conf_pool_name_cmp, conf_pool_listen_cmp, Sort, has_twins,
}

-- No element is greater than the next one.
abbrev pub Ordered {ℓ} : {A : Type ℓ} → (A → A → Ordering) → List A → Type 0
Ordered cmp [] = Unit
Ordered cmp (a ∷ []) = Unit
Ordered cmp (a ∷ (b ∷ rest)) = (cmp a b ≢ Ordering.gt) × Ordered cmp (b ∷ rest)

-- `qsort` permutes an array so that it is ordered.
pub record Sorts (sort : Sort) : Type 0 where
  pub servers_kept : (a : List ConfServer) → Permᴰ a (sort.by_server_name a)
  pub servers_ordered : (a : List ConfServer) → Ordered conf_server_name_cmp (sort.by_server_name a)
  pub listens_kept : (a : List ConfPool) → Permᴰ a (sort.by_listen a)
  pub listens_ordered : (a : List ConfPool) → Ordered conf_pool_listen_cmp (sort.by_listen a)
  pub names_kept : (a : List ConfPool) → Permᴰ a (sort.by_pool_name a)
  pub names_ordered : (a : List ConfPool) → Ordered conf_pool_name_cmp (sort.by_pool_name a)

module _ {ℓ} {A : Type ℓ} (key : A → List ℕ) where
  abbrev cmp : A → A → Ordering
  cmp a b = string_compare (key a) (key b)

  abbrev Above : A → A → Type 0
  Above a b = cmp a b ≡ Ordering.lt

  ascending :
      (a : A) (xs : List A)
      → Ordered cmp (a ∷ xs)
      → has_twins cmp (a ∷ xs) ≡ false
      → All (Above a) xs
  ascending a [] o t = tt
  ascending a (b ∷ xs) (le, o) t =
      let lt : Above a b = ground arith in
      let rest : has_twins cmp (b ∷ xs) ≡ false = ground arith in
      (
        lt,
        All_imp (Above b) (Above a) xs (λ c k. string_compare_trans (key a) (key b) (key c) lt k)
            (ascending b xs o rest),
      )

  Above-ne : (a b : A) → Above a b → key a ≢ key b
  Above-ne a b lt e =
      let same : string_compare (key a) (key a) ≡ Ordering.lt =
        subst (λ k. string_compare (key a) k ≡ Ordering.lt) (sym e) lt in
      absurd (cc (same, string_compare_refl (key a)))

  -- In an ordered list in which no two neighbours are equal, all keys differ.
  pub has_twins-Distinct :
      (xs : List A) → Ordered cmp xs → has_twins cmp xs ≡ false → Distinct key xs
  has_twins-Distinct [] o t = tt
  has_twins-Distinct (a ∷ []) o t = (tt, tt)
  has_twins-Distinct (a ∷ (b ∷ xs)) (le, o) t =
      let rest : has_twins cmp (b ∷ xs) ≡ false = ground arith in
      (
        All_imp (Above a) (λ y. key a ≢ key y) (b ∷ xs) (Above-ne a)
            (ascending a (b ∷ xs) (le, o) t),
        has_twins-Distinct (b ∷ xs) o rest,
      )
