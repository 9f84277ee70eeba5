-- ===== src/Base/Distinct.antt =====
-- Lists whose elements have different keys, and sorting by a strict order on the keys.
use mathlib.Core.Path.{◌≡◌, refl, sym, ap, ◌∙◌, subst}
use mathlib.Core.Logic.{◌≢◌}
use mathlib.Core.List.{List, [], ◌∷◌}
use native.Mathlib.Omega.{arith}
use gfwproxy.Base.Lists.{All, length}
use mathlib.Core.List.{Permᴰ}

-- No two elements have the same key; it computes to a tuple.
abbrev pub Distinct {ℓ κ} : {A : Type ℓ} {K : Type κ} → (A → K) → List A → Type (ℓ ⊔ κ)
Distinct key [] = Unit
Distinct key (x ∷ xs) = All (λ y. key x ≢ key y) xs × Distinct key xs

module _ {ℓ κ} {A : Type ℓ} (P : A → Type κ) where
  pub All-Permᴰ : {xs ys : List A} → Permᴰ xs ys → All P xs → All P ys
  All-Permᴰ Permᴰ.nil h = h
  All-Permᴰ (Permᴰ.cons e p) (a, h) = (subst P e a, All-Permᴰ p h)
  All-Permᴰ (Permᴰ.swap e f) (a, (b, h)) = (subst P f b, (subst P e a, h))
  All-Permᴰ (Permᴰ.trans p q) h = All-Permᴰ q (All-Permᴰ p h)

pub All_imp {ℓ κ μ} :
    {A : Type ℓ} (P : A → Type κ) (Q : A → Type μ) (xs : List A)
    → ((a : A) → P a → Q a)
    → All P xs
    → All Q xs
All_imp P Q [] f h = tt
All_imp P Q (x ∷ xs) f (a, h) = (f x a, All_imp P Q xs f h)

module _ {ℓ κ} {A : Type ℓ} {K : Type κ} (key : A → K) where
  pub Distinct-Permᴰ : {xs ys : List A} → Permᴰ xs ys → Distinct key xs → Distinct key ys
  Distinct-Permᴰ Permᴰ.nil h = h
  Distinct-Permᴰ (Permᴰ.cons {b = b} {l₂ = l₂} e p) (a, h) =
      let moved = All-Permᴰ (λ y. key _ ≢ key y) p a in
      (subst (λ x. All (λ y. key x ≢ key y) l₂) e moved, Distinct-Permᴰ p h)
  Distinct-Permᴰ (Permᴰ.swap {l = l} e f) ((ab, al), (bl, h)) = (
    ((λ x. ab (ap key e ∙ sym x ∙ sym (ap key f))), subst (λ x. All (λ y. key x ≢ key y) l) f bl),
    (subst (λ x. All (λ y. key x ≢ key y) l) e al, h),
  )
  Distinct-Permᴰ (Permᴰ.trans p q) h = Distinct-Permᴰ q (Distinct-Permᴰ p h)

pub length-Permᴰ {ℓ} : {A : Type ℓ} {xs ys : List A} → Permᴰ xs ys → length xs ≡ length ys
length-Permᴰ Permᴰ.nil = refl
length-Permᴰ (Permᴰ.cons e p) = omega (arith, length-Permᴰ p)
length-Permᴰ (Permᴰ.swap e f) = refl
length-Permᴰ (Permᴰ.trans p q) = length-Permᴰ p ∙ length-Permᴰ q
