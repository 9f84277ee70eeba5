-- ===== src/Text/Order.antt =====
-- `string_compare` orders the strings that hold no NUL.
use Prim.Native.Nat.{Ordering}
use gfwproxy.Base.{ℕ, ◌<◌, ◌≡◌, refl, ◌↔◌, List, [], ◌∷◌, arith, length, All, subst}
use gfwproxy.Text.{strncmp, string_compare}

abbrev pub NoNul : List ℕ → Type 0
NoNul = All (λ c. 0 < c)

abbrev pub flip : Ordering → Ordering
flip Ordering.lt = Ordering.gt
flip Ordering.eq = Ordering.eq
flip Ordering.gt = Ordering.lt

strncmp-flip : (as' bs : List ℕ) → strncmp bs as' ≡ flip (strncmp as' bs)
unfolding strncmp
strncmp-flip [] [] = refl
strncmp-flip [] (b ∷ bs) = refl
strncmp-flip (a ∷ as') [] = refl
strncmp-flip (a ∷ as') (b ∷ bs) = ground (arith, strncmp-flip as' bs)

eq_of_strncmp :
    (as' bs : List ℕ) → NoNul as' → length as' ≡ length bs → strncmp as' bs ≡ Ordering.eq → as' ≡ bs
unfolding strncmp
eq_of_strncmp [] [] n l h = refl
eq_of_strncmp [] (b ∷ bs) n l h = absurd (omega arith)
eq_of_strncmp (a ∷ as') [] n l h = absurd (omega arith)
eq_of_strncmp (a ∷ as') (b ∷ bs) n l h = ground (arith, eq_of_strncmp as' bs n.1)

strncmp_refl : (as' : List ℕ) → strncmp as' as' ≡ Ordering.eq
unfolding strncmp
strncmp_refl [] = refl
strncmp_refl (a ∷ as') = ground (arith, strncmp_refl as')

-- Two strings without a NUL compare as equal exactly when they hold the same bytes.
pub string_compare_iff :
    (s1 s2 : List ℕ) → NoNul s1 → (string_compare s1 s2 ≡ Ordering.eq) ↔ (s1 ≡ s2)
unfolding string_compare
string_compare_iff s1 s2 n = (
  (λ h. ground (arith, eq_of_strncmp s1 s2 n)),
  (λ e. subst (λ t. string_compare s1 t ≡ Ordering.eq) e (ground (arith, strncmp_refl s1))),
)

-- Swapping the arguments turns the sign round.
pub string_compare-flip : (s1 s2 : List ℕ) → string_compare s2 s1 ≡ flip (string_compare s1 s2)
unfolding string_compare
string_compare-flip s1 s2 = ground (arith, strncmp-flip s1 s2)

strncmp_trans :
    (r s t : List ℕ)
    → strncmp r s ≡ Ordering.lt
    → strncmp s t ≡ Ordering.lt
    → strncmp r t ≡ Ordering.lt
unfolding strncmp
strncmp_trans [] s t h k = absurd (cc)
strncmp_trans (a ∷ r) [] t h k = absurd (cc)
strncmp_trans (a ∷ r) (b ∷ s) [] h k = absurd (cc)
strncmp_trans (a ∷ r) (b ∷ s) (c ∷ t) h k = ground (arith, strncmp_trans r s t)

pub string_compare_trans :
    (r s t : List ℕ)
    → string_compare r s ≡ Ordering.lt
    → string_compare s t ≡ Ordering.lt
    → string_compare r t ≡ Ordering.lt
unfolding string_compare
string_compare_trans r s t h k = ground (arith, strncmp_trans r s t)

pub string_compare_refl : (s : List ℕ) → string_compare s s ≡ Ordering.eq
unfolding string_compare
string_compare_refl s = ground (arith, strncmp_refl s)
