-- ===== src/Array/Each.antt =====
-- `array_each` against a walk along the list of the elements.
use gfwproxy.Base.{
  ℕ, zero, suc, ◌+◌, ◌≡◌, refl, sym, ap, ◌∙◌, List, [], ◌∷◌, ◌++◌, append-nil, append_assoc, arith,
}
use gfwproxy.Status.{Status, gf_ok, gf_error, gf_eagain, gf_enomem}
use gfwproxy.Array.{Array, on_ok, each_loop, array_each}
use gfwproxy.Array.Stack.{prefix, elements}

-- The function on each element, until it fails.
abbrev pub walk : {A S : Type 0} → (A → S → Status × S) → List A → S → Status × S
walk func [] s = (gf_ok, s)
walk func (x ∷ xs) s = on_ok (func x s) (λ t. walk func xs t)

-- The elements from an index on.
abbrev from : {A : Type 0} → ℕ → ℕ → (ℕ → A) → List A
from zero i f = []
from (suc count) i f = f i ∷ from count (suc i) f

from-prefix :
    {A : Type 0} (n count : ℕ) (f : ℕ → A) → prefix n f ++ from count n f ≡ prefix (n + count) f
from-prefix n zero f =
    let e : n ≡ n + 0 = omega arith in append-nil (prefix n f) ∙ ap (λ k. prefix k f) e
from-prefix n (suc count) f =
    let e : suc n + count ≡ n + suc count = omega arith in
    sym (append_assoc (prefix n f) (f n ∷ []) (from count (suc n) f))
    ∙ from-prefix (suc n) count f
    ∙ ap (λ k. prefix k f) e

on_ok-same :
    {S : Type 0} (r : Status × S) (f g : S → Status × S)
    → ((t : S) → f t ≡ g t)
    → on_ok r f ≡ on_ok r g
on_ok-same (gf_ok, t) f g h = h t
on_ok-same (gf_error, t) f g h = refl
on_ok-same (gf_eagain, t) f g h = refl
on_ok-same (gf_enomem, t) f g h = refl

each_loop-walk :
    {A S : Type 0} (func : A → S → Status × S) (count i : ℕ) (a : Array A) (s : S)
    → each_loop func count i a s ≡ walk func (from count i a.elem) s
each_loop-walk func zero i a s = refl
each_loop-walk func (suc count) i a s =
    on_ok-same (func (a.elem i) s) (λ t. each_loop func count (suc i) a t)
      (λ t. walk func (from count (suc i) a.elem) t) (λ t. each_loop-walk func count (suc i) a t)

-- `array_each` is the walk along the elements that stops at the first failure, and returns its status.
pub array_each-walk :
    {A S : Type 0} (func : A → S → Status × S) (a : Array A) (s : S)
    → array_each func a s ≡ walk func (elements a) s
unfolding array_each
array_each-walk func a s =
    let e : 0 + a.nelem ≡ a.nelem = omega arith in
    each_loop-walk func a.nelem 0 a s
    ∙ ap (λ xs. walk func xs s) (from-prefix 0 a.nelem a.elem ∙ ap (λ n. prefix n a.elem) e)
