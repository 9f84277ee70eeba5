-- ===== src/Base/Lists.antt =====
-- Lists measured and indexed by native numbers, under the library's names.
use Prim.Native.Nat.{ℕ, zero, suc, ◌+◌, ◌-◌, ◌<◌, min}
use mathlib.Core.Path.{◌≡◌, refl, sym, ap, ◌∙◌}
use mathlib.Core.List.{List, [], ◌∷◌, ◌++◌, map}
use mathlib.Core.Option.{Option, none, some}
use native.Mathlib.Omega.{arith}

pub some_inj {ℓ} : {A : Type ℓ} {a b : A} → some a ≡ some b → a ≡ b
some_inj h = cc

abbrev pub then_do {ℓ κ} : {A : Type ℓ} {B : Type κ} → Option A → (A → Option B) → Option B
then_do none f = none
then_do (some a) f = f a

module _ {ℓ} {A : Type ℓ} where
  abbrev pub length : List A → ℕ
  length [] = 0
  length (x ∷ xs) = suc (length xs)

  abbrev pub get_elem? : List A → ℕ → Option A
  get_elem? [] i = none
  get_elem? (x ∷ xs) zero = some x
  get_elem? (x ∷ xs) (suc i) = get_elem? xs i

  -- A write out of bounds changes nothing.
  abbrev pub set : List A → ℕ → A → List A
  set [] i v = []
  set (x ∷ xs) zero v = v ∷ xs
  set (x ∷ xs) (suc i) v = x ∷ set xs i v

  abbrev pub take : ℕ → List A → List A
  take zero xs = []
  take (suc n) [] = []
  take (suc n) (x ∷ xs) = x ∷ take n xs

  abbrev pub drop : ℕ → List A → List A
  drop zero xs = xs
  drop (suc n) [] = []
  drop (suc n) (x ∷ xs) = drop n xs

  abbrev pub replicate : ℕ → A → List A
  replicate zero a = []
  replicate (suc n) a = a ∷ replicate n a

  pub length-append : (xs ys : List A) → length (xs ++ ys) ≡ length xs + length ys
  length-append [] ys = omega arith
  length-append (x ∷ xs) ys = omega (arith, length-append xs ys)

  pub length-set : (xs : List A) (i : ℕ) (v : A) → length (set xs i v) ≡ length xs
  length-set [] i v = refl
  length-set (x ∷ xs) zero v = refl
  length-set (x ∷ xs) (suc i) v = ap suc (length-set xs i v)

  pub take-append-drop : (n : ℕ) (xs : List A) → take n xs ++ drop n xs ≡ xs
  take-append-drop zero xs = refl
  take-append-drop (suc n) [] = refl
  take-append-drop (suc n) (x ∷ xs) = rw (take-append-drop n xs)

  pub length-take : (n : ℕ) (xs : List A) → length (take n xs) ≡ min n (length xs)
  length-take zero xs = omega arith
  length-take (suc n) [] = omega arith
  length-take (suc n) (x ∷ xs) = omega (arith, length-take n xs)

  pub length-drop : (n : ℕ) (xs : List A) → length (drop n xs) ≡ length xs - n
  length-drop zero xs = omega arith
  length-drop (suc n) [] = omega arith
  length-drop (suc n) (x ∷ xs) = omega (arith, length-drop n xs)

  pub length-replicate : (n : ℕ) (a : A) → length (replicate n a) ≡ n
  length-replicate zero a = refl
  length-replicate (suc n) a = ap suc (length-replicate n a)

  pub take_all : (n : ℕ) (xs : List A) → length xs < suc n → take n xs ≡ xs
  take_all zero [] h = refl
  take_all zero (x ∷ xs) h = absurd (omega arith)
  take_all (suc n) [] h = refl
  take_all (suc n) (x ∷ xs) h = ap (λ t. x ∷ t) (take_all n xs (omega arith))

  pub take-append : (xs ys : List A) → take (length xs) (xs ++ ys) ≡ xs
  take-append [] ys = refl
  take-append (x ∷ xs) ys = ap (λ t. x ∷ t) (take-append xs ys)

  pub drop-append : (xs ys : List A) → drop (length xs) (xs ++ ys) ≡ ys
  drop-append [] ys = refl
  drop-append (x ∷ xs) ys = drop-append xs ys

-- A predicate that holds of every element; it computes to a tuple.
abbrev pub All {ℓ κ} : {A : Type ℓ} → (A → Type κ) → List A → Type κ
All P [] = Unit
All P (x ∷ xs) = P x × All P xs

module _ {ℓ} {A : Type ℓ} where
  pub get_elem?-append_left :
      (xs ys : List A) (k : ℕ) → k < length xs → get_elem? (xs ++ ys) k ≡ get_elem? xs k
  get_elem?-append_left [] ys k h = absurd (omega arith)
  get_elem?-append_left (x ∷ xs) ys zero h = refl
  get_elem?-append_left (x ∷ xs) ys (suc k) h = get_elem?-append_left xs ys k (omega arith)

  pub get_elem?-append_right :
      (xs ys : List A) (k : ℕ)
      → length xs < suc k
      → get_elem? (xs ++ ys) k ≡ get_elem? ys (k - length xs)
  get_elem?-append_right [] ys k h = ap (get_elem? ys) (omega arith)
  get_elem?-append_right (x ∷ xs) ys zero h = absurd (omega arith)
  get_elem?-append_right (x ∷ xs) ys (suc k) h =
      get_elem?-append_right xs ys k (omega arith) ∙ ap (get_elem? ys) (omega arith)

  pub get_elem?_in : (xs : List A) (k : ℕ) → k < length xs → (a : A) × (get_elem? xs k ≡ some a)
  get_elem?_in [] k h = absurd (omega arith)
  get_elem?_in (x ∷ xs) zero h = (x, refl)
  get_elem?_in (x ∷ xs) (suc k) h = get_elem?_in xs k (omega arith)

  pub get_elem?_out : (xs : List A) (k : ℕ) → length xs < suc k → get_elem? xs k ≡ none
  get_elem?_out [] k h = refl
  get_elem?_out (x ∷ xs) zero h = absurd (omega arith)
  get_elem?_out (x ∷ xs) (suc k) h = get_elem?_out xs k (omega arith)

  pub lt_of_get_elem? : (xs : List A) (k : ℕ) {a : A} → get_elem? xs k ≡ some a → k < length xs
  lt_of_get_elem? [] k h = absurd (cc)
  lt_of_get_elem? (x ∷ xs) zero h = omega arith
  lt_of_get_elem? (x ∷ xs) (suc k) h = omega (arith, lt_of_get_elem? xs k h)

  pub get_elem?-take :
      (n : ℕ) (xs : List A) (k : ℕ) → k < n → get_elem? (take n xs) k ≡ get_elem? xs k
  get_elem?-take zero xs k h = absurd (omega arith)
  get_elem?-take (suc n) [] k h = refl
  get_elem?-take (suc n) (x ∷ xs) zero h = refl
  get_elem?-take (suc n) (x ∷ xs) (suc k) h = get_elem?-take n xs k (omega arith)

  pub get_elem?-set :
      (xs : List A) (i : ℕ) (v : A) → i < length xs → get_elem? (set xs i v) i ≡ some v
  get_elem?-set [] i v h = absurd (omega arith)
  get_elem?-set (x ∷ xs) zero v h = refl
  get_elem?-set (x ∷ xs) (suc i) v h = get_elem?-set xs i v (omega arith)

  pub set-set : (xs : List A) (i : ℕ) (u v : A) → set (set xs i u) i v ≡ set xs i v
  set-set [] i u v = refl
  set-set (x ∷ xs) zero u v = refl
  set-set (x ∷ xs) (suc i) u v = ap (λ t. x ∷ t) (set-set xs i u v)

  pub set-same : (xs : List A) (i : ℕ) (v : A) → get_elem? xs i ≡ some v → set xs i v ≡ xs
  set-same [] i v h = refl
  set-same (x ∷ xs) zero v h = ap (λ t. t ∷ xs) (sym (some_inj h))
  set-same (x ∷ xs) (suc i) v h = ap (λ t. x ∷ t) (set-same xs i v h)

module _ {ℓ κ} {A : Type ℓ} {B : Type κ} where
  pub get_elem?-map :
      (f : A → B) (xs : List A) (i : ℕ) {a : A}
      → get_elem? xs i ≡ some a
      → get_elem? (map f xs) i ≡ some (f a)
  get_elem?-map f [] i h = absurd (cc)
  get_elem?-map f (x ∷ xs) zero h = ap some (ap f (some_inj h))
  get_elem?-map f (x ∷ xs) (suc i) h = get_elem?-map f xs i h
