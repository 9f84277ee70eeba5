-- ===== src/Array/Tests.antt =====
-- An array of numbers, for the witnesses.
use gfwproxy.Base.{ℕ, ◌+◌, ◌^◌, ◌≡◌, refl, ◌⊎◌, true, false, none, some, ltb→lt, leb→le}
use gfwproxy.Array.{Array, array_push}
use gfwproxy.Array.Stack.{Pushed, array_push-Pushed}

-- It is full, so that a push has it grow.
abbrev numbers : Array ℕ
numbers = record { nelem = 2; elem = λ i. i + 5; nalloc = 2 }

array_push-Pushed_example :
    ((array_push true (λ i. 0) numbers ≡ none) × (true ≡ false) × (numbers.nelem ≡ numbers.nalloc))
    ⊎ ((r : ℕ × Array ℕ) × (array_push true (λ i. 0) numbers ≡ some r) × Pushed 9 numbers r)
array_push-Pushed_example =
    array_push-Pushed true (λ i. 0) 9 numbers
      (record { room = leb→le 2 2 refl; some_room = ltb→lt 0 2 refl }) (ltb→lt 2 (2 ^ 31) refl)
