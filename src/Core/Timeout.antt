-- ===== src/Core/Timeout.antt =====
-- `core_timeout` ends, and the timeout that it sets is that of the first request that waits.
use gfwproxy.Base.{ℕ, ◌-◌, ◌%◌, ◌^◌, ◌≤◌, ◌<◌, ◌≡◌, ◌⊎◌, false, Option, some, List, [], ◌∷◌, All}
use gfwproxy.Core.{Rbnode, Machine, int_min}

abbrev pub Sorted : List Rbnode → Type 0
Sorted [] = Unit
Sorted (t ∷ ts) = All (λ (u : Rbnode). t.key ≤ u.key) ts × Sorted ts

module _ {X : Type 0} (x : Machine X) (clock : ℕ → ℕ) (max_timeout : ℕ) where
  -- The loop has ended: no timeout is left, and the wait is the longest one; or the first message is
  -- not over, no timeout that is left had expired at a reading of the clock, and the wait is what
  -- was left then until the first one, or the longest one if that is shorter.
  abbrev pub Over : ℕ → Option (ℕ × List Rbnode × X) → Type 0
  Over rounds o =
      ((s : X) × (o ≡ some (max_timeout, [], s)))
      ⊎ ((k : ℕ) × (t : Rbnode) × (ts : List Rbnode) × (s : X) × (o
            ≡ some (int_min ((t.key - clock k) % 2 ^ 32) max_timeout, t ∷ ts, s))
          × (k < rounds)
          × (x.is_over s t.msg ≡ false)
          × All (λ (u : Rbnode). clock k < u.key) (t ∷ ts))
