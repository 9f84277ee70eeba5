-- ===== src/Dist/Ketama/Share.antt =====
-- A server's share of the hashes, in the `float` arithmetic of ketama_update
-- (src/hashkit/gf_ketama.c): a `float` has 24 bits and a `double` has 53, and each operation is
-- rounded to the nearest number, a tie to the even one.
use gfwproxy.Base.{ℕ, zero, suc, ◌+◌, ◌*◌, ◌/◌, ◌%◌, ◌^◌, ◌-◌, leb, ltb, if◌then◌else◌}

-- The number `units` times 2 ^ -scale, which is not negative.
record Float : Type 0 where
  units : ℕ
  scale : ℕ

-- How often `num` is doubled until it reaches `bound`, but at most `rounds` times.
doublings : ℕ → ℕ → ℕ → ℕ
doublings zero num bound = 0
doublings (suc rounds) num bound =
    let rest = doublings rounds (2 * num) bound in if leb bound num then 0 else suc rest

half_even : ℕ → ℕ → ℕ
half_even num den =
    let q = num / den in
    let r = num % den in if ltb (2 * r) den then q else if ltb den (2 * r) then q + 1 else q + q % 2

-- The number of `bits` bits nearest to `num / den`.
rounded : ℕ → ℕ → ℕ → Float
unfolding doublings half_even
rounded bits num den =
    let scale = doublings 128 num (den * 2 ^ (bits - 1)) in
    let unit = 2 ^ doublings 128 (den * 2 ^ bits) (num + 1) in
    record { units = half_even (num * 2 ^ scale) (den * unit) * unit; scale = scale }

-- `(float)` of an integer or of a `double`.
as_float : ℕ → ℕ → Float
unfolding rounded
as_float units scale = rounded 24 units (2 ^ scale)

divided_by : Float → Float → Float
unfolding rounded
divided_by a b = rounded 24 (a.units * 2 ^ b.scale) (b.units * 2 ^ a.scale)

times : Float → Float → Float
unfolding as_float
times a b = as_float (a.units * b.units) (a.scale + b.scale)

-- 0.0000000001 as a `double`.
tiny : Float
unfolding rounded
tiny = rounded 53 1 (10 ^ 10)

plus_tiny : Float → Float
unfolding rounded tiny
plus_tiny a =
    rounded 53 (a.units * 2 ^ tiny.scale + tiny.units * 2 ^ a.scale) (2 ^ (a.scale + tiny.scale))

-- `pct * KETAMA_POINTS_PER_SERVER / 4 * (float)nlive_server`
forty_each : Float → ℕ → Float
unfolding times divided_by as_float
forty_each pct nlive =
    times (divided_by (times pct (as_float 160 0)) (as_float 4 0)) (as_float nlive 0)

-- `pointer_per_server / pointer_per_hash`, for a share below 2 ^ 30 and a total above 0.
unfoldable pub hashes_of : ℕ → ℕ → ℕ → ℕ
unfolding divided_by as_float forty_each plus_tiny
hashes_of weight total nlive =
    let pct = divided_by (as_float weight 0) (as_float total 0) in
    let sum = plus_tiny (forty_each pct nlive) in
    let share = as_float sum.units sum.scale in share.units / 2 ^ share.scale
