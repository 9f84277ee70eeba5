-- ===== src/Stats/Run.antt =====
-- Runs of the two threads of src/gf_stats.c, as sequences of their steps.
use gfwproxy.Base.{
  ℕ, ◌+◌, ◌-◌, ◌%◌, ◌^◌, ◌<◌, ◌≡◌, refl, ap, ap₂, ◌∙◌, inl, inr, Bool, true, false, not, ◌&&◌, some,
  List, [], ◌∷◌, arith, if◌then◌else◌, Bool-cases,
}
use mathlib.Core.Option
use gfwproxy.Stats.{
  StatsType, counter, gauge, timestamp, Metric, StatsPool, Stats, stats_metric_init, add_metric,
  stats_aggregate, stats_swap, Slot, touch, stats_incr_by, stats_decr_by, stats_incr, stats_decr,
  stats_set_ts,
}
use gfwproxy.Stats.Slots.{
  metric_at, same_slot, both, metric_at-aggregate, metric_at-reset, metric_at-to_metric,
}

-- What the main thread counts, its swap, and the aggregator's step.
pub data Act : Type 0 where
  incr decr : Slot → Act
  incr_by decr_by set_ts : Slot → ℕ → Act
  swap_step aggregate_step : Act

unfoldable pub step : Act → Stats → Stats
step (incr slot) = stats_incr slot
step (decr slot) = stats_decr slot
step (incr_by slot val) = stats_incr_by slot val
step (decr_by slot val) = stats_decr_by slot val
step (set_ts slot val) = stats_set_ts slot val
step swap_step = stats_swap
step aggregate_step = stats_aggregate

unfoldable pub run : List Act → Stats → Stats
unfolding step
run [] st = st
run (a ∷ acts) st = run acts (step a st)

-- What a step adds to the metric of a slot, as a 64-bit pattern.
abbrev pub change : Slot → Act → ℕ
change t (incr slot) = if same_slot slot t then 1 else 0
change t (decr slot) = if same_slot slot t then 2 ^ 64 - 1 else 0
change t (incr_by slot val) = if same_slot slot t then val else 0
change t (decr_by slot val) = if same_slot slot t then 2 ^ 64 - val % 2 ^ 64 else 0
change t _ = 0

abbrev pub changes : Slot → List Act → ℕ
changes t [] = 0
changes t (a ∷ acts) = change t a + changes t acts

-- No time is written to the slot.
abbrev pub is_counted : Slot → List Act → Bool
is_counted t [] = true
is_counted t (set_ts slot val ∷ acts) = not (same_slot slot t) && is_counted t acts
is_counted t (_ ∷ acts) = is_counted t acts

abbrev pub is_count : StatsType → Bool
is_count timestamp = false
is_count _ = true

abbrev pub of_type : StatsType → ℕ → Metric
of_type k v = record { type = k; value = v }

abbrev pub pending : Bool → ℕ → ℕ
pending true b = b
pending false b = 0

-- The slot holds `n` in all: in the sum, in the shadow while it waits, and in the current counts.
pub record Holds (t : Slot) (k : StatsType) (n : ℕ) (st : Stats) : Type 0 where
  pub c : ℕ
  pub b : ℕ
  pub u : ℕ
  pub in_current : metric_at st.current t ≡ some (of_type k c)
  pub in_shadow : metric_at st.shadow t ≡ some (of_type k b)
  pub in_sum : metric_at st.sum t ≡ some (of_type k u)
  pub total : (u + pending st.aggregate b + c) % 2 ^ 64 ≡ n % 2 ^ 64
  pub fresh : c ≡ (if st.updated then c else 0)
  pub fits : u < 2 ^ 64

add_metric_lem :
    (k : StatsType) (u b : ℕ)
    → is_count k ≡ true
    → add_metric (of_type k u) (of_type k b) ≡ of_type k ((u + b) % 2 ^ 64)
unfolding add_metric
add_metric_lem counter u b h = refl
add_metric_lem gauge u b h = refl
add_metric_lem timestamp u b h = absurd (cc)

module _ (t : Slot) (k : StatsType) (counts : is_count k ≡ true) where
  pub Holds-aggregate :
      (n : ℕ) (cu sh su : List StatsPool) (a up : Bool)
      → let st : Stats = record {
        current = cu;
        shadow = sh;
        sum = su;
        aggregate = a;
        updated = up;
      } in
        Holds t k n st → Holds t k n (stats_aggregate st)
  unfolding stats_aggregate
  Holds-aggregate n cu sh su false up h = h
  Holds-aggregate n cu sh su true up h = record {
    c = h.c;
    b = h.b;
    u = (h.u + h.b) % 2 ^ 64;
    in_current = h.in_current;
    in_shadow = h.in_shadow;
    in_sum =
        metric_at-aggregate su sh t
        ∙ ap₂ (both add_metric) h.in_sum h.in_shadow
        ∙ ap some (add_metric_lem k h.u h.b counts);
    total = omega (arith, h.total);
    fresh = h.fresh;
    fits = omega arith;
  }

  pub Holds-swap :
      (n : ℕ) (cu sh su : List StatsPool) (a up : Bool)
      → let st : Stats = record {
        current = cu;
        shadow = sh;
        sum = su;
        aggregate = a;
        updated = up;
      } in
        Holds t k n st → Holds t k n (stats_swap st)
  unfolding stats_swap
  Holds-swap n cu sh su true up h = h
  Holds-swap n cu sh su false false h = h
  Holds-swap n cu sh su false true h = record {
    c = 0;
    b = h.c;
    u = h.u;
    in_current =
        metric_at-reset sh t
        ∙ (unfold stats_metric_init in ap (Option.map stats_metric_init) h.in_shadow);
    in_shadow = h.in_current;
    in_sum = h.in_sum;
    total = omega (arith, h.total);
    fresh = refl;
    fits = h.fits;
  }

  -- A change of the current metric of another slot.
  Holds-other :
      (n : ℕ) (slot : Slot) (g : Metric → Metric) (st : Stats)
      → same_slot slot t ≡ false
      → Holds t k n st
      → Holds t k n (touch slot g st)
  unfolding touch
  Holds-other n slot g st other h = record {
    c = h.c;
    b = h.b;
    u = h.u;
    in_current =
        metric_at-to_metric slot t g st.current
        ∙ ap (λ b. if b then Option.map g (metric_at st.current t) else metric_at st.current t)
            other
        ∙ h.in_current;
    in_shadow = h.in_shadow;
    in_sum = h.in_sum;
    total = h.total;
    fresh = refl;
    fits = h.fits;
  }

  -- A change of the current metric of the slot.
  Holds-same :
      (n : ℕ) (slot : Slot) (g : Metric → Metric) (d : ℕ) (st : Stats)
      → ((c : ℕ) → (c' : ℕ) × (g (of_type k c) ≡ of_type k c') × (c' % 2 ^ 64 ≡ (c + d) % 2 ^ 64))
      → same_slot slot t ≡ true
      → Holds t k n st
      → Holds t k (n + d) (touch slot g st)
  unfolding touch
  Holds-same n slot g d st adds same h =
      let (c', made, sum) = adds h.c in
      record {
        c = c';
        b = h.b;
        u = h.u;
        in_current =
            metric_at-to_metric slot t g st.current
            ∙ ap (λ b. if b then Option.map g (metric_at st.current t) else metric_at st.current t)
                same
            ∙ ap (Option.map g) h.in_current
            ∙ ap some made;
        in_shadow = h.in_shadow;
        in_sum = h.in_sum;
        total = omega (arith, h.total, sum);
        fresh = refl;
        fits = h.fits;
      }

  Holds-touch :
      (n : ℕ) (slot : Slot) (g : Metric → Metric) (d : ℕ) (st : Stats)
      → ((c : ℕ) → (c' : ℕ) × (g (of_type k c) ≡ of_type k c') × (c' % 2 ^ 64 ≡ (c + d) % 2 ^ 64))
      → Holds t k n st
      → Holds t k (n + (if same_slot slot t then d else 0)) (touch slot g st)
  Holds-touch n slot g d st adds h = elim (Bool-cases (same_slot slot t)) [
    | inl same ↦ rw same (Holds-same n slot g d st adds same h)
    | inr other ↦ let e : n + 0 ≡ n = omega arith in rw (other, e) (Holds-other n slot g st other h)
  ]

  Holds-step :
      (n : ℕ) (a : Act) (st : Stats)
      → is_counted t (a ∷ []) ≡ true
      → Holds t k n st
      → Holds t k (n + change t a) (step a st)
  unfolding step stats_incr stats_decr stats_incr_by stats_decr_by stats_set_ts
  Holds-step n (incr slot) st q h =
      Holds-touch n slot _ 1 st (λ c. ((c + 1) % 2 ^ 64, refl, omega arith)) h
  Holds-step n (incr_by slot val) st q h =
      Holds-touch n slot _ val st (λ c. ((c + val) % 2 ^ 64, refl, omega arith)) h
  Holds-step n (decr slot) st q h =
      Holds-touch n slot _ (2 ^ 64 - 1) st (λ c. ((c + (2 ^ 64 - 1)) % 2 ^ 64, refl, omega arith)) h
  Holds-step n (decr_by slot val) st q h =
      Holds-touch n slot _ (2 ^ 64 - val % 2 ^ 64) st
        (λ c. ((c + (2 ^ 64 - val % 2 ^ 64)) % 2 ^ 64, refl, omega arith)) h
  Holds-step n (set_ts slot val) st q h =
      let e : n + 0 ≡ n = omega arith in rw e (Holds-other n slot _ st (ground arith) h)
  Holds-step n swap_step st q h =
      let e : n + 0 ≡ n = omega arith in
      rw e (Holds-swap n st.current st.shadow st.sum st.aggregate st.updated h)
  Holds-step n aggregate_step st q h =
      let e : n + 0 ≡ n = omega arith in
      rw e (Holds-aggregate n st.current st.shadow st.sum st.aggregate st.updated h)

  is_counted_cons :
      (a : Act) (acts : List Act)
      → is_counted t (a ∷ acts) ≡ true
      → (is_counted t (a ∷ []) ≡ true) × (is_counted t acts ≡ true)
  is_counted_cons (incr slot) acts q = (refl, q)
  is_counted_cons (incr_by slot val) acts q = (refl, q)
  is_counted_cons (decr slot) acts q = (refl, q)
  is_counted_cons (decr_by slot val) acts q = (refl, q)
  is_counted_cons (set_ts slot val) acts q = (ground arith, ground arith)
  is_counted_cons swap_step acts q = (refl, q)
  is_counted_cons aggregate_step acts q = (refl, q)

  pub Holds-run :
      (n : ℕ) (acts : List Act) (st : Stats)
      → is_counted t acts ≡ true
      → Holds t k n st
      → Holds t k (n + changes t acts) (run acts st)
  unfolding run
  Holds-run n [] st q h = let e : n + 0 ≡ n = omega arith in rw e h
  Holds-run n (a ∷ acts) st q h =
      let (first, rest) = is_counted_cons a acts q in
      let e : n + (change t a + changes t acts) ≡ n + change t a + changes t acts = omega arith in
      rw e (Holds-run (n + change t a) acts (step a st) rest (Holds-step n a st first h))
