-- ===== src/Stats.antt =====
-- The counters of src/gf_stats.c. The main thread counts in `current`; `stats_swap` gives what it
-- counted to the thread of the aggregator as `shadow`, which `stats_aggregate` adds to `sum`. The
-- flags `aggregate` and `updated` keep the threads apart: only the aggregator touches the shadow
-- and the sum while `aggregate` is set, and so each function is one step of a run.
pub mod Slots
pub mod Run
pub mod Once
mod Tests
use gfwproxy.Base.{
  ℕ, zero, suc, ◌+◌, ◌-◌, ◌%◌, ◌^◌, Bool, true, false, not, List, [], ◌∷◌, map, ◌==◌, if◌then◌else◌,
}
use gfwproxy.Server.{Server, Pool}

pub data StatsType : Type 0 where
  counter gauge timestamp : StatsType

-- `value` is the 64-bit pattern of an `int64_t`, of either member of the union.
pub record Metric : Type 0 where
  pub type : StatsType
  pub value : ℕ

-- The metrics of a pool, and those of each of its servers.
pub record StatsPool : Type 0 where
  pub metric : List Metric
  pub server : List (List Metric)

pub record Stats : Type 0 where
  pub current : List StatsPool
  pub shadow : List StatsPool
  pub sum : List StatsPool
  pub aggregate : Bool
  pub updated : Bool

unfoldable pub stats_metric_init : Metric → Metric
stats_metric_init m = record m { value = 0 }

stats_metric_reset : List Metric → List Metric
unfolding stats_metric_init
stats_metric_reset ms = map stats_metric_init ms

unfoldable pub stats_pool_reset : List StatsPool → List StatsPool
unfolding stats_metric_reset
stats_pool_reset ps =
    map
      (λ q. record {
        metric = stats_metric_reset q.metric;
        server = map stats_metric_reset q.server;
      })
      ps

-- A loop over `src` that changes the element of `dst` at each index.
unfoldable pub each_with {ℓ} : {A : Type ℓ} → (A → A → A) → List A → List A → List A
each_with f [] src = []
each_with f (d ∷ dst) [] = d ∷ dst
each_with f (d ∷ dst) (s ∷ src) = f d s ∷ each_with f dst src

-- The `switch` of `stats_aggregate_metric`.
unfoldable pub add_metric : Metric → Metric → Metric
add_metric d s = elim s.type [
  | counter ↦ record d { value = (d.value + s.value) % 2 ^ 64 }
  | gauge ↦ record d { value = (d.value + s.value) % 2 ^ 64 }
  | timestamp ↦ if s.value == 0 then d else record d { value = s.value }
]

unfoldable pub stats_aggregate_metric : List Metric → List Metric → List Metric
unfolding each_with add_metric
stats_aggregate_metric dst src = each_with add_metric dst src

-- The body of the loop of `stats_aggregate`.
unfoldable pub aggregate_pool : StatsPool → StatsPool → StatsPool
unfolding stats_aggregate_metric
aggregate_pool d s = record {
  metric = stats_aggregate_metric d.metric s.metric;
  server = each_with stats_aggregate_metric d.server s.server;
}

unfoldable pub stats_aggregate : Stats → Stats
unfolding aggregate_pool
stats_aggregate st =
    if not st.aggregate
    then st
    else record st { sum = each_with aggregate_pool st.sum st.shadow; aggregate = false }

unfoldable pub stats_swap : Stats → Stats
unfolding stats_pool_reset
stats_swap st = if st.aggregate then st else if not st.updated then st else record st {
  current = stats_pool_reset st.shadow;
  shadow = st.current;
  updated = false;
  aggregate = true;
}

-- The element at an index, changed in place.
unfoldable pub changed_at {ℓ} : {A : Type ℓ} → List A → ℕ → (A → A) → List A
changed_at [] i g = []
changed_at (x ∷ xs) zero g = g x ∷ xs
changed_at (x ∷ xs) (suc i) g = x ∷ changed_at xs i g

-- The metric that `stats_pool_to_metric` or `stats_server_to_metric` finds: its pool, its server
-- and its field.
pub data Slot : Type 0 where
  of_pool : ℕ → ℕ → Slot
  of_server : ℕ → ℕ → ℕ → Slot

unfoldable pub to_metric : Slot → (Metric → Metric) → List StatsPool → List StatsPool
unfolding changed_at
to_metric (of_pool pidx fidx) g ps =
    changed_at ps pidx (λ q. record q { metric = changed_at q.metric fidx g })
to_metric (of_server pidx sidx fidx) g ps =
    changed_at ps pidx
      (λ q. record q { server = changed_at q.server sidx (λ ms. changed_at ms fidx g) })

-- `stats_pool_to_metric` and `stats_server_to_metric`, with what the caller does to the metric.
unfoldable pub touch : Slot → (Metric → Metric) → Stats → Stats
unfolding to_metric
touch slot g st = record st { current = to_metric slot g st.current; updated = true }

-- `_stats_pool_incr_by` and `_stats_server_incr_by`, and so on: the two differ in the slot.
unfoldable pub stats_incr_by : Slot → ℕ → Stats → Stats
unfolding touch
stats_incr_by slot val = touch slot (λ m. record m { value = (m.value + val) % 2 ^ 64 })

unfoldable pub stats_decr_by : Slot → ℕ → Stats → Stats
unfolding touch
stats_decr_by slot val =
    touch slot (λ m. record m { value = (m.value + (2 ^ 64 - val % 2 ^ 64)) % 2 ^ 64 })

unfoldable pub stats_incr : Slot → Stats → Stats
unfolding stats_incr_by
stats_incr slot = stats_incr_by slot 1

unfoldable pub stats_decr : Slot → Stats → Stats
unfolding stats_decr_by
stats_decr slot = stats_decr_by slot 1

unfoldable pub stats_set_ts : Slot → ℕ → Stats → Stats
unfolding touch
stats_set_ts slot val = touch slot (λ m. record m { value = val })

-- `stats_pool_codec` and `stats_server_codec`, by their types.
abbrev stats_pool_codec : List StatsType
stats_pool_codec = counter ∷ counter ∷ gauge ∷ counter ∷ counter ∷ counter ∷ []

abbrev stats_server_codec : List StatsType
stats_server_codec =
    counter ∷ counter ∷ counter ∷ gauge ∷ timestamp ∷ counter ∷ counter ∷ counter ∷ counter ∷ gauge
    ∷ gauge ∷ gauge ∷ gauge ∷ []

-- The metrics of a codec, as they start.
abbrev metrics_of : List StatsType → List Metric
metrics_of codec = map (λ k. record { type = k; value = 0 }) codec

abbrev stats_pool_metric_init : List Metric
stats_pool_metric_init = metrics_of stats_pool_codec

abbrev stats_server_metric_init : List Metric
stats_server_metric_init = metrics_of stats_server_codec

-- `stats_server_map`, with `stats_server_init`.
abbrev stats_server_map : List Server → List (List Metric)
stats_server_map server = map (λ s. stats_server_metric_init) server

-- `stats_pool_init`.
abbrev stats_pool_init : Pool → StatsPool
stats_pool_init sp = record { metric = stats_pool_metric_init; server = stats_server_map sp.server }

abbrev pub stats_pool_map : List Pool → List StatsPool
stats_pool_map server_pool = map stats_pool_init server_pool

-- `stats_create`: the three arrays are built alike.
abbrev pub stats_create : List Pool → Stats
stats_create server_pool = record {
  current = stats_pool_map server_pool;
  shadow = stats_pool_map server_pool;
  sum = stats_pool_map server_pool;
  aggregate = false;
  updated = false;
}
