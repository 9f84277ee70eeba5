-- ===== src/Stats/Once.antt =====
-- The reports of src/gf_stats.c lose no count and count nothing twice.
use gfwproxy.Base.{
  ℕ, ◌+◌, ◌%◌, ◌^◌, ◌≡◌, refl, sym, ap, ◌∙◌, Bool, true, false, some, List, [], ◌∷◌, ◌++◌, arith,
  if◌then◌else◌,
}
use gfwproxy.Stats.{
  StatsType, StatsPool, Stats, stats_aggregate, stats_swap, Slot, stats_pool_map, stats_create,
}
use gfwproxy.Server.{Pool}
use gfwproxy.Stats.Slots.{metric_at}
use gfwproxy.Stats.Run.{
  Act, swap_step, aggregate_step, step, run, changes, is_counted, is_count, of_type, pending, Holds,
  Holds-aggregate, Holds-swap, Holds-run,
}

module _ (t : Slot) (k : StatsType) (counts : is_count k ≡ true) (n : ℕ) where
  -- With nothing pending, the sum holds everything.
  settled :
      (st : Stats)
      → st.aggregate ≡ false
      → st.updated ≡ false
      → Holds t k n st
      → metric_at st.sum t ≡ some (of_type k (n % 2 ^ 64))
  settled st a up h =
      let none_waits : pending st.aggregate h.b ≡ 0 = ap (λ x. pending x h.b) a in
      let none_current : h.c ≡ 0 = h.fresh ∙ ap (λ x. if x then h.c else 0) up in
      let all : (h.u + 0 + h.c) % 2 ^ 64 ≡ n % 2 ^ 64 =
        ap (λ x. (h.u + x + h.c) % 2 ^ 64) (sym none_waits) ∙ h.total in
      h.in_sum ∙ ap (λ v. some (of_type k v)) (omega (arith, all, none_current, h.fits))

  flush : Stats → Stats
  flush st = stats_aggregate (stats_swap (stats_aggregate st))

  flush_flags :
      (cu sh su : List StatsPool) (a up : Bool)
      → let st : Stats =
          flush (record { current = cu; shadow = sh; sum = su; aggregate = a; updated = up }) in
        (st.aggregate ≡ false) × (st.updated ≡ false)
  unfolding flush stats_aggregate stats_swap
  flush_flags cu sh su false false = (refl, refl)
  flush_flags cu sh su false true = (refl, refl)
  flush_flags cu sh su true false = (refl, refl)
  flush_flags cu sh su true true = (refl, refl)

  aggregated : (st : Stats) → Holds t k n st → Holds t k n (stats_aggregate st)
  aggregated st = Holds-aggregate t k counts n st.current st.shadow st.sum st.aggregate st.updated

  swapped : (st : Stats) → Holds t k n st → Holds t k n (stats_swap st)
  swapped st = Holds-swap t k counts n st.current st.shadow st.sum st.aggregate st.updated

  flushed :
      (st : Stats) → Holds t k n st → metric_at (flush st).sum t ≡ some (of_type k (n % 2 ^ 64))
  flushed st h =
      let (a, up) = flush_flags st.current st.shadow st.sum st.aggregate st.updated in
      settled (flush st) a up
        (unfold flush in aggregated _ (swapped (stats_aggregate st) (aggregated st h)))

run-append : (xs ys : List Act) (st : Stats) → run (xs ++ ys) st ≡ run ys (run xs st)
unfolding run
run-append [] ys st = refl
run-append (x ∷ xs) ys st = run-append xs ys (step x st)

-- Whatever the interleaving of counting, of swaps and of the aggregator, once the aggregator has
-- run, a swap has run, and the aggregator has run again, the sum of a counter or a gauge to which
-- no time is written is what was counted there in all, as a 64-bit pattern.
pub stats_create_counts :
    (server_pool : List Pool) (t : Slot) (k : StatsType) (acts : List Act)
    → is_count k ≡ true
    → metric_at (stats_pool_map server_pool) t ≡ some (of_type k 0)
    → is_counted t acts ≡ true
    → metric_at
        (run
          (acts ++ aggregate_step ∷ swap_step ∷ aggregate_step ∷ [])
          (stats_create server_pool)).sum
        t
      ≡ some (of_type k (changes t acts % 2 ^ 64))
unfolding run step flush
stats_create_counts server_pool t k acts counts zeros counted =
    let start : Holds t k 0 (stats_create server_pool) = record {
      c = 0;
      b = 0;
      u = 0;
      in_current = zeros;
      in_shadow = zeros;
      in_sum = zeros;
      total = refl;
      fresh = refl;
      fits = omega arith;
    } in
    let after = Holds-run t k counts 0 acts (stats_create server_pool) counted start in
    let e : 0 + changes t acts ≡ changes t acts = omega arith in
    ap (λ (st : Stats). metric_at st.sum t) (run-append acts _ (stats_create server_pool))
    ∙ flushed t k counts (0 + changes t acts) (run acts (stats_create server_pool)) after
    ∙ ap (λ v. some (of_type k (v % 2 ^ 64))) e
