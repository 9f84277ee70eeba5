-- ===== src/Stats/Tests.antt =====
-- A pool with one server, for the witness.
use gfwproxy.Base.{◌≡◌, refl, false, some, List, [], ◌∷◌, ◌++◌}
use gfwproxy.Server.{Pool, modula}
use gfwproxy.Stats.{gauge, Slot, of_pool, of_server, stats_create}
use gfwproxy.Stats.Slots.{metric_at}
use gfwproxy.Stats.Run.{Act, incr, decr, incr_by, swap_step, aggregate_step, run, of_type}
use gfwproxy.Stats.Once.{stats_create_counts}

abbrev pools : List Pool
pools =
    (record {
      server = (record { name = []; weight = 1; next_retry = 0; failure_count = 0 }) ∷ [];
      ncontinuum = 0;
      nserver_continuum = 0;
      continuum = [];
      nlive_server = 0;
      next_rebuild = 0;
      dist_type = modula;
      key_hash = λ key. 0;
      hash_tag = [];
      server_connections = 1;
      server_retry_timeout = 0;
      server_failure_limit = 2;
      auto_eject_hosts = false;
    })
    ∷ []

abbrev connections : Slot
connections = of_server 0 0 3

abbrev acts : List Act
acts =
    incr connections
    ∷ incr (of_pool 0 0)
    ∷ swap_step
    ∷ incr_by connections 5
    ∷ swap_step
    ∷ aggregate_step
    ∷ decr connections
    ∷ swap_step
    ∷ []

stats_create_counts_example :
    metric_at
      (run (acts ++ aggregate_step ∷ swap_step ∷ aggregate_step ∷ []) (stats_create pools)).sum
      connections
    ≡ some (of_type gauge 5)
stats_create_counts_example = stats_create_counts pools connections gauge acts refl refl refl
