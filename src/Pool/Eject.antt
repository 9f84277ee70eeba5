-- ===== src/Pool/Eject.antt =====
-- `server_failure`: when a failing server is ejected, and what that does.
use gfwproxy.Base.{
  ℕ, zero, suc, ◌+◌, ◌-◌, ◌%◌, ◌^◌, ◌≤◌, ◌<◌, ◌≡◌, refl, sym, ap, ◌∙◌, subst, ◌≢◌, Bool, true,
  Option, none, some, List, map, arith, get_elem?, set, lt_of_get_elem?, get_elem?-set, set-set,
  set-same, get_elem?-map, some_inj,
}
use gfwproxy.Status.{Status, gf_ok}
use gfwproxy.Server.{Continuum, Server, Pool, Env, DistType, ketama, modula, random}
use gfwproxy.Dist.Fill.{Serves}
use gfwproxy.Dist.Sweep.{is_live, revive, live_count, live_weight}
use gfwproxy.Dist.Rebuild.{rebuild-server}
use gfwproxy.Dist.Ketama.{ketama_update, ketama_points}
use gfwproxy.Dist.Modula.{modula_update, modula_points, modula_dispatch, modula_update-dispatch}
use gfwproxy.Dist.Reserve.{Allocated}
use gfwproxy.Dist.Random.{random_update, random_points}
use gfwproxy.Pool.{server_pool_run, server_failure}

not_due :
    (auto_eject : Bool) (now : ℕ) (s : Server) → now < s.next_retry → revive auto_eject now s ≡ s
not_due auto_eject now s h = ground arith

module _ (md5_signature : List ℕ → List ℕ) (qsort : List Continuum → List Continuum)
    (env : Env) where
  run_dist : Pool → DistType → Option (Status × Pool)
  run_dist p d = elim d [
    | ketama ↦ ketama_update md5_signature qsort env p
    | modula ↦ modula_update env p
    | random ↦ random_update env p
  ]

  run_dist-server :
      (p q : Pool) (status : Status) {now : ℕ} (d : DistType)
      → env.now ≡ some now
      → run_dist p d ≡ some (status, q)
      → q.server ≡ map (revive p.auto_eject_hosts now) p.server
  unfolding run_dist ketama_update modula_update random_update
  run_dist-server p q status {now} ketama clock h =
      rebuild-server 160 (λ t. t.nlive_server) (ketama_points md5_signature) qsort env p q status
        now clock h
  run_dist-server p q status {now} modula clock h =
      rebuild-server 1 (λ t. t.total_weight) modula_points (λ cells. cells) env p q status now clock
        h
  run_dist-server p q status {now} random clock h =
      rebuild-server 1 (λ t. t.nlive_server) random_points (λ cells. cells) env p q status now clock
        h

  run_by_dist : (p : Pool) → server_pool_run md5_signature qsort env p ≡ run_dist p p.dist_type
  unfolding server_pool_run run_dist
  run_by_dist p = refl

  -- Whatever the outcome of an update that could read the clock, the servers are the same ones,
  -- with the retry time cleared where it has come.
  pub server_pool_run-server :
      (p q : Pool) (status : Status) {now : ℕ}
      → env.now ≡ some now
      → server_pool_run md5_signature qsort env p ≡ some (status, q)
      → q.server ≡ map (revive p.auto_eject_hosts now) p.server
  server_pool_run-server p q status clock h =
      run_dist-server p q status p.dist_type clock (sym (run_by_dist p) ∙ h)

  abbrev ejected : Server → ℕ → Server
  ejected s until = record s { failure_count = 0; next_retry = until }

  module _ (i now : ℕ) (p q : Pool) (s : Server) (at_i : get_elem? p.server i ≡ some s)
      (ejects : p.auto_eject_hosts ≡ true) where
    runs_at_limit :
        (status : Status)
        → p.server_failure_limit ≤ (s.failure_count + 1) % 2 ^ 32
        → server_pool_run md5_signature qsort env
            (record p { server = set p.server i (ejected s (now + p.server_retry_timeout)) })
          ≡ some (status, q)
        → server_failure md5_signature qsort (some now) env i p ≡ some q
    unfolding server_failure
    runs_at_limit status limit run = ground (arith, at_i, ejects, run)

    -- At the limit of failures, where the update of the pool leads to `q` (which it does if it
    -- writes nothing outside the continuum), `server_failure` leads there too; and at no time `t`
    -- before its retry time is the server among those that a distribution serves.
    server_failure-run :
        {now' : ℕ} (status : Status) (t : ℕ)
        → t < now + p.server_retry_timeout
        → env.now ≡ some now'
        → now' < now + p.server_retry_timeout
        → p.server_failure_limit ≤ (s.failure_count + 1) % 2 ^ 32
        → server_pool_run md5_signature qsort env
            (record p { server = set p.server i (ejected s (now + p.server_retry_timeout)) })
          ≡ some (status, q)
        → (server_failure md5_signature qsort (some now) env i p ≡ some q)
          × (get_elem? q.server i ≡ some (ejected s (now + p.server_retry_timeout)))
          × ¬ (Serves true t 0 q.server i)
    server_failure-run {now'} status t before clock early limit run =
        let until = now + p.server_retry_timeout in
        let there : get_elem? q.server i ≡ some (ejected s until) =
          ap (λ l. get_elem? l i) (server_pool_run-server _ q status clock run)
          ∙ get_elem?-map (revive p.auto_eject_hosts now') (set p.server i (ejected s until)) i
              (get_elem?-set p.server i (ejected s until) (lt_of_get_elem? p.server i at_i))
          ∙ ap some (not_due p.auto_eject_hosts now' (ejected s until) early) in
        (
          runs_at_limit status limit run,
          there,
          λ serves.
              let (s', le, got, live) = serves in
              let z : i - 0 ≡ i = omega arith in
              asleep s' (sym there ∙ ap (get_elem? q.server) (sym z) ∙ got) live,
        )
      where
        asleep :
            (s' : Server)
            → some (ejected s (now + p.server_retry_timeout)) ≡ some s'
            → is_live true t s' ≡ true
            → ⊥
        asleep s' e live = ground arith

  module _ (i now : ℕ) (p : Pool) (s : Server) (at_i : get_elem? p.server i ≡ some s)
      (ejects : p.auto_eject_hosts ≡ true) where
    abbrev without : Pool
    without = record p { server = set p.server i (ejected s (now + p.server_retry_timeout)) }

    runs_modula :
        p.dist_type ≡ modula
        → server_pool_run md5_signature qsort env without ≡ modula_update env without
    unfolding run_dist
    runs_modula e = run_by_dist without ∙ ap (run_dist without) e

    -- With the modula distribution, a server that reaches the limit of failures gets no key any more:
    -- with a clock that has not reached its retry time, memory, and another live server, the weights of
    -- all such servers neither 0 nor too many for a `uint32_t`, `server_failure` ejects the server
    -- until that time and writes a continuum from which every hash picks a server that is live, and so
    -- another one.
    pub server_failure-ejects :
        {now' : ℕ}
        → p.dist_type ≡ modula
        → env.now ≡ some now'
        → env.has_memory ≡ true
        → now' < now + p.server_retry_timeout
        → p.server_failure_limit ≤ (s.failure_count + 1) % 2 ^ 32
        → Allocated 1 p
        → live_weight p.auto_eject_hosts now' without.server + 10 < 2 ^ 32
        → 0 < live_count p.auto_eject_hosts now' without.server
        → 0 < live_weight p.auto_eject_hosts now' without.server
        → (q : Pool) × (server_failure md5_signature qsort (some now) env i p ≡ some q)
          × (get_elem? q.server i ≡ some (ejected s (now + p.server_retry_timeout)))
          × ((hash : ℕ)
              → (j : ℕ) × (modula_dispatch q.continuum q.ncontinuum hash ≡ some j)
                × Serves true now' 0 q.server j
                × (j ≢ i))
    server_failure-ejects {now'} dist clock memory early limit al small live heavy =
        let (q, run, _, _, _) =
          modula_update-dispatch env without now' 0 clock al memory small live heavy in
        let (fails, there, out) =
          server_failure-run i now p q s at_i ejects gf_ok now' early clock early limit
            (runs_modula dist ∙ run) in
        (
          q,
          fails,
          there,
          λ hash.
              let (q', run', j, picked, serves) =
                modula_update-dispatch env without now' hash clock al memory small live heavy in
              let same : q' ≡ q = ap (λ r. r.1) (some_inj (sym run' ∙ run)) in
              let serves' : Serves true now' 0 q.server j =
                subst (λ b. Serves b now' 0 q.server j) ejects
                  (subst (λ r. Serves p.auto_eject_hosts now' 0 r.server j) same serves) in
              (
                j,
                subst (λ r. modula_dispatch r.continuum r.ncontinuum hash ≡ some j) same picked,
                serves',
                λ e. out (subst (Serves true now' 0 q.server) e serves'),
              ),
        )

  abbrev counted : ℕ → Server → Pool → ℕ → Pool
  counted i s p n = record p { server = set p.server i (record s { failure_count = n }) }

  -- `n` failures of server `i` in a row.
  abbrev pub failures : ℕ → Option ℕ → ℕ → Pool → Option Pool
  failures zero clock i p = some p
  failures (suc n) clock i p = elim (server_failure md5_signature qsort clock env i p) [
    | none ↦ none
    | some q ↦ failures n clock i q
  ]

  failure_below_limit :
      (clock : Option ℕ) (i : ℕ) (p : Pool) (s : Server)
      → get_elem? p.server i ≡ some s
      → p.auto_eject_hosts ≡ true
      → s.failure_count + 1 < p.server_failure_limit
      → p.server_failure_limit < 2 ^ 32
      → server_failure md5_signature qsort clock env i p
        ≡ some (counted i s p (s.failure_count + 1))
  unfolding server_failure
  failure_below_limit clock i p s at_i ejects below small =
      let e : (s.failure_count + 1) % 2 ^ 32 ≡ s.failure_count + 1 = omega arith in
      ground (arith, at_i, ejects, e)

  -- Failures in a row that stay below the limit are only counted: the pool is the same but for
  -- the count of the server, and its points are as they were.
  pub failures-counted :
      (n : ℕ) (clock : Option ℕ) (i : ℕ) (p : Pool) (s : Server)
      → get_elem? p.server i ≡ some s
      → p.auto_eject_hosts ≡ true
      → s.failure_count + n < p.server_failure_limit
      → p.server_failure_limit < 2 ^ 32
      → failures n clock i p ≡ some (counted i s p (s.failure_count + n))
  failures-counted zero clock i p s at_i ejects below small =
      let e : s.failure_count + 0 ≡ s.failure_count = omega arith in
      rw (e, set-same p.server i s at_i) refl
  failures-counted (suc n) clock i p s at_i ejects below small =
      let q = counted i s p (s.failure_count + 1) in
      let s' = record s { failure_count = s.failure_count + 1 } in
      let e : s.failure_count + 1 + n ≡ s.failure_count + suc n = omega arith in
      rw (failure_below_limit clock i p s at_i ejects (omega arith) small, failures)
        (failures-counted n clock i q s'
            (get_elem?-set p.server i s' (lt_of_get_elem? p.server i at_i)) ejects (omega arith)
            small
          ∙ rw (e, set-set p.server i s' (record s { failure_count = s.failure_count + suc n }))
              refl)
