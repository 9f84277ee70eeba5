-- ===== src/Pool/Recover.antt =====
-- `server_pool_update`: an ejected server comes back.
use gfwproxy.Base.{
  leb, if◌then◌else◌, ℕ, ◌<◌, ◌≡◌, ap, ◌∙◌, Bool, true, some, List, arith, get_elem?, get_elem?-map,
}
use gfwproxy.Status.{Status}
use gfwproxy.Server.{Continuum, Server, Pool, Env}
use gfwproxy.Dist.Sweep.{revive}
use gfwproxy.Pool.{server_pool_run, server_pool_update}
use gfwproxy.Pool.Eject.{server_pool_run-server}

module _ (md5_signature : List ℕ → List ℕ) (qsort : List Continuum → List Continuum) (env : Env)
    (p q : Pool) where
  update_runs :
      (status : Status) (now : ℕ)
      → p.auto_eject_hosts ≡ true
      → 0 < p.next_rebuild
      → p.next_rebuild < now
      → server_pool_run md5_signature qsort env p ≡ some (status, q)
      → server_pool_update md5_signature qsort (some now) env p ≡ some (status, q)
  unfolding server_pool_update
  update_runs status now ejects waits late run = ground (arith, ejects, run)

  -- Once the time of the next rebuild is over, `server_pool_update` does what the update of the
  -- distribution does (if that writes nothing outside the continuum): a server whose retry time has
  -- come has it cleared, so that it is live from then on, and the others are as they were.
  pub server_pool_update-recovers :
      (status : Status) (now : ℕ) {now' : ℕ} (i : ℕ) (s : Server)
      → p.auto_eject_hosts ≡ true
      → 0 < p.next_rebuild
      → p.next_rebuild < now
      → env.now ≡ some now'
      → get_elem? p.server i ≡ some s
      → server_pool_run md5_signature qsort env p ≡ some (status, q)
      → (server_pool_update md5_signature qsort (some now) env p ≡ some (status, q))
        × (get_elem? q.server i
            ≡ some (if leb s.next_retry now' then record s { next_retry = 0 } else s))
  server_pool_update-recovers status now {now'} i s ejects waits late clock at_i run = (
    update_runs status now ejects waits late run,
    ap (λ l. get_elem? l i) (server_pool_run-server md5_signature qsort env p q status clock run)
        ∙ get_elem?-map (revive p.auto_eject_hosts now') p.server i at_i
        ∙ ap some (with_ejection p.auto_eject_hosts now' ejects),
  )
    where
      with_ejection :
          (auto_eject : Bool) (now : ℕ)
          → auto_eject ≡ true
          → revive auto_eject now s
            ≡ (if leb s.next_retry now then record s { next_retry = 0 } else s)
      with_ejection auto_eject now e = ground arith
