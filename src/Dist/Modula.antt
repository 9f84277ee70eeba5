-- ===== src/Dist/Modula.antt =====
-- src/hashkit/gf_modula.c: each live server has as many points as its weight, and a hash picks
-- the point at its remainder.
use gfwproxy.Base.{
  ℕ, ◌+◌, ◌%◌, ◌^◌, ◌<◌, ◌≡◌, refl, ◌∙◌, Bool, true, Option, some, List, arith, length, get_elem?,
  replicate, length-replicate, get_elem?_in,
}
use mathlib.Core.Option
use gfwproxy.Status.{Status, gf_ok}
use gfwproxy.Server.{Continuum, Server, Pool, Env}
use gfwproxy.Dist.{Tally, rebuild, no_tally}
use gfwproxy.Dist.Sweep.{revive, live_count, live_weight, sweep-nlive, sweep-weight}
use gfwproxy.Dist.Fill.{slots, length-slots, Serves, slots-Serves}
use gfwproxy.Dist.Rebuild.{Rebuilt, rebuild-Rebuilt, get_elem?-Rebuilt}
use gfwproxy.Dist.Reserve.{Allocated}

-- The values of one server's points; the loop over `weight_index` writes 0 into each.
abbrev pub modula_points : Tally → Server → List ℕ
modula_points t s = replicate s.weight 0

unfoldable pub modula_update : Env → Pool → Option (Status × Pool)
modula_update = rebuild 1 (λ t. t.total_weight) modula_points (λ cells. cells)

-- `none` is a read outside the allocated cells.
unfoldable pub modula_dispatch : List Continuum → ℕ → ℕ → Option ℕ
modula_dispatch continuum ncontinuum hash =
    Option.map (λ c. c.index) (get_elem? continuum (hash % ncontinuum))

same_weight :
    (auto_eject : Bool) (now : ℕ) (s : Server)
    → length (replicate {A = ℕ} (revive auto_eject now s).weight 0) ≡ s.weight
same_weight auto_eject now s = length-replicate _ 0 ∙ ground arith

module _ (env : Env) (p : Pool) (now : ℕ) (clock : env.now ≡ some now) where
  -- With a clock, memory, a live server and weights that fit a `uint32_t`, `modula_update`
  -- succeeds without a write outside the continuum; the points in use are then those of the live
  -- servers in their order, as many for each as its weight.
  pub modula_update-Rebuilt :
      Allocated 1 p
      → env.has_memory ≡ true
      → live_weight p.auto_eject_hosts now p.server + 10 < 2 ^ 32
      → 0 < live_count p.auto_eject_hosts now p.server
      → (q : Pool) × (modula_update env p ≡ some (gf_ok, q))
        × Rebuilt 1 now (slots (λ s. replicate s.weight 0) p.auto_eject_hosts now 0 q.server) p q
        × (q.ncontinuum ≡ live_weight p.auto_eject_hosts now p.server)
  unfolding modula_update
  modula_update-Rebuilt al mem small live =
      let auto_eject = p.auto_eject_hosts in
      let weight = sweep-weight auto_eject now p.server no_tally (omega arith) in
      let count = sweep-nlive auto_eject now p.server no_tally in
      let slot_count =
        length-slots (λ s. replicate s.weight 0) auto_eject now (λ s. s.weight)
          (same_weight auto_eject now) 0 p.server in
      let (q, run, built) =
        rebuild-Rebuilt 1 (λ t. t.total_weight) modula_points (λ cells. cells) (λ xs. refl) env p
          now clock al mem (omega arith) (omega arith) (omega arith) (omega arith) in
      (q, run, rw built.server built, built.ncontinuum ∙ slot_count)

-- Once the pool is rebuilt, each hash picks a server that is live.
modula_dispatch-Serves :
    (points : Server → List ℕ) {now : ℕ} {p q : Pool} (hash : ℕ)
    → Rebuilt 1 now (slots points p.auto_eject_hosts now 0 q.server) p q
    → 0 < q.ncontinuum
    → (j : ℕ) × (modula_dispatch q.continuum q.ncontinuum hash ≡ some j)
      × Serves p.auto_eject_hosts now 0 q.server j
unfolding modula_dispatch
modula_dispatch-Serves points {now} {p} {q} hash built used =
    let k = hash % q.ncontinuum in
    let all = slots points p.auto_eject_hosts now 0 q.server in
    let inside : k < length all = omega (arith, built.ncontinuum) in
    let (c, got) = get_elem?_in all k inside in
    (
      c.index,
      rw (get_elem?-Rebuilt k built inside ∙ got),
      slots-Serves points p.auto_eject_hosts now 0 q.server k got,
    )

-- With a clock, memory, a live server and weights that fit, an update succeeds, and then each
-- hash picks a live server.
pub modula_update-dispatch :
    (env : Env) (p : Pool) (now hash : ℕ)
    → env.now ≡ some now
    → Allocated 1 p
    → env.has_memory ≡ true
    → live_weight p.auto_eject_hosts now p.server + 10 < 2 ^ 32
    → 0 < live_count p.auto_eject_hosts now p.server
    → 0 < live_weight p.auto_eject_hosts now p.server
    → (q : Pool) × (modula_update env p ≡ some (gf_ok, q))
      × (j : ℕ) × (modula_dispatch q.continuum q.ncontinuum hash ≡ some j)
      × Serves p.auto_eject_hosts now 0 q.server j
modula_update-dispatch env p now hash clock al mem small live heavy =
    let (q, run, built, n) = modula_update-Rebuilt env p now clock al mem small live in
    let (j, picked, serves) =
      modula_dispatch-Serves (λ s. replicate s.weight 0) hash built (omega arith) in
    (q, run, j, picked, serves)
