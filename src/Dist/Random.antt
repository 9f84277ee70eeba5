-- ===== src/Dist/Random.antt =====
-- src/hashkit/gf_random.c: each live server has one point, and a random number picks among them.
use gfwproxy.Base.{
  ℕ, ◌+◌, ◌%◌, ◌^◌, ◌<◌, ◌≡◌, refl, ◌∙◌, true, Option, some, List, [], ◌∷◌, arith, length,
  get_elem?, get_elem?_in,
}
use mathlib.Core.Option
use gfwproxy.Status.{Status, gf_ok}
use gfwproxy.Server.{Server, Continuum, Pool, Env}
use gfwproxy.Dist.{Tally, rebuild, no_tally}
use gfwproxy.Dist.Sweep.{live_count, sweep-nlive}
use gfwproxy.Dist.Fill.{slots, length-slots, Serves, slots-Serves}
use gfwproxy.Dist.Rebuild.{Rebuilt, rebuild-Rebuilt, get_elem?-Rebuilt}
use gfwproxy.Dist.Reserve.{Allocated}

-- One server's points: a single one, of value 0.
abbrev pub random_points : Tally → Server → List ℕ
random_points t s = 0 ∷ []

unfoldable pub random_update : Env → Pool → Option (Status × Pool)
random_update = rebuild 1 (λ t. t.nlive_server) random_points (λ cells. cells)

-- `draw` is what `random` of the C library returns; the hash is not used. `none` is a read outside
-- the allocated cells.
unfoldable pub random_dispatch : ℕ → List Continuum → ℕ → ℕ → Option ℕ
random_dispatch draw continuum ncontinuum hash =
    Option.map (λ c. c.index) (get_elem? continuum (draw % ncontinuum))

module _ (env : Env) (p : Pool) (now : ℕ) (clock : env.now ≡ some now) where
  -- With a clock, memory and a live server, and fewer than 2^32 - 10 of them, `random_update`
  -- succeeds without a write outside the continuum; the points in use are then one for each live
  -- server, in their order.
  pub random_update-Rebuilt :
      Allocated 1 p
      → env.has_memory ≡ true
      → live_count p.auto_eject_hosts now p.server + 10 < 2 ^ 32
      → 0 < live_count p.auto_eject_hosts now p.server
      → (q : Pool) × (random_update env p ≡ some (gf_ok, q))
        × Rebuilt 1 now (slots (λ s. 0 ∷ []) p.auto_eject_hosts now 0 q.server) p q
        × (q.ncontinuum ≡ live_count p.auto_eject_hosts now p.server)
  unfolding random_update
  random_update-Rebuilt al mem small live =
      let auto_eject = p.auto_eject_hosts in
      let count = sweep-nlive auto_eject now p.server no_tally in
      let slot_count = length-slots (λ s. 0 ∷ []) auto_eject now (λ s. 1) (λ s. refl) 0 p.server in
      let (q, run, built) =
        rebuild-Rebuilt 1 (λ t. t.nlive_server) random_points (λ cells. cells) (λ xs. refl) env p
          now clock al mem (omega arith) (omega arith) (omega arith) (omega arith) in
      (q, run, rw built.server built, built.ncontinuum ∙ slot_count)

-- With a clock, memory and a live server, an update succeeds, and then each draw picks a live
-- server.
pub random_update-dispatch :
    (env : Env) (p : Pool) (now draw hash : ℕ)
    → env.now ≡ some now
    → Allocated 1 p
    → env.has_memory ≡ true
    → live_count p.auto_eject_hosts now p.server + 10 < 2 ^ 32
    → 0 < live_count p.auto_eject_hosts now p.server
    → (q : Pool) × (random_update env p ≡ some (gf_ok, q))
      × (j : ℕ) × (random_dispatch draw q.continuum q.ncontinuum hash ≡ some j)
      × Serves p.auto_eject_hosts now 0 q.server j
unfolding random_dispatch
random_update-dispatch env p now draw hash clock al mem small live =
    let (q, run, built, n) = random_update-Rebuilt env p now clock al mem small live in
    let k = draw % q.ncontinuum in
    let all = slots (λ s. 0 ∷ []) p.auto_eject_hosts now 0 q.server in
    let inside : k < length all = omega (arith, built.ncontinuum) in
    let (c, got) = get_elem?_in all k inside in
    (
      q,
      run,
      c.index,
      rw (get_elem?-Rebuilt k built inside ∙ got),
      slots-Serves (λ s. 0 ∷ []) p.auto_eject_hosts now 0 q.server k got,
    )
