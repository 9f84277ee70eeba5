-- ===== src/Dist/Reserve.antt =====
-- What the growth of the continuum keeps, and that it makes room.
use gfwproxy.Base.{
  ℕ, zero, suc, ◌+◌, ◌-◌, ◌*◌, ◌%◌, ◌^◌, ◌≤◌, ◌<◌, ◌≡◌, refl, ap, inl, inr, true, some, List, arith,
  ltb, Bool-cases, length, take, length-append, length-take,
}
use gfwproxy.Server.{Continuum, Pool, Env}
use gfwproxy.Dist.{fresh, resize, reserve}

length-fresh : (stale : ℕ → Continuum) (from count : ℕ) → length (fresh stale from count) ≡ count
unfolding fresh
length-fresh stale from zero = refl
length-fresh stale from (suc count) = ap suc (length-fresh stale (from + 1) count)

length-resize :
    (stale : ℕ → Continuum) (n : ℕ) (cells : List Continuum) → length (resize stale n cells) ≡ n
unfolding resize
length-resize stale n cells = omega (
  arith,
  length-append (take n cells) (fresh stale (length cells) (n - length cells)),
  length-take n cells,
  length-fresh stale (length cells) (n - length cells),
)

-- As many cells are allocated as `nserver_continuum` stands for.
abbrev pub Allocated : ℕ → Pool → Type 0
Allocated per_server p = length p.continuum ≡ p.nserver_continuum * per_server

-- What a growth leaves alone, and that it makes room for what is needed.
pub record Reserved (per_server need : ℕ) (p r : Pool) : Type 0 where
  pub allocated : Allocated per_server r
  pub room : need ≤ r.nserver_continuum
  pub server : r.server ≡ p.server
  pub auto_eject_hosts : r.auto_eject_hosts ≡ p.auto_eject_hosts
  pub nlive_server : r.nlive_server ≡ p.nlive_server
  pub next_rebuild : r.next_rebuild ≡ p.next_rebuild

pub reserve-Reserved :
    (per_server : ℕ) (env : Env) (need : ℕ) (p : Pool)
    → Allocated per_server p
    → env.has_memory ≡ true
    → (need + 10) * per_server < 2 ^ 32
    → need + 10 < 2 ^ 32
    → (r : Pool) × (reserve per_server env need p ≡ some r) × Reserved per_server need p r
unfolding reserve
reserve-Reserved per_server env need p al mem small small' =
    elim (Bool-cases (ltb p.nserver_continuum need)) [
      | inl grow ↦
          let e : (need + 10) % 2 ^ 32 ≡ need + 10 = omega arith in
          let f : (need + 10) * per_server % 2 ^ 32 ≡ (need + 10) * per_server = omega arith in
          (
            record p {
              continuum = resize env.stale ((need + 10) % 2 ^ 32 * per_server % 2 ^ 32) p.continuum;
              nserver_continuum = (need + 10) % 2 ^ 32;
            },
            rw (grow, mem),
            record {
              allocated =
                  rw (e, f) (length-resize env.stale ((need + 10) * per_server) p.continuum);
              room = omega arith;
              server = refl;
              auto_eject_hosts = refl;
              nlive_server = refl;
              next_rebuild = refl;
            },
          )
      | inr fits ↦ (
        p,
        rw fits,
        record {
          allocated = al;
          room = ground arith;
          server = refl;
          auto_eject_hosts = refl;
          nlive_server = refl;
          next_rebuild = refl;
        },
      )
    ]

pub reserve-server :
    (per_server : ℕ) (env : Env) (need : ℕ) (p r : Pool)
    → reserve per_server env need p ≡ some r
    → r.server ≡ p.server
unfolding reserve
reserve-server per_server env need p r h = ground arith
