-- ===== src/Dist.antt =====
-- What ketama_update, modula_update and random_update share (src/hashkit/gf_ketama.c, gf_modula.c,
-- gf_random.c): the pass that counts the live servers, the growth of the continuum, and the pass
-- that writes the points of the live servers.
pub mod Sweep
pub mod Fill
pub mod Reserve
pub mod Rebuild
pub mod Ketama
pub mod Ring
pub mod Modula
pub mod Random
mod Tests
use gfwproxy.Base.{
  ℕ, zero, suc, ◌+◌, ◌-◌, ◌*◌, ◌%◌, ◌^◌, Bool, not, ◌&&◌, ◌||◌, Option, none, some, List, [], ◌∷◌,
  ◌++◌, ltb, leb, ◌==◌, if◌then◌else◌, length, set, take, drop,
}
use gfwproxy.Status.{Status, gf_ok, gf_error, gf_enomem}
use gfwproxy.Server.{Continuum, point, Server, Pool, Env}

-- The counters of the first pass.
pub record Tally : Type 0 where
  pub nlive_server : ℕ
  pub total_weight : ℕ
  pub next_rebuild : ℕ

abbrev pub no_tally : Tally
no_tally = record { nlive_server = 0; total_weight = 0; next_rebuild = 0 }

-- The first part of the loop's body: a server whose retry time has come is live again; of the
-- others the earliest retry time is the next rebuild.
pub count_live : Bool → ℕ → Server → Tally → Server × Tally
count_live auto_eject now s t =
    if auto_eject
    then if leb s.next_retry now
      then (record s { next_retry = 0 }, record t { nlive_server = t.nlive_server + 1 })
      else if t.next_rebuild == 0 || ltb s.next_retry t.next_rebuild
      then (s, record t { next_rebuild = s.next_retry })
      else (s, t)
    else (s, record t { nlive_server = t.nlive_server + 1 })

-- The second part, which gf_random.c does not have: the weight of the live servers, in a
-- `uint32_t`.
pub count_weight : Bool → ℕ → Server → Tally → Tally
count_weight auto_eject now s t =
    if not auto_eject || leb s.next_retry now
    then record t { total_weight = (t.total_weight + s.weight) % 2 ^ 32 }
    else t

pub sweep : Bool → ℕ → List Server → Tally → List Server × Tally
unfolding count_live count_weight
sweep auto_eject now [] t = ([], t)
sweep auto_eject now (s ∷ ss) t =
    let (s', u) = count_live auto_eject now s t in
    let (ss', v) = sweep auto_eject now ss (count_weight auto_eject now s' u) in (s' ∷ ss', v)

-- `count` cells of memory that nothing has written, the first with number `from`.
pub fresh : (ℕ → Continuum) → ℕ → ℕ → List Continuum
fresh stale from zero = []
fresh stale from (suc count) = stale from ∷ fresh stale (from + 1) count

-- `gf_realloc` of the continuum to `n` cells: the old ones are kept as far as they fit.
pub resize : (ℕ → Continuum) → ℕ → List Continuum → List Continuum
unfolding fresh
resize stale n cells = take n cells ++ fresh stale (length cells) (n - length cells)

-- The growth of the continuum where `need` exceeds `nserver_continuum`: by 10 servers more than
-- needed, with `per_server` cells for each; `none` is GF_ENOMEM.
pub reserve : ℕ → Env → ℕ → Pool → Option Pool
unfolding resize
reserve per_server env need p =
    if ltb p.nserver_continuum need
    then if env.has_memory
      then some (record p {
        continuum = resize env.stale ((need + 10) % 2 ^ 32 * per_server % 2 ^ 32) p.continuum;
        nserver_continuum = (need + 10) % 2 ^ 32;
      })
      else none
    else some p

-- One server's points, written from `at` on; `none` is a write outside the allocated cells.
pub write_points : ℕ → List ℕ → ℕ → List Continuum → Option (ℕ × List Continuum)
write_points i [] at cells = some (at, cells)
write_points i (v ∷ vs) at cells =
    let rest = write_points i vs (at + 1) (set cells at (point i v)) in
    if ltb at (length cells) then rest else none

-- The second pass: `points s` are the values that the loop's body writes for the live server `s`,
-- `i` is `server_index` and `at` is `continuum_index`.
pub fill :
    (Server → List ℕ)
    → Bool
    → ℕ
    → List Server
    → ℕ
    → ℕ
    → List Continuum
    → Option (ℕ × List Continuum)
unfolding write_points
fill points auto_eject now [] i at cells = some (at, cells)
fill points auto_eject now (s ∷ ss) i at cells =
    if auto_eject && ltb now s.next_retry
    then fill points auto_eject now ss (i + 1) at cells
    else elim (write_points i (points s) at cells) [
      | none ↦ none
      | some (at', cells') ↦ fill points auto_eject now ss (i + 1) at' cells'
    ]

-- The pool after the first pass.
abbrev pub swept : ℕ → Pool → Pool
swept now p =
    let (ss, t) = sweep p.auto_eject_hosts now p.server no_tally in
    record p { server = ss; nlive_server = t.nlive_server; next_rebuild = t.next_rebuild }

-- The frame of the three updates: the cells for each unit, the number of units that the tally
-- asks for, the values that a live server's points get, and what is done to the used cells last.
-- `none` is a write outside the continuum.
pub rebuild :
    ℕ
    → (Tally → ℕ)
    → (Tally → Server → List ℕ)
    → (List Continuum → List Continuum)
    → Env
    → Pool
    → Option (Status × Pool)
rebuild per_server need points order env p = elim env.now [
  | none ↦ some (gf_error, p)
  | some now ↦
      let t = (sweep p.auto_eject_hosts now p.server no_tally).1 in
      let q = swept now p in
      if t.nlive_server == 0 then some (gf_ok, q) else elim (reserve per_server env (need t) q) [
        | none ↦ some (gf_enomem, q)
        | some r ↦ elim (fill (points t) r.auto_eject_hosts now r.server 0 0 r.continuum) [
          | none ↦ none
          | some (n, cells) ↦
              some (
                gf_ok,
                record r { continuum = order (take n cells) ++ drop n cells; ncontinuum = n },
              )
        ]
      ]
]
