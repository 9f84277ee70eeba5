-- ===== src/Dist/Rebuild.antt =====
-- The frame of the three updates: it writes inside the continuum, and the cells in use afterwards
-- are the points of the live servers.
use gfwproxy.Base.{
  ℕ, ◌+◌, ◌*◌, ◌^◌, ◌≤◌, ◌<◌, ◌≡◌, refl, sym, ap, ◌∙◌, subst, ◌≢◌, inl, inr, Bool, true, some, List,
  [], ◌++◌, map, arith, Option-cases, length, get_elem?, take, drop, length-append,
  take-append-drop, length-take, length-drop, take-append, drop-append, get_elem?-take,
}
use gfwproxy.Status.{Status, gf_ok}
use gfwproxy.Server.{Continuum, Server, Pool, Env}
use gfwproxy.Dist.{Tally, no_tally, sweep, reserve, fill, swept, rebuild}
use gfwproxy.Dist.Sweep.{revive, live_count, sweep-nlive, sweep-revive}
use gfwproxy.Dist.Reserve.{Allocated, Reserved, reserve-Reserved, reserve-server}
use gfwproxy.Dist.Fill.{slots, fill-slots}

-- The pool after a successful update at time `now`: the used cells hold `points`.
pub record Rebuilt (per_server now : ℕ) (points : List Continuum) (p q : Pool) : Type 0 where
  pub allocated : Allocated per_server q
  pub server : q.server ≡ map (revive p.auto_eject_hosts now) p.server
  pub auto_eject_hosts : q.auto_eject_hosts ≡ p.auto_eject_hosts
  pub nlive_server : q.nlive_server ≡ live_count p.auto_eject_hosts now p.server
  pub used : take q.ncontinuum q.continuum ≡ points
  pub ncontinuum : q.ncontinuum ≡ length points

-- The pass from the first cell on, over all cells.
fill-all :
    (points : Server → List ℕ) (auto_eject : Bool) (now : ℕ) (ss : List Server)
    (cells : List Continuum)
    → length (slots points auto_eject now 0 ss) ≤ length cells
    → fill points auto_eject now ss 0 0 cells
      ≡ some (
        length (slots points auto_eject now 0 ss),
        slots points auto_eject now 0 ss ++ drop (length (slots points auto_eject now 0 ss)) cells,
      )
fill-all points auto_eject now ss cells h =
    let s = slots points auto_eject now 0 ss in
    let n = length s in
    subst (λ t. fill points auto_eject now ss 0 0 t ≡ some (n, s ++ drop n cells))
      (take-append-drop n cells)
      (fill-slots points auto_eject now ss 0 [] (take n cells) (drop n cells)
          (omega (arith, length-take n cells))
        ∙ ap (λ (k : ℕ). some (k, s ++ drop n cells)) (omega arith))

rebuild_steps :
    (per_server : ℕ) (need : Tally → ℕ) (points : Tally → Server → List ℕ)
    (order : List Continuum → List Continuum) (env : Env) (p : Pool) {now n : ℕ} {r : Pool}
    {cells : List Continuum}
    → env.now ≡ some now
    → (sweep p.auto_eject_hosts now p.server no_tally).1.nlive_server ≢ 0
    → reserve per_server env (need (sweep p.auto_eject_hosts now p.server no_tally).1) (swept now p)
      ≡ some r
    → fill
        (points (sweep p.auto_eject_hosts now p.server no_tally).1)
        r.auto_eject_hosts
        now
        r.server
        0
        0
        r.continuum
      ≡ some (n, cells)
    → rebuild per_server need points order env p
      ≡ some (gf_ok, record r { continuum = order (take n cells) ++ drop n cells; ncontinuum = n })
unfolding rebuild
rebuild_steps per_server need points order env p clock ne er ef =
    rw (clock, rebuild) (ground (arith, er, ef))

mul_mono : (a b c : ℕ) → a ≤ b → a * c ≤ b * c
mul_mono a b c h = grind arith

-- The used cells in their order, and the rest of the continuum as it was.
abbrev placed : List Continuum → Pool → Pool
placed points r = record r {
  continuum = points ++ drop (length points) r.continuum;
  ncontinuum = length points;
}

placed-Rebuilt :
    {per_server need now : ℕ} {p r : Pool} (points : List Continuum)
    → Reserved per_server need (swept now p) r
    → length points ≤ length r.continuum
    → Rebuilt per_server now points p (placed points r)
placed-Rebuilt {now} {p} {r} points kept fits = record {
  allocated = omega (
    arith,
    length-append points (drop (length points) r.continuum),
    length-drop (length points) r.continuum,
    kept.allocated,
  );
  server = kept.server ∙ sweep-revive p.auto_eject_hosts now p.server no_tally;
  auto_eject_hosts = kept.auto_eject_hosts;
  nlive_server =
      kept.nlive_server ∙ sweep-nlive p.auto_eject_hosts now p.server no_tally ∙ omega arith;
  used = take-append points (drop (length points) r.continuum);
  ncontinuum = refl;
}

module _ (per_server : ℕ) (need : Tally → ℕ) (points : Tally → Server → List ℕ)
    (order : List Continuum → List Continuum)
    (order_length : (xs : List Continuum) → length (order xs) ≡ length xs) (env : Env) (p : Pool)
    (now : ℕ) (clock : env.now ≡ some now) where
  abbrev tally : Tally
  tally = (sweep p.auto_eject_hosts now p.server no_tally).1

  abbrev live_slots : List Continuum
  live_slots =
      slots (points tally) p.auto_eject_hosts now 0 (map (revive p.auto_eject_hosts now) p.server)

  pub rebuild-Rebuilt :
      Allocated per_server p
      → env.has_memory ≡ true
      → (need tally + 10) * per_server < 2 ^ 32
      → need tally + 10 < 2 ^ 32
      → tally.nlive_server ≢ 0
      → length live_slots ≤ need tally * per_server
      → (q : Pool) × (rebuild per_server need points order env p ≡ some (gf_ok, q))
        × Rebuilt per_server now (order live_slots) p q
  rebuild-Rebuilt al mem small small' ne fits =
      let (r, er, kept) =
        reserve-Reserved per_server env (need tally) (swept now p) al mem small small' in
      let n = length live_slots in
      let rest = drop n r.continuum in
      let room : n ≤ length r.continuum =
        omega
          (arith, mul_mono (need tally) r.nserver_continuum per_server kept.room, kept.allocated) in
      let revived : r.server ≡ map (revive p.auto_eject_hosts now) p.server =
        kept.server ∙ sweep-revive p.auto_eject_hosts now p.server no_tally in
      let ef =
        fill-all (points tally) p.auto_eject_hosts now
          (map (revive p.auto_eject_hosts now) p.server) r.continuum room in
      let ordered : length (order live_slots) ≡ n = order_length live_slots in
      (
        placed (order live_slots) r,
        rebuild_steps per_server need points order env p {n = n} {cells = live_slots ++ rest} clock
              ne er (rw (revived, kept.auto_eject_hosts) ef)
            ∙ rw (ordered, take-append live_slots rest, drop-append live_slots rest),
        placed-Rebuilt (order live_slots) kept (omega arith),
      )

-- A used cell holds its point.
pub get_elem?-Rebuilt :
    {per_server now : ℕ} {points : List Continuum} {p q : Pool} (k : ℕ)
    → Rebuilt per_server now points p q
    → k < length points
    → get_elem? q.continuum k ≡ get_elem? points k
get_elem?-Rebuilt {q} k built h =
    sym (get_elem?-take q.ncontinuum q.continuum k (omega (arith, built.ncontinuum)))
    ∙ ap (λ l. get_elem? l k) built.used

-- Whatever comes of an update that could read the clock, the servers are the same ones, with the
-- retry time cleared where it has come.
pub rebuild-server :
    (per_server : ℕ) (need : Tally → ℕ) (points : Tally → Server → List ℕ)
    (order : List Continuum → List Continuum) (env : Env) (p q : Pool) (status : Status) (now : ℕ)
    → env.now ≡ some now
    → rebuild per_server need points order env p ≡ some (status, q)
    → q.server ≡ map (revive p.auto_eject_hosts now) p.server
unfolding rebuild
rebuild-server per_server need points order env p q status now clock h =
    let revived = sweep-revive p.auto_eject_hosts now p.server no_tally in
    let t = (sweep p.auto_eject_hosts now p.server no_tally).1 in
    elim (Option-cases (reserve per_server env (need t) (swept now p))) [
      | inl e ↦ ground (arith, clock, h, e, revived)
      | inr (r, e) ↦
          let kept = reserve-server per_server env (need t) (swept now p) r e in
          ground (arith, clock, h, e, revived, kept)
    ]
