-- ===== src/Dist/Ketama/Update.antt =====
-- What an update of a ketama ring leads to.
use gfwproxy.Base.{
  ℕ, suc, ◌+◌, ◌*◌, ◌^◌, ◌≤◌, ◌<◌, ◌≡◌, sym, ap, ap₂, ◌∙◌, subst, inl, inr, Bool, true, some, List,
  [], ◌∷◌, map, arith, ltb, Bool-cases, Option-cases, length, get_elem?, length-take, get_elem?_in,
}
use gfwproxy.Status.{gf_ok}
use gfwproxy.Server.{Server, Continuum, Pool, Env}
use gfwproxy.Dist.{no_tally, sweep}
use gfwproxy.Dist.Sweep.{revive, live_total, live_count, live_weight, sweep-nlive, sweep-weight}
use gfwproxy.Dist.Fill.{slots, length-slots, Serves, slots-Serves}
use gfwproxy.Dist.Rebuild.{Rebuilt, rebuild-Rebuilt}
use gfwproxy.Dist.Reserve.{Allocated}
use gfwproxy.Dist.Ring.{ketama_dispatch, Sorted, owner, first_from, ketama_dispatch-owner}
use gfwproxy.Dist.Ketama.{host_points, length-host_points, ketama_points, ketama_update}
use gfwproxy.Dist.Ketama.Share.{hashes_of}

-- `qsort` by `ketama_item_cmp` puts the same points in the order of their values.
pub record Sorts (qsort : List Continuum → List Continuum) : Type 0 where
  pub length_kept : (cells : List Continuum) → length (qsort cells) ≡ length cells
  pub sorted : (cells : List Continuum) → Sorted (qsort cells)
  pub kept :
      (cells : List Continuum) (k : ℕ) (c : Continuum)
      → get_elem? (qsort cells) k ≡ some c
      → (j : ℕ) × (get_elem? cells j ≡ some c)

first_from_in :
    (hash : ℕ) (cells : List Continuum) {c : Continuum}
    → first_from hash cells ≡ some c
    → (k : ℕ) × (get_elem? cells k ≡ some c)
first_from_in hash [] h = absurd (cc)
first_from_in hash (d ∷ cells) {c} h = elim (Bool-cases (ltb d.value hash)) [
  | inl below ↦ let (k, got) = first_from_in hash cells (ground arith) in (suc k, got)
  | inr here ↦ (0, ground arith)
]

-- The owner of a hash is the server of one of the points.
owner_in :
    (hash : ℕ) (cells : List Continuum)
    → 0 < length cells
    → (k : ℕ) × (c : Continuum) × (get_elem? cells k ≡ some c) × (owner hash cells ≡ some c.index)
owner_in hash cells h = elim (Option-cases (first_from hash cells)) [
  | inl none_after ↦
      let (c, got) = get_elem?_in cells 0 h in (0, c, got, rw (none_after, owner) (rw got))
  | inr (c, found) ↦ let (k, got) = first_from_in hash cells found in (k, c, got, rw (found, owner))
]

revive-weight :
    (auto_eject : Bool) (now : ℕ) (s : Server) → (revive auto_eject now s).weight ≡ s.weight
revive-weight auto_eject now s = ground arith

module _ (md5_signature : List ℕ → List ℕ) (qsort : List Continuum → List Continuum)
    (sorts : Sorts qsort) (env : Env) (p : Pool) (now : ℕ) (clock : env.now ≡ some now) where
  abbrev pub total : ℕ
  total = live_weight p.auto_eject_hosts now p.server

  abbrev pub nlive : ℕ
  nlive = live_count p.auto_eject_hosts now p.server

  -- The cells that the servers' shares take.
  abbrev pub share : ℕ
  share = live_total (λ s. 4 * hashes_of s.weight total nlive) p.auto_eject_hosts now p.server

  abbrev pub values : Server → List ℕ
  values s = host_points md5_signature s.name (hashes_of s.weight total nlive) 0

  abbrev pub ring : Pool → List Continuum
  ring q = qsort (slots values p.auto_eject_hosts now 0 q.server)

  -- With a clock, memory, and live servers whose weights fit, `ketama_update` succeeds without a
  -- write outside the continuum; the points in use are those of the live servers in the order of
  -- their values, and there are some.
  ketama_update-Rebuilt :
      Allocated 160 p
      → env.has_memory ≡ true
      → total < 2 ^ 32
      → (nlive + 10) * 160 < 2 ^ 32
      → 0 < nlive
      → 0 < share
      → share ≤ nlive * 160
      → (q : Pool) × (ketama_update md5_signature qsort env p ≡ some (gf_ok, q))
        × Rebuilt 160 now (ring q) p q
        × (0 < q.ncontinuum)
  unfolding ketama_update
  ketama_update-Rebuilt al mem small few live some_share fits =
      let auto_eject = p.auto_eject_hosts in
      let t = (sweep auto_eject now p.server no_tally).1 in
      let weight : t.total_weight ≡ total =
        sweep-weight auto_eject now p.server no_tally (omega arith) ∙ omega arith in
      let count : t.nlive_server ≡ nlive =
        sweep-nlive auto_eject now p.server no_tally ∙ omega arith in
      let same : ketama_points md5_signature t ≡ values =
        ap₂ (λ a b s. host_points md5_signature s.name (hashes_of s.weight a b) 0) weight count in
      let slot_count : length (slots values auto_eject now 0 (map (revive auto_eject now) p.server))
          ≡ share =
        length-slots values auto_eject now (λ s. 4 * hashes_of s.weight total nlive)
          (λ s.
            length-host_points md5_signature (revive auto_eject now s).name
              (hashes_of (revive auto_eject now s).weight total nlive) 0
            ∙ ap (λ w. 4 * hashes_of w total nlive) (revive-weight auto_eject now s))
          0 p.server in
      let (q, run, built) =
        rebuild-Rebuilt 160 (λ t. t.nlive_server) (ketama_points md5_signature) qsort
          sorts.length_kept env p now clock al mem (rw count few) (omega arith) (omega arith)
          (subst
            (λ f.
              length (slots f auto_eject now 0 (map (revive auto_eject now) p.server))
              ≤ t.nlive_server * 160)
            (sym same) (rw (count, slot_count) fits)) in
      let in_use : q.ncontinuum ≡ share =
        built.ncontinuum
        ∙ sorts.length_kept _
        ∙ ap (λ f. length (slots f auto_eject now 0 (map (revive auto_eject now) p.server))) same
        ∙ slot_count in
      (
        q,
        run,
        subst (λ f. Rebuilt 160 now (qsort (slots f auto_eject now 0 q.server)) p q) same
            (rw built.server built),
        omega arith,
      )

  -- With a clock, memory, a live server and weights that fit, and where the shares that the code
  -- computes in `float` take at least one cell and no more than the 160 for each live server, an
  -- update of the ketama ring succeeds without a write outside the continuum, and then each hash goes
  -- to the owner of the first point at or after it, which is a live server. `md5_signature` is any
  -- function, and `qsort` sorts.
  pub ketama_update-dispatch :
      (hash : ℕ)
      → Allocated 160 p
      → env.has_memory ≡ true
      → total < 2 ^ 32
      → (nlive + 10) * 160 < 2 ^ 32
      → 0 < nlive
      → 0 < share
      → share ≤ nlive * 160
      → (q : Pool) × (ketama_update md5_signature qsort env p ≡ some (gf_ok, q))
        × (ketama_dispatch q.continuum q.ncontinuum hash ≡ owner hash (ring q))
        × (j : ℕ) × (owner hash (ring q) ≡ some j)
        × Serves p.auto_eject_hosts now 0 q.server j
  ketama_update-dispatch hash al mem small few live some_share fits =
      let (q, run, built, used) = ketama_update-Rebuilt al mem small few live some_share fits in
      let n = q.ncontinuum in
      let (k, c, got, owned) = owner_in hash (ring q) (omega (arith, built.ncontinuum)) in
      let (j, at_slot) = sorts.kept (slots values p.auto_eject_hosts now 0 q.server) k c got in
      (
        q,
        run,
        ketama_dispatch-owner q.continuum hash n
              (omega (arith, length-take n q.continuum, ap length built.used, built.ncontinuum))
              (rw built.used (sorts.sorted (slots values p.auto_eject_hosts now 0 q.server))) used
            ∙ ap (owner hash) built.used,
        c.index,
        owned,
        slots-Serves values p.auto_eject_hosts now 0 q.server j at_slot,
      )
