-- ===== src/Conf/Read.antt =====
-- What src/gf_conf.c reads out of a configuration, described as a walk over its tree.
use gfwproxy.Base.{ℕ, Bool, false, Option, none, some, List, [], ◌∷◌, ◌++◌, if◌then◌else◌}
use gfwproxy.Conf.{Conf, ConfPool, conf_pool_init}
use gfwproxy.Conf.Yaml.{Node, leaf, sequence, mapping, Nodes, no_items, item, Pairs, no_pairs, pair}
use gfwproxy.Conf.Set.{System}
use gfwproxy.Base.{then_do}
use gfwproxy.Conf.Parse.{set_directive, is_empty}

abbrev pub given {ℓ} : {A : Type ℓ} → List ℕ → Option A → Option A
given text r = if is_empty text then none else r

module _ (sys : System) where
  -- Each item of the list under `key` is set in turn.
  abbrev pub read_items : List ℕ → Nodes → ConfPool → Option ConfPool
  read_items key no_items cp = some cp
  read_items key (item (leaf value) ns) cp =
      then_do (given value (set_directive sys key value cp)) (read_items key ns)
  read_items key (item _ ns) cp = none

  -- Each directive of a pool is set in turn.
  abbrev pub read_pool : Pairs → ConfPool → Option ConfPool
  read_pool no_pairs cp = some cp
  read_pool (pair (leaf key) (leaf value) ps) cp =
      then_do (given key (given value (set_directive sys key value cp))) (read_pool ps)
  read_pool (pair (leaf key) (sequence ns) ps) cp =
      then_do (given key (read_items key ns cp)) (read_pool ps)
  read_pool (pair _ _ ps) cp = none

  -- The pools are read in turn, behind those that are there.
  abbrev pub read_pools : Pairs → List ConfPool → Option (List ConfPool)
  read_pools no_pairs pools = some pools
  read_pools (pair (leaf name) (mapping es) ps) pools =
      then_do (given name (read_pool es (conf_pool_init name)))
        (λ cp. read_pools ps (pools ++ cp ∷ []))
  read_pools (pair _ _ ps) pools = none

  abbrev pub read_conf : Node → Option (List ConfPool)
  read_conf (mapping ps) = read_pools ps []
  read_conf _ = none

abbrev pub state : ℕ → List (List ℕ) → List ConfPool → Bool → Conf
state depth arg pool seq = record {
  arg = arg;
  pool = pool;
  depth = depth;
  seq = seq;
  parsed = false;
}

-- The state that `conf_open` makes.
abbrev pub opened : Conf
opened = state 0 [] [] false
