-- ===== src/Conf/Parsed.antt =====
-- The parser of src/gf_conf.c, on the events of a tree, reads what the walk over the tree reads.
use gfwproxy.Base.{
  ℕ, ◌≡◌, refl, sym, ap, ◌∙◌, Bool, true, false, Option, none, some, List, [], ◌∷◌, ◌++◌, arith,
  length,
}
use gfwproxy.Conf.{ConfPool, conf_pool_init}
use gfwproxy.Conf.Yaml.{
  Event, stream_end, document_end, mapping_start, mapping_end, sequence_start, sequence_end, scalar,
  Node, leaf, sequence, mapping, Nodes, no_items, item, Pairs, no_pairs, pair, emit, emit_items,
  emit_pairs, document,
}
use gfwproxy.Conf.Shape.{scalar_items, pool_shape, pools_shape, conf_shape}
use gfwproxy.Conf.Set.{System}
use gfwproxy.Base.{then_do}
use gfwproxy.Conf.Parse.{
  after_turn, set_directive, conf_handler, conf_push_scalar, new_pool, new_leaf, on_scalar, go_on,
  parse_turn, conf_parse_core, conf_pop_scalar, conf_begin_parse, conf_end_parse, conf_parse,
}
use gfwproxy.Conf.Read.{given, read_items, read_pool, read_pools, read_conf, state, opened}
use gfwproxy.Conf.Turns.{then_do_ap, call_handler_last, after_turn-leaf, then_do_assoc}

module _ (sys : System) (pools : List ConfPool) (name : List ℕ) where
  -- An item of a list.
  conf_parse_core_item :
      (key value : List ℕ) (cp : ConfPool) (rest : List Event)
      → conf_parse_core sys
          (scalar value ∷ rest)
          (some (length pools))
          (state 2 (key ∷ name ∷ []) (pools ++ cp ∷ []) true)
        ≡ then_do (given value (set_directive sys key value cp)) (λ cp'.
          conf_parse_core sys rest
            (some (length pools))
            (state 2 (key ∷ name ∷ []) (pools ++ cp' ∷ []) true))
  unfolding conf_parse_core parse_turn conf_push_scalar on_scalar new_leaf go_on conf_handler
  conf_parse_core_item key [] cp rest = refl
  conf_parse_core_item key (c ∷ value) cp rest =
      ap
        (λ o.
          after_turn (conf_parse_core sys rest) rest
            (go_on (then_do o (λ cf. some (some (length pools), conf_pop_scalar cf)))))
        (call_handler_last sys pools cp 2 ((c ∷ value) ∷ key ∷ name ∷ []) true)
      ∙ after_turn-leaf sys (set_directive sys key (c ∷ value) cp) (length pools)
          (λ cp'. state 2 ((c ∷ value) ∷ key ∷ name ∷ []) (pools ++ cp' ∷ []) true)
          (λ cf. conf_pop_scalar cf) rest

  -- The key and the value of a directive.
  conf_parse_core_entry :
      (key value : List ℕ) (cp : ConfPool) (rest : List Event)
      → conf_parse_core sys
          (scalar key ∷ scalar value ∷ rest)
          (some (length pools))
          (state 2 (name ∷ []) (pools ++ cp ∷ []) false)
        ≡ then_do (given key (given value (set_directive sys key value cp))) (λ cp'.
          conf_parse_core sys rest
            (some (length pools))
            (state 2 (name ∷ []) (pools ++ cp' ∷ []) false))
  unfolding conf_parse_core parse_turn conf_push_scalar on_scalar new_leaf go_on conf_handler
  conf_parse_core_entry [] value cp rest = refl
  conf_parse_core_entry (k ∷ key) [] cp rest = refl
  conf_parse_core_entry (k ∷ key) (c ∷ value) cp rest =
      ap
        (λ o. after_turn (conf_parse_core sys rest) rest (
          go_on
            (then_do o (λ cf. some (some (length pools), conf_pop_scalar (conf_pop_scalar cf))))))
        (call_handler_last sys pools cp 2 ((c ∷ value) ∷ (k ∷ key) ∷ name ∷ []) false)
      ∙ after_turn-leaf sys (set_directive sys (k ∷ key) (c ∷ value) cp) (length pools)
          (λ cp'. state 2 ((c ∷ value) ∷ (k ∷ key) ∷ name ∷ []) (pools ++ cp' ∷ []) false)
          (λ cf. conf_pop_scalar (conf_pop_scalar cf)) rest

  conf_parse_core_items :
      (key : List ℕ) (ns : Nodes) (cp : ConfPool) (rest : List Event)
      → scalar_items ns ≡ true
      → conf_parse_core sys
          (emit_items ns (sequence_end ∷ rest))
          (some (length pools))
          (state 2 (key ∷ name ∷ []) (pools ++ cp ∷ []) true)
        ≡ then_do (read_items sys key ns cp) (λ cp'.
          conf_parse_core sys rest
            (some (length pools))
            (state 2 (name ∷ []) (pools ++ cp' ∷ []) false))
  unfolding emit
  conf_parse_core_items key no_items cp rest h = unfold conf_parse_core parse_turn in refl
  conf_parse_core_items key (item (leaf value) ns) cp rest h =
      conf_parse_core_item key value cp _
      ∙ then_do_ap (given value (set_directive sys key value cp))
          (λ cp'. conf_parse_core_items key ns cp' rest h)
      ∙ sym (then_do_assoc (given value (set_directive sys key value cp)) (read_items sys key ns) _)
  conf_parse_core_items key (item (sequence _) ns) cp rest h = absurd (cc)
  conf_parse_core_items key (item (mapping _) ns) cp rest h = absurd (cc)

  -- The key of a list, and the list.
  conf_parse_core-sequence :
      (key : List ℕ) (ns : Nodes) (cp : ConfPool) (rest : List Event)
      → scalar_items ns ≡ true
      → conf_parse_core sys
          (scalar key ∷ sequence_start ∷ emit_items ns (sequence_end ∷ rest))
          (some (length pools))
          (state 2 (name ∷ []) (pools ++ cp ∷ []) false)
        ≡ then_do (given key (read_items sys key ns cp)) (λ cp'.
          conf_parse_core sys rest
            (some (length pools))
            (state 2 (name ∷ []) (pools ++ cp' ∷ []) false))
  unfolding conf_parse_core parse_turn conf_push_scalar on_scalar go_on
  conf_parse_core-sequence [] ns cp rest h = refl
  conf_parse_core-sequence (k ∷ key) ns cp rest h = conf_parse_core_items (k ∷ key) ns cp rest h

  -- The directives of a pool, up to the end of its mapping.
  conf_parse_core_pool :
      (ps : Pairs) (seen : Bool) (cp : ConfPool) (rest : List Event)
      → pool_shape seen ps ≡ true
      → conf_parse_core sys
          (emit_pairs ps (mapping_end ∷ rest))
          (some (length pools))
          (state 2 (name ∷ []) (pools ++ cp ∷ []) false)
        ≡ then_do (read_pool sys ps cp) (λ cp'.
          conf_parse_core sys rest (some (length pools)) (state 1 [] (pools ++ cp' ∷ []) false))
  unfolding emit
  conf_parse_core_pool no_pairs seen cp rest h = unfold conf_parse_core parse_turn in refl
  conf_parse_core_pool (pair (leaf k) (leaf v) ps) seen cp rest h =
      conf_parse_core_entry k v cp _
      ∙ then_do_ap (given k (given v (set_directive sys k v cp)))
          (λ cp'. conf_parse_core_pool ps seen cp' rest h)
      ∙ sym (then_do_assoc (given k (given v (set_directive sys k v cp))) (read_pool sys ps) _)
  conf_parse_core_pool (pair (leaf k) (sequence ns) ps) seen cp rest h =
      let items : scalar_items ns ≡ true = ground arith in
      let more : pool_shape true ps ≡ true = ground arith in
      conf_parse_core-sequence k ns cp _ items
      ∙ then_do_ap (given k (read_items sys k ns cp))
          (λ cp'. conf_parse_core_pool ps true cp' rest more)
      ∙ sym (then_do_assoc (given k (read_items sys k ns cp)) (read_pool sys ps) _)
  conf_parse_core_pool (pair (leaf k) (mapping _) ps) seen cp rest h = absurd (cc)
  conf_parse_core_pool (pair (sequence _) v ps) seen cp rest h = absurd (cc)
  conf_parse_core_pool (pair (mapping _) v ps) seen cp rest h = absurd (cc)

-- The name of a pool, up to the start of its mapping.
conf_parse_core_name :
    (sys : System) (pools : List ConfPool) (name : List ℕ) (d : Option ℕ) (rest : List Event)
    → conf_parse_core sys (scalar name ∷ mapping_start ∷ rest) d (state 1 [] pools false)
      ≡ given name (
          conf_parse_core sys rest
            (some (length pools))
            (state 2 (name ∷ []) (pools ++ conf_pool_init name ∷ []) false))
unfolding conf_parse_core parse_turn conf_push_scalar on_scalar new_pool go_on
conf_parse_core_name sys pools [] d rest = refl
conf_parse_core_name sys pools (c ∷ name) d rest =
    ap
      (λ o.
        after_turn (conf_parse_core sys (mapping_start ∷ rest)) (mapping_start ∷ rest)
          (go_on (then_do o (λ cf. some (some (length pools), cf)))))
      (call_handler_last sys pools (conf_pool_init []) 1 ((c ∷ name) ∷ []) false)
    ∙ (unfold conf_handler in refl)

given-then_do {ℓ κ} :
    {A : Type ℓ} {B : Type κ} (t : List ℕ) (o : Option A) (f : A → Option B)
    → given t (then_do o f) ≡ then_do (given t o) f
given-then_do [] o f = refl
given-then_do (c ∷ t) o f = refl

-- All pools, up to the end of the root's mapping.
conf_parse_core_pools :
    (sys : System) (ps : Pairs) (pools : List ConfPool) (d : Option ℕ) (rest : List Event)
    → pools_shape ps ≡ true
    → conf_parse_core sys (emit_pairs ps (mapping_end ∷ rest)) d (state 1 [] pools false)
      ≡ then_do (read_pools sys ps pools) (λ pools'. some (state 0 [] pools' false, rest))
unfolding emit
conf_parse_core_pools sys no_pairs pools d rest h = unfold conf_parse_core parse_turn in refl
conf_parse_core_pools sys (pair (leaf name) (mapping es) ps) pools d rest h =
    let shape : pool_shape false es ≡ true = ground arith in
    let more : pools_shape ps ≡ true = ground arith in
    let read = given name (read_pool sys es (conf_pool_init name)) in
    conf_parse_core_name sys pools name d _
    ∙ ap (given name) (conf_parse_core_pool sys pools name es false (conf_pool_init name) _ shape)
    ∙ given-then_do name (read_pool sys es (conf_pool_init name)) _
    ∙ then_do_ap read (λ cp. conf_parse_core_pools sys ps (pools ++ cp ∷ []) _ rest more)
    ∙ sym (then_do_assoc read (λ cp. read_pools sys ps (pools ++ cp ∷ [])) _)
conf_parse_core_pools sys (pair (leaf name) (leaf v) ps) pools d rest h = absurd (cc)
conf_parse_core_pools sys (pair (leaf name) (sequence ns) ps) pools d rest h = absurd (cc)
conf_parse_core_pools sys (pair (sequence _) v ps) pools d rest h = absurd (cc)
conf_parse_core_pools sys (pair (mapping _) v ps) pools d rest h = absurd (cc)

-- On the events of a tree that `conf_validate_structure` lets pass, `conf_parse` ends, and either
-- fails or has no argument left over, is back at depth 0, and holds the pools that setting every
-- directive of the tree in its order gives; it fails just where a text is empty or a directive is
-- refused.
pub conf_parse_lem :
    (sys : System) (t : Node)
    → conf_shape t ≡ true
    → conf_parse sys (document t) opened
      ≡ then_do
          (read_conf sys t)
          (λ pools. some (record (state 0 [] pools false) { parsed = true }))
unfolding conf_parse conf_begin_parse document emit
conf_parse_lem sys (leaf text) h = absurd (cc)
conf_parse_lem sys (sequence ns) h = absurd (cc)
conf_parse_lem sys (mapping ps) h =
    ap
      (λ o. then_do o (λ core.
        then_do (conf_end_parse core.1 core.0) (λ ended. some (record ended { parsed = true }))))
      (conf_parse_core_pools sys ps [] none (document_end ∷ stream_end ∷ []) h)
    ∙ then_do_assoc (read_pools sys ps []) _ _
    ∙ then_do_ap (read_pools sys ps []) (λ pools. unfold conf_end_parse in refl)
