-- ===== src/Conf/Yaml.antt =====
-- The part of libyaml's interface that src/gf_conf.c uses: the events that the parser hands out,
-- and the trees of nodes that they spell. Alias events do not occur in files that pass
-- `conf_validate_tokens`.
use gfwproxy.Base.{ℕ, List, [], ◌∷◌}

pub data Event : Type 0 where
  stream_start stream_end document_start document_end : Event
  mapping_start mapping_end sequence_start sequence_end : Event
  scalar : List ℕ → Event

mutual
  pub data Node : Type 0 where
    leaf : List ℕ → Node
    sequence : Nodes → Node
    mapping : Pairs → Node

  pub data Nodes : Type 0 where
    no_items : Nodes
    item : Node → Nodes → Nodes

  pub data Pairs : Type 0 where
    no_pairs : Pairs
    pair : Node → Node → Pairs → Pairs

-- The events of a tree, with `rest` behind them.
unfoldable mutual
  pub emit : Node → List Event → List Event
  emit (leaf text) rest = scalar text ∷ rest
  emit (sequence ns) rest = sequence_start ∷ emit_items ns (sequence_end ∷ rest)
  emit (mapping ps) rest = mapping_start ∷ emit_pairs ps (mapping_end ∷ rest)

  pub emit_items : Nodes → List Event → List Event
  emit_items no_items rest = rest
  emit_items (item n ns) rest = emit n (emit_items ns rest)

  pub emit_pairs : Pairs → List Event → List Event
  emit_pairs no_pairs rest = rest
  emit_pairs (pair k v ps) rest = emit k (emit v (emit_pairs ps rest))

-- The events of a file with one document.
unfoldable pub document : Node → List Event
unfolding emit
document t = stream_start ∷ document_start ∷ emit t (document_end ∷ stream_end ∷ [])
