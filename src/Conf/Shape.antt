-- ===== src/Conf/Shape.antt =====
-- The trees that `conf_validate_structure` of src/gf_conf.c lets pass.
use gfwproxy.Base.{
  ℕ, ◌≡◌, refl, ap, ◌∙◌, Bool, true, false, not, ◌&&◌, List, [], ◌∷◌, if◌then◌else◌,
}
use gfwproxy.Status.{gf_ok, gf_error}
use gfwproxy.Conf.Yaml.{
  Event, mapping_end, sequence_end, Node, leaf, sequence, mapping, Nodes, no_items, item, Pairs,
  no_pairs, pair, emit, emit_items, emit_pairs, document,
}
use gfwproxy.Conf.Structure.{Check, structure_step, structure_loop, conf_validate_structure}

-- A list of scalars.
abbrev pub scalar_items : Nodes → Bool
scalar_items no_items = true
scalar_items (item (leaf text) ns) = scalar_items ns
scalar_items (item _ ns) = false

-- Scalars for keys; scalars for values, but for exactly one list of scalars. `seen` says whether
-- the list has come.
abbrev pub pool_shape : Bool → Pairs → Bool
pool_shape seen no_pairs = seen
pool_shape seen (pair (leaf k) (leaf v) ps) = pool_shape seen ps
pool_shape seen (pair (leaf k) (sequence ns) ps) =
    not seen && (scalar_items ns && pool_shape true ps)
pool_shape seen (pair _ _ ps) = false

abbrev pub pools_shape : Pairs → Bool
pools_shape no_pairs = true
pools_shape (pair (leaf k) (mapping es) ps) = pool_shape false es && pools_shape ps
pools_shape (pair _ _ ps) = false

abbrev pub conf_shape : Node → Bool
conf_shape (mapping ps) = pools_shape ps
conf_shape _ = false

-- The state at depth `d` with the counters `a` and `b` of depths 1 and 2.
abbrev at : ℕ → ℕ → ℕ → Bool → Check
at d a b seq = record { depth = d; count = 0 ∷ a ∷ b ∷ []; seq = seq; done = false; error = false }

-- The counter of depth 2 between two pairs: 2 right after a scalar value, and else 0.
abbrev idle : Bool → ℕ
idle after = if after then 2 else 0

-- The counter of depth 2 in a list: 1 before the items and after every second one.
abbrev busy : Bool → ℕ
busy even = if even then 2 else 1

abbrev last_pair : Bool → Pairs → Bool
last_pair after no_pairs = after
last_pair after (pair k (leaf v) ps) = last_pair true ps
last_pair after (pair k _ ps) = last_pair false ps

abbrev last_pool : Bool → Pairs → Bool
last_pool after no_pairs = after
last_pool after (pair k (mapping es) ps) = last_pool (last_pair after es) ps
last_pool after (pair k _ ps) = after

structure_loop_items :
    (ns : Nodes) (even : Bool) (rest : List Event)
    → structure_loop (emit_items ns (sequence_end ∷ rest)) (at 2 1 (busy even) true)
      ≡ (if scalar_items ns then structure_loop rest (at 2 1 0 true) else gf_error)
unfolding structure_loop structure_step emit
structure_loop_items no_items true rest = refl
structure_loop_items no_items false rest = refl
structure_loop_items (item (leaf text) ns) true rest = structure_loop_items ns false rest
structure_loop_items (item (leaf text) ns) false rest = structure_loop_items ns true rest
structure_loop_items (item (sequence ms) ns) true rest = refl
structure_loop_items (item (sequence ms) ns) false rest = refl
structure_loop_items (item (mapping ps) ns) true rest = refl
structure_loop_items (item (mapping ps) ns) false rest = refl

if_and {ℓ} :
    {A : Type ℓ} (a b : Bool) (x y : A)
    → (if a then (if b then x else y) else y) ≡ (if a && b then x else y)
if_and true b x y = refl
if_and false b x y = refl

structure_loop_pool :
    (ps : Pairs) (after seen : Bool) (rest : List Event)
    → structure_loop (emit_pairs ps (mapping_end ∷ rest)) (at 2 1 (idle after) seen) ≡ (
        if pool_shape seen ps
        then structure_loop rest (at 1 0 (idle (last_pair after ps)) false)
        else gf_error)
unfolding structure_loop structure_step emit
structure_loop_pool no_pairs true true rest = refl
structure_loop_pool no_pairs true false rest = refl
structure_loop_pool no_pairs false true rest = refl
structure_loop_pool no_pairs false false rest = refl
structure_loop_pool (pair (leaf k) (leaf v) ps) true seen rest =
    structure_loop_pool ps true seen rest
structure_loop_pool (pair (leaf k) (leaf v) ps) false seen rest =
    structure_loop_pool ps true seen rest
structure_loop_pool (pair (leaf k) (sequence ns) ps) true true rest = refl
structure_loop_pool (pair (leaf k) (sequence ns) ps) false true rest = refl
structure_loop_pool (pair (leaf k) (sequence ns) ps) true false rest =
    structure_loop_items ns false _
    ∙ ap (λ t. if scalar_items ns then t else gf_error) (structure_loop_pool ps false true rest)
    ∙ if_and (scalar_items ns) (pool_shape true ps) _ _
structure_loop_pool (pair (leaf k) (sequence ns) ps) false false rest =
    structure_loop_items ns false _
    ∙ ap (λ t. if scalar_items ns then t else gf_error) (structure_loop_pool ps false true rest)
    ∙ if_and (scalar_items ns) (pool_shape true ps) _ _
structure_loop_pool (pair (leaf k) (mapping qs) ps) true seen rest = refl
structure_loop_pool (pair (leaf k) (mapping qs) ps) false seen rest = refl
structure_loop_pool (pair (sequence ns) v ps) true true rest = refl
structure_loop_pool (pair (sequence ns) v ps) true false rest = refl
structure_loop_pool (pair (sequence ns) v ps) false true rest = refl
structure_loop_pool (pair (sequence ns) v ps) false false rest = refl
structure_loop_pool (pair (mapping qs) v ps) true seen rest = refl
structure_loop_pool (pair (mapping qs) v ps) false seen rest = refl

structure_loop_pools :
    (ps : Pairs) (after : Bool) (rest : List Event)
    → structure_loop (emit_pairs ps (mapping_end ∷ rest)) (at 1 0 (idle after) false) ≡ (
        if pools_shape ps
        then structure_loop rest (at 0 0 (idle (last_pool after ps)) false)
        else gf_error)
unfolding structure_loop structure_step emit
structure_loop_pools no_pairs true rest = refl
structure_loop_pools no_pairs false rest = refl
structure_loop_pools (pair (leaf k) (mapping es) ps) after rest =
    structure_loop_pool es after false _
    ∙ ap (λ t. if pool_shape false es then t else gf_error)
        (structure_loop_pools ps (last_pair after es) rest)
    ∙ if_and (pool_shape false es) (pools_shape ps) _ _
structure_loop_pools (pair (leaf k) (leaf v) ps) after rest = refl
structure_loop_pools (pair (leaf k) (sequence ns) ps) after rest = refl
structure_loop_pools (pair (sequence ns) v ps) after rest = refl
structure_loop_pools (pair (mapping qs) v ps) after rest = refl

-- Of the files with one document, of whatever tree, `conf_validate_structure` lets pass exactly
-- those whose root is a mapping from scalars to mappings, each of these from scalars to scalars
-- but for exactly one list of scalars.
pub conf_validate_structure_lem :
    (t : Node) → conf_validate_structure (document t) ≡ (if conf_shape t then gf_ok else gf_error)
unfolding conf_validate_structure structure_loop structure_step document emit
conf_validate_structure_lem (leaf text) = refl
conf_validate_structure_lem (sequence ns) = refl
conf_validate_structure_lem (mapping ps) = structure_loop_pools ps false _
