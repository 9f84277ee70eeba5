-- ===== src/Conf/Structure.antt =====
-- The checks of a file before it is parsed: `conf_validate_structure` of src/gf_conf.c.
use gfwproxy.Base.{
  ℕ, ◌+◌, ◌-◌, ◌%◌, ◌^◌, Bool, true, false, not, ◌&&◌, ◌||◌, none, some, List, [], ◌∷◌, leb, ◌==◌,
  if◌then◌else◌, get_elem?, set,
}
use gfwproxy.Status.{Status, gf_ok, gf_error}
use gfwproxy.Conf.Yaml.{
  Event, stream_start, stream_end, document_start, document_end, mapping_start, mapping_end,
  sequence_start, sequence_end, scalar,
}

abbrev pub conf_root_depth : ℕ
conf_root_depth = 1

abbrev pub conf_max_depth : ℕ
conf_max_depth = conf_root_depth + 1

-- The locals of the function; `count` is the array of `CONF_MAX_DEPTH + 1` counters. A mapping
-- ends only after it started, so `depth` is not 0 there.
pub record Check : Type 0 where
  pub depth : ℕ
  pub count : List ℕ
  pub seq : Bool
  pub done : Bool
  pub error : Bool

abbrev pub counted : Check → ℕ
counted s = elim (get_elem? s.count s.depth) [ none ↦ 0 | some n ↦ n ]

abbrev set_count : ℕ → Check → Check
set_count n s = record s { count = set s.count s.depth n }

abbrev fail_if : Bool → Check → Check
fail_if wrong s = if wrong then record s { error = true } else s

-- One round of the loop, for the event that came.
unfoldable pub structure_step : Event → Check → Check
structure_step stream_start s = s
structure_step document_start s = s
structure_step document_end s = s
structure_step stream_end s = record s { done = true }
structure_step mapping_start s =
    let t =
      fail_if (s.depth == conf_root_depth && not (counted s == 1) || leb conf_max_depth s.depth)
        s in
    record t { depth = t.depth + 1 }
structure_step mapping_end s =
    let t =
      if s.depth == conf_max_depth
      then (if s.seq then record s { seq = false } else record s { error = true })
      else s in
    set_count 0 (record t { depth = t.depth - 1 })
structure_step sequence_start s =
    let t = fail_if (s.seq || not (s.depth == conf_max_depth) || not (counted s == 1)) s in
    record t { seq = true }
structure_step sequence_end s = set_count 0 s
structure_step (scalar text) s =
    let t =
      if s.depth == 0
      then record s { error = true }
      else if s.depth == conf_root_depth && not (counted s == 0)
      then record s { error = true }
      else if s.depth == conf_max_depth && counted s == 2
      then set_count 0 s
      else s in
    set_count ((counted t + 1) % 2 ^ 32) t

-- The loop. The events end early where `conf_event_next` fails.
unfoldable pub structure_loop : List Event → Check → Status
unfolding structure_step
structure_loop [] s = gf_error
structure_loop (e ∷ es) s =
    let t = structure_step e s in
    if t.error then gf_error else if t.done then gf_ok else structure_loop es t

unfoldable pub conf_validate_structure : List Event → Status
unfolding structure_loop
conf_validate_structure es =
    structure_loop es
      (record { depth = 0; count = 0 ∷ 0 ∷ 0 ∷ []; seq = false; done = false; error = false })
