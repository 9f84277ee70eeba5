-- ===== src/Mbuf.antt =====
-- src/gf_mbuf.c and src/gf_mbuf.h: buffers of a fixed size, and the queue of free ones. A buffer
-- holds the bytes from `start` to `last`; its markers are offsets from `start`. What stands behind
-- `last` is not represented. The queue of free buffers is its length, since `mbuf_get` resets the
-- buffer that it takes.
pub mod Chain
use gfwproxy.Base.{
  ℕ, zero, suc, ◌+◌, ◌-◌, ◌%◌, ◌^◌, Bool, Option, none, some, List, [], ◌∷◌, ◌++◌, map, arith, ltb,
  ◌==◌, if◌then◌else◌, length, take, drop,
}
use mathlib.Core.Option

pub record Mbuf : Type 0 where
  pub bytes : List ℕ
  pub pos : ℕ
  pub size : ℕ

abbrev pub last : Mbuf → ℕ
last m = length m.bytes

-- The bytes between the markers.
abbrev pub unread : Mbuf → List ℕ
unread m = drop m.pos m.bytes

pub record Bufs : Type 0 where
  pub nfree_mbufq : ℕ
  pub mbuf_offset : ℕ

-- `mbuf_init`, for a chunk of `cksize` bytes with a header of `hsize` at its end.
abbrev pub mbuf_init : ℕ → ℕ → Bufs
mbuf_init hsize cksize = record { nfree_mbufq = 0; mbuf_offset = cksize - hsize }

-- Both branches of `_mbuf_get`; `has_memory` says whether the allocation would succeed.
pub mbuf_take : Bool → Bufs → Option Bufs
mbuf_take has_memory b =
    if ltb 0 b.nfree_mbufq
    then some (record b { nfree_mbufq = b.nfree_mbufq - 1 })
    else if has_memory
    then some b
    else none

unfoldable pub mbuf_get : Bool → Bufs → Option (Mbuf × Bufs)
unfolding mbuf_take
mbuf_get has_memory b =
    Option.map (λ c. (record { bytes = []; pos = 0; size = c.mbuf_offset }, c))
      (mbuf_take has_memory b)

abbrev pub mbuf_put : Bufs → Bufs
mbuf_put b = record b { nfree_mbufq = b.nfree_mbufq + 1 }

abbrev pub mbuf_rewind : Mbuf → Mbuf
mbuf_rewind m = record m { bytes = []; pos = 0 }

-- The lengths are cut to a `uint32_t`.
abbrev pub mbuf_length : Mbuf → ℕ
mbuf_length m = (last m - m.pos) % 2 ^ 32

abbrev pub mbuf_size : Mbuf → ℕ
mbuf_size m = (m.size - last m) % 2 ^ 32

abbrev pub mbuf_empty : Mbuf → Bool
mbuf_empty m = m.pos == last m

abbrev pub mbuf_full : Mbuf → Bool
mbuf_full m = last m == m.size

-- `STAILQ_INSERT_TAIL` into the queue of a message.
abbrev pub mbuf_insert : List Mbuf → Mbuf → List Mbuf
mbuf_insert mhdr m = mhdr ++ (m ∷ [])

-- A copy of the bytes; without space for them the code fails its assertion.
abbrev pub mbuf_copy : Mbuf → List ℕ → Mbuf
mbuf_copy m added = record m { bytes = m.bytes ++ added }

-- `STAILQ_LAST`.
abbrev pub last_mbuf : List Mbuf → Option Mbuf
last_mbuf [] = none
last_mbuf (m ∷ []) = some m
last_mbuf (m ∷ n ∷ ms) = last_mbuf (n ∷ ms)

abbrev pub set_last : List Mbuf → Mbuf → List Mbuf
set_last [] v = []
set_last (m ∷ []) v = v ∷ []
set_last (m ∷ n ∷ ms) v = m ∷ set_last (n ∷ ms) v

-- `mbuf_split` at the offset `pos` of the last buffer, with `cb` as the precopy handler: the queue
-- and the new buffer, which is not in the queue. `none` inside is a failed allocation; outside, an
-- empty queue, where the code reads through a NULL pointer.
unfoldable pub mbuf_split :
    Bool → (Mbuf → Mbuf) → ℕ → List Mbuf → Bufs → Option (Option (List Mbuf × Mbuf × Bufs))
mbuf_split has_memory cb pos mhdr b = elim (last_mbuf mhdr) [
  | none ↦ none
  | some m ↦ elim (mbuf_get has_memory b) [
    | none ↦ some none
    | some (n, c) ↦ some (
        some (
          set_last mhdr (record m { bytes = take pos m.bytes }),
          mbuf_copy (cb n) (drop pos m.bytes),
          c,
        ))
  ]
]
