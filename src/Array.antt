-- ===== src/Array.antt =====
-- src/gf_array.c: arrays that grow. The memory of the elements is a function of the index; what lies
-- beyond `nalloc` is not theirs. The size of an element is left out.
pub mod Stack
pub mod Each
mod Tests
use gfwproxy.Base.{
  ℕ, zero, suc, ◌+◌, ◌-◌, ◌*◌, ◌/◌, ◌%◌, ◌^◌, ◌≤◌, ◌<◌, min, ◌≡◌, refl, sym, ap, ap₂, ◌∙◌, subst,
  ◌≢◌, ◌↔◌, ◌⊎◌, inl, inr, Bool, true, false, not, ◌&&◌, ◌||◌, Option, none, some, List, [], ◌∷◌,
  ◌++◌, map, reverse, append-nil, append_assoc, arith, ltb, leb, ◌==◌, if◌then◌else◌, ltb→lt,
  lt→ltb, leb→le, ==_iff, Bool-cases, Option-cases, length, get_elem?, set, take, drop, replicate,
  length-append, length-set, take-append-drop, length-take, length-drop, length-replicate, take_all,
  take-append, drop-append, All, get_elem?-append_left, get_elem?-append_right, get_elem?_in,
  get_elem?_out, lt_of_get_elem?, get_elem?-take, get_elem?-set, set-set, set-same, get_elem?-map,
  some_inj,
}
use gfwproxy.Status.{Status, gf_ok, gf_error, gf_eagain, gf_enomem}

pub record Array (A : Type 0) : Type 0 where
  pub nelem : ℕ
  pub elem : ℕ → A
  pub nalloc : ℕ

module _ {A : Type 0} where
  -- `array_init`, with what the new memory happens to hold; `array_create` does the same.
  abbrev pub array_init : Bool → ℕ → (ℕ → A) → Option (Array A)
  array_init has_memory n junk =
      if has_memory then some (record { nelem = 0; elem = junk; nalloc = n }) else none

  -- `gf_realloc` to twice the size, with what the new memory holds.
  abbrev pub grow : (ℕ → A) → Array A → Array A
  grow junk a = record a {
    elem = λ i. if ltb i a.nalloc then a.elem i else junk i;
    nalloc = (a.nalloc * 2) % 2 ^ 32;
  }

  abbrev pub next : Array A → ℕ × Array A
  next a = (a.nelem, record a { nelem = (a.nelem + 1) % 2 ^ 32 })

  -- The index of the new element, which the caller writes.
  unfoldable pub array_push : Bool → (ℕ → A) → Array A → Option (ℕ × Array A)
  array_push has_memory junk a =
      if a.nelem == a.nalloc
      then (if has_memory then some (next (grow junk a)) else none)
      else some (next a)

  -- What the caller writes through the pointer.
  abbrev pub store : ℕ → A → Array A → Array A
  store i v a = record a { elem = λ j. if j == i then v else a.elem j }

  -- The index of the last element, which leaves; on an empty array the code fails its assertion.
  abbrev pub array_pop : Array A → ℕ × Array A
  array_pop a = (a.nelem - 1, record a { nelem = a.nelem - 1 })

  abbrev pub array_get : Array A → ℕ → A
  array_get a idx = a.elem idx

  abbrev pub array_top : Array A → A
  array_top a = array_get a (a.nelem - 1)

  abbrev array_swap : Array A × Array A → Array A × Array A
  array_swap (a, b) = (b, a)

-- The loop goes on after a success only.
abbrev pub on_ok : {S : Type 0} → Status × S → (S → Status × S) → Status × S
on_ok (gf_ok, t) go_on = go_on t
on_ok (gf_error, t) go_on = (gf_error, t)
on_ok (gf_eagain, t) go_on = (gf_eagain, t)
on_ok (gf_enomem, t) go_on = (gf_enomem, t)

-- The loop of `array_each` with `count` elements left, from index `i` on; `s` is what `func` works on.
abbrev pub each_loop : {A S : Type 0} → (A → S → Status × S) → ℕ → ℕ → Array A → S → Status × S
each_loop func zero i a s = (gf_ok, s)
each_loop func (suc count) i a s =
    on_ok (func (array_get a i) s) (λ t. each_loop func count (suc i) a t)

unfoldable pub array_each : {A S : Type 0} → (A → S → Status × S) → Array A → S → Status × S
array_each func a s = each_loop func a.nelem 0 a s
