-- ===== src/Text.antt =====
-- src/gf_string.[ch] and the number parser of src/gf_util.c: C strings as lists of bytes. A
-- `struct string` is the list of its `len` bytes. A pointer into a byte range is an offset.
pub mod Number
pub mod Find
pub mod Last
pub mod Order
mod Tests
use Prim.Native.Nat.{compare, Ordering}
use mathlib.Core.Option
use gfwproxy.Base.{
  ℕ, zero, suc, ◌+◌, ◌-◌, ◌*◌, ◌/◌, ◌%◌, ◌^◌, Bool, true, false, ◌||◌, ◌&&◌, Option, none, some,
  List, [], ◌∷◌, ltb, leb, ◌==◌, if◌then◌else◌, length, get_elem?,
}

-- `_gf_strchr` over the bytes from `p` up to `last`: the offset of the first `c`.
unfoldable pub strchr : List ℕ → ℕ → Option ℕ
strchr [] c = none
strchr (b ∷ bs) c = if b == c then some 0 else Option.map suc (strchr bs c)

abbrev pub is_digit : ℕ → Bool
is_digit c = leb b'0' c && leb c b'9'

-- The loop of `_gf_atoi`. `value` is an `int`, held as its 32-bit pattern; where C leaves the
-- overflow of `value * 10 + digit` undefined, the pattern wraps.
unfoldable pub atoi_loop : List ℕ → ℕ → Option ℕ
atoi_loop [] value = some value
atoi_loop (c ∷ line) value =
    if ltb c b'0' || ltb b'9' c then none else atoi_loop line ((value * 10 + (c - b'0')) % 2 ^ 32)

-- A pattern from 2^31 on is a negative `int`.
unfoldable pub non_negative : Option ℕ → Option ℕ
non_negative none = none
non_negative (some value) = if leb (2 ^ 31) value then none else some value

-- `_gf_atoi`; `none` is the result -1.
unfoldable pub atoi : List ℕ → Option ℕ
unfolding atoi_loop non_negative
atoi [] = none
atoi (c ∷ line) = non_negative (atoi_loop (c ∷ line) 0)

-- `gf_valid_port`, of an `int` that is not negative.
unfoldable pub valid_port : ℕ → Bool
valid_port n = if ltb n 1 || ltb (2 ^ 16 - 1) n then false else true

-- `hex[d]` for a digit value `d < 16`.
unfoldable pub hex : ℕ → ℕ
hex d = if ltb d 10 then b'0' + d else b'a' + (d - 10)

-- The loop of `_safe_utoa`: it fills the buffer from its end, so `buf` is what stands behind the
-- write position. It takes one round for each digit; 64 rounds are enough for a `uint64_t`.
unfoldable pub utoa_loop : ℕ → ℕ → ℕ → List ℕ → List ℕ
unfolding hex
utoa_loop zero base val buf = buf
utoa_loop (suc rounds) base val buf =
    let rest = utoa_loop rounds base (val / base) (hex (val % base) ∷ buf) in
    if val / base == 0 then hex (val % base) ∷ buf else rest

-- `_safe_utoa`, without the terminating NUL that it writes first.
unfoldable pub safe_utoa : ℕ → ℕ → List ℕ
unfolding utoa_loop
safe_utoa base val = utoa_loop 64 base val []

-- `strncmp` of the C library: the first difference decides, and a common NUL ends both texts.
-- The list ends stand for the `n` bytes that it reads at most.
unfoldable pub strncmp : List ℕ → List ℕ → Ordering
strncmp [] bs = Ordering.eq
strncmp (a ∷ as') [] = Ordering.eq
strncmp (a ∷ as') (b ∷ bs) = elim (compare a b) [
  | Ordering.lt ↦ Ordering.lt
  | Ordering.gt ↦ Ordering.gt
  | Ordering.eq ↦ if a == 0 then Ordering.eq else strncmp as' bs
]

-- `string_compare`: the sign of its result. A shorter string comes first.
unfoldable pub string_compare : List ℕ → List ℕ → Ordering
unfolding strncmp
string_compare s1 s2 =
    if length s1 == length s2
    then strncmp s1 s2
    else if ltb (length s2) (length s1)
    then Ordering.gt
    else Ordering.lt

-- The loop of `_gf_strrchr` over the first `p` bytes, from the last one down: the offset of the
-- last `c`.
unfoldable pub strrchr_loop : ℕ → List ℕ → ℕ → Option ℕ
strrchr_loop zero text c = none
strrchr_loop (suc p) text c =
    let rest = strrchr_loop p text c in
    elim (get_elem? text p) [ none ↦ rest | some b ↦ if b == c then some p else rest ]

-- `_gf_strrchr` over a whole range of bytes.
unfoldable pub strrchr : List ℕ → ℕ → Option ℕ
unfolding strrchr_loop
strrchr text c = strrchr_loop (length text) text c
