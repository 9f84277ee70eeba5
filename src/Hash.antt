-- ===== src/Hash.antt =====
-- The hash functions of src/hashkit. A key is the list of its bytes; C's `char` is signed, so that a
-- byte from 128 on widens to a number with all high bits set.
pub mod Fnv
pub mod Crc16
pub mod Crc32
pub mod Mix
mod Tests
use Prim.Native.Nat.{bit_xor}
use gfwproxy.Base.{ℕ, ◌+◌, ◌-◌, ◌*◌, ◌%◌, ◌^◌, ltb, if◌then◌else◌}

-- A `char` converted to an unsigned type of `bits` bits.
abbrev pub widen : ℕ → ℕ → ℕ
widen bits c = if ltb c 128 then c else (2 ^ bits + c - 256)

infixl 40 ◌^^^◌
abbrev pub ◌^^^◌ : ℕ → ℕ → ℕ
a ^^^ b = bit_xor a b

-- `<<` of a `uint32_t`.
abbrev pub shl : ℕ → ℕ → ℕ
shl x n = x * 2 ^ n % 2 ^ 32
