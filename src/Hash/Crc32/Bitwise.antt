-- ===== src/Hash/Crc32/Bitwise.antt =====
-- The tables of the CRC-32 and the loops that use them, against the bits of the standard.
use gfwproxy.Base.{
  ℕ, zero, suc, ◌+◌, ◌-◌, ◌*◌, ◌/◌, ◌%◌, ◌^◌, ◌<◌, ◌≡◌, refl, sym, ap, ap₂, ◌∙◌, inl, inr, true,
  List, [], ◌∷◌, arith, ◌==◌, if◌then◌else◌, ==_iff, Bool-cases, All,
}
use Prim.Native.Nat.{bit_xor}
use native.Mathlib.Nat.{pow-suc}
use gfwproxy.Base.Bits.{
  holds_below, holds_below-at, bit_xor_step, bit_xor-lt, bit_xor_assoc, bit_xor_comm,
  bit_xor_fields, bit_xor_zero_left, bit_xor_zero_right, bit_xor_ones,
}
use gfwproxy.Hash.{◌^^^◌, widen}
use gfwproxy.Hash.Crc32.{crc32tab, entry, crc32_loop, crc32a_loop, hash_crc32, hash_crc32a}

-- The checksum as the standard defines it: for each byte, eight rounds that shift out the lowest
-- bit and take the polynomial where that bit is set.
abbrev pub crc32_bit : ℕ → ℕ
crc32_bit x = if x % 2 == 1 then x / 2 ^^^ 0xedb88320 else x / 2

abbrev pub crc32_bits : ℕ → ℕ → ℕ
crc32_bits zero x = x
crc32_bits (suc n) x = crc32_bits n (crc32_bit x)

abbrev pub crc32_bitwise : List ℕ → ℕ → ℕ
crc32_bitwise [] crc = crc
crc32_bitwise (c ∷ key) crc = crc32_bitwise key (crc32_bits 8 (crc ^^^ c))

crc32_table : holds_below (λ i. entry crc32tab i == crc32_bits 8 i) 256 ≡ true
unfolding crc32tab
crc32_table = refl

entry-crc32tab : (i : ℕ) → i < 256 → entry crc32tab i ≡ crc32_bits 8 i
entry-crc32tab i h =
    (==_iff _ (crc32_bits 8 i)).0
      (holds_below-at (λ x. entry crc32tab x == crc32_bits 8 x) 256 i h crc32_table)

crc32_bit-lt : (x : ℕ) → x < 2 ^ 32 → crc32_bit x < 2 ^ 32
crc32_bit-lt x h = ground (arith, bit_xor-lt 32 (x / 2) 0xedb88320 (omega arith) (omega arith))

crc32_bits-lt : (n x : ℕ) → x < 2 ^ 32 → crc32_bits n x < 2 ^ 32
crc32_bits-lt zero x h = h
crc32_bits-lt (suc n) x h = crc32_bits-lt n (crc32_bit x) (crc32_bit-lt x h)

-- High bits of an even number move down untouched.
crc32_bit-xor :
    (y x : ℕ)
    → y * 2 < 2 ^ 32
    → x < 2 ^ 32
    → crc32_bit (bit_xor (y * 2) x) ≡ bit_xor y (crc32_bit x)
crc32_bit-xor y x hy hx =
    let half : bit_xor (y * 2) x / 2 ≡ bit_xor (y * 2 / 2) (x / 2) =
      omega (arith, bit_xor_step (y * 2) x) in
    let same : y * 2 / 2 ≡ y = omega arith in
    let parity : bit_xor (y * 2) x % 2 ≡ x % 2 = omega (arith, bit_xor_step (y * 2) x) in
    elim (Bool-cases (x % 2 == 1)) [
      | inl odd ↦
          rw (parity, half, same, odd)
            (bit_xor_assoc 32 y (x / 2) 0xedb88320 (omega arith) (omega arith) (omega arith))
      | inr even ↦ rw (parity, half, same, even) refl
    ]

crc32_bits-xor :
    (n y x : ℕ)
    → y * 2 ^ n < 2 ^ 32
    → x < 2 ^ 32
    → crc32_bits n (bit_xor (y * 2 ^ n) x) ≡ bit_xor y (crc32_bits n x)
crc32_bits-xor zero y x hy hx = ap (λ t. bit_xor t x) (omega arith)
crc32_bits-xor (suc n) y x hy hx =
    let e : y * 2 ^ suc n ≡ y * 2 ^ n * 2 = grind (arith, pow-suc 2 n) in
    rw (e, crc32_bit-xor (y * 2 ^ n) x (omega arith) hx)
      (crc32_bits-xor n y (crc32_bit x) (omega arith) (crc32_bit-lt x hx))

-- One byte: the table does what eight rounds do.
crc32a_byte :
    (crc c : ℕ)
    → crc < 2 ^ 32
    → c < 256
    → bit_xor (entry crc32tab (bit_xor crc c % 2 ^ 8)) (crc / 2 ^ 8) ≡ crc32_bits 8 (bit_xor crc c)
crc32a_byte crc c h hc =
    let x = bit_xor crc c in
    let lo = x % 2 ^ 8 in
    let hi = crc / 2 ^ 8 in
    let parts : hi * 2 ^ 8 + crc % 2 ^ 8 ≡ crc = omega arith in
    let none_high : 0 * 2 ^ 8 + c ≡ c = omega arith in
    let split : x ≡ hi * 2 ^ 8 + lo = omega (
      arith,
      ap₂ bit_xor parts none_high,
      bit_xor_fields 8 hi (crc % 2 ^ 8) 0 c (omega arith) (omega arith),
      bit_xor_zero_right 32 hi (omega arith),
      bit_xor-lt 8 (crc % 2 ^ 8) c (omega arith) (omega arith),
    ) in
    let high : hi * 2 ^ 8 + 0 ≡ hi * 2 ^ 8 = omega arith in
    let low : 0 * 2 ^ 8 + lo ≡ lo = omega arith in
    let joined : bit_xor (hi * 2 ^ 8) lo ≡ hi * 2 ^ 8 + lo = omega (
      arith,
      ap₂ bit_xor high low,
      bit_xor_fields 8 hi 0 0 lo (omega arith) (omega arith),
      bit_xor_zero_right 32 hi (omega arith),
      bit_xor_zero_left lo,
    ) in
    ap (λ t. bit_xor t hi) (entry-crc32tab lo (omega arith))
    ∙ bit_xor_comm 32 (crc32_bits 8 lo) hi (crc32_bits-lt 8 lo (omega arith)) (omega arith)
    ∙ sym (crc32_bits-xor 8 hi lo (omega arith) (omega arith))
    ∙ ap (crc32_bits 8) (joined ∙ sym split)

crc32a_loop-bitwise :
    (key : List ℕ) (crc : ℕ)
    → crc < 2 ^ 32
    → All (λ c. c < 256) key
    → crc32a_loop key crc ≡ crc32_bitwise key crc
unfolding crc32a_loop
crc32a_loop-bitwise [] crc h bytes = refl
crc32a_loop-bitwise (c ∷ key) crc h bytes = rw (crc32a_byte crc c h bytes.0) (
    crc32a_loop-bitwise key (crc32_bits 8 (bit_xor crc c))
      (crc32_bits-lt 8 (bit_xor crc c) (bit_xor-lt 32 crc c h (omega (arith, bytes.0)))) bytes.1)

-- On a key of bytes, `hash_crc32a` is the CRC-32 of the standard.
pub hash_crc32a-bitwise :
    (key : List ℕ)
    → All (λ c. c < 256) key
    → hash_crc32a key ≡ crc32_bitwise key (2 ^ 32 - 1) ^^^ (2 ^ 32 - 1)
unfolding hash_crc32a
hash_crc32a-bitwise key bytes =
    ap (λ t. t ^^^ (2 ^ 32 - 1)) (crc32a_loop-bitwise key (2 ^ 32 - 1) (omega arith) bytes)

index_signed : (crc c : ℕ) → c < 256 → (crc ^^^ widen 64 c) % 2 ^ 8 ≡ (crc ^^^ c) % 2 ^ 8
index_signed crc c h =
    let parts : crc / 2 ^ 8 * 2 ^ 8 + crc % 2 ^ 8 ≡ crc = omega arith in
    let wide : widen 64 c / 2 ^ 8 * 2 ^ 8 + c ≡ widen 64 c = ground arith in
    let plain : 0 * 2 ^ 8 + c ≡ c = omega arith in
    omega (
      arith,
      ap₂ bit_xor parts wide,
      ap₂ bit_xor parts plain,
      bit_xor_fields 8 (crc / 2 ^ 8) (crc % 2 ^ 8) (widen 64 c / 2 ^ 8) c (omega arith)
          (omega arith),
      bit_xor_fields 8 (crc / 2 ^ 8) (crc % 2 ^ 8) 0 c (omega arith) (omega arith),
    )

entry-lt : (i : ℕ) → i < 256 → entry crc32tab i < 2 ^ 32
entry-lt i h = omega (arith, entry-crc32tab i h, crc32_bits-lt 8 i (omega arith))

crc32_loop-same :
    (key : List ℕ) (crc : ℕ)
    → crc < 2 ^ 32
    → All (λ c. c < 256) key
    → (crc32_loop key crc ≡ crc32a_loop key crc) × (crc32_loop key crc < 2 ^ 32)
unfolding crc32_loop crc32a_loop
crc32_loop-same [] crc h bytes = (refl, h)
crc32_loop-same (c ∷ key) crc h bytes =
    let i = (crc ^^^ c) % 2 ^ 8 in
    let small = entry-lt i (omega arith) in
    let high : crc / 2 ^ 8 < 2 ^ 32 = omega arith in
    let next = crc / 2 ^ 8 ^^^ entry crc32tab i in
    let (same, bound) =
      crc32_loop-same key next (bit_xor-lt 32 (crc / 2 ^ 8) (entry crc32tab i) high small)
        bytes.1 in
    let e = index_signed crc c bytes.0 in
    (
      rw e same
          ∙ ap (crc32a_loop key) (bit_xor_comm 32 (crc / 2 ^ 8) (entry crc32tab i) high small),
      rw e bound,
    )

-- On a key of bytes, `hash_crc32`, which reads them as signed, gives the bits 16 to 30 of what
-- `hash_crc32a` gives.
pub hash_crc32-bits :
    (key : List ℕ) → All (λ c. c < 256) key → hash_crc32 key ≡ hash_crc32a key / 2 ^ 16 % 2 ^ 15
unfolding hash_crc32 hash_crc32a
hash_crc32-bits key bytes =
    let (same, bound) = crc32_loop-same key (2 ^ 32 - 1) (omega arith) bytes in
    omega (arith, same, bit_xor_ones 32 (crc32a_loop key (2 ^ 32 - 1)) (omega (arith, same, bound)))
