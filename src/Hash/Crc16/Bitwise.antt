-- ===== src/Hash/Crc16/Bitwise.antt =====
-- The low 16 bits of `hash_crc16` against the bits of the standard.
use gfwproxy.Base.{
  ℕ, zero, suc, ◌+◌, ◌*◌, ◌/◌, ◌%◌, ◌^◌, ◌≤◌, ◌<◌, ◌≡◌, refl, sym, ap, ap₂, ◌∙◌, inl, inr, true,
  false, List, [], ◌∷◌, arith, leb, ◌==◌, if◌then◌else◌, leb→le, ==_iff, Bool-cases, All,
}
use Prim.Native.Nat.{bit_xor}
use native.Mathlib.Nat.{pow-suc, one-le-pow}
use gfwproxy.Base.Bits.{
  holds_below, holds_below-at, bit_xor_step, bit_xor-lt, bit_xor_assoc, bit_xor_fields,
  bit_xor_zero_left, bit_xor_zero_right, bit_xor_mod_16,
}
use gfwproxy.Hash.{◌^^^◌, widen, shl}
use gfwproxy.Hash.Crc16.{crc16tab, entry, crc16_round, crc16_loop, hash_crc16}

-- The CRC-16 of the standard with polynomial 0x1021: for each byte, eight rounds that shift out the
-- highest of 16 bits and take the polynomial where that bit is set.
abbrev pub crc16_bit : ℕ → ℕ
crc16_bit x = if leb (2 ^ 15) x then (x * 2) % 2 ^ 16 ^^^ 0x1021 else x * 2

abbrev pub crc16_bits : ℕ → ℕ → ℕ
crc16_bits zero x = x
crc16_bits (suc n) x = crc16_bits n (crc16_bit x)

abbrev pub crc16_bitwise : List ℕ → ℕ → ℕ
crc16_bitwise [] crc = crc
crc16_bitwise (c ∷ key) crc = crc16_bitwise key (crc16_bits 8 (crc ^^^ (c * 2 ^ 8)))

crc16_table : holds_below (λ i. entry crc16tab i == crc16_bits 8 (i * 2 ^ 8)) 256 ≡ true
unfolding crc16tab
crc16_table = refl

entry-crc16tab : (i : ℕ) → i < 256 → entry crc16tab i ≡ crc16_bits 8 (i * 2 ^ 8)
entry-crc16tab i h =
    (==_iff _ (crc16_bits 8 (i * 2 ^ 8))).0
      (holds_below-at (λ x. entry crc16tab x == crc16_bits 8 (x * 2 ^ 8)) 256 i h crc16_table)

crc16_bit-lt : (x : ℕ) → x < 2 ^ 16 → crc16_bit x < 2 ^ 16
crc16_bit-lt x h = ground (arith, bit_xor-lt 16 (x * 2 % 2 ^ 16) 0x1021 (omega arith) (omega arith))

crc16_bits-lt : (n x : ℕ) → x < 2 ^ 16 → crc16_bits n x < 2 ^ 16
crc16_bits-lt zero x h = h
crc16_bits-lt (suc n) x h = crc16_bits-lt n (crc16_bit x) (crc16_bit-lt x h)

-- The highest bit of `x` alone decides where `y` has 15 bits.
top_bit :
    (y x : ℕ) → y < 2 ^ 15 → x < 2 ^ 16 → bit_xor y x ≡ x / 2 ^ 15 * 2 ^ 15 + bit_xor y (x % 2 ^ 15)
top_bit y x hy hx =
    let e : 0 * 2 ^ 15 + y ≡ y = omega arith in
    let e' : x / 2 ^ 15 * 2 ^ 15 + x % 2 ^ 15 ≡ x = omega arith in
    sym (ap₂ bit_xor e e')
    ∙ bit_xor_fields 15 0 y (x / 2 ^ 15) (x % 2 ^ 15) hy (omega arith)
    ∙ ap (λ t. t * 2 ^ 15 + bit_xor y (x % 2 ^ 15)) (bit_xor_zero_left (x / 2 ^ 15))

twice : (y x : ℕ) → bit_xor y x * 2 ≡ bit_xor (y * 2) (x * 2)
twice y x =
    let e : y * 2 / 2 ≡ y = omega arith in
    let e' : x * 2 / 2 ≡ x = omega arith in
    omega (arith, bit_xor_step (y * 2) (x * 2), ap₂ bit_xor e e')

crc16_bit-xor :
    (y x : ℕ) → y < 2 ^ 15 → x < 2 ^ 16 → crc16_bit (bit_xor y x) ≡ bit_xor (y * 2) (crc16_bit x)
crc16_bit-xor y x hy hx =
    let low = bit_xor-lt 15 y (x % 2 ^ 15) hy (omega arith) in
    let top = top_bit y x hy hx in
    elim (Bool-cases (leb (2 ^ 15) x)) [
      | inl high ↦
          let high' : leb (2 ^ 15) (bit_xor y x) ≡ true = ground (arith, top) in
          let e : bit_xor y x * 2 % 2 ^ 16 ≡ bit_xor y (x % 2 ^ 15) * 2 =
            omega (arith, top, low, leb→le (2 ^ 15) x high) in
          let e' : x % 2 ^ 15 * 2 ≡ x * 2 % 2 ^ 16 = omega (arith, leb→le (2 ^ 15) x high) in
          let f = e ∙ twice y (x % 2 ^ 15) ∙ ap (bit_xor (y * 2)) e' in
          rw (high, high')
            (ap (λ t. bit_xor t 0x1021) f
              ∙ bit_xor_assoc 16 (y * 2) (x * 2 % 2 ^ 16) 0x1021 (omega arith) (omega arith)
                  (omega arith))
      | inr small ↦
          let small' : leb (2 ^ 15) (bit_xor y x) ≡ false = ground (arith, top, low) in
          rw (small, small') (twice y x)
    ]

crc16_bits-xor :
    (n y x : ℕ)
    → y * 2 ^ n < 2 ^ 16
    → x < 2 ^ 16
    → crc16_bits n (bit_xor y x) ≡ bit_xor (y * 2 ^ n) (crc16_bits n x)
crc16_bits-xor zero y x hy hx = ap (λ t. bit_xor t x) (omega arith)
crc16_bits-xor (suc n) y x hy hx =
    let e : y * 2 ^ suc n ≡ y * 2 * 2 ^ n = grind (arith, pow-suc 2 n) in
    let le : y * 2 ≤ y * 2 * 2 ^ n = grind (arith, one-le-pow n 2) in
    rw (e, crc16_bit-xor y x (omega arith) hx)
      (crc16_bits-xor n (y * 2) (crc16_bit x) (omega arith) (crc16_bit-lt x hx))

-- One byte: on the low 16 bits, the table does what eight rounds do.
crc16_byte :
    (crc c : ℕ)
    → crc < 2 ^ 16
    → c < 256
    → bit_xor (crc % 2 ^ 8 * 2 ^ 8) (entry crc16tab (bit_xor (crc / 2 ^ 8) c))
      ≡ crc16_bits 8 (bit_xor crc (c * 2 ^ 8))
crc16_byte crc c h hc =
    let hi = crc / 2 ^ 8 in
    let lo = crc % 2 ^ 8 in
    let i = bit_xor hi c in
    let i_small : i < 2 ^ 8 = bit_xor-lt 8 hi c (omega arith) (omega arith) in
    let parts : hi * 2 ^ 8 + lo ≡ crc = omega arith in
    let shifted : c * 2 ^ 8 + 0 ≡ c * 2 ^ 8 = omega arith in
    let whole : bit_xor crc (c * 2 ^ 8) ≡ i * 2 ^ 8 + lo = omega (
      arith,
      ap₂ bit_xor parts shifted,
      bit_xor_fields 8 hi lo c 0 (omega arith) (omega arith),
      bit_xor_zero_right 8 lo (omega arith),
    ) in
    let low : 0 * 2 ^ 8 + lo ≡ lo = omega arith in
    let high : i * 2 ^ 8 + 0 ≡ i * 2 ^ 8 = omega arith in
    let joined : bit_xor lo (i * 2 ^ 8) ≡ i * 2 ^ 8 + lo = omega (
      arith,
      ap₂ bit_xor low high,
      bit_xor_fields 8 0 lo i 0 (omega arith) (omega arith),
      bit_xor_zero_left i,
      bit_xor_zero_right 8 lo (omega arith),
    ) in
    ap (bit_xor (lo * 2 ^ 8)) (entry-crc16tab i i_small)
    ∙ sym (crc16_bits-xor 8 lo (i * 2 ^ 8) (omega arith) (omega arith))
    ∙ ap (crc16_bits 8) (joined ∙ sym whole)

entry-lt : (i : ℕ) → i < 256 → entry crc16tab i < 2 ^ 16
entry-lt i h = omega (arith, entry-crc16tab i h, crc16_bits-lt 8 (i * 2 ^ 8) (omega arith))

index_low :
    (crc c : ℕ)
    → crc < 2 ^ 32
    → c < 256
    → bit_xor (crc / 2 ^ 8) (widen 32 c) % 2 ^ 8 ≡ bit_xor (crc % 2 ^ 16 / 2 ^ 8) c
index_low crc c h hc =
    let hi = crc / 2 ^ 8 in
    let parts : hi / 2 ^ 8 * 2 ^ 8 + hi % 2 ^ 8 ≡ hi = omega arith in
    let wide : widen 32 c / 2 ^ 8 * 2 ^ 8 + c ≡ widen 32 c = ground arith in
    let same : crc % 2 ^ 16 / 2 ^ 8 ≡ hi % 2 ^ 8 = omega arith in
    omega (
      arith,
      ap₂ bit_xor parts wide,
      bit_xor_fields 8 (hi / 2 ^ 8) (hi % 2 ^ 8) (widen 32 c / 2 ^ 8) c (omega arith) (omega arith),
      bit_xor-lt 8 (hi % 2 ^ 8) c (omega arith) (omega arith),
      ap (λ t. bit_xor t c) same,
    )

crc16_round-low :
    (crc c : ℕ)
    → crc < 2 ^ 32
    → c < 256
    → (crc16_round crc c % 2 ^ 16 ≡ crc16_bits 8 (bit_xor (crc % 2 ^ 16) (c * 2 ^ 8)))
      × (crc16_round crc c < 2 ^ 32)
unfolding crc16_round
crc16_round-low crc c h hc =
    let i = bit_xor (crc / 2 ^ 8) (widen 32 c) % 2 ^ 8 in
    let t = entry crc16tab i in
    let small : t < 2 ^ 16 = entry-lt i (omega arith) in
    let shifted : shl crc 8 % 2 ^ 16 ≡ crc % 2 ^ 16 % 2 ^ 8 * 2 ^ 8 = omega arith in
    let kept : t % 2 ^ 16 ≡ t = omega arith in
    (
      bit_xor_mod_16 (shl crc 8) t
          ∙ ap₂ bit_xor shifted (kept ∙ ap (entry crc16tab) (index_low crc c h hc))
          ∙ crc16_byte (crc % 2 ^ 16) c (omega arith) hc,
      bit_xor-lt 32 (shl crc 8) t (omega arith) (omega arith),
    )

crc16_loop-low :
    (key : List ℕ) (crc : ℕ)
    → crc < 2 ^ 32
    → All (λ c. c < 256) key
    → crc16_loop key crc % 2 ^ 16 ≡ crc16_bitwise key (crc % 2 ^ 16)
unfolding crc16_loop
crc16_loop-low [] crc h bytes = refl
crc16_loop-low (c ∷ key) crc h bytes =
    let (low, bound) = crc16_round-low crc c h bytes.0 in
    crc16_loop-low key (crc16_round crc c) bound bytes.1 ∙ ap (crc16_bitwise key) low

-- On a key of bytes, the low 16 bits of `hash_crc16` are the CRC-16 of the standard.
pub hash_crc16-bitwise :
    (key : List ℕ) → All (λ c. c < 256) key → hash_crc16 key % 2 ^ 16 ≡ crc16_bitwise key 0
unfolding hash_crc16
hash_crc16-bitwise key bytes = crc16_loop-low key 0 (omega arith) bytes
