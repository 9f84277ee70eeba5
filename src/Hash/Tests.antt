-- ===== src/Hash/Tests.antt =====
-- Known values of the hash functions.
use gfwproxy.Base.{ℕ, ◌-◌, ◌%◌, ◌^◌, ◌<◌, ◌≡◌, refl, List, [], ◌∷◌, arith, All}
use gfwproxy.Hash.{◌^^^◌}
use gfwproxy.Hash.Crc16.{hash_crc16}
use gfwproxy.Hash.Crc16.Bitwise.{crc16_bitwise, hash_crc16-bitwise}
use gfwproxy.Hash.Crc32.{hash_crc32, hash_crc32a}
use gfwproxy.Hash.Crc32.Bitwise.{crc32_bitwise, hash_crc32a-bitwise}
use gfwproxy.Hash.Fnv.{hash_fnv1a_32}
use gfwproxy.Hash.Mix.{hash_one_at_a_time, hash_hsieh, hash_murmur}

abbrev digits : List ℕ
digits = b'1' ∷ b'2' ∷ b'3' ∷ b'4' ∷ b'5' ∷ b'6' ∷ b'7' ∷ b'8' ∷ b'9' ∷ []

abbrev digits_bytes : All (λ c. c < 256) digits
digits_bytes = (
  omega arith,
  (
    omega arith,
    (
      omega arith,
      (omega arith, (omega arith, (omega arith, (omega arith, (omega arith, (omega arith, tt)))))),
    ),
  ),
)

-- The check values of the standards.
crc32_check : hash_crc32a digits ≡ 0xcbf43926
unfolding hash_crc32a
crc32_check = refl

fnv1a_32_check : hash_fnv1a_32 (b'a' ∷ []) ≡ 0xe40c292c
unfolding hash_fnv1a_32
fnv1a_32_check = refl

one_at_a_time_check : hash_one_at_a_time (b'a' ∷ []) ≡ 0xca2e9442
unfolding hash_one_at_a_time
one_at_a_time_check = refl

crc16_check : hash_crc16 digits % 2 ^ 16 ≡ 0x31c3
unfolding hash_crc16
crc16_check = refl

-- The accumulator is not cut to 16 bits.
crc16_wide : 2 ^ 16 < hash_crc16 digits
unfolding hash_crc16
crc16_wide = omega arith

crc32_bits_check : hash_crc32 digits ≡ 0x4bf4
unfolding hash_crc32
crc32_bits_check = refl

murmur_check : hash_murmur [] ≡ 0
unfolding hash_murmur
murmur_check = refl

hsieh_check : hash_hsieh [] ≡ 0
unfolding hash_hsieh
hsieh_check = refl

hash_crc32a-bitwise_example :
    hash_crc32a digits ≡ crc32_bitwise digits (2 ^ 32 - 1) ^^^ (2 ^ 32 - 1)
hash_crc32a-bitwise_example = hash_crc32a-bitwise digits digits_bytes

hash_crc16-bitwise_example : hash_crc16 digits % 2 ^ 16 ≡ crc16_bitwise digits 0
hash_crc16-bitwise_example = hash_crc16-bitwise digits digits_bytes
