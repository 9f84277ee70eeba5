-- ===== src/Hash/Fnv.antt =====
-- src/hashkit/gf_fnv.c.
use gfwproxy.Base.{ℕ, ◌*◌, ◌%◌, ◌^◌, ◌<◌, ◌≡◌, refl, sym, ap, ◌∙◌, List, [], ◌∷◌, arith, All}
use gfwproxy.Base.Bits.{bit_xor_mod_32}
use gfwproxy.Hash.{◌^^^◌, widen}

abbrev pub fnv_64_init : ℕ
fnv_64_init = 0xcbf29ce484222325

abbrev pub fnv_64_prime : ℕ
fnv_64_prime = 0x100000001b3

abbrev pub fnv_32_init : ℕ
fnv_32_init = 2166136261

abbrev pub fnv_32_prime : ℕ
fnv_32_prime = 16777619

-- The loop that multiplies by `prime` and then mixes in the byte, on `bits` bits.
pub fnv1_loop : ℕ → ℕ → List ℕ → ℕ → ℕ
fnv1_loop bits prime [] hash = hash
fnv1_loop bits prime (c ∷ key) hash =
    fnv1_loop bits prime key (hash * prime % 2 ^ bits ^^^ widen bits c)

-- The loop that mixes in the byte first.
pub fnv1a_loop : ℕ → ℕ → List ℕ → ℕ → ℕ
fnv1a_loop bits prime [] hash = hash
fnv1a_loop bits prime (c ∷ key) hash =
    fnv1a_loop bits prime key ((hash ^^^ widen bits c) * prime % 2 ^ bits)

pub hash_fnv1_64 : List ℕ → ℕ
unfolding fnv1_loop
hash_fnv1_64 key = fnv1_loop 64 fnv_64_prime key fnv_64_init % 2 ^ 32

-- It works on the low 32 bits of the 64-bit constants throughout.
pub hash_fnv1a_64 : List ℕ → ℕ
unfolding fnv1a_loop
hash_fnv1a_64 key = fnv1a_loop 32 (fnv_64_prime % 2 ^ 32) key (fnv_64_init % 2 ^ 32)

pub hash_fnv1_32 : List ℕ → ℕ
unfolding fnv1_loop
hash_fnv1_32 key = fnv1_loop 32 fnv_32_prime key fnv_32_init

unfoldable pub hash_fnv1a_32 : List ℕ → ℕ
unfolding fnv1a_loop
hash_fnv1a_32 key = fnv1a_loop 32 fnv_32_prime key fnv_32_init

widen_low : (c : ℕ) → c < 256 → widen 64 c % 2 ^ 32 ≡ widen 32 c
widen_low c h = ground arith

fnv1a_loop-low :
    (key : List ℕ) (hash : ℕ)
    → All (λ c. c < 256) key
    → fnv1a_loop 64 fnv_64_prime key hash % 2 ^ 32
      ≡ fnv1a_loop 32 (fnv_64_prime % 2 ^ 32) key (hash % 2 ^ 32)
unfolding fnv1a_loop
fnv1a_loop-low [] hash bytes = refl
fnv1a_loop-low (c ∷ key) hash bytes =
    let x = hash ^^^ widen 64 c in
    let low : x % 2 ^ 32 ≡ hash % 2 ^ 32 ^^^ widen 32 c =
      bit_xor_mod_32 hash (widen 64 c) ∙ ap (λ t. hash % 2 ^ 32 ^^^ t) (widen_low c bytes.0) in
    fnv1a_loop-low key (x * fnv_64_prime % 2 ^ 64) bytes.1
    ∙ ap (fnv1a_loop 32 (fnv_64_prime % 2 ^ 32) key) (omega (arith, low))

-- On a key of bytes, `hash_fnv1a_64`, though it computes with 32 bits, gives the low 32 bits of
-- the 64-bit FNV-1a hash.
pub hash_fnv1a_64-low :
    (key : List ℕ)
    → All (λ c. c < 256) key
    → hash_fnv1a_64 key ≡ fnv1a_loop 64 fnv_64_prime key fnv_64_init % 2 ^ 32
unfolding hash_fnv1a_64
hash_fnv1a_64-low key bytes = sym (fnv1a_loop-low key fnv_64_init bytes)
