-- ===== src/Hash/Mix.antt =====
-- src/hashkit/gf_one_at_a_time.c, gf_hsieh.c and gf_murmur.c, on a little-endian machine.
use gfwproxy.Base.{ℕ, ◌+◌, ◌*◌, ◌/◌, ◌%◌, ◌^◌, List, [], ◌∷◌, length}
use gfwproxy.Hash.{◌^^^◌, shl, widen}

-- A sum of `uint32_t`.
abbrev pub add32 : ℕ → ℕ → ℕ
add32 a b = (a + b) % 2 ^ 32

one_at_a_time_loop : List ℕ → ℕ → ℕ
one_at_a_time_loop [] value = value
one_at_a_time_loop (c ∷ key) value =
    let v = add32 value (widen 32 c) in
    let v = add32 v (shl v 10) in one_at_a_time_loop key (v ^^^ v / 2 ^ 6)

unfoldable pub hash_one_at_a_time : List ℕ → ℕ
unfolding one_at_a_time_loop
hash_one_at_a_time key =
    let v = one_at_a_time_loop key 0 in
    let v = add32 v (shl v 3) in let v = v ^^^ v / 2 ^ 11 in add32 v (shl v 15)

-- `get16bits`: two bytes, the low one first.
abbrev get16bits : ℕ → ℕ → ℕ
get16bits a b = b * 2 ^ 8 + a

-- The main loop over four bytes at a time, and at its end the switch on the remaining bytes.
hsieh_loop : List ℕ → ℕ → ℕ
hsieh_loop [] hash = hash
hsieh_loop (a ∷ []) hash = let h = add32 hash a in let h = h ^^^ shl h 10 in add32 h (h / 2 ^ 1)
hsieh_loop (a ∷ b ∷ []) hash =
    let h = add32 hash (get16bits a b) in let h = h ^^^ shl h 11 in add32 h (h / 2 ^ 17)
hsieh_loop (a ∷ b ∷ c ∷ []) hash =
    let h = add32 hash (get16bits a b) in
    let h = h ^^^ shl h 16 in let h = h ^^^ shl (widen 32 c) 18 in add32 h (h / 2 ^ 11)
hsieh_loop (a ∷ b ∷ c ∷ d ∷ key) hash =
    let h = add32 hash (get16bits a b) in
    let tmp = shl (get16bits c d) 11 ^^^ h in
    let h = shl h 16 ^^^ tmp in hsieh_loop key (add32 h (h / 2 ^ 11))

unfoldable pub hash_hsieh : List ℕ → ℕ
unfolding hsieh_loop
hash_hsieh [] = 0
hash_hsieh (c ∷ key) =
    let h = hsieh_loop (c ∷ key) 0 in
    let h = h ^^^ shl h 3 in
    let h = add32 h (h / 2 ^ 5) in
    let h = h ^^^ shl h 4 in
    let h = add32 h (h / 2 ^ 17) in let h = h ^^^ shl h 25 in add32 h (h / 2 ^ 6)

abbrev murmur_m : ℕ
murmur_m = 0x5bd1e995

abbrev mul32 : ℕ → ℕ → ℕ
mul32 a b = a * b % 2 ^ 32

-- The loop over four bytes at a time, and at its end the switch, whose cases fall through.
murmur_loop : List ℕ → ℕ → ℕ
murmur_loop [] h = h
murmur_loop (a ∷ []) h = mul32 (h ^^^ a) murmur_m
murmur_loop (a ∷ b ∷ []) h = mul32 (h ^^^ shl b 8 ^^^ a) murmur_m
murmur_loop (a ∷ b ∷ c ∷ []) h = mul32 (h ^^^ shl c 16 ^^^ shl b 8 ^^^ a) murmur_m
murmur_loop (a ∷ b ∷ c ∷ d ∷ key) h =
    let k = mul32 (a + b * 2 ^ 8 + c * 2 ^ 16 + d * 2 ^ 24) murmur_m in
    let k = mul32 (k ^^^ k / 2 ^ 24) murmur_m in murmur_loop key (mul32 h murmur_m ^^^ k)

unfoldable pub hash_murmur : List ℕ → ℕ
unfolding murmur_loop
hash_murmur key =
    let seed = mul32 0xdeadbeef (length key % 2 ^ 32) in
    let h = murmur_loop key (seed ^^^ length key % 2 ^ 32) in
    let h = h ^^^ h / 2 ^ 13 in let h = mul32 h murmur_m in h ^^^ h / 2 ^ 15
