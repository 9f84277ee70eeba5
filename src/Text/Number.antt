-- ===== src/Text/Number.antt =====
-- `_gf_atoi` and `_safe_utoa`: what they accept, and the round trip between them.
use native.Mathlib.Nat.{pow-suc}
use gfwproxy.Base.{
  ℕ, zero, suc, ◌+◌, ◌-◌, ◌*◌, ◌/◌, ◌%◌, ◌^◌, ◌<◌, ◌≤◌, ◌≡◌, refl, sym, subst, ◌∙◌, ap, Bool, true,
  false, ◌&&◌, Option, none, some, List, [], ◌∷◌, arith, length, if◌then◌else◌, Bool-cases, inl,
  inr, ◌==◌, ltb,
}
use gfwproxy.Text.{is_digit, atoi_loop, atoi, valid_port, hex, utoa_loop, safe_utoa}

-- The number that decimal digits stand for, read on from `v`.
abbrev pub decimal : List ℕ → ℕ → ℕ
decimal [] v = v
decimal (c ∷ cs) v = decimal cs (v * 10 + (c - b'0'))

abbrev pub all_digits : List ℕ → Bool
all_digits [] = true
all_digits (c ∷ cs) = is_digit c && all_digits cs

abbrev pub is_number : List ℕ → Bool
is_number [] = false
is_number (c ∷ cs) = all_digits (c ∷ cs)

decimal-mod :
    (cs : List ℕ) (u v : ℕ)
    → u % 2 ^ 32 ≡ v % 2 ^ 32
    → decimal cs u % 2 ^ 32 ≡ decimal cs v % 2 ^ 32
decimal-mod [] u v h = h
decimal-mod (c ∷ cs) u v h =
    decimal-mod cs (u * 10 + (c - b'0')) (v * 10 + (c - b'0')) (omega arith)

atoi_loop-digits :
    (cs : List ℕ) (v : ℕ)
    → v < 2 ^ 32
    → all_digits cs ≡ true
    → atoi_loop cs v ≡ some (decimal cs v % 2 ^ 32)
unfolding atoi_loop
atoi_loop-digits [] v h d = ap some (omega arith)
atoi_loop-digits (c ∷ cs) v h d = ground (
  arith,
  atoi_loop-digits cs ((v * 10 + (c - b'0')) % 2 ^ 32) (omega arith),
  decimal-mod cs ((v * 10 + (c - b'0')) % 2 ^ 32) (v * 10 + (c - b'0')) (omega arith),
)

atoi_loop-none : (cs : List ℕ) (v : ℕ) → all_digits cs ≡ false → atoi_loop cs v ≡ none
unfolding atoi_loop
atoi_loop-none [] v d = cc
atoi_loop-none (c ∷ cs) v d = ground (arith, atoi_loop-none cs ((v * 10 + (c - b'0')) % 2 ^ 32))

abbrev pub as_int : ℕ → Option ℕ
as_int v = if ltb (v % 2 ^ 32) (2 ^ 31) then some (v % 2 ^ 32) else none

-- On every text: a text of digits alone gives its value modulo 2^32 where that is a non-negative
-- `int` and -1 where it is not, and any other text, the empty one included, gives -1.
pub atoi_lem : (cs : List ℕ) → atoi cs ≡ (if is_number cs then as_int (decimal cs 0) else none)
unfolding atoi
atoi_lem [] = refl
atoi_lem (c ∷ cs) = elim (Bool-cases (all_digits (c ∷ cs))) [
  | inl d ↦ rw (d, atoi_loop-digits (c ∷ cs) 0 (omega arith) d) (ground arith)
  | inr n ↦ rw (n, atoi_loop-none (c ∷ cs) 0 n)
]

two_pow_suc : (r n : ℕ) → n < 2 ^ suc r → n / 10 < 2 ^ r
two_pow_suc r n h = omega (arith, pow-suc 2 r)

hex_digit : (n : ℕ) → hex (n % 10) ≡ b'0' + n % 10
unfolding hex
hex_digit n = ground arith

decimal-utoa_loop :
    (r n : ℕ) (buf : List ℕ) → n < 2 ^ r → decimal (utoa_loop r 10 n buf) 0 ≡ decimal buf n
unfolding utoa_loop
decimal-utoa_loop zero n buf h = ap (decimal buf) (omega arith)
decimal-utoa_loop (suc r) n buf h = elim (Bool-cases (n / 10 == 0)) [
  | inl z ↦ rw (z, hex_digit n) (ap (decimal buf) (ground arith))
  | inr nz ↦ rw nz (
      decimal-utoa_loop r (n / 10) (hex (n % 10) ∷ buf) (two_pow_suc r n h)
      ∙ ap (decimal buf) (omega (arith, hex_digit n)))
]

all_digits-utoa_loop :
    (r n : ℕ) (buf : List ℕ) → all_digits buf ≡ true → all_digits (utoa_loop r 10 n buf) ≡ true
unfolding utoa_loop
all_digits-utoa_loop zero n buf h = h
all_digits-utoa_loop (suc r) n buf h =
    ground (arith, hex_digit n, all_digits-utoa_loop r (n / 10) (hex (n % 10) ∷ buf))

is_number-utoa_loop :
    (r n : ℕ) (buf : List ℕ) → is_number buf ≡ true → is_number (utoa_loop r 10 n buf) ≡ true
unfolding utoa_loop
is_number-utoa_loop zero n buf h = h
is_number-utoa_loop (suc r) n [] h = cc
is_number-utoa_loop (suc r) n (b ∷ buf) h =
    ground (arith, hex_digit n, is_number-utoa_loop r (n / 10) (hex (n % 10) ∷ b ∷ buf))

is_number-utoa_loop_nil : (r n : ℕ) → is_number (utoa_loop (suc r) 10 n []) ≡ true
unfolding utoa_loop
is_number-utoa_loop_nil r n =
    ground (arith, hex_digit n, is_number-utoa_loop r (n / 10) (hex (n % 10) ∷ []))

pub is_number-safe_utoa : (n : ℕ) → is_number (safe_utoa 10 n) ≡ true
unfolding safe_utoa
is_number-safe_utoa n = is_number-utoa_loop_nil 63 n

-- What `_safe_utoa` prints in base 10 for a number below 2^31, `_gf_atoi` reads back.
pub atoi-safe_utoa : (n : ℕ) → n < 2 ^ 31 → atoi (safe_utoa 10 n) ≡ some n
unfolding safe_utoa
atoi-safe_utoa n h =
    rw (atoi_lem, is_number-safe_utoa n, decimal-utoa_loop 64 n [] (omega arith)) (ground arith)

length-utoa_loop :
    (k r n : ℕ) (buf : List ℕ) → n < 10 ^ suc k → length (utoa_loop r 10 n buf) ≤ suc k + length buf
unfolding utoa_loop
length-utoa_loop k zero n buf h = omega arith
length-utoa_loop zero (suc r) n buf h = ground arith
length-utoa_loop (suc k) (suc r) n buf h =
    ground (arith, pow-suc 10 (suc k), length-utoa_loop k r (n / 10) (hex (n % 10) ∷ buf))

-- A `uint64_t` in base 10 takes at most 20 characters, so that with the final NUL it fits the
-- 22 bytes of `buff` in `_safe_vsnprintf`.
pub length-safe_utoa : (n : ℕ) → n < 2 ^ 64 → length (safe_utoa 10 n) + 1 ≤ 22
unfolding safe_utoa
length-safe_utoa n h = omega (arith, length-utoa_loop 19 64 n [] (omega arith))

pub valid_port_lt : (n : ℕ) → valid_port n ≡ true → n < 2 ^ 16
unfolding valid_port
valid_port_lt n h = ground arith

as_int_lt : (v n : ℕ) → as_int v ≡ some n → n < 2 ^ 31
as_int_lt v n h = ground arith

-- What `_gf_atoi` gives, if not -1, is an `int` that is not negative.
pub atoi_lt : (cs : List ℕ) (n : ℕ) → atoi cs ≡ some n → n < 2 ^ 31
atoi_lt cs n h =
    let e : (if is_number cs then as_int (decimal cs 0) else none) ≡ some n =
      sym (atoi_lem cs) ∙ h in
    elim (Bool-cases (is_number cs)) [
      | inl t ↦
          as_int_lt (decimal cs 0) n
            (subst (λ b. (if b then as_int (decimal cs 0) else none) ≡ some n) t e)
      | inr t ↦ absurd (cc (e, ap (λ b. if b then as_int (decimal cs 0) else none) t))
    ]
