-- ===== src/Base/Bits.antt =====
-- Exclusive or at variables: the equation for the lowest digit, and the laws that follow.
use Prim.Native.Nat.{
  ℕ, zero, suc, ◌+◌, ◌-◌, ◌*◌, ◌/◌, ◌%◌, ◌^◌, ◌≤◌, ◌<◌, bit_xor, differ, digits, bit_xor-bitwise,
}
use mathlib.Core.Path.{◌≡◌, refl, sym, ◌∙◌, ap, ap₂}
use gfwproxy.Base.Tests.{◌==◌, ==_iff, Bool-cases}
use mathlib.Core.Logic.{inl, inr}
use mathlib.Core.Bool.{Bool, true, ◌&&◌}
use native.Mathlib.Omega.{arith}
use native.Mathlib.Nat.{pow-suc, one-le-pow}

-- The recursion that `bit_xor` stands for, on a count of digits to go.
abbrev xor_rounds : ℕ → ℕ → ℕ → ℕ
xor_rounds count a b = digits (λ rest. rest) differ count a b

no_digits : (count b : ℕ) → xor_rounds count 0 b ≡ b
no_digits zero b = refl
no_digits (suc count) b = refl

-- A count that is large enough may be larger.
rounds_more : (few many a b : ℕ) → a ≤ few → few ≤ many → xor_rounds many a b ≡ xor_rounds few a b
rounds_more few many zero b h le = no_digits many b ∙ sym (no_digits few b)
rounds_more zero many (suc a) b h le = absurd (omega arith)
rounds_more (suc few) zero (suc a) b h le = absurd (omega arith)
rounds_more (suc few) (suc many) (suc a) b h le =
    ap (λ t. t * 2 + differ (suc a % 2) (b % 2))
      (rounds_more few many (suc a / 2) (b / 2) (omega arith) (omega arith))

digit_sum : (x y : ℕ) → x < 2 → y < 2 → differ x y ≡ (x + y) % 2
digit_sum zero y hx hy = omega arith
digit_sum (suc zero) zero hx hy = refl
digit_sum (suc zero) (suc zero) hx hy = refl
digit_sum (suc zero) (suc (suc y)) hx hy = absurd (omega arith)
digit_sum (suc (suc x)) y hx hy = absurd (omega arith)

pub bit_xor_step : (a b : ℕ) → bit_xor a b ≡ bit_xor (a / 2) (b / 2) * 2 + (a + b) % 2
bit_xor_step zero b = simp bit_xor-bitwise (omega arith)
bit_xor_step (suc a) b =
    let half = suc a / 2 in
    simp bit_xor-bitwise (
      omega (
        arith,
        rounds_more half a half (b / 2) (omega arith) (omega arith),
        digit_sum (suc a % 2) (b % 2) (omega arith) (omega arith),
      ))

pub bit_xor-lt : (k a b : ℕ) → a < 2 ^ k → b < 2 ^ k → bit_xor a b < 2 ^ k
bit_xor-lt zero zero zero ha hb = omega arith
bit_xor-lt zero (suc a) b ha hb = absurd (omega arith)
bit_xor-lt zero zero (suc b) ha hb = absurd (omega arith)
bit_xor-lt (suc k) a b ha hb = omega (
  arith,
  pow-suc 2 k,
  bit_xor_step a b,
  bit_xor-lt k (a / 2) (b / 2) (omega (arith, pow-suc 2 k)) (omega (arith, pow-suc 2 k)),
)

pub bit_xor_zero_left : (b : ℕ) → bit_xor 0 b ≡ b
bit_xor_zero_left b = simp bit_xor-bitwise refl

pub bit_xor_zero_right : (k a : ℕ) → a < 2 ^ k → bit_xor a 0 ≡ a
bit_xor_zero_right zero zero h = refl
bit_xor_zero_right zero (suc a) h = absurd (omega arith)
bit_xor_zero_right (suc k) a h =
    omega (arith, bit_xor_step a 0, bit_xor_zero_right k (a / 2) (omega (arith, pow-suc 2 k)))

shift_once : (k high : ℕ) → high * 2 ^ suc k ≡ high * 2 ^ k + high * 2 ^ k
shift_once k high = grind (arith, pow-suc 2 k)

-- The low digits of the result come from the low digits of the arguments, and the high from the
-- high.
pub bit_xor_fields :
    (k q r q' r' : ℕ)
    → r < 2 ^ k
    → r' < 2 ^ k
    → bit_xor (q * 2 ^ k + r) (q' * 2 ^ k + r') ≡ bit_xor q q' * 2 ^ k + bit_xor r r'
bit_xor_fields zero q r q' r' h h' =
    let e : q * 2 ^ 0 + r ≡ q = omega arith in
    let e' : q' * 2 ^ 0 + r' ≡ q' = omega arith in
    let z : r ≡ 0 = omega arith in
    let z' : r' ≡ 0 = omega arith in ap₂ bit_xor e e' ∙ omega (arith, ap₂ bit_xor z z')
bit_xor_fields (suc k) q r q' r' h h' =
    let p = shift_once k q in
    let p' = shift_once k q' in
    let a : (q * 2 ^ suc k + r) / 2 ≡ q * 2 ^ k + r / 2 = omega arith in
    let a' : (q' * 2 ^ suc k + r') / 2 ≡ q' * 2 ^ k + r' / 2 = omega arith in
    omega (
      arith,
      bit_xor_step (q * 2 ^ suc k + r) (q' * 2 ^ suc k + r'),
      ap₂ bit_xor a a',
      bit_xor_step r r',
      shift_once k (bit_xor q q'),
      bit_xor_fields k q (r / 2) q' (r' / 2) (omega (arith, pow-suc 2 k))
          (omega (arith, pow-suc 2 k)),
    )

pub bit_xor_mod_32 : (a b : ℕ) → bit_xor a b % 2 ^ 32 ≡ bit_xor (a % 2 ^ 32) (b % 2 ^ 32)
bit_xor_mod_32 a b =
    let e : a / 2 ^ 32 * 2 ^ 32 + a % 2 ^ 32 ≡ a = omega arith in
    let e' : b / 2 ^ 32 * 2 ^ 32 + b % 2 ^ 32 ≡ b = omega arith in
    omega (
      arith,
      ap₂ bit_xor e e',
      bit_xor_fields 32 (a / 2 ^ 32) (a % 2 ^ 32) (b / 2 ^ 32) (b % 2 ^ 32) (omega arith)
          (omega arith),
      bit_xor-lt 32 (a % 2 ^ 32) (b % 2 ^ 32) (omega arith) (omega arith),
    )

pub bit_xor_mod_16 : (a b : ℕ) → bit_xor a b % 2 ^ 16 ≡ bit_xor (a % 2 ^ 16) (b % 2 ^ 16)
bit_xor_mod_16 a b =
    let e : a / 2 ^ 16 * 2 ^ 16 + a % 2 ^ 16 ≡ a = omega arith in
    let e' : b / 2 ^ 16 * 2 ^ 16 + b % 2 ^ 16 ≡ b = omega arith in
    omega (
      arith,
      ap₂ bit_xor e e',
      bit_xor_fields 16 (a / 2 ^ 16) (a % 2 ^ 16) (b / 2 ^ 16) (b % 2 ^ 16) (omega arith)
          (omega arith),
      bit_xor-lt 16 (a % 2 ^ 16) (b % 2 ^ 16) (omega arith) (omega arith),
    )

pub bit_xor_comm : (k a b : ℕ) → a < 2 ^ k → b < 2 ^ k → bit_xor a b ≡ bit_xor b a
bit_xor_comm zero a b ha hb =
    let za : a ≡ 0 = omega arith in let zb : b ≡ 0 = omega arith in rw (za, zb) refl
bit_xor_comm (suc k) a b ha hb = omega (
  arith,
  pow-suc 2 k,
  bit_xor_step a b,
  bit_xor_step b a,
  bit_xor_comm k (a / 2) (b / 2) (omega (arith, pow-suc 2 k)) (omega (arith, pow-suc 2 k)),
)

pub bit_xor_assoc :
    (k a b c : ℕ)
    → a < 2 ^ k
    → b < 2 ^ k
    → c < 2 ^ k
    → bit_xor (bit_xor a b) c ≡ bit_xor a (bit_xor b c)
bit_xor_assoc zero a b c ha hb hc =
    let za : a ≡ 0 = omega arith in
    let zb : b ≡ 0 = omega arith in let zc : c ≡ 0 = omega arith in rw (za, zb, zc) refl
bit_xor_assoc (suc k) a b c ha hb hc =
    let p = pow-suc 2 k in
    let ih =
      bit_xor_assoc k (a / 2) (b / 2) (c / 2) (omega (arith, p)) (omega (arith, p))
        (omega (arith, p)) in
    let l : bit_xor a b / 2 ≡ bit_xor (a / 2) (b / 2) = omega (arith, bit_xor_step a b) in
    let r : bit_xor b c / 2 ≡ bit_xor (b / 2) (c / 2) = omega (arith, bit_xor_step b c) in
    omega (
      arith,
      bit_xor_step (bit_xor a b) c,
      bit_xor_step a (bit_xor b c),
      ap (λ t. bit_xor t (c / 2)) l,
      ap (bit_xor (a / 2)) r,
      bit_xor_step a b,
      bit_xor_step b c,
      ih,
    )

pub bit_xor_ones : (k x : ℕ) → x < 2 ^ k → bit_xor x (2 ^ k - 1) ≡ 2 ^ k - 1 - x
bit_xor_ones zero x h = let z : x ≡ 0 = omega arith in rw z refl
bit_xor_ones (suc k) x h =
    let p = pow-suc 2 k in
    let e : (2 ^ suc k - 1) / 2 ≡ 2 ^ k - 1 = omega (arith, p, one-le-pow k 2) in
    omega (
      arith,
      p,
      bit_xor_step x (2 ^ suc k - 1),
      ap (bit_xor (x / 2)) e,
      bit_xor_ones k (x / 2) (omega (arith, p)),
      one-le-pow k 2,
    )

-- What a test says of each number below a bound, found by evaluation.
abbrev pub holds_below : (ℕ → Bool) → ℕ → Bool
holds_below test zero = true
holds_below test (suc bound) = holds_below test bound && test bound

pub holds_below-at :
    (test : ℕ → Bool) (bound i : ℕ) → i < bound → holds_below test bound ≡ true → test i ≡ true
holds_below-at test zero i lt h = absurd (omega arith)
holds_below-at test (suc bound) i lt h = elim (Bool-cases (i == bound)) [
  | inl e ↦ let e' : i ≡ bound = (==_iff i bound).0 e in rw e' (ground arith)
  | inr ne ↦ holds_below-at test bound i (ground arith) (ground arith)
]
