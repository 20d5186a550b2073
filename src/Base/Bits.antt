-- ===== src/Base/Bits.antt =====
-- `&`, `|` and `~` on machine words, bit by bit. The native operations have no laws at variables
-- but their definition by digits, from which these follow.
mod Step
use Step.{bit_or-digit, bit_and-digit}
use Prim.Native.Nat.{
  ℕ, zero, suc, ◌+◌, ◌-◌, ◌*◌, ◌/◌, ◌%◌, ◌^◌, ◌≤◌, ◌<◌, min, max, bit_and, bit_or,
}
use mathlib.Core.Path.{◌≡◌, refl, sym, ap}
use native.Mathlib.Omega.{arith}
use native.Mathlib.Nat.{pow-suc, one-le-pow}
use tag_aos.Base.Tests.{◌==◌, if◌then◌else◌}

-- Bit `q` of a word, 0 or 1.
unfoldable pub bit : ℕ → ℕ → ℕ
bit a zero = a % 2
bit a (suc q) = bit (a / 2) q

pub bit-le_one : (a q : ℕ) → bit a q ≤ 1
unfolding bit
bit-le_one a zero = omega arith
bit-le_one a (suc q) = bit-le_one (a / 2) q

pub bit-bit_and : (a b q : ℕ) → bit (bit_and a b) q ≡ min (bit a q) (bit b q)
unfolding bit
bit-bit_and a b zero = omega (arith, bit_and-digit a b)
bit-bit_and a b (suc q) = rw (half) (bit-bit_and (a / 2) (b / 2) q)
  where
    half : bit_and a b / 2 ≡ bit_and (a / 2) (b / 2)
    half = omega (arith, bit_and-digit a b)

pub bit-bit_or : (a b q : ℕ) → bit (bit_or a b) q ≡ max (bit a q) (bit b q)
unfolding bit
bit-bit_or a b zero = omega (arith, bit_or-digit a b)
bit-bit_or a b (suc q) = rw (half) (bit-bit_or (a / 2) (b / 2) q)
  where
    half : bit_or a b / 2 ≡ bit_or (a / 2) (b / 2)
    half = omega (arith, bit_or-digit a b)

pub bit-zero : (q : ℕ) → bit 0 q ≡ 0
unfolding bit
bit-zero zero = refl
bit-zero (suc q) = bit-zero q

-- `1ULL << p` has the bit `p` and no other.
pub bit-pow : (p q : ℕ) → bit (2 ^ p) q ≡ (if p == q then 1 else 0)
unfolding bit
bit-pow zero zero = refl
bit-pow zero (suc q) = rw bit-zero (ground arith)
bit-pow (suc p) zero = ground (arith, pow-suc 2 p)
bit-pow (suc p) (suc q) = rw half (ground (arith, bit-pow p q))
  where
    half : 2 ^ suc p / 2 ≡ 2 ^ p
    half = omega (arith, pow-suc 2 p)

-- `~` on `w` bits.
abbrev pub complement : ℕ → ℕ → ℕ
complement w x = 2 ^ w - 1 - x

pub bit-complement : (w x q : ℕ) → x < 2 ^ w → q < w → bit (complement w x) q ≡ 1 - bit x q
unfolding bit
bit-complement zero x q h lt = absurd (omega arith)
bit-complement (suc w) x zero h lt = omega (arith, pow-suc 2 w)
bit-complement (suc w) x (suc q) h lt =
    rw half (bit-complement w (x / 2) q (omega (arith, pow-suc 2 w)) (omega arith))
  where
    half : complement (suc w) x / 2 ≡ complement w (x / 2)
    half = omega (arith, pow-suc 2 w)

-- A word is known by its bits.
pub eq_of_bits : (w a b : ℕ) → a < 2 ^ w → b < 2 ^ w → ((q : ℕ) → q < w → bit a q ≡ bit b q) → a ≡ b
unfolding bit
eq_of_bits zero a b p q h = omega arith
eq_of_bits (suc w) a b p q h = omega (
  arith,
  h 0 (omega arith),
  eq_of_bits w (a / 2) (b / 2) (omega (arith, pow-suc 2 w)) (omega (arith, pow-suc 2 w))
      (λ r lt. h (suc r) (omega arith)),
)

pub bit_or-lt : (w a b : ℕ) → a < 2 ^ w → b < 2 ^ w → bit_or a b < 2 ^ w
bit_or-lt zero a b p q = omega (arith, ap (λ (t : ℕ). bit_or t b) az, ap (λ (t : ℕ). bit_or 0 t) bz)
  where
    az : a ≡ 0
    az = omega arith

    bz : b ≡ 0
    bz = omega arith
bit_or-lt (suc w) a b p q = omega (
  arith,
  bit_or-digit a b,
  pow-suc 2 w,
  bit_or-lt w (a / 2) (b / 2) (omega (arith, pow-suc 2 w)) (omega (arith, pow-suc 2 w)),
)

pub bit_and-lt : (w a b : ℕ) → a < 2 ^ w → bit_and a b < 2 ^ w
bit_and-lt zero a b p = omega (arith, ap (λ (t : ℕ). bit_and t b) az, zero_and)
  where
    az : a ≡ 0
    az = omega arith

    zero_and : bit_and 0 b ≡ 0
    zero_and = Step.none-bit_and b
bit_and-lt (suc w) a b p = omega (
  arith,
  bit_and-digit a b,
  pow-suc 2 w,
  bit_and-lt w (a / 2) (b / 2) (omega (arith, pow-suc 2 w)),
)

pub zero-bit_or : bit_or 0 0 ≡ 0
zero-bit_or = refl

bit_and-zero : (a : ℕ) → bit_and a 0 ≡ 0
bit_and-zero a =
    eq_of_bits a (bit_and a 0) 0 (bit_and-lt a a 0 (lt_pow a)) (one-le-pow a 2 (omega arith))
      (λ q lt. omega (arith, bit-bit_and a 0 q, bit-zero q))
  where
    lt_pow : (n : ℕ) → n < 2 ^ n
    lt_pow zero = omega arith
    lt_pow (suc n) = omega (arith, lt_pow n, pow-suc 2 n)

-- `mask & (1ULL << p)`: the bit in its place.
pub bit_and-pow : (a p : ℕ) → bit_and a (2 ^ p) ≡ bit a p * 2 ^ p
unfolding bit
bit_and-pow a zero = omega (arith, bit_and-digit a 1, bit_and-zero (a / 2))
bit_and-pow a (suc p) = omega (
  arith,
  bit_and-digit a (2 ^ suc p),
  pow-suc 2 p,
  ap (λ (t : ℕ). bit_and (a / 2) t) half,
  bit_and-pow (a / 2) p,
  ap (λ (t : ℕ). bit (a / 2) p * t) (pow-suc 2 p),
)
  where
    half : 2 ^ suc p / 2 ≡ 2 ^ p
    half = omega (arith, pow-suc 2 p)

pub one-lt-pow : (p w : ℕ) → p < w → 2 ^ p < 2 ^ w
one-lt-pow p zero h = absurd (omega arith)
one-lt-pow zero (suc w) h = omega (arith, pow-suc 2 w, one-le-pow w 2)
one-lt-pow (suc p) (suc w) h = omega (arith, pow-suc 2 w, pow-suc 2 p, one-lt-pow p w (omega arith))
