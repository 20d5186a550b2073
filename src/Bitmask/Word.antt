-- ===== src/Bitmask/Word.antt =====
-- One slot: the three macros and the search for a free bit.
use tag_aos.Base.{
  ℕ, zero, suc, ◌+◌, ◌^◌, ◌<◌, ◌≤◌, ◌≡◌, ◌≢◌, ap, ◌==◌, arith, inl, inr, ℤ, pos, negsuc,
  if◌then◌else◌, Bool-cases,
}
use native.Mathlib.Nat.{one-le-pow}
use tag_aos.Base.Bits.{
  bit, bit-le_one, bit-bit_and, bit-bit_or, bit-pow, bit-complement, complement, eq_of_bits,
  bit_or-lt, bit_and-lt, bit_and-pow, one-lt-pow,
}
use tag_aos.Bitmask.{check_bit, set_bit, clear_bit, free_bit_from, get_free_bit}

-- The test finds out the bit.
pub check_bit_zero : (m p : ℕ) → check_bit m p ≡ 0 → bit m p ≡ 0
check_bit_zero m p h = ground (arith, bit_and-pow m p, bit-le_one m p, one-le-pow p 2)

pub check_bit_ne_zero : (m p : ℕ) → check_bit m p ≢ 0 → bit m p ≡ 1
check_bit_ne_zero m p h = ground (arith, bit_and-pow m p, bit-le_one m p)

pub bit-set_bit : (m p q : ℕ) → bit (set_bit m p) q ≡ (if p == q then 1 else bit m q)
bit-set_bit m p q = ground (arith, bit-bit_or m (2 ^ p) q, bit-pow p q, bit-le_one m q)

pub set_bit-lt : (m p : ℕ) → m < 2 ^ 64 → p < 64 → set_bit m p < 2 ^ 64
set_bit-lt m p h lt = bit_or-lt 64 m (2 ^ p) h (one-lt-pow p 64 lt)

pub bit-clear_bit :
    (m p q : ℕ) → p < 64 → q < 64 → bit (clear_bit m p) q ≡ (if p == q then 0 else bit m q)
bit-clear_bit m p q hp hq = ground (
  arith,
  bit-bit_and m (complement 64 (2 ^ p)) q,
  bit-complement 64 (2 ^ p) q (one-lt-pow p 64 hp) hq,
  bit-pow p q,
  bit-le_one m q,
)

pub clear_bit-lt : (m p : ℕ) → m < 2 ^ 64 → clear_bit m p < 2 ^ 64
clear_bit-lt m p h = bit_and-lt 64 m (complement 64 (2 ^ p)) h

-- Clearing a bit that was just set gives back the word.
pub clear_bit-set_bit :
    (m p : ℕ) → m < 2 ^ 64 → p < 64 → bit m p ≡ 0 → clear_bit (set_bit m p) p ≡ m
clear_bit-set_bit m p h lt e =
    eq_of_bits 64 _ m (clear_bit-lt (set_bit m p) p (set_bit-lt m p h lt)) h λ q hq. same_bit q hq
  where
    same_bit : (q : ℕ) → q < 64 → bit (clear_bit (set_bit m p) p) q ≡ bit m q
    same_bit q hq = elim (Bool-cases (p == q)) [
      | inl same ↦
          let pq : p ≡ q = ground arith in
          ground (arith, bit-clear_bit (set_bit m p) p q lt hq, ap (bit m) pq)
      | inr other ↦ ground (arith, bit-clear_bit (set_bit m p) p q lt hq, bit-set_bit m p q)
    ]

-- What a search from `bit` over `left` bits returns.
pub data Search (m start stop : ℕ) : ℤ → Type 0 where
  found :
      {f : ℕ}
      → start ≤ f
      → f < stop
      → bit m f ≡ 0
      → ((q : ℕ) → start ≤ q → q < f → bit m q ≡ 1)
      → Search m start stop (pos f)
  missing : ((q : ℕ) → start ≤ q → q < stop → bit m q ≡ 1) → Search m start stop (negsuc 0)

Search-skip :
    {m start stop : ℕ} {r : ℤ}
    → bit m start ≡ 1
    → Search m (start + 1) stop r
    → Search m start stop r
Search-skip {m} {start} e (found {f} a b c d) = found (omega arith) b c λ q lo hi.
    elim (Bool-cases (start == q)) [
      | inl same ↦ let sq : start ≡ q = ground arith in ground (arith, ap (bit m) sq)
      | inr other ↦ d q (ground arith) hi
    ]
Search-skip {m} {start} e (missing d) = missing λ q lo hi. elim (Bool-cases (start == q)) [
  | inl same ↦ let sq : start ≡ q = ground arith in ground (arith, ap (bit m) sq)
  | inr other ↦ d q (ground arith) hi
]

free_bit_from-Search :
    (left start stop m : ℕ) → start + left ≡ stop → Search m start stop (free_bit_from left start m)
unfolding free_bit_from
free_bit_from-Search zero start stop m e = missing (λ q lo hi. absurd (omega arith))
free_bit_from-Search (suc left) start stop m e = elim (Bool-cases (check_bit m start == 0)) [
  | inl free ↦ rw free (
      found (omega arith) (omega arith) (check_bit_zero m start (ground arith))
        (λ q lo hi. absurd (omega arith)))
  | inr used ↦ rw used (
      Search-skip (check_bit_ne_zero m start (ground arith))
        (free_bit_from-Search left (start + 1) stop m (omega arith)))
]

pub get_free_bit-Search : (m n : ℕ) → Search m 0 n (get_free_bit m n)
unfolding get_free_bit
get_free_bit-Search m n = free_bit_from-Search n 0 n m (omega arith)
