-- ===== src/Base/Bits/Step.antt =====
-- `&` and `|` from the lowest binary digit up: the native operations stand for a recursion with
-- fuel, and spare fuel changes nothing.
use Prim.Native.Nat.{
  ℕ, zero, suc, ◌+◌, ◌-◌, ◌*◌, ◌/◌, ◌%◌, ◌≤◌, min, max, bit_and, bit_or, digits, bitwise,
  bit_and-bitwise, bit_or-bitwise,
}
use mathlib.Core.Path.{◌≡◌, refl, sym, ap, ◌∙◌}
use native.Mathlib.Omega.{arith}

-- `n` with `spare` units of fuel on top.
abbrev refuel : (spare n : ℕ) → ℕ
refuel zero n = n
refuel (suc spare) n = suc (refuel spare n)

refuel-plus : (spare n : ℕ) → refuel spare n ≡ n + spare
refuel-plus zero n = omega arith
refuel-plus (suc spare) n = omega (arith, refuel-plus spare n)

module _ (past_end : ℕ → ℕ) (digit : ℕ → ℕ → ℕ) where
  one_more : (n a b : ℕ) → a ≤ n → digits past_end digit (suc n) a b ≡ digits past_end digit n a b
  one_more zero zero b enough = refl
  one_more (suc n) zero b enough = refl
  one_more zero (suc a) b enough = absurd (omega (arith, enough))
  one_more (suc n) (suc a) b enough =
      ap (λ rest. rest * 2 + digit (suc a % 2) (b % 2))
        (one_more n (suc a / 2) (b / 2) (omega (arith, enough)))

  more :
      (spare n a b : ℕ)
      → a ≤ n
      → digits past_end digit (refuel spare n) a b ≡ digits past_end digit n a b
  more zero n a b enough = refl
  more (suc spare) n a b enough =
      one_more (refuel spare n) a b (omega (arith, refuel-plus spare n, enough))
      ∙ more spare n a b enough

  halves :
      (a b : ℕ)
      → digits past_end digit a (suc a / 2) (b / 2) ≡ bitwise past_end digit (suc a / 2) (b / 2)
  halves a b =
      let half = suc a / 2 in
      ap (λ fuel. digits past_end digit fuel half (b / 2))
        (sym (refuel-plus (a - half) half ∙ omega arith))
      ∙ more (a - half) half half (b / 2) (omega arith)

pub bit_or-digit : (a b : ℕ) → bit_or a b ≡ max (a % 2) (b % 2) + 2 * bit_or (a / 2) (b / 2)
bit_or-digit zero b = omega (arith, bit_or-bitwise 0 b, bit_or-bitwise 0 (b / 2))
bit_or-digit (suc a) b = omega (
  arith,
  halves (λ rest. rest) max a b,
  bit_or-bitwise (suc a) b,
  bit_or-bitwise (suc a / 2) (b / 2),
)

pub none-bit_and : (b : ℕ) → bit_and 0 b ≡ 0
none-bit_and = bit_and-bitwise 0

pub bit_and-digit : (a b : ℕ) → bit_and a b ≡ min (a % 2) (b % 2) + 2 * bit_and (a / 2) (b / 2)
bit_and-digit zero b = omega (arith, none-bit_and b, none-bit_and (b / 2))
bit_and-digit (suc a) b = omega (
  arith,
  halves (λ rest. 0) min a b,
  bit_and-bitwise (suc a) b,
  bit_and-bitwise (suc a / 2) (b / 2),
)
