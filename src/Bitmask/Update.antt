-- ===== src/Bitmask/Update.antt =====
-- Writes to one slot of a bitmask, seen through the abstract view `taken`.
use tag_aos.Base.{
  ℕ, ◌/◌, ◌%◌, ◌^◌, ◌<◌, ◌≡◌, refl, ap, ◌∙◌, ◌==◌, ==_iff, arith, inl, inr, if◌then◌else◌,
  Bool-cases, true, false, not, length, get_or, set, get_or-set, length-set, set-set_self,
  get_or-set-lt,
}
use tag_aos.Base.Bits.{bit}
use tag_aos.Bitmask.{Bitmask, set_bit, clear_bit, taken, IsValid}
use tag_aos.Bitmask.Word.{bit-set_bit, set_bit-lt, bit-clear_bit, clear_bit-lt, clear_bit-set_bit}

-- The bitmask with number `n` handed out.
unfoldable pub mark : Bitmask → ℕ → Bitmask
mark b n = record b { mask = set b.mask (n / 64) (set_bit (get_or b.mask (n / 64) 0) (n % 64)) }

-- The bitmask with number `n` given back.
unfoldable pub unmark : Bitmask → ℕ → Bitmask
unmark b n = record b { mask = set b.mask (n / 64) (clear_bit (get_or b.mask (n / 64) 0) (n % 64)) }

slot_in_range : (b : Bitmask) (n : ℕ) → IsValid b → n < b.n_bits → n / 64 < length b.mask
slot_in_range b n v h = omega (arith, v.covered, v.sized)

-- A new word whose bits differ from the old one's at `n % 64` only.
taken-write :
    (b : Bitmask) (n m w v : ℕ)
    → n / 64 < length b.mask
    → bit w (m % 64) ≡ (if n % 64 == m % 64 then v else bit (get_or b.mask (n / 64) 0) (m % 64))
    → taken (record b { mask = set b.mask (n / 64) w }) m
      ≡ (if n == m then not (v == 0) else taken b m)
unfolding taken
taken-write b n m w v lt e = elim (Bool-cases (n / 64 == m / 64)) [
  | inl same ↦
      let sq : n / 64 ≡ m / 64 = ground arith in
      rw (get_or-set b.mask (n / 64) (m / 64) w 0 lt, same, e)
        (elim (Bool-cases (n % 64 == m % 64)) [
          | inl same' ↦ let nm : n ≡ m = ground arith in ground arith
          | inr other' ↦ rw (other', sq) (ground arith)
        ])
  | inr other ↦ rw (get_or-set b.mask (n / 64) (m / 64) w 0 lt, other) (ground arith)
]

pub taken-mark :
    (b : Bitmask) (n m : ℕ)
    → IsValid b
    → n < b.n_bits
    → taken (mark b n) m ≡ (if n == m then true else taken b m)
unfolding mark
taken-mark b n m v h =
    taken-write b n m (set_bit (get_or b.mask (n / 64) 0) (n % 64)) 1 (slot_in_range b n v h)
      (bit-set_bit (get_or b.mask (n / 64) 0) (n % 64) (m % 64))

pub taken-unmark :
    (b : Bitmask) (n m : ℕ)
    → IsValid b
    → n < b.n_bits
    → taken (unmark b n) m ≡ (if n == m then false else taken b m)
unfolding unmark
taken-unmark b n m v h =
    taken-write b n m (clear_bit (get_or b.mask (n / 64) 0) (n % 64)) 0 (slot_in_range b n v h)
      (bit-clear_bit (get_or b.mask (n / 64) 0) (n % 64) (m % 64) (omega arith) (omega arith))

-- A write of a 64-bit word keeps the array well formed.
write-IsValid :
    (b : Bitmask) (n w : ℕ)
    → IsValid b
    → w < 2 ^ 64
    → IsValid (record b { mask = set b.mask (n / 64) w })
write-IsValid b n w v h = record {
  per_slot = v.per_slot;
  covered = v.covered;
  sized = length-set b.mask (n / 64) w ∙ v.sized;
  words = λ i. words_after i;
}
  where
    words_after : (i : ℕ) → get_or (set b.mask (n / 64) w) i 0 < 2 ^ 64
    words_after i = get_or-set-lt b.mask (n / 64) w i (2 ^ 64) v.words h

pub mark-IsValid : (b : Bitmask) (n : ℕ) → IsValid b → IsValid (mark b n)
unfolding mark
mark-IsValid b n v =
    write-IsValid b n _ v
      (set_bit-lt (get_or b.mask (n / 64) 0) (n % 64) (v.words (n / 64)) (omega arith))

pub unmark-IsValid : (b : Bitmask) (n : ℕ) → IsValid b → IsValid (unmark b n)
unfolding unmark
unmark-IsValid b n v =
    write-IsValid b n _ v (clear_bit-lt (get_or b.mask (n / 64) 0) (n % 64) (v.words (n / 64)))

-- Giving back a number that was just handed out restores every word.
pub unmark-mark :
    (b : Bitmask) (n : ℕ) → IsValid b → n < b.n_bits → taken b n ≡ false → unmark (mark b n) n ≡ b
unfolding unmark mark taken
unmark-mark b n v h free =
    ap (λ ws. record b { mask = ws })
      (ap (set (set b.mask (n / 64) (set_bit (get_or b.mask (n / 64) 0) (n % 64))) (n / 64)) word
        ∙ set-set_self b.mask (n / 64) _ 0)
  where
    zero_bit : bit (get_or b.mask (n / 64) 0) (n % 64) ≡ 0
    zero_bit = ground arith

    word :
        clear_bit
          (get_or (set b.mask (n / 64) (set_bit (get_or b.mask (n / 64) 0) (n % 64))) (n / 64) 0)
          (n % 64)
        ≡ get_or b.mask (n / 64) 0
    word =
        rw
          (
            get_or-set b.mask (n / 64) (n / 64) (set_bit (get_or b.mask (n / 64) 0) (n % 64)) 0
                (slot_in_range b n v h),
            (==_iff (n / 64) (n / 64)).1 refl,
          )
          (clear_bit-set_bit (get_or b.mask (n / 64) 0) (n % 64) (v.words (n / 64)) (omega arith)
            zero_bit)

pub unmark_n_bits : (b : Bitmask) (n : ℕ) → (unmark b n).n_bits ≡ b.n_bits
unfolding unmark
unmark_n_bits b n = refl
