-- ===== src/Bitmask/Clear.antt =====
-- `clear_number` and `initialize_bitmask` of utils/bitmask/bitmask.c.
use tag_aos.Base.{
  ℕ, ◌+◌, ◌/◌, ◌%◌, ◌<◌, ◌≡◌, refl, ap, sym, ◌∙◌, ◌==◌, arith, inl, inr, pos, negsuc, if◌then◌else◌,
  leb, Bool, Bool-cases, true, false, not, ◌&&◌, none, some, get_or, set, get_or-replicate,
  length-replicate, of_bool,
}
use tag_aos.Base.Bits.{bit-zero}
use tag_aos.Bitmask.{
  Bitmask, check_bit, clear_bit, clear_number, get_avail_number, fresh_bitmask, initialize_bitmask,
  taken, IsValid,
}
use tag_aos.Bitmask.Word.{check_bit_zero, check_bit_ne_zero}
use tag_aos.Bitmask.Update.{
  mark, unmark, unmark-IsValid, taken-unmark, taken-mark, mark-IsValid, unmark-mark,
}
use tag_aos.Bitmask.Avail.{Got, get_avail_number-Got}

-- `clear_number` as one equation over the abstract view.
pub clear_number_lem :
    (b : Bitmask) (n : ℕ)
    → IsValid b
    → clear_number b n ≡ (
        if leb b.n_bits n
        then (b, negsuc 0)
        else if taken b n
        then (unmark b n, pos 1)
        else (b, pos 0))
unfolding clear_number unmark taken
clear_number_lem b n v =
    rw stride (elim (Bool-cases (check_bit (get_or b.mask (n / 64) 0) (n % 64) == 0)) [
      | inl clear ↦
          rw (clear, check_bit_zero (get_or b.mask (n / 64) 0) (n % 64) (ground arith)) refl
      | inr used ↦
          rw (used, check_bit_ne_zero (get_or b.mask (n / 64) 0) (n % 64) (ground arith)) refl
    ])
  where
    stride : clear_number b n ≡ (
        if leb b.n_bits n
        then (b, negsuc 0)
        else if check_bit (get_or b.mask (n / 64) 0) (n % 64) == 0
        then (b, pos 0)
        else (unmark b n, pos 1))
    stride =
        ap
          (λ k.
            if leb b.n_bits n
            then (b, negsuc 0)
            else if check_bit (get_or b.mask (n / 64) 0) (n % k) == 0
            then (b, pos 0)
            else (
              record b {
                mask = set b.mask (n / 64) (clear_bit (get_or b.mask (n / 64) 0) (n % k));
              },
              pos 1,
            ))
          v.per_slot

mark_inside : (b : Bitmask) (n : ℕ) → n < b.n_bits → leb (mark b n).n_bits n ≡ false
unfolding mark
mark_inside b n h = ground arith

-- On every branch: out of range is -1, a number that is not taken is 0, and a taken one is given
-- back with 1. Afterwards `n` is free, other numbers are as before, and the bitmask is valid.
pub clear_number_branches :
    (b : Bitmask) (n m : ℕ)
    → IsValid b
    → ((clear_number b n).1
        ≡ (if leb b.n_bits n then negsuc 0 else if taken b n then pos 1 else pos 0))
      × (taken (clear_number b n).0 m
          ≡ (if leb b.n_bits n then taken b m else if n == m then false else taken b m))
      × IsValid (clear_number b n).0
clear_number_branches b n m v = rw (clear_number_lem b n v) (elim (Bool-cases (leb b.n_bits n)) [
  | inl out ↦ rw out (refl, refl, v)
  | inr inside ↦ rw inside (elim (Bool-cases (taken b n)) [
    | inl used ↦ rw used (refl, taken-unmark b n m v (ground arith), unmark-IsValid b n v)
    | inr free ↦ rw free (refl, unchanged free, v)
  ])
])
  where
    unchanged : taken b n ≡ false → taken b m ≡ (if n == m then false else taken b m)
    unchanged free = elim (Bool-cases (n == m)) [
      | inl same ↦ let e : n ≡ m = ground arith in rw same (sym (ap (taken b) e) ∙ free)
      | inr other ↦ rw other refl
    ]

-- Handing out a number and giving it back restores the bitmask, word for word, and answers 1.
pub clear-get_avail_number :
    (b b' : Bitmask) (n : ℕ)
    → IsValid b
    → get_avail_number b ≡ (b', pos n)
    → clear_number b' n ≡ (b, pos 1)
clear-get_avail_number b b' n v e = rw (got.same) (
    clear_number_lem (mark b n) n (mark-IsValid b n v)
    ∙ ground (arith, inside, now_taken, unmark-mark b n v got.inside got.free))
  where
    got : Got b b' n
    got = get_avail_number-Got b b' n v e

    inside : leb (mark b n).n_bits n ≡ false
    inside = mark_inside b n got.inside

    now_taken : taken (mark b n) n ≡ true
    now_taken = ground (arith, taken-mark b n n v got.inside)

fresh_bitmask-IsValid : (n : ℕ) → IsValid (fresh_bitmask n)
unfolding fresh_bitmask
fresh_bitmask-IsValid n = record {
  per_slot = refl;
  covered = elim (Bool-cases (n % 64 == 0)) [
    | inl e ↦ rw e (ground arith)
    | inr e ↦ rw e (ground arith)
  ];
  sized = length-replicate _ 0;
  words =
      λ i. rw (get_or-replicate {A = ℕ} (n / 64 + of_bool (not (n % 64 == 0))) 0 i) (omega arith);
}

-- A new bitmask is valid and has no number taken. It is refused below one bit and when an
-- allocation fails.
pub initialize_bitmask_empty :
    (mask_ok struct_ok : Bool) (n m : ℕ)
    → (initialize_bitmask mask_ok struct_ok (pos n)
        ≡ (if mask_ok && (struct_ok && leb 1 n) then some (fresh_bitmask n) else none))
      × (taken (fresh_bitmask n) m ≡ false)
      × IsValid (fresh_bitmask n)
unfolding initialize_bitmask fresh_bitmask taken
initialize_bitmask_empty mask_ok struct_ok n m = (
  ground arith,
  rw (get_or-replicate {A = ℕ} _ 0 (m / 64)) (rw (bit-zero (m % 64))),
  fresh_bitmask-IsValid n,
)

pub fresh_bitmask_n_bits : (n : ℕ) → (fresh_bitmask n).n_bits ≡ n
unfolding fresh_bitmask
fresh_bitmask_n_bits n = refl
