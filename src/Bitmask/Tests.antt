-- ===== src/Bitmask/Tests.antt =====
-- The bitmask theorems at concrete bitmasks, and the values of the kernel's own bitmask test.
use tag_aos.Base.{
  ℕ, zero, suc, ◌<◌, ◌^◌, ◌≡◌, refl, arith, pos, negsuc, true, none, some, [], ◌∷◌, get_or,
}
use tag_aos.Bitmask.{
  Bitmask, full_slot, initialize_bitmask, get_avail_number, clear_number, taken, IsValid,
}
use tag_aos.Bitmask.Avail.{get_avail_number_least}
use tag_aos.Bitmask.Clear.{clear-get_avail_number}

-- 65 bits in two slots, with the first slot as given.
abbrev slots_of : ℕ → ℕ → Bitmask
slots_of first second = record {
  mask = first ∷ second ∷ [];
  n_bits = 65;
  slots = 2;
  slot_size = 8;
  bits_per_slot = 64;
}

slots_of-IsValid :
    (first second : ℕ) → first < 2 ^ 64 → second < 2 ^ 64 → IsValid (slots_of first second)
slots_of-IsValid first second p q = record {
  per_slot = refl;
  covered = omega arith;
  sized = refl;
  words = words_fit;
}
  where
    words_fit : (i : ℕ) → get_or (first ∷ second ∷ []) i 0 < 2 ^ 64
    words_fit zero = p
    words_fit (suc zero) = q
    words_fit (suc (suc i)) = omega arith

-- Numbers 0, 1 and 3 are taken.
abbrev some_taken : Bitmask
some_taken = slots_of 11 0

some_taken-IsValid : IsValid some_taken
some_taken-IsValid = slots_of-IsValid 11 0 (omega arith) (omega arith)

abbrev all_taken : Bitmask
all_taken = slots_of full_slot 1

get_avail_number_runs : get_avail_number some_taken ≡ (slots_of 15 0, pos 2)
unfolding get_avail_number
get_avail_number_runs = refl

get_avail_number_next_slot : get_avail_number (slots_of full_slot 0) ≡ (all_taken, pos 64)
unfolding get_avail_number
get_avail_number_next_slot = refl

-- The free bits of the second slot lie past the 65th bit.
get_avail_number_exhausted : get_avail_number all_taken ≡ (all_taken, negsuc 0)
unfolding get_avail_number
get_avail_number_exhausted = refl

clear_number_not_taken : clear_number some_taken 12 ≡ (some_taken, pos 0)
unfolding clear_number
clear_number_not_taken = refl

clear_number_out_of_range : clear_number some_taken 65 ≡ (some_taken, negsuc 0)
unfolding clear_number
clear_number_out_of_range = refl

initialize_bitmask_negative : initialize_bitmask true true (negsuc 0) ≡ none
unfolding initialize_bitmask
initialize_bitmask_negative = refl

initialize_bitmask_65 : initialize_bitmask true true (pos 65) ≡ some (slots_of 0 0)
unfolding initialize_bitmask
initialize_bitmask_65 = refl

get_avail_number_least_example : taken some_taken 1 ≡ true
get_avail_number_least_example =
    get_avail_number_least some_taken (slots_of 15 0) 2 1 some_taken-IsValid get_avail_number_runs
      (omega arith)

clear-get_avail_number_example : clear_number (slots_of 15 0) 2 ≡ (some_taken, pos 1)
clear-get_avail_number_example =
    clear-get_avail_number some_taken (slots_of 15 0) 2 some_taken-IsValid get_avail_number_runs
