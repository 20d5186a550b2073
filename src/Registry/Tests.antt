-- ===== src/Registry/Tests.antt =====
-- The theorems on the registry at concrete registries.
use tag_aos.Base.{
  ℕ, zero, suc, ◌<◌, ◌^◌, ◌≡◌, refl, arith, true, false, some, [], ◌∷◌, pos, negsuc, get_or,
}
use tag_aos.Bitmask.{
  Bitmask, full_slot, IsValid, taken, get_avail_number, clear_number, fresh_bitmask,
}
use tag_aos.Bitmask.Avail.{get_avail_number_full}
use tag_aos.Hashmap.Direct.{Direct, direct}
use tag_aos.Tag.{max_tags, eproto}
use tag_aos.Registry.{Registry, lookup, reserve, clear_tag_common, IsConsistent}
use tag_aos.Registry.Busy.{reserve_exhausted}
use tag_aos.Registry.Clear.{clear_tag_common-reserve}
use tag_aos.Fixture.{start, start-IsLinked}
use tag_aos.Init.{start_with}

abbrev empty : Registry Direct
empty = start.registry

empty-IsConsistent : IsConsistent direct empty
empty-IsConsistent = start-IsLinked.consistent

-- Key 5 gets descriptor 0.
abbrev one_key : Registry Direct
one_key = (reserve direct true empty 5).0

reserve_runs : reserve direct true empty 5 ≡ (one_key, pos 0)
unfolding reserve start_with get_avail_number fresh_bitmask
reserve_runs = refl

-- The hash table cannot grow.
abbrev no_memory : Registry Direct
no_memory = (reserve direct false empty 5).0

out_of_memory_runs : reserve direct false empty 5 ≡ (no_memory, negsuc 11)
unfolding reserve start_with get_avail_number fresh_bitmask clear_number
out_of_memory_runs = refl

filed : lookup direct one_key 5 ≡ some (record { key = 5; tag_key = 0 })
unfolding reserve start_with get_avail_number fresh_bitmask
filed = refl

-- All descriptors are taken by tags without a key.
abbrev full_bitmask : Bitmask
full_bitmask = record {
  mask = full_slot ∷ full_slot ∷ full_slot ∷ full_slot ∷ [];
  n_bits = 256;
  slots = 4;
  slot_size = 8;
  bits_per_slot = 64;
}

full_bitmask-IsValid : IsValid full_bitmask
full_bitmask-IsValid = record {
  per_slot = refl;
  covered = omega arith;
  sized = refl;
  words = words_fit;
}
  where
    words_fit : (i : ℕ) → get_or full_bitmask.mask i 0 < 2 ^ 64
    words_fit zero = omega arith
    words_fit (suc zero) = omega arith
    words_fit (suc (suc zero)) = omega arith
    words_fit (suc (suc (suc zero))) = omega arith
    words_fit (suc (suc (suc (suc i)))) = omega arith

full_runs : get_avail_number full_bitmask ≡ (full_bitmask, negsuc 0)
unfolding get_avail_number
full_runs = refl

all_taken : (m : ℕ) → m < max_tags → taken full_bitmask m ≡ true
all_taken m lt =
    (get_avail_number_full full_bitmask full_bitmask 0 m full_bitmask-IsValid full_runs lt).1

abbrev private_only : Registry Direct
private_only = record { table = record { cells = []; oom = false }; bitmask = full_bitmask }

private_only-IsConsistent : IsConsistent direct private_only
private_only-IsConsistent = record {
  valid = full_bitmask-IsValid;
  bits = refl;
  filed = λ k e h. cc h;
  private = refl;
  held = λ k e h. cc h;
  own = λ k j e f h g q. cc h;
}

reserve_exhausted_example : (reserve direct true private_only 5).1 ≡ eproto
reserve_exhausted_example =
    reserve_exhausted direct true private_only 5 private_only-IsConsistent (omega arith) all_taken

clear_tag_common-reserve_example :
    ((clear_tag_common direct true true one_key 5 0).1 ≡ pos 0)
    × ((clear_tag_common direct true true one_key 5 0).0.bitmask ≡ empty.bitmask)
    × (lookup direct (clear_tag_common direct true true one_key 5 0).0 5 ≡ lookup direct empty 5)
clear_tag_common-reserve_example =
    clear_tag_common-reserve direct true true empty one_key 5 0 5 empty-IsConsistent reserve_runs
