-- ===== src/Level/Tests.antt =====
-- Building and clearing levels on a heap that holds one level already.
use tag_aos.Base.{◌≡◌, refl, true, some, [], ◌∷◌, ℤ, pos, negsuc, ltb}
use tag_aos.Level.{Heap, Pointers, Memory, cell, new_level, add_tag_level, clear_tag_level}
use tag_aos.Level.Build.{no_pointers, clear-add_tag_level}

abbrev old_heap : Heap
old_heap = some (new_level 7 2) ∷ []

abbrev memory : Memory
memory = record { level_ok = λ i. true; buffer_ok = λ i. true }

abbrev built : Heap × Pointers × ℤ
built = add_tag_level memory old_heap no_pointers

built_runs : add_tag_level memory old_heap no_pointers ≡ (built.0, built.1, pos 0)
unfolding add_tag_level
built_runs = refl

-- The buffer of level 2 cannot be allocated.
abbrev short_memory : Memory
short_memory = record { level_ok = λ i. true; buffer_ok = λ i. ltb i 2 }

abbrev partial : Heap × Pointers × ℤ
partial = add_tag_level short_memory old_heap no_pointers

partial_runs : add_tag_level short_memory old_heap no_pointers ≡ (partial.0, partial.1, negsuc 11)
unfolding add_tag_level
partial_runs = refl

clear-add_tag_level_example : cell (clear_tag_level partial.0 partial.1) 2 ≡ cell old_heap 2
clear-add_tag_level_example =
    clear-add_tag_level short_memory old_heap partial.0 partial.1 (negsuc 11) 2 partial_runs
