-- ===== src/Search/Runs.antt =====
-- The search of syscall-table-disc/scth_discovery.c in a memory whose table starts where the search
-- does, and what it finds there.
use tag_aos.Base.{ℕ, ◌-◌, ◌/◌, ◌==◌, ◌≡◌, ◌||◌, refl, true, some, if◌then◌else◌}
use tag_aos.Search.{
  start_addr, Kernel, all_ni, none_ni, fits, cut_off, pattern_from, syscall_table_pattern,
  find_from, find_syscall_table,
}

abbrev free_slot : ℕ → ℕ
free_slot n =
    if n == 134 || (n == 174 || (n == 182 || (n == 183 || (n == 214 || (n == 215 || n == 236)))))
    then 0xffffffff00001000
    else 77

abbrev pub kernel : Kernel
kernel = record { word = λ addr. free_slot ((addr - start_addr) / 8); frame = λ addr. 5 }

pub fits_runs : fits kernel start_addr ≡ true
unfolding fits all_ni none_ni
fits_runs = refl

pub find_runs : find_syscall_table kernel ≡ some (start_addr, 0xffffffff00001000)
unfolding find_syscall_table find_from syscall_table_pattern pattern_from fits cut_off all_ni
    none_ni
find_runs = refl
