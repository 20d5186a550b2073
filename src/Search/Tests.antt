-- ===== src/Search/Tests.antt =====
-- The theorems on the search, at the run of `Search.Runs`.
use tag_aos.Base.{ℕ, ◌+◌, ◌*◌, ◌≤◌, ◌<◌, ◌≡◌, ◌≢◌, some, arith}
use tag_aos.Pages.{minus_one}
use tag_aos.Search.{start_addr, end_addr, page_size, page_of, slot, find_syscall_table}
use tag_aos.Search.Pattern.{IsTable, fits-IsTable}
use tag_aos.Search.Found.{find_syscall_table_sound, find_syscall_table_complete}
use tag_aos.Search.Runs.{kernel, fits_runs, find_runs}

find_syscall_table_sound_example :
    IsTable kernel start_addr
    × (◌≡◌ {A = ℕ} 0xffffffff00001000 (slot kernel start_addr 134))
    × (start_addr ≤ start_addr)
    × (start_addr < end_addr)
    × (kernel.frame (page_of start_addr) ≢ minus_one)
    × (page_of start_addr + page_size ≡ page_of (start_addr + 236 * 8)
        → kernel.frame (start_addr + 236 * 8) ≢ minus_one)
find_syscall_table_sound_example =
    find_syscall_table_sound kernel start_addr 0xffffffff00001000 find_runs

mapped : ◌≢◌ {A = ℕ} 5 minus_one
mapped e = absurd (omega (arith, e))

find_syscall_table_complete_example :
    (table : ℕ) × (find_syscall_table kernel ≡ some (table, slot kernel table 134))
    × (table ≤ start_addr)
find_syscall_table_complete_example =
    find_syscall_table_complete kernel start_addr (fits-IsTable kernel start_addr fits_runs)
      (omega arith) (omega arith) mapped (λ x e. mapped)
