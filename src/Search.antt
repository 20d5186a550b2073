-- ===== src/Search.antt =====
-- The search for the system call table: `find_syscall_table` and `syscall_table_pattern` of
-- syscall-table-disc/scth_discovery.c. Memory and the page tables are arguments.
pub mod Pattern
mod Scan
pub mod Found
pub mod Runs
mod Tests
use tag_aos.Base.{
  ℕ, zero, suc, ◌+◌, ◌-◌, ◌*◌, ◌/◌, ◌%◌, ◌^◌, ◌<◌, ◌==◌, Bool, true, false, not, ◌&&◌, ◌||◌, Option,
  none, some, List, [], ◌∷◌, ltb, if◌then◌else◌,
}
use tag_aos.Pages.{minus_one}
use tag_aos.Syscalls.{ni_syscall}

abbrev pub start_addr : ℕ
start_addr = 0xffffffff00000000

abbrev pub end_addr : ℕ
end_addr = 0xfffffffffff00000

abbrev pub page_size : ℕ
page_size = 4096

-- `addr & PAGE_BITMASK`
abbrev pub page_of : ℕ → ℕ
page_of addr = addr / 4096 * 4096

-- What the search reads: 64-bit words at virtual addresses, and `get_phys_frame`.
pub record Kernel : Type 0 where
  pub word : ℕ → ℕ
  pub frame : ℕ → ℕ

-- `start_tb[n]` of a table at `table`
abbrev pub slot : Kernel → (table n : ℕ) → ℕ
slot k table n = k.word (table + 8 * n)

-- The loop over `ni_syscall[1]` to `ni_syscall[6]`: every entry is the first.
unfoldable pub all_ni : Kernel → (table ni : ℕ) → List ℕ → Bool
all_ni k table ni [] = true
all_ni k table ni (n ∷ ns) =
    let rest = all_ni k table ni ns in if slot k table n == ni then rest else false

-- The loop from entry `j` on, with `left` entries to go: none is the first.
unfoldable pub none_ni : Kernel → (table ni : ℕ) → (left j : ℕ) → Bool
none_ni k table ni zero j = true
none_ni k table ni (suc left) j =
    let rest = none_ni k table ni left (j + 1) in if slot k table j == ni then false else rest

abbrev pub later_ni : List ℕ
later_ni = 174 ∷ 182 ∷ 183 ∷ 214 ∷ 215 ∷ 236 ∷ []

-- The tests at one address.
unfoldable pub fits : Kernel → (table : ℕ) → Bool
unfolding all_ni none_ni
fits k table =
    let ni = slot k table 134 in
    ni % 4 == 0
    && (not (ni == 0)
        && (ltb start_addr ni && (all_ni k table ni later_ni && none_ni k table ni 133 1)))

-- The last entry is on the next page, which is not mapped.
unfoldable pub cut_off : Kernel → (table : ℕ) → Bool
cut_off k table =
    let next_page = table + 236 * 8 in
    page_of table + page_size == page_of next_page && k.frame next_page == minus_one

-- The loop of `syscall_table_pattern` at an address, with `left` addresses of the page to go: the
-- table's address, or `none` for 0.
unfoldable pub pattern_from : Kernel → (left table : ℕ) → Option ℕ
unfolding fits cut_off
pattern_from k zero table = none
pattern_from k (suc left) table =
    let rest = pattern_from k left (table + 1) in
    if cut_off k table then none else if fits k table then some table else rest

unfoldable pub syscall_table_pattern : Kernel → (page : ℕ) → Option ℕ
syscall_table_pattern k page = pattern_from k page_size page

-- The loop of `find_syscall_table` at a page, with `left` pages to go.
unfoldable pub find_from : Kernel → (left page : ℕ) → Option ℕ
find_from k zero page = none
find_from k (suc left) page =
    let rest = find_from k left (page + page_size) in
    if k.frame page == minus_one
    then rest
    else elim (syscall_table_pattern k page) [ none ↦ rest | some table ↦ some table ]

abbrev pub pages_count : ℕ
pages_count = (end_addr - start_addr) / page_size

-- `syscall_table_addr` and `sys_ni_address`, or `none` where both stay 0.
unfoldable pub find_syscall_table : Kernel → Option (ℕ × ℕ)
find_syscall_table k = elim (find_from k pages_count start_addr) [
  | none ↦ none
  | some table ↦ some (table, slot k table 134)
]
