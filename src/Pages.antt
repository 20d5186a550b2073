-- ===== src/Pages.antt =====
-- The page table explorer: `get_phys_frame` of syscall-table-disc/ptexplorer/ptexplorer.c, and
-- `get_pt_addr` of syscall-table-disc/arch-common/arch-common.c. What it reads of the machine is an
-- argument. Addresses and words are numbers below 2^64.
pub mod Tables
mod Digits
pub mod Walk
pub mod Sound
mod Tests
use tag_aos.Base.{ℕ, ◌+◌, ◌-◌, ◌*◌, ◌/◌, ◌%◌, ◌^◌, ◌<◌, ◌==◌, Bool, not, ltb, if◌then◌else◌}

-- `__va`, the memory in words at virtual addresses, and the register CR3.
pub record Machine : Type 0 where
  pub va : ℕ → ℕ
  pub word : ℕ → ℕ
  pub cr3 : ℕ

-- The index of an address in the table of each depth: nine bits from the given one on.
abbrev pub pml4 : ℕ → ℕ
pml4 addr = addr / 2 ^ 39 % 512

abbrev pub pdp : ℕ → ℕ
pdp addr = addr / 2 ^ 30 % 512

abbrev pub pde : ℕ → ℕ
pde addr = addr / 2 ^ 21 % 512

abbrev pub pte : ℕ → ℕ
pte addr = addr / 2 ^ 12 % 512

-- `entry & PRESENT_BIT`
abbrev pub present : ℕ → Bool
present e = e % 2 == 1

-- `entry & H_PAGES`, bit 7
abbrev pub huge : ℕ → Bool
huge e = e / 2 ^ 7 % 2 == 1

-- `(entry & PT_ADDRESS_MASK) >> 12`: the bits 12 to 62.
abbrev pub frame_of : ℕ → ℕ
frame_of e = e / 2 ^ 12 % 2 ^ 51

-- `entry & PT_ADDRESS_MASK`
abbrev pub address_of : ℕ → ℕ
address_of e = frame_of e * 2 ^ 12

-- CR3 under `PT_CR3_MASK`: the bits 12 to 63.
abbrev pub get_pt_addr : Machine → ℕ
get_pt_addr m = m.cr3 / 2 ^ 12 % 2 ^ 52 * 2 ^ 12

-- The entry at an index of the table at a physical address.
abbrev pub entry : Machine → (table index : ℕ) → ℕ
entry m table index = m.word (m.va table + 8 * index)

-- -1 as an `unsigned long long`.
abbrev pub minus_one : ℕ
minus_one = 2 ^ 64 - 1

-- A number that is kept in an `int` and returned as an `unsigned long long`: the low 32 bits, with
-- their sign extended.
unfoldable pub through_int : ℕ → ℕ
through_int n = if ltb (n % 2 ^ 32) (2 ^ 31) then n % 2 ^ 32 else n % 2 ^ 32 + (2 ^ 64 - 2 ^ 32)

-- The directory of page tables, and the page table.
unfoldable pub frame_below_pde : Machine → (addr e2 : ℕ) → ℕ
unfolding through_int
frame_below_pde m addr e2 =
    let e1 = entry m (address_of e2) (pte addr) in
    if not (present e2)
    then minus_one
    else if huge e2
    then through_int (frame_of e2)
    else if not (present e1)
    then minus_one
    else through_int (frame_of e1)

unfoldable pub frame_below_pdp : Machine → (addr e3 : ℕ) → ℕ
unfolding frame_below_pde
frame_below_pdp m addr e3 =
    if not (present e3)
    then minus_one
    else if huge e3
    then minus_one
    else frame_below_pde m addr (entry m (address_of e3) (pde addr))

unfoldable pub get_phys_frame : Machine → (addr : ℕ) → ℕ
unfolding frame_below_pdp
get_phys_frame m addr =
    let e4 = entry m (get_pt_addr m) (pml4 addr) in
    if not (present e4)
    then minus_one
    else frame_below_pdp m addr (entry m (address_of e4) (pdp addr))
