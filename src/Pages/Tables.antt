-- ===== src/Pages/Tables.antt =====
-- The page tables of x86-64 as the architecture describes them, digit by digit: what
-- `get_phys_frame` of syscall-table-disc/ptexplorer/ptexplorer.c has to find.
use tag_aos.Base.{ℕ, ◌+◌, ◌*◌, ◌≤◌, ◌<◌, ◌≡◌}
use tag_aos.Pages.{Machine}

-- A page of 4 KB, 2 MB or 1 GB.
pub data PageSize : Type 0 where
  small : PageSize
  large : PageSize
  giant : PageSize

-- An address is an offset of 12 bits, four indices of 9 bits and a sign.
pub record Splits (addr i4 i3 i2 i1 : ℕ) : Type 0 where
  pub offset : ℕ
  pub sign : ℕ
  pub sum :
      addr
      ≡ offset
        + 0x1000 * i1
        + 0x200000 * i2
        + 0x40000000 * i3
        + 0x8000000000 * i4
        + 0x1000000000000 * sign
  pub offset_lt : offset < 0x1000
  pub i1_lt : i1 < 512
  pub i2_lt : i2 < 512
  pub i3_lt : i3 < 512
  pub i4_lt : i4 < 512

-- A present entry: bit 0 is 1, bit 7 is `page`, and bits 12 to 51 are `frame`. Bits 1 to 6 and 8 to 11
-- are flags, bits 52 to 62 are `high` and bit 63 forbids execution.
pub record Entry (w page frame high : ℕ) : Type 0 where
  pub low_flags : ℕ
  pub mid_flags : ℕ
  pub no_execute : ℕ
  pub sum :
      w
      ≡ 1
        + 2 * low_flags
        + 0x80 * page
        + 0x100 * mid_flags
        + 0x1000 * frame
        + 0x10000000000000 * high
        + 0x8000000000000000 * no_execute
  pub low_flags_lt : low_flags < 64
  pub page_lt : page < 2
  pub mid_flags_lt : mid_flags < 16
  pub frame_lt : frame < 0x10000000000
  pub high_lt : high < 0x800

-- The entry at an index of the table in a frame of physical memory is present.
abbrev pub At : Machine → (table index page frame high : ℕ) → Type 0
At m table index page frame high =
    Entry (m.word (m.va (0x1000 * table) + 8 * index)) page frame high

-- CR3 holds the frame of the first table, with flags below.
pub record Root (m : Machine) (table : ℕ) : Type 0 where
  pub flags : ℕ
  pub sum : m.cr3 ≡ flags + 0x1000 * table
  pub flags_lt : flags < 0x1000
  pub table_lt : table < 0x10000000000000

-- The tables map the address, in a page of the given size that starts at the frame. The entries that
-- lead to tables leave bits 52 to 62 at 0. The entry of a page of 2 MB has bits 12 to 20 (PAT, and
-- reserved bits) beside its frame: `rest`, which is 0 for the other sizes.
pub data Mapped (m : Machine) (addr : ℕ) : PageSize → (frame rest : ℕ) → Type 0 where
  by_pdp :
      {i4 i3 i2 i1 root f4 f3 high : ℕ}
      → Splits addr i4 i3 i2 i1
      → Root m root
      → At m root i4 0 f4 0
      → At m f4 i3 1 f3 high
      → Mapped m addr giant f3 0
  by_pde :
      {i4 i3 i2 i1 root f4 f3 rest high : ℕ} (group : ℕ)
      → Splits addr i4 i3 i2 i1
      → Root m root
      → At m root i4 0 f4 0
      → At m f4 i3 0 f3 0
      → At m f3 i2 1 (512 * group + rest) high
      → rest < 512
      → Mapped m addr large (512 * group) rest
  by_pte :
      {i4 i3 i2 i1 root f4 f3 f2 f1 pat high : ℕ}
      → Splits addr i4 i3 i2 i1
      → Root m root
      → At m root i4 0 f4 0
      → At m f4 i3 0 f3 0
      → At m f3 i2 0 f2 0
      → At m f2 i1 pat f1 high
      → Mapped m addr small f1 0

-- `r` is, as a 64-bit word, the number from -2^31 to 2^31 - 1 that differs from `n` by a multiple of
-- 2^32.
pub data IsInt (n r : ℕ) : Type 0 where
  natural : (k : ℕ) → n ≡ r + 0x100000000 * k → r < 0x80000000 → IsInt n r
  negative :
      (k size : ℕ)
      → n + size ≡ 0x100000000 * k
      → 1 ≤ size
      → size ≤ 0x80000000
      → r + size ≡ 0x10000000000000000
      → IsInt n r
