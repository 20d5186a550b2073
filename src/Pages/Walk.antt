-- ===== src/Pages/Walk.antt =====
-- `get_phys_frame` of syscall-table-disc/ptexplorer/ptexplorer.c against what the tables mean.
use mathlib.Core.Path.{subst}
use tag_aos.Base.{ℕ, ◌+◌, ◌*◌, ◌≡◌, refl, sym, ap, ◌∙◌, true, false}
use tag_aos.Pages.{
  Machine, pml4, pdp, pde, pte, present, huge, frame_of, address_of, get_pt_addr, entry, minus_one,
  through_int, get_phys_frame,
}
use tag_aos.Pages.Tables.{PageSize, small, large, giant, Mapped, by_pdp, by_pde, by_pte, IsInt}
use tag_aos.Pages.Digits.{
  pml4-Splits, pdp-Splits, pde-Splits, pte-Splits, present-Entry, huge-Entry, frame_of-Entry,
  address_of-Entry, get_pt_addr-Root, through_int-IsInt,
}

-- The entry that the code reads is the one at the table's frame.
read :
    (m : Machine) (a table index i : ℕ)
    → a ≡ 0x1000 * table
    → index ≡ i
    → entry m a index ≡ m.word (m.va (0x1000 * table) + 8 * i)
read m a table index i at same = rw (at, same) refl

-- What the code returns: for a page of 1 GB, -1. For the others, the frame as an `int`, to which bits
-- 12 to 20 of the entry of a page of 2 MB are added.
abbrev pub Reports : PageSize → (frame rest result : ℕ) → Type 0
Reports giant frame rest result = result ≡ 0xffffffffffffffff
Reports large frame rest result = IsInt (frame + rest) result
Reports small frame rest result = IsInt frame result

module _ (m : Machine) (addr e4 e3 : ℕ) (p4 : entry m (get_pt_addr m) (pml4 addr) ≡ e4)
    (q4 : present e4 ≡ true) (p3 : entry m (address_of e4) (pdp addr) ≡ e3)
    (q3 : present e3 ≡ true) where
  walk_pdp : huge e3 ≡ true → get_phys_frame m addr ≡ minus_one
  unfolding get_phys_frame
  walk_pdp h3 = rw (p4, q4, p3, q3, h3) refl

  module _ (e2 : ℕ) (h3 : huge e3 ≡ false) (p2 : entry m (address_of e3) (pde addr) ≡ e2)
      (q2 : present e2 ≡ true) where
    walk_pde : huge e2 ≡ true → get_phys_frame m addr ≡ through_int (frame_of e2)
    unfolding get_phys_frame
    walk_pde h2 = rw (p4, q4, p3, q3, h3, p2, q2, h2) refl

    walk_pte :
        (e1 : ℕ)
        → huge e2 ≡ false
        → entry m (address_of e2) (pte addr) ≡ e1
        → present e1 ≡ true
        → get_phys_frame m addr ≡ through_int (frame_of e1)
    unfolding get_phys_frame
    walk_pte e1 h2 p1 q1 = rw (p4, q4, p3, q3, h3, p2, q2, h2, p1, q1) refl

-- For an address that the page tables map in a page of 4 KB, the code returns the page's frame, cut to
-- an `int`. In a page of 2 MB it returns the frame where the page starts, with bits 12 to 20 of the
-- entry added (PAT, and reserved bits), cut to an `int`. In a page of 1 GB it returns -1, as if nothing
-- was mapped. The entries that lead to tables have bits 52 to 62 at 0.
pub get_phys_frame-Mapped :
    (m : Machine) (addr : ℕ) (size : PageSize) (frame rest : ℕ)
    → Mapped m addr size frame rest
    → Reports size frame rest (get_phys_frame m addr)
get_phys_frame-Mapped m addr giant frame rest (by_pdp s r e4 e3) =
    walk_pdp m addr _ _ (read m _ _ _ _ (get_pt_addr-Root r) (pml4-Splits s)) (present-Entry e4)
      (read m _ _ _ _ (address_of-Entry e4) (pdp-Splits s)) (present-Entry e3) (huge-Entry e3)
get_phys_frame-Mapped m addr large frame rest (by_pde {high = high} group s r e4 e3 e2 lt) =
    subst (IsInt (512 * group + rest))
      (sym (
        walk_pde m addr _ _ (read m _ _ _ _ (get_pt_addr-Root r) (pml4-Splits s)) (present-Entry e4)
          (read m _ _ _ _ (address_of-Entry e4) (pdp-Splits s)) (present-Entry e3) _ (huge-Entry e3)
          (read m _ _ _ _ (address_of-Entry e3) (pde-Splits s)) (present-Entry e2) (huge-Entry e2)
        ∙ ap through_int (frame_of-Entry e2)))
      (through_int-IsInt (512 * group + rest) high)
get_phys_frame-Mapped m addr small frame rest (by_pte {high = high} s r e4 e3 e2 e1) =
    subst (IsInt frame)
      (sym (
        walk_pte m addr _ _ (read m _ _ _ _ (get_pt_addr-Root r) (pml4-Splits s)) (present-Entry e4)
          (read m _ _ _ _ (address_of-Entry e4) (pdp-Splits s)) (present-Entry e3) _ (huge-Entry e3)
          (read m _ _ _ _ (address_of-Entry e3) (pde-Splits s)) (present-Entry e2) _ (huge-Entry e2)
          (read m _ _ _ _ (address_of-Entry e2) (pte-Splits s)) (present-Entry e1)
        ∙ ap through_int (frame_of-Entry e1)))
      (through_int-IsInt frame high)
