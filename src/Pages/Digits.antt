-- ===== src/Pages/Digits.antt =====
-- The masks and shifts of syscall-table-disc/ptexplorer/ptexplorer.c, on the digits.
use tag_aos.Base.{
  ap, ==_iff, ltb, if-elim, ℕ, ◌+◌, ◌-◌, ◌*◌, ◌/◌, ◌%◌, ◌^◌, ◌<◌, ◌==◌, ◌≡◌, true, arith,
}
use tag_aos.Pages.{
  Machine, pml4, pdp, pde, pte, present, huge, frame_of, get_pt_addr, address_of, through_int,
}
use tag_aos.Pages.Tables.{Splits, Entry, Root, IsInt, natural, negative}

module _ {addr i4 i3 i2 i1 : ℕ} (s : Splits addr i4 i3 i2 i1) where
  pub pml4-Splits : pml4 addr ≡ i4
  pml4-Splits = omega (arith, s.sum, s.offset_lt, s.i1_lt, s.i2_lt, s.i3_lt, s.i4_lt)

  pub pdp-Splits : pdp addr ≡ i3
  pdp-Splits = omega (arith, s.sum, s.offset_lt, s.i1_lt, s.i2_lt, s.i3_lt, s.i4_lt)

  pub pde-Splits : pde addr ≡ i2
  pde-Splits = omega (arith, s.sum, s.offset_lt, s.i1_lt, s.i2_lt, s.i3_lt, s.i4_lt)

  pub pte-Splits : pte addr ≡ i1
  pte-Splits = omega (arith, s.sum, s.offset_lt, s.i1_lt, s.i2_lt, s.i3_lt, s.i4_lt)

pub Splits-any : (addr : ℕ) → Splits addr (pml4 addr) (pdp addr) (pde addr) (pte addr)
Splits-any addr = record {
  offset = addr % 0x1000;
  sign = addr / 0x1000000000000;
  sum = omega arith;
  offset_lt = omega arith;
  i1_lt = omega arith;
  i2_lt = omega arith;
  i3_lt = omega arith;
  i4_lt = omega arith;
}

module _ {w page frame high : ℕ} (e : Entry w page frame high) where
  pub present-Entry : present w ≡ true
  present-Entry = ground (arith, e.sum)

  page_digit : w / 2 ^ 7 % 2 ≡ page
  page_digit = omega (arith, e.sum, e.low_flags_lt, e.page_lt, e.mid_flags_lt)

  pub huge-Entry : huge w ≡ (page == 1)
  huge-Entry = ap (λ b. b == 1) page_digit

  pub frame_of-Entry : frame_of w ≡ frame + 0x10000000000 * high
  frame_of-Entry =
      omega (arith, e.sum, e.low_flags_lt, e.page_lt, e.mid_flags_lt, e.frame_lt, e.high_lt)

pub Entry-any :
    (w : ℕ)
    → w < 2 ^ 64
    → present w ≡ true
    → Entry w (w / 2 ^ 7 % 2) (w / 2 ^ 12 % 2 ^ 40) (w / 2 ^ 52 % 2 ^ 11)
Entry-any w fits p = record {
  low_flags = w / 2 % 64;
  mid_flags = w / 2 ^ 8 % 16;
  no_execute = w / 2 ^ 63;
  sum = omega (arith, odd, fits);
  low_flags_lt = omega arith;
  page_lt = omega arith;
  mid_flags_lt = omega arith;
  frame_lt = omega arith;
  high_lt = omega arith;
}
  where
    odd : w % 2 ≡ 1
    odd = (==_iff (w % 2) 1).0 p

pub address_of-Entry : {w page frame : ℕ} → Entry w page frame 0 → address_of w ≡ 0x1000 * frame
address_of-Entry e = omega (arith, frame_of-Entry e)

-- Bits 40 and up of a frame number are lost in an `int`.
pub through_int-IsInt : (n high : ℕ) → IsInt n (through_int (n + 0x10000000000 * high))
unfolding through_int
through_int-IsInt n high =
    let x : ℕ = n + 0x10000000000 * high in
    if-elim (IsInt n) (ltb (x % 2 ^ 32) (2 ^ 31))
      (λ lt. natural (n / 0x100000000) (omega arith) (ground (arith, lt)))
      (λ ge.
        negative (n / 0x100000000 + 1) (0x100000000 - n % 0x100000000) (omega arith) (omega arith)
          (ground (arith, ge)) (omega arith))

pub get_pt_addr-Root : {m : Machine} {table : ℕ} → Root m table → get_pt_addr m ≡ 0x1000 * table
get_pt_addr-Root r = omega (arith, r.sum, r.flags_lt, r.table_lt)

pub Root-any : (m : Machine) → m.cr3 < 2 ^ 64 → Root m (m.cr3 / 2 ^ 12)
Root-any m fits = record {
  flags = m.cr3 % 2 ^ 12;
  sum = omega arith;
  flags_lt = omega arith;
  table_lt = omega (arith, fits);
}
