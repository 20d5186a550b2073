-- ===== src/Pages/Sound.antt =====
-- What `get_phys_frame` of syscall-table-disc/ptexplorer/ptexplorer.c finds is mapped.
use mathlib.Core.Path.{subst}
use tag_aos.Base.{
  ℕ, ◌+◌, ◌*◌, ◌/◌, ◌%◌, ◌^◌, ◌<◌, ◌≡◌, ◌≢◌, refl, sym, Bool, true, false, not, if-elim, ==_iff,
  arith,
}
use tag_aos.Pages.{
  Machine, pml4, pdp, pde, pte, present, huge, frame_of, address_of, get_pt_addr, entry, minus_one,
  through_int, get_phys_frame,
}
use tag_aos.Pages.Tables.{
  PageSize, small, large, giant, Entry, At, Root, Mapped, by_pde, by_pte, IsInt,
}
use tag_aos.Pages.Digits.{Splits-any, Entry-any, get_pt_addr-Root, through_int-IsInt, Root-any}
use tag_aos.Pages.Walk.{Reports}

-- The register and the table entries are 64-bit words, the entries have bits 52 to 62 at 0, and those
-- of the first table have bit 7, which is reserved there, at 0.
pub record Plain (m : Machine) : Type 0 where
  pub cr3 : m.cr3 < 2 ^ 64
  pub words : (a : ℕ) → m.word a < 2 ^ 64
  pub high : (a : ℕ) → m.word a / 2 ^ 52 % 2 ^ 11 ≡ 0
  pub top : (index : ℕ) → entry m (get_pt_addr m) index / 2 ^ 7 % 2 ≡ 0

-- The entry that the code reads, in digits.
Entry-read :
    {m : Machine}
    → Plain m
    → (a table index page : ℕ) → a ≡ 0x1000 * table
    → present (entry m a index) ≡ true
    → entry m a index / 2 ^ 7 % 2 ≡ page
    → At m table index page (entry m a index / 2 ^ 12 % 2 ^ 40) 0
Entry-read {m} v a table index page at q digit =
    subst (λ b. Entry (m.word (m.va b + 8 * index)) page (entry m a index / 2 ^ 12 % 2 ^ 40) 0) at
      (subst (λ h. Entry (entry m a index) page (entry m a index / 2 ^ 12 % 2 ^ 40) h)
        (v.high (m.va a + 8 * index))
        (subst
          (λ p.
            Entry (entry m a index) p (entry m a index / 2 ^ 12 % 2 ^ 40)
              (entry m a index / 2 ^ 52 % 2 ^ 11))
          digit (Entry-any (entry m a index) (v.words (m.va a + 8 * index)) q)))

frame_of-plain :
    (w : ℕ) → w / 2 ^ 52 % 2 ^ 11 ≡ 0 → frame_of w ≡ w / 2 ^ 12 % 2 ^ 40 + 0x10000000000 * 0
frame_of-plain w high = omega (arith, high)

address_of-plain : (w : ℕ) → w / 2 ^ 52 % 2 ^ 11 ≡ 0 → address_of w ≡ 0x1000 * (w / 2 ^ 12 % 2 ^ 40)
address_of-plain w high = omega (arith, high)

on : {b : Bool} → not b ≡ false → b ≡ true
on {b} e = ground arith

page_0 : (w : ℕ) → huge w ≡ false → w / 2 ^ 7 % 2 ≡ 0
page_0 w h = ground (arith, h)

page_1 : (w : ℕ) → huge w ≡ true → w / 2 ^ 7 % 2 ≡ 1
page_1 w h = (==_iff (w / 2 ^ 7 % 2) 1).0 h

pub get_phys_frame_sound :
    (m : Machine) (addr : ℕ)
    → Plain m
    → get_phys_frame m addr ≢ minus_one
    → (size : PageSize) × (frame : ℕ) × (rest : ℕ) × Mapped m addr size frame rest
      × (size ≢ giant)
      × Reports size frame rest (get_phys_frame m addr)
unfolding get_phys_frame
get_phys_frame_sound m addr v =
    if-elim P (not (present e4)) (λ _ ne. absurd (ne refl))
      (λ q4.
        if-elim P (not (present e3)) (λ _ ne. absurd (ne refl))
          (λ q3.
            if-elim P (huge e3) (λ _ ne. absurd (ne refl))
              (λ h3.
                if-elim P (not (present e2)) (λ _ ne. absurd (ne refl))
                  (λ q2.
                    if-elim P (huge e2) (λ h2 _. with_large q4 q3 h3 q2 h2)
                      (λ h2.
                        if-elim P (not (present e1)) (λ _ ne. absurd (ne refl))
                          (λ q1 _. with_small q4 q3 h3 q2 h2 q1))))))
  where
    e4 : ℕ
    e4 = entry m (get_pt_addr m) (pml4 addr)

    e3 : ℕ
    e3 = entry m (address_of e4) (pdp addr)

    e2 : ℕ
    e2 = entry m (address_of e3) (pde addr)

    e1 : ℕ
    e1 = entry m (address_of e2) (pte addr)

    P : ℕ → Type 0
    P result =
        result ≢ minus_one
        → (size : PageSize) × (frame : ℕ) × (rest : ℕ) × Mapped m addr size frame rest
          × (size ≢ giant)
          × Reports size frame rest result

    frame : ℕ → ℕ
    frame w = w / 2 ^ 12 % 2 ^ 40

    root : Root m (m.cr3 / 2 ^ 12)
    root = Root-any m v.cr3

    at4 : not (present e4) ≡ false → At m (m.cr3 / 2 ^ 12) (pml4 addr) 0 (frame e4) 0
    at4 q =
        Entry-read v (get_pt_addr m) (m.cr3 / 2 ^ 12) (pml4 addr) 0 (get_pt_addr-Root root) (on q)
          (v.top (pml4 addr))

    at3 :
        not (present e4) ≡ false
        → not (present e3) ≡ false
        → huge e3 ≡ false
        → At m (frame e4) (pdp addr) 0 (frame e3) 0
    at3 q4 q3 h3 =
        Entry-read v (address_of e4) (frame e4) (pdp addr) 0 (address_of-plain e4 (v.high _))
          (on q3) (page_0 e3 h3)

    at2 :
        (page : ℕ)
        → not (present e4) ≡ false
        → not (present e3) ≡ false
        → huge e3 ≡ false
        → not (present e2) ≡ false
        → e2 / 2 ^ 7 % 2 ≡ page
        → At m (frame e3) (pde addr) page (frame e2) 0
    at2 page q4 q3 h3 q2 d =
        Entry-read v (address_of e3) (frame e3) (pde addr) page (address_of-plain e3 (v.high _))
          (on q2) d

    with_large :
        not (present e4) ≡ false
        → not (present e3) ≡ false
        → huge e3 ≡ false
        → not (present e2) ≡ false
        → huge e2 ≡ true
        → (size : PageSize) × (f : ℕ) × (rest : ℕ) × Mapped m addr size f rest
          × (size ≢ giant)
          × Reports size f rest (through_int (frame_of e2))
    with_large q4 q3 h3 q2 h2 =
        let e = at2 1 q4 q3 h3 q2 (page_1 e2 h2) in
        let parts : frame e2 ≡ 512 * (frame e2 / 512) + frame e2 % 512 = omega arith in
        (
          large,
          512 * (frame e2 / 512),
          frame e2 % 512,
          by_pde (frame e2 / 512) (Splits-any addr) root (at4 q4) (at3 q4 q3 h3)
              (subst (λ f. At m (frame e3) (pde addr) 1 f 0) parts e) (omega arith),
          (λ z. cc z),
          subst (λ f. IsInt f (through_int (frame_of e2))) parts
              (subst (λ x. IsInt (frame e2) (through_int x)) (sym (frame_of-plain e2 (v.high _)))
                (through_int-IsInt (frame e2) 0)),
        )

    with_small :
        not (present e4) ≡ false
        → not (present e3) ≡ false
        → huge e3 ≡ false
        → not (present e2) ≡ false
        → huge e2 ≡ false
        → not (present e1) ≡ false
        → (size : PageSize) × (f : ℕ) × (rest : ℕ) × Mapped m addr size f rest
          × (size ≢ giant)
          × Reports size f rest (through_int (frame_of e1))
    with_small q4 q3 h3 q2 h2 q1 =
        let pointer = at2 0 q4 q3 h3 q2 (page_0 e2 h2) in
        let e =
          Entry-read v (address_of e2) (frame e2) (pte addr) (e1 / 2 ^ 7 % 2)
            (address_of-plain e2 (v.high _)) (on q1) refl in
        (
          small,
          frame e1,
          0,
          by_pte (Splits-any addr) root (at4 q4) (at3 q4 q3 h3) pointer e,
          (λ z. cc z),
          subst (λ x. IsInt (frame e1) (through_int x)) (sym (frame_of-plain e1 (v.high _)))
              (through_int-IsInt (frame e1) 0),
        )
