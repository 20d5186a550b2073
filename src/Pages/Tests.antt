-- ===== src/Pages/Tests.antt =====
-- A machine whose tables are in the frames 5 to 8, with a page of 4 KB, and one with a page of 2 MB.
use tag_aos.Base.{ℕ, ◌+◌, ◌*◌, ◌<◌, ◌==◌, ◌≡◌, ◌≢◌, refl, if◌then◌else◌, arith}
use tag_aos.Pages.{Machine, minus_one, get_phys_frame}
use tag_aos.Pages.Tables.{PageSize, large, giant, Entry, Mapped, by_pde, IsInt}
use tag_aos.Pages.Walk.{Reports, get_phys_frame-Mapped}
use tag_aos.Pages.Sound.{Plain, get_phys_frame_sound}

-- The entries 1, 2, 3 and 4 of the tables of each depth.
abbrev tables : (e2 e1 : ℕ) → ℕ → ℕ
tables e2 e1 a =
    if a == 0x5008
    then 0x6003
    else if a == 0x6010
    then 0x7003
    else if a == 0x7018
    then e2
    else if a == 0x8020
    then e1
    else 0

abbrev narrow : Machine
narrow = record { va = λ a. a; word = tables 0x8003 0x8000000000009063; cr3 = 0x5018 }

-- The page of 2 MB has PAT set.
abbrev wide : Machine
wide = record { va = λ a. a; word = tables 0x201083 0; cr3 = 0x5018 }

abbrev addr : ℕ
addr = 0x8080604123

-- An entry that is present and leads to a table.
to_table : (w frame : ℕ) → w ≡ 3 + 0x1000 * frame → frame < 0x100 → Entry w 0 frame 0
to_table w frame e lt = record {
  low_flags = 1;
  mid_flags = 0;
  no_execute = 0;
  sum = omega (arith, e);
  low_flags_lt = omega arith;
  page_lt = omega arith;
  mid_flags_lt = omega arith;
  frame_lt = omega (arith, lt);
  high_lt = omega arith;
}

wide_page : Mapped wide addr large 512 1
wide_page =
    by_pde {i4 = 1} {i3 = 2} {i2 = 3} {i1 = 4} {root = 5} {f4 = 6} {f3 = 7} {high = 0} 1
      (record {
        offset = 0x123;
        sign = 0;
        sum = refl;
        offset_lt = omega arith;
        i1_lt = omega arith;
        i2_lt = omega arith;
        i3_lt = omega arith;
        i4_lt = omega arith;
      })
      (record { flags = 0x18; sum = refl; flags_lt = omega arith; table_lt = omega arith })
      (to_table 0x6003 6 refl (omega arith)) (to_table 0x7003 7 refl (omega arith))
      (record {
        low_flags = 1;
        mid_flags = 0;
        no_execute = 0;
        sum = refl;
        low_flags_lt = omega arith;
        page_lt = omega arith;
        mid_flags_lt = omega arith;
        frame_lt = omega arith;
        high_lt = omega arith;
      })
      (omega arith)

get_phys_frame-Mapped_example : IsInt (512 + 1) (get_phys_frame wide addr)
get_phys_frame-Mapped_example = get_phys_frame-Mapped wide addr large 512 1 wide_page

wide_runs : get_phys_frame wide addr ≡ 513
unfolding get_phys_frame
wide_runs = refl

narrow_runs : get_phys_frame narrow addr ≡ 9
unfolding get_phys_frame
narrow_runs = refl

narrow_found : get_phys_frame narrow addr ≢ minus_one
unfolding get_phys_frame
narrow_found e = absurd (omega (arith, e))

narrow-Plain : Plain narrow
narrow-Plain = record {
  cr3 = omega arith;
  words = λ a. ground arith;
  high = λ a. ground arith;
  top = λ index. ground arith;
}

get_phys_frame_sound_example :
    (size : PageSize) × (frame : ℕ) × (rest : ℕ) × Mapped narrow addr size frame rest
    × (size ≢ giant)
    × Reports size frame rest (get_phys_frame narrow addr)
get_phys_frame_sound_example = get_phys_frame_sound narrow addr narrow-Plain narrow_found
