-- ===== src/Device/Report.antt =====
-- The text that `dev_read` stands for, and what an undisturbed read is.
use tag_aos.Base.{ℕ, zero, suc, ◌+◌, ◌≡◌, true, Option, none, some, List, [], ◌++◌}
use tag_aos.Tag.{max_tags, levels_count}
use tag_aos.Level.{TagLevel, cell}
use tag_aos.Level.Build.{pointer}
use tag_aos.Service.{Tag, Services, tag_at}
use tag_aos.Device.{to_decimal, line, header, divider, ReadCall}

abbrev pub level_line : Services → Tag → ℕ → List ℕ
level_line s t j = elim (pointer t.tag_level j) [
  | none ↦ []
  | some a ↦ elim (cell s.levels a) [
    | none ↦ []
    | some l ↦ line (to_decimal t.key) (to_decimal t.euid) (to_decimal j) (to_decimal l.waiting)
  ]
]

unfoldable pub level_lines : Services → Tag → (left j : ℕ) → List ℕ
level_lines s t zero j = []
level_lines s t (suc left) j = level_line s t j ++ level_lines s t left (j + 1)

abbrev pub tag_block : Services → Option Tag → List ℕ
tag_block s none = []
tag_block s (some t) = level_lines s t levels_count 0 ++ divider

unfoldable pub tag_blocks : Services → (left i : ℕ) → List ℕ
tag_blocks s zero i = []
tag_blocks s (suc left) i = tag_block s (tag_at s i) ++ tag_blocks s left (i + 1)

-- The whole text: the header, and a block for each tag.
unfoldable pub report : Services → List ℕ
unfolding tag_blocks level_lines
report s = (header ++ divider) ++ tag_blocks s max_tags 0

-- Nothing is interrupted, and every allocation and the copy succeed.
pub record Undisturbed (c : ReadCall) : Type 0 where
  pub first : c.first_ok ≡ true
  pub header : c.header_ok ≡ true
  pub divider : c.divider_ok ≡ true
  pub lock : (i : ℕ) → c.lock_ok i ≡ true
  pub level : (i j : ℕ) → c.level_ok i j ≡ true
  pub line : (i j : ℕ) → c.line_ok i j ≡ true
  pub block : (n : ℕ) → c.block_ok n ≡ true
  pub copy : c.copy_ok ≡ true

-- No tag has a pointer to a level that was freed.
abbrev pub Alive : Services → Type 0
Alive s =
    (i j a : ℕ) (t : Tag)
    → tag_at s i ≡ some t
    → pointer t.tag_level j ≡ some a
    → (l : TagLevel) × (cell s.levels a ≡ some l)
