-- ===== src/Device.antt =====
-- The character device of tag-module/tag-dev-driver.c, with the constants of
-- tag-module/tag-dev-driver.h: `dev_read` writes a line for each level of each tag, and delivers the
-- part of the text that the caller asks for. Characters are their codes.
pub mod Append
pub mod Read
pub mod Report
pub mod Writes
pub mod Whole
mod Tests
use tag_aos.Base.{
  ℕ, zero, suc, ◌+◌, ◌-◌, ◌*◌, ◌/◌, ◌%◌, ◌^◌, ◌==◌, Bool, true, false, not, ◌||◌, Option, none,
  some, List, [], ◌∷◌, ◌++◌, ℤ, pos, negsuc, ltb, leb, min, if◌then◌else◌, length, get_or, take,
  drop, replicate,
}
use tag_aos.Tag.{max_tags, levels_count, einval}
use tag_aos.Level.{cell}
use tag_aos.Level.Build.{pointer}
use tag_aos.Service.{Tag, Services, tag_at}

abbrev pub char_block : ℕ
char_block = 4096

abbrev pub line_size : ℕ
line_size = 53

abbrev pub tag_size : ℕ
tag_size = (line_size + 1) * (levels_count + 1)

-- `%d`: the digits, of which an `int` has at most ten.
pub digits_from : (fuel n : ℕ) → List ℕ
digits_from zero n = []
digits_from (suc fuel) n =
    let rest = digits_from fuel (n / 10) in
    if ltb n 10 then (48 + n) ∷ [] else rest ++ (48 + n % 10) ∷ []

-- A `uid_t` or a count that is put in an `int`.
pub to_decimal : ℕ → List ℕ
unfolding digits_from
to_decimal n =
    let word = n % 2 ^ 32 in
    if ltb word (2 ^ 31) then digits_from 10 word else 45 ∷ digits_from 10 (2 ^ 32 - word)

-- `| %10s ` and `| %10d `
pub column : List ℕ → List ℕ
column text = 124 ∷ 32 ∷ replicate (10 - length text) 32 ++ text ++ 32 ∷ []

pub line : (a b c d : List ℕ) → List ℕ
unfolding column
line a b c d = column a ++ column b ++ column c ++ column d ++ 124 ∷ 10 ∷ []

pub header : List ℕ
unfolding line
header =
    line (75 ∷ 69 ∷ 89 ∷ []) (69 ∷ 85 ∷ 73 ∷ 68 ∷ []) (76 ∷ 69 ∷ 86 ∷ 69 ∷ 76 ∷ [])
      (87 ∷ 65 ∷ 73 ∷ 84 ∷ [])

pub divider : List ℕ
divider = 43 ∷ replicate (line_size - 2) 45 ++ 43 ∷ 10 ∷ []

-- The text so far. The memory for it has `char_block * curr_block + 1` bytes.
pub record Text : Type 0 where
  pub buffer : List ℕ
  pub nbytes : ℕ
  pub curr_block : ℕ

-- What the kernel decides during a read.
pub record ReadCall : Type 0 where
  pub first_ok : Bool  -- the first allocation of the text
  pub header_ok : Bool  -- that of the header
  pub divider_ok : Bool  -- that of the divider
  pub lock_ok : ℕ → Bool  -- the wait for a `tag_lock` is not interrupted
  pub level_ok : (tag level : ℕ) → Bool  -- nor those for `level_lock` and `rcu_lock`
  pub line_ok : (tag level : ℕ) → Bool  -- the allocation of a line
  pub block_ok : ℕ → Bool  -- that of a text of so many blocks
  pub copy_ok : Bool  -- the copy to the user

pub append_buffer : ReadCall → Text → (source : List ℕ) → Option Text
append_buffer c text source =
    let nbytes = text.nbytes + length source in
    let block = text.curr_block + 1 in
    if ltb (char_block * text.curr_block) nbytes
    then if c.block_ok block
      then some (record { buffer = text.buffer ++ source; nbytes = nbytes; curr_block = block })
      else none
    else some (record text { buffer = text.buffer ++ source; nbytes = nbytes })

-- Where a loop leaves the text: go on, `goto exit`, `return -1`, or an access to a freed level.
pub data Progress : Type 0 where
  more : Text → Progress
  full : Text → Progress
  failed : Progress
  freed : Progress

pub after_append : (limit : ℕ) → Option Text → Progress
after_append limit none = failed
after_append limit (some text) = if ltb limit text.nbytes then full text else more text

-- The round of the loop over the levels for level `j` of tag `i`; `limit` is `size + relative_off`.
pub read_level : ReadCall → Services → (i : ℕ) → Tag → (j limit : ℕ) → Text → Progress
unfolding append_buffer after_append line to_decimal
read_level c s i t j limit text =
    if not (c.level_ok i j) then more text else elim (pointer t.tag_level j) [
      | none ↦ more text
      | some a ↦ elim (cell s.levels a) [
        | none ↦ freed
        | some l ↦
            if not (c.line_ok i j)
            then more text
            else after_append limit (
                append_buffer c text (
                  line (to_decimal t.key) (to_decimal t.euid) (to_decimal j)
                    (to_decimal l.waiting)))
      ]
    ]

abbrev pub and_then : Progress → (Text → Progress) → Progress
and_then (more text) next = next text
and_then (full text) next = full text
and_then failed next = failed
and_then freed next = freed

pub read_levels : ReadCall → Services → (i : ℕ) → Tag → (left j limit : ℕ) → Text → Progress
unfolding read_level
read_levels c s i t zero j limit text = more text
read_levels c s i t (suc left) j limit text =
    and_then (read_level c s i t j limit text) (λ text. read_levels c s i t left (j + 1) limit text)

abbrev pub appended : Option Text → Progress
appended none = failed
appended (some text) = more text

pub read_tag : ReadCall → Services → (i : ℕ) → Tag → (limit : ℕ) → Text → Progress
unfolding read_levels append_buffer divider
read_tag c s i t limit text =
    and_then (read_levels c s i t levels_count 0 limit text)
      (λ text. appended (append_buffer c text divider))

-- The round of the loop over the tags for tag `i`, with the offset that is left.
pub read_round : ReadCall → Services → (i size relative_off : ℕ) → Text → Progress × ℕ
unfolding read_tag
read_round c s i size relative_off text =
    if not (c.lock_ok i) then (more text, relative_off) else elim (tag_at s i) [
      | none ↦ (more text, relative_off)
      | some t ↦
          if ltb tag_size relative_off
          then (more text, relative_off - tag_size)
          else (read_tag c s i t (size + relative_off) text, relative_off)
    ]

abbrev pub next_round : Progress × ℕ → (ℕ → Text → Progress × ℕ) → Progress × ℕ
next_round (more text, relative_off) next = next relative_off text
next_round (full text, relative_off) next = (full text, relative_off)
next_round (failed, relative_off) next = (failed, relative_off)
next_round (freed, relative_off) next = (freed, relative_off)

pub read_tags : ReadCall → Services → (left i size relative_off : ℕ) → Text → Progress × ℕ
unfolding read_round
read_tags c s zero i size relative_off text = (more text, relative_off)
read_tags c s (suc left) i size relative_off text =
    next_round (read_round c s i size relative_off text)
      (λ relative_off text. read_tags c s left (i + 1) size relative_off text)

-- What a read returns, delivers and makes of the file's offset.
pub record Answer : Type 0 where
  pub code : ℤ
  pub bytes : List ℕ
  pub offset : ℤ

abbrev pub refused : ℤ → ℤ → Answer
refused code off = record { code = code; bytes = []; offset = off }

pub deliver : (copy_ok : Bool) → (size off relative_off : ℕ) → (buffer : List ℕ) → Answer
deliver copy_ok size off relative_off buffer =
    let tot_size = length buffer in
    let count = min size (tot_size - relative_off) in
    if leb tot_size relative_off
    then refused (pos 0) (pos off)
    else if copy_ok
    then record {
      code = pos count;
      bytes = take count (drop relative_off buffer);
      offset = pos (off + count);
    }
    else refused (negsuc 0) (pos off)

pub finish : (copy_ok : Bool) → (size off : ℕ) → Progress × ℕ → Option Answer
unfolding deliver
finish copy_ok size off (more text, relative_off) =
    some (deliver copy_ok size off relative_off text.buffer)
finish copy_ok size off (full text, relative_off) =
    some (deliver copy_ok size off relative_off text.buffer)
finish copy_ok size off (failed, relative_off) = some (refused (negsuc 0) (pos off))
finish copy_ok size off (freed, relative_off) = none

pub dev_read : ReadCall → Services → (has_buf : Bool) (size : ℕ) (off : ℤ) → Option Answer
unfolding finish read_tags header divider
dev_read c s has_buf size (negsuc n) =
    some (refused (if size == 0 then pos 0 else negsuc 0) (negsuc n))
dev_read c s has_buf size (pos off) =
    if size == 0
    then some (refused (pos 0) (pos off))
    else if not has_buf
    then some (refused (negsuc 0) (pos off))
    else if not c.first_ok || (not c.header_ok || not c.divider_ok)
    then some (refused (negsuc 0) (pos off))
    else finish c.copy_ok size off (
        read_tags c s max_tags 0 size off
          (record { buffer = header ++ divider; nbytes = 0; curr_block = 1 }))

-- `dev_llseek`, with the result and the new position. `stale` is what the uninitialised `newpos`
-- holds.
abbrev pub seek : (position newpos : ℤ) → ℤ × ℤ
seek position (negsuc n) = (einval, position)
seek position (pos n) = (pos n, pos n)

pub dev_llseek : (stale position off : ℤ) (whence : ℕ) → ℤ × ℤ
dev_llseek stale position off zero = seek position off
dev_llseek stale position off (suc zero) = seek position stale
dev_llseek stale position off (suc (suc zero)) = (off, position)
dev_llseek stale position off (suc (suc (suc n))) = (einval, position)
