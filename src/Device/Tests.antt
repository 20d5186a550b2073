-- ===== src/Device/Tests.antt =====
-- Reads of a state with one tag.
use mathlib.Core.Path.{subst}
use tag_aos.Base.{
  zero, suc, ap, ◌+◌, ◌*◌, ◌≤◌, ◌≡◌, refl, arith, true, Option, none, some, [], ◌∷◌, ◌++◌, pos,
  length, take, drop,
}
use tag_aos.Level.{TagLevel, cell}
use tag_aos.Level.Build.{pointer}
use tag_aos.Service.{Tag, Services}
use tag_aos.Device.{
  char_block, Text, ReadCall, append_buffer, Answer, refused, dev_read, dev_llseek, header, divider,
  line,
}
use tag_aos.Device.Append.{IsCounted, append_buffer_fits, first_text-IsCounted}
use tag_aos.Device.Report.{Undisturbed, Alive, report}
use tag_aos.Device.Whole.{dev_read-report}
use tag_aos.Fixture.{a_tag, quiet_level, services_with}

abbrev call : ReadCall
call = record {
  first_ok = true;
  header_ok = true;
  divider_ok = true;
  lock_ok = λ i. true;
  level_ok = λ i j. true;
  line_ok = λ i j. true;
  block_ok = λ n. true;
  copy_ok = true;
}

call-Undisturbed : Undisturbed call
call-Undisturbed = record {
  first = refl;
  header = refl;
  divider = refl;
  lock = λ i. refl;
  level = λ i j. refl;
  line = λ i j. refl;
  block = λ n. refl;
  copy = refl;
}

abbrev state : Services
state = services_with quiet_level

abbrev answer_of : Option Answer → Answer
answer_of none = refused (pos 0) (pos 0)
answer_of (some o) = o

-- The line of the level behind the header: key 5, user 1000, level 0, two receivers.
line_runs :
    take 54 (drop 108 (answer_of (dev_read call state true 200 (pos 0))).bytes)
    ≡ line (53 ∷ []) (49 ∷ 48 ∷ 48 ∷ 48 ∷ []) (48 ∷ []) (50 ∷ [])
unfolding dev_read
line_runs = refl

-- The text has a header, one line and two dividers.
whole_runs : (answer_of (dev_read call state true 4096 (pos 0))).code ≡ pos 216
unfolding dev_read
whole_runs = refl

llseek_runs : dev_llseek (pos 3) (pos 7) (pos 5) 1 ≡ (pos 3, pos 3)
unfolding dev_llseek
llseek_runs = refl

-- The only tag is the first, and its only pointer leads to the level.
state-Alive : Alive state
state-Alive zero zero a t there points =
    subst (λ a. (l : TagLevel) × (cell state.levels a ≡ some l)) (first refl) (quiet_level, refl)
  where
    same : a_tag ≡ t
    same = cc there

    first : some 0 ≡ pointer a_tag.tag_level 0 → 0 ≡ a
    first e = cc (e, ap (λ (t : Tag). pointer t.tag_level 0) same, points)
state-Alive zero (suc j) a t there points = absurd (no_more refl)
  where
    same : a_tag ≡ t
    same = cc there

    no_more : none ≡ pointer a_tag.tag_level (suc j) → ⊥
    no_more e = cc (e, ap (λ (t : Tag). pointer t.tag_level (suc j)) same, points)
state-Alive (suc i) j a t there points = absurd (cc there)

dev_read-report_example :
    (o : Answer) × (dev_read call state true 120 (pos 0) ≡ some o)
    × (o.bytes ≡ take 120 (report state))
dev_read-report_example = dev_read-report call state 120 call-Undisturbed state-Alive (omega arith)

abbrev first_text : Text
first_text = record { buffer = header ++ divider; nbytes = 0; curr_block = 1 }

abbrev second_text : Text
second_text = record { buffer = (header ++ divider) ++ 65 ∷ 66 ∷ []; nbytes = 2; curr_block = 1 }

append_runs : append_buffer call first_text (65 ∷ 66 ∷ []) ≡ some second_text
unfolding append_buffer
append_runs = refl

append_buffer_fits_example :
    (second_text.buffer ≡ first_text.buffer ++ 65 ∷ 66 ∷ [])
    × IsCounted second_text
    × (length second_text.buffer ≤ (char_block * 1 + 1) + 107)
append_buffer_fits_example =
    append_buffer_fits call first_text second_text (65 ∷ 66 ∷ []) first_text-IsCounted (omega arith)
      append_runs
