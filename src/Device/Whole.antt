-- ===== src/Device/Whole.antt =====
-- `dev_read` from the start of the file, undisturbed.
use mathlib.Core.Path.{subst}
use tag_aos.Base.{
  ℕ, zero, suc, ◌+◌, ◌-◌, ◌≤◌, ◌≡◌, ◌≢◌, refl, sym, ap, ◌∙◌, ◌==◌, arith, true, not, ◌||◌, Option,
  none, some, List, [], ◌∷◌, ◌++◌, pos, leb, min, if-elim, length, take, take-min,
}
use tag_aos.Tag.{max_tags}
use tag_aos.Service.{Services}
use tag_aos.Device.{
  header, divider, Text, ReadCall, Progress, more, full, failed, freed, Answer, deliver, finish,
  read_tags, dev_read,
}
use tag_aos.Device.Report.{tag_blocks, report, Undisturbed, Alive}
use tag_aos.Device.Writes.{Writes, WritesAt, read_tags-WritesAt}

take-length : (xs : List ℕ) → take (length xs) xs ≡ xs
take-length [] = refl
take-length (x ∷ xs) = ap (◌∷◌ x) (take-length xs)

take-append : (n : ℕ) (xs ys : List ℕ) → n ≤ length xs → take n xs ≡ take n (xs ++ ys)
take-append zero xs ys h = refl
take-append (suc n) [] ys h = absurd (omega (arith, h))
take-append (suc n) (x ∷ xs) ys h = ap (◌∷◌ x) (take-append n xs ys (omega (arith, h)))

take-empty : (n : ℕ) (xs : List ℕ) → length xs ≡ 0 → [] ≡ take n xs
take-empty zero xs h = refl
take-empty (suc n) [] h = refl
take-empty (suc n) (x ∷ xs) h = absurd (omega (arith, h))

deliver_from_start :
    (size : ℕ) (buffer : List ℕ) → (deliver true size 0 0 buffer).bytes ≡ take size buffer
unfolding deliver
deliver_from_start size buffer =
    if-elim (λ (o : Answer). o.bytes ≡ take size buffer) (leb (length buffer) 0)
      (λ empty. take-empty size buffer (ground (arith, empty)))
      (λ _.
        ap (λ n. take (min size n) buffer) whole
        ∙ take-min size (length buffer) buffer
        ∙ ap (take size) (take-length buffer))
  where
    whole : length buffer - 0 ≡ length buffer
    whole = omega arith

abbrev Gives : (size : ℕ) → List ℕ → Option Answer → Type 0
Gives size whole none = ⊥
Gives size whole (some o) = o.bytes ≡ take size whole

finish-Gives :
    (size : ℕ) (t0 : Text) (piece : List ℕ) (o : Progress × ℕ)
    → Writes (size + 0) t0 piece o.0
    → o.1 ≡ 0
    → Gives size (t0.buffer ++ piece) (finish true size 0 o)
unfolding finish
finish-Gives size t0 piece (more t1, off) (joined, counted) start =
    ap (λ n. (deliver true size 0 n t1.buffer).bytes) start
    ∙ deliver_from_start size t1.buffer
    ∙ ap (take size) joined
finish-Gives size t0 piece (full t1, off) (rest, joined, past) start =
    ap (λ n. (deliver true size 0 n t1.buffer).bytes) start
    ∙ deliver_from_start size t1.buffer
    ∙ take-append size t1.buffer rest (omega (arith, past))
    ∙ ap (take size) joined
finish-Gives size t0 piece (failed, off) w start = absurd w
finish-Gives size t0 piece (freed, off) w start = absurd w

abbrev first_text : Text
first_text = record { buffer = header ++ divider; nbytes = 0; curr_block = 1 }

dev_read-Gives :
    (c : ReadCall) (s : Services) (size : ℕ)
    → Undisturbed c
    → Alive s
    → size ≢ 0
    → Gives size (report s) (dev_read c s true size (pos 0))
unfolding dev_read report
dev_read-Gives c s size u alive positive =
    if-elim (Gives size (report s)) (size == 0) (λ z. absurd (positive (ground (arith, z))))
      (λ _.
        if-elim (Gives size (report s)) (not c.first_ok || (not c.header_ok || not c.divider_ok))
          (λ stopped. absurd (ground (arith, stopped, u.first, u.header, u.divider)))
          (λ _.
            subst
              (λ copy_ok.
                Gives size (report s)
                  (finish copy_ok size 0 (read_tags c s max_tags 0 size 0 first_text)))
              (sym u.copy)
              (finish-Gives size first_text (tag_blocks s max_tags 0)
                (read_tags c s max_tags 0 size 0 first_text) written.0 written.1)))
  where
    written :
        WritesAt c s u alive size first_text
          (tag_blocks s max_tags 0)
          (read_tags c s max_tags 0 size 0 first_text)
    written = read_tags-WritesAt c s u alive max_tags 0 size first_text (omega arith)

-- A read from the start, when nothing is interrupted, memory does not run out, the copy succeeds and
-- no tag points to a freed level, returns and delivers the beginning of the report: the header, and
-- for each tag a line for every level with its key, its user and the number of its receivers. The
-- loop may stop before the end of the report, but not before it has as many bytes as were asked for.
pub dev_read-report :
    (c : ReadCall) (s : Services) (size : ℕ)
    → Undisturbed c
    → Alive s
    → size ≢ 0
    → (o : Answer) × (dev_read c s true size (pos 0) ≡ some o) × (o.bytes ≡ take size (report s))
dev_read-report c s size u alive positive =
    answered (dev_read c s true size (pos 0)) (dev_read-Gives c s size u alive positive)
  where
    answered :
        (x : Option Answer)
        → Gives size (report s) x
        → (o : Answer) × (x ≡ some o) × (o.bytes ≡ take size (report s))
    answered none g = absurd g
    answered (some o) g = (o, refl, g)
