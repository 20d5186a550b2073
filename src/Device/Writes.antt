-- ===== src/Device/Writes.antt =====
-- The loops of an undisturbed `dev_read`.
use mathlib.Core.Path.{subst}
use mathlib.Core.List.{append_assoc}
use tag_aos.Base.{
  ℕ, zero, suc, ◌+◌, ◌-◌, ◌≤◌, ◌<◌, ◌≡◌, refl, sym, ap, ◌∙◌, ◌*◌, arith, not, Option, none, some,
  List, [], ◌∷◌, ◌++◌, ltb, if◌then◌else◌, if-elim, length, length-append,
}
use tag_aos.Tag.{levels_count}
use tag_aos.Level.{TagLevel, cell}
use tag_aos.Level.Build.{pointer}
use tag_aos.Service.{Tag, Services, tag_at}
use tag_aos.Device.{
  char_block, tag_size, to_decimal, line, divider, Text, ReadCall, append_buffer, Progress, more,
  full, failed, freed, after_append, read_level, and_then, read_levels, appended, read_tag,
  read_round, next_round, read_tags,
}
use tag_aos.Device.Report.{level_line, level_lines, tag_block, tag_blocks, Undisturbed, Alive}

-- `piece` has been put behind the text `t0`, or as much of it as makes more than `limit` bytes.
abbrev pub Writes : (limit : ℕ) → Text → (piece : List ℕ) → Progress → Type 0
Writes limit t0 piece (more t1) = (t1.buffer ≡ t0.buffer ++ piece) × (t1.nbytes ≤ length t1.buffer)
Writes limit t0 piece (full t1) =
    (rest : List ℕ) × (t1.buffer ++ rest ≡ t0.buffer ++ piece) × (limit < length t1.buffer)
Writes limit t0 piece failed = ⊥
Writes limit t0 piece freed = ⊥

append-nothing : (xs : List ℕ) → xs ≡ xs ++ []
append-nothing [] = refl
append-nothing (x ∷ xs) = ap (◌∷◌ x) (append-nothing xs)

and_then-Writes :
    (limit : ℕ) (t0 : Text) (p q : List ℕ) (o : Progress) (next : Text → Progress)
    → Writes limit t0 p o
    → ((t1 : Text) → t1.nbytes ≤ length t1.buffer → Writes limit t1 q (next t1))
    → Writes limit t0 (p ++ q) (and_then o next)
and_then-Writes limit t0 p q (more t1) next (joined, counted) rest =
    behind (next t1) (rest t1 counted)
  where
    assoc : t1.buffer ++ q ≡ t0.buffer ++ (p ++ q)
    assoc = ap (λ b. b ++ q) joined ∙ append_assoc t0.buffer p q

    behind : (o : Progress) → Writes limit t1 q o → Writes limit t0 (p ++ q) o
    behind (more t2) (joined', counted') = (joined' ∙ assoc, counted')
    behind (full t2) (left, joined', past) = (left, joined' ∙ assoc, past)
    behind failed w = absurd w
    behind freed w = absurd w
and_then-Writes limit t0 p q (full t1) next (left, joined, past) rest = (
  left ++ q,
  sym (append_assoc t1.buffer left q) ∙ ap (λ b. b ++ q) joined ∙ append_assoc t0.buffer p q,
  past,
)
and_then-Writes limit t0 p q failed next w rest = absurd w
and_then-Writes limit t0 p q freed next w rest = absurd w

module _ (c : ReadCall) (s : Services) (u : Undisturbed c) (alive : Alive s) where
  -- What `append_buffer` gives when memory does not run out.
  abbrev Joined : Text → List ℕ → Option Text → Type 0
  Joined t0 source none = ⊥
  Joined t0 source (some t1) = (t1.buffer ≡ t0.buffer ++ source) × (t1.nbytes ≤ length t1.buffer)

  append_buffer-Joined :
      (t0 : Text) (source : List ℕ)
      → t0.nbytes ≤ length t0.buffer
      → Joined t0 source (append_buffer c t0 source)
  unfolding append_buffer
  append_buffer-Joined t0 source counted =
      if-elim (Joined t0 source) (ltb (char_block * t0.curr_block) (t0.nbytes + length source))
        (λ _.
          if-elim (Joined t0 source) (c.block_ok (t0.curr_block + 1)) (λ _. (refl, longer))
            (λ no_block. absurd (cc (no_block, u.block (t0.curr_block + 1)))))
        (λ _. (refl, longer))
    where
      longer : t0.nbytes + length source ≤ length (t0.buffer ++ source)
      longer = omega (arith, length-append t0.buffer source, counted)

  after_append-Writes :
      (limit : ℕ) (t0 : Text) (source : List ℕ) (o : Option Text)
      → Joined t0 source o
      → Writes limit t0 source (after_append limit o)
  unfolding after_append
  after_append-Writes limit t0 source none j = absurd j
  after_append-Writes limit t0 source (some t1) (joined, counted) =
      if-elim (Writes limit t0 source) (ltb limit t1.nbytes)
        (λ past. ([], sym (append-nothing t1.buffer) ∙ joined, ground (arith, past, counted)))
        (λ _. (joined, counted))

  appended-Writes :
      (limit : ℕ) (t0 : Text) (source : List ℕ) (o : Option Text)
      → Joined t0 source o
      → Writes limit t0 source (appended o)
  appended-Writes limit t0 source none j = absurd j
  appended-Writes limit t0 source (some t1) j = j

  read_level-Writes :
      (i : ℕ) (t : Tag) (j limit : ℕ) (t0 : Text)
      → tag_at s i ≡ some t
      → t0.nbytes ≤ length t0.buffer
      → Writes limit t0 (level_line s t j) (read_level c s i t j limit t0)
  unfolding read_level
  read_level-Writes i t j limit t0 there counted =
      if-elim (Writes limit t0 (level_line s t j)) (not (c.level_ok i j))
        (λ stopped. absurd (ground (arith, stopped, u.level i j)))
        (λ _. at_pointer (pointer t.tag_level j) refl)
    where
      text_of : TagLevel → List ℕ
      text_of l = line (to_decimal t.key) (to_decimal t.euid) (to_decimal j) (to_decimal l.waiting)

      at_cell :
          (a : ℕ) (o : Option TagLevel)
          → pointer t.tag_level j ≡ some a
          → cell s.levels a ≡ o
          → Writes limit t0
              (elim o [ none ↦ [] | some l ↦ text_of l ])
              (elim o [
                | none ↦ freed
                | some l ↦
                    if not (c.line_ok i j)
                    then more t0
                    else after_append limit (append_buffer c t0 (text_of l))
              ])
      at_cell a none points dead = absurd (cc (dead, (alive i j a t there points).1))
      at_cell a (some l) points found =
          if-elim (Writes limit t0 (text_of l)) (not (c.line_ok i j))
            (λ stopped. absurd (ground (arith, stopped, u.line i j)))
            (λ _.
              after_append-Writes limit t0 (text_of l) (append_buffer c t0 (text_of l))
                (append_buffer-Joined t0 (text_of l) counted))

      at_pointer :
          (p : Option ℕ)
          → pointer t.tag_level j ≡ p
          → Writes limit t0
              (elim p [
                | none ↦ []
                | some a ↦ elim (cell s.levels a) [ none ↦ [] | some l ↦ text_of l ]
              ])
              (elim p [
                | none ↦ more t0
                | some a ↦ elim (cell s.levels a) [
                  | none ↦ freed
                  | some l ↦
                      if not (c.line_ok i j)
                      then more t0
                      else after_append limit (append_buffer c t0 (text_of l))
                ]
              ])
      at_pointer none e = (append-nothing t0.buffer, counted)
      at_pointer (some a) e = at_cell a (cell s.levels a) e refl

  read_levels-Writes :
      (i : ℕ) (t : Tag) (left j limit : ℕ) (t0 : Text)
      → tag_at s i ≡ some t
      → t0.nbytes ≤ length t0.buffer
      → Writes limit t0 (level_lines s t left j) (read_levels c s i t left j limit t0)
  unfolding read_levels level_lines
  read_levels-Writes i t zero j limit t0 there counted = (append-nothing t0.buffer, counted)
  read_levels-Writes i t (suc left) j limit t0 there counted =
      and_then-Writes limit t0 (level_line s t j) (level_lines s t left (j + 1))
        (read_level c s i t j limit t0) (λ t1. read_levels c s i t left (j + 1) limit t1)
        (read_level-Writes i t j limit t0 there counted)
        (λ t1 counted'. read_levels-Writes i t left (j + 1) limit t1 there counted')

  read_tag-Writes :
      (i : ℕ) (t : Tag) (limit : ℕ) (t0 : Text)
      → tag_at s i ≡ some t
      → t0.nbytes ≤ length t0.buffer
      → Writes limit t0 (tag_block s (some t)) (read_tag c s i t limit t0)
  unfolding read_tag
  read_tag-Writes i t limit t0 there counted =
      and_then-Writes limit t0 (level_lines s t levels_count 0) divider
        (read_levels c s i t levels_count 0 limit t0) (λ t1. appended (append_buffer c t1 divider))
        (read_levels-Writes i t levels_count 0 limit t0 there counted)
        (λ t1 counted'.
          appended-Writes limit t1 divider (append_buffer c t1 divider)
            (append_buffer-Joined t1 divider counted'))

  -- The same of a round that leaves the offset at 0.
  abbrev pub WritesAt : (size : ℕ) → Text → (piece : List ℕ) → Progress × ℕ → Type 0
  WritesAt size t0 piece o = Writes (size + 0) t0 piece o.0 × (o.1 ≡ 0)

  next_round-WritesAt :
      (size : ℕ) (t0 : Text) (p q : List ℕ) (o : Progress × ℕ) (next : ℕ → Text → Progress × ℕ)
      → WritesAt size t0 p o
      → ((t1 : Text) → t1.nbytes ≤ length t1.buffer → WritesAt size t1 q (next 0 t1))
      → WritesAt size t0 (p ++ q) (next_round o next)
  next_round-WritesAt size t0 p q (more t1, off) next (w, start) rest =
      subst (λ n. WritesAt size t0 (p ++ q) (next n t1)) (sym start)
        (
          and_then-Writes (size + 0) t0 p q (more t1) (λ t. (next 0 t).0) w
              (λ t counted. (rest t counted).0),
          (rest t1 w.1).1,
        )
  next_round-WritesAt size t0 p q (full t1, off) next (w, start) rest = (
    and_then-Writes (size + 0) t0 p q (full t1) (λ t. (next 0 t).0) w
        (λ t counted. (rest t counted).0),
    start,
  )
  next_round-WritesAt size t0 p q (failed, off) next (w, start) rest = absurd w
  next_round-WritesAt size t0 p q (freed, off) next (w, start) rest = absurd w

  read_round-WritesAt :
      (i size : ℕ) (t0 : Text)
      → t0.nbytes ≤ length t0.buffer
      → WritesAt size t0 (tag_block s (tag_at s i)) (read_round c s i size 0 t0)
  unfolding read_round
  read_round-WritesAt i size t0 counted =
      if-elim (WritesAt size t0 (tag_block s (tag_at s i))) (not (c.lock_ok i))
        (λ stopped. absurd (ground (arith, stopped, u.lock i))) (λ _. at_tag (tag_at s i) refl)
    where
      at_tag :
          (o : Option Tag)
          → tag_at s i ≡ o
          → WritesAt size t0 (tag_block s o) (elim o [
            | none ↦ (more t0, 0)
            | some t ↦
                if ltb tag_size 0
                then (more t0, 0 - tag_size)
                else (read_tag c s i t (size + 0) t0, 0)
          ])
      at_tag none e = ((append-nothing t0.buffer, counted), refl)
      at_tag (some t) e = (read_tag-Writes i t (size + 0) t0 e counted, refl)

  pub read_tags-WritesAt :
      (left i size : ℕ) (t0 : Text)
      → t0.nbytes ≤ length t0.buffer
      → WritesAt size t0 (tag_blocks s left i) (read_tags c s left i size 0 t0)
  unfolding read_tags tag_blocks
  read_tags-WritesAt zero i size t0 counted = ((append-nothing t0.buffer, counted), refl)
  read_tags-WritesAt (suc left) i size t0 counted =
      next_round-WritesAt size t0 (tag_block s (tag_at s i)) (tag_blocks s left (i + 1))
        (read_round c s i size 0 t0) (λ off t1. read_tags c s left (i + 1) size off t1)
        (read_round-WritesAt i size t0 counted)
        (λ t1 counted'. read_tags-WritesAt left (i + 1) size t1 counted')
