-- ===== src/Level/Build.antt =====
-- `add_tag_level` and `clear_tag_level` of tag-module/tag-syscall.c.
use mathlib.Core.Path.{subst}
use tag_aos.Base.{
  ℕ, zero, suc, ◌+◌, ◌-◌, ◌≤◌, ◌<◌, ◌≡◌, ◌≢◌, refl, sym, ap, ◌∙◌, ◌⊎◌, inl, inr, ◌==◌, arith,
  Option, none, some, List, [], ◌∷◌, ◌++◌, ℤ, pos, ltb, if◌then◌else◌, Bool-cases, length, get_or,
  set, replicate, length-append, length-set, get_or-set, get_or-replicate,
}
use tag_aos.Tag.{levels_count, enomem}
use tag_aos.Level.{
  TagLevel, Heap, cell, Pointers, Memory, new_level, create_level, add_level_from, add_tag_level,
  free_level, clear_tag_level,
}

abbrev pub pointer : Pointers → ℕ → Option ℕ
pointer ps i = get_or ps i none

-- The heap `h` is `h₀` with levels 0 to n - 1 behind it, and `ps` points to them.
pub record Built (h0 : Heap) (n : ℕ) (h : Heap) (ps : Pointers) : Type 0 where
  pub grown : length h ≡ length h0 + n
  pub width : length ps ≡ levels_count
  pub points : (j : ℕ) → pointer ps j ≡ (if ltb j n then some (length h0 + j) else none)
  pub kept : (a : ℕ) → a < length h0 → cell h a ≡ cell h0 a
  pub fresh : (j : ℕ) → j < n → cell h (length h0 + j) ≡ some (new_level j 0)

pub get_or-append {ℓ} :
    {A : Type ℓ} (xs : List A) (x d : A) (i : ℕ)
    → get_or (xs ++ x ∷ []) i d ≡ (if i == length xs then x else get_or xs i d)
get_or-append [] x d zero = ground arith
get_or-append [] x d (suc i) = ground arith
get_or-append (y ∷ ys) x d zero = ground arith
get_or-append (y ∷ ys) x d (suc i) = ground (arith, get_or-append ys x d i)

pub get_or-past {ℓ} : {A : Type ℓ} (xs : List A) (d : A) (i : ℕ) → length xs ≤ i → get_or xs i d ≡ d
get_or-past [] d i h = refl
get_or-past (x ∷ xs) d zero h = absurd (omega arith)
get_or-past (x ∷ xs) d (suc i) h = get_or-past xs d i (omega arith)

Built-next :
    (h0 h : Heap) (ps : Pointers) (n : ℕ)
    → n < levels_count
    → Built h0 n h ps
    → Built h0 (n + 1) (h ++ some (new_level n 0) ∷ []) (set ps n (some (length h)))
Built-next h0 h ps n lt b = record {
  grown = omega (arith, length-append h (some (new_level n 0) ∷ []), b.grown);
  width = length-set ps n (some (length h)) ∙ b.width;
  points =
      λ j. ground (arith, get_or-set ps n j (some (length h)) none, b.points j, b.width, b.grown);
  kept = λ a lt'.
      get_or-append h (some (new_level n 0)) none a ∙ ground (arith, b.grown, b.kept a lt');
  fresh = λ j lt'. get_or-append h (some (new_level n 0)) none (length h0 + j) ∙ last j lt';
}
  where
    last :
        (j : ℕ)
        → j < n + 1
        → (if length h0 + j == length h then some (new_level n 0) else cell h (length h0 + j))
          ≡ some (new_level j 0)
    last j lt' = elim (Bool-cases (j == n)) [
      | inl here ↦ let jn : j ≡ n = ground arith in rw jn (ground (arith, b.grown))
      | inr before ↦ ground (arith, b.grown, b.fresh j)
    ]

-- The result of the loop, with the number of levels that were built.
abbrev Loop : Heap → Heap × Pointers × ℤ → Type 0
Loop h0 (h, ps, code) =
    (n : ℕ) × Built h0 n h ps × ((code ≡ enomem) ⊎ ((code ≡ pos 0) × (n ≡ levels_count)))

create_level-new :
    (m : Memory) (i epoch : ℕ) (l : TagLevel)
    → create_level m i epoch ≡ some l
    → l ≡ new_level i epoch
unfolding create_level
create_level-new m i epoch l e = ground arith

-- One round, given what the rest of the loop does.
round-Loop :
    (m : Memory) (h0 h : Heap) (ps : Pointers) (left i : ℕ) (r : Option TagLevel)
    → create_level m i 0 ≡ r
    → Built h0 i h ps
    → Loop h0 (
        add_level_from m (h ++ some (new_level i 0) ∷ []) (set ps i (some (length h))) left (i + 1))
    → Loop h0 (elim r [
      | none ↦ (h, ps, enomem)
      | some l ↦ add_level_from m (h ++ some l ∷ []) (set ps i (some (length h))) left (i + 1)
    ])
round-Loop m h0 h ps left i none e b rest = (i, b, inl refl)
round-Loop m h0 h ps left i (some l) e b rest = rw (create_level-new m i 0 l e) rest

add_level_from-Loop :
    (m : Memory) (h0 h : Heap) (ps : Pointers) (left i : ℕ)
    → i + left ≡ levels_count
    → Built h0 i h ps
    → Loop h0 (add_level_from m h ps left i)
unfolding add_level_from
add_level_from-Loop m h0 h ps zero i e b = (i, b, inr (refl, omega arith))
add_level_from-Loop m h0 h ps (suc left) i e b =
    round-Loop m h0 h ps left i (create_level m i 0) refl b (
      add_level_from-Loop m h0 _ _ left (i + 1) (omega arith)
        (Built-next h0 h ps i (omega arith) b))

-- `kzalloc` of the array of pointers.
abbrev pub no_pointers : Pointers
no_pointers = replicate levels_count none

add_tag_level-Loop : (m : Memory) (h : Heap) → Loop h (add_tag_level m h no_pointers)
unfolding add_tag_level
add_tag_level-Loop m h = add_level_from-Loop m h h no_pointers levels_count 0 refl (record {
  grown = omega arith;
  width = refl;
  points = λ j. get_or-replicate levels_count none j ∙ ground arith;
  kept = λ a lt. refl;
  fresh = λ j lt. absurd (omega arith);
})

-- If it returns 0, there are `LEVELS` new levels behind the old heap, and `ps` points to them.
pub add_tag_level-Built :
    (m : Memory) (h h' : Heap) (ps : Pointers)
    → add_tag_level m h no_pointers ≡ (h', ps, pos 0)
    → Built h levels_count h' ps
add_tag_level-Built m h h' ps e = built (subst (Loop h) e (add_tag_level-Loop m h))
  where
    built : Loop h (h', ps, pos 0) → Built h levels_count h' ps
    built (n, b, inl fail) = cc
    built (n, b, inr (done, all)) = rw all at b

set-none : (h : Heap) (a : ℕ) → cell (set h a none) a ≡ none
set-none [] a = refl
set-none (x ∷ xs) zero = refl
set-none (x ∷ xs) (suc a) = set-none xs a

other_cell : (h : Heap) (p a : ℕ) → p ≢ a → cell (set h p none) a ≡ cell h a
other_cell [] p a ne = refl
other_cell (x ∷ xs) zero zero ne = absurd (ne refl)
other_cell (x ∷ xs) zero (suc a) ne = refl
other_cell (x ∷ xs) (suc p) zero ne = refl
other_cell (x ∷ xs) (suc p) (suc a) ne = other_cell xs p a (λ e. ne (ap suc e))

freed_or_kept : (h : Heap) (p a : ℕ) → cell h a ≡ none → cell (set h p none) a ≡ none
freed_or_kept [] p a e = e
freed_or_kept (x ∷ xs) zero zero e = refl
freed_or_kept (x ∷ xs) zero (suc a) e = e
freed_or_kept (x ∷ xs) (suc p) zero e = e
freed_or_kept (x ∷ xs) (suc p) (suc a) e = freed_or_kept xs p a e

pub length-clear_tag_level : (h : Heap) (ps : Pointers) → length (clear_tag_level h ps) ≡ length h
unfolding clear_tag_level free_level
length-clear_tag_level h [] = refl
length-clear_tag_level h (none ∷ ps) = length-clear_tag_level h ps
length-clear_tag_level h (some a ∷ ps) =
    length-clear_tag_level (set h a none) ps ∙ length-set h a none

pub clear_stays_freed :
    (h : Heap) (ps : Pointers) (a : ℕ) → cell h a ≡ none → cell (clear_tag_level h ps) a ≡ none
unfolding clear_tag_level free_level
clear_stays_freed h [] a e = e
clear_stays_freed h (none ∷ ps) a e = clear_stays_freed h ps a e
clear_stays_freed h (some p ∷ ps) a e =
    clear_stays_freed (set h p none) ps a (freed_or_kept h p a e)

-- Each level that the array points to is freed.
pub clear_tag_level_freed :
    (h : Heap) (ps : Pointers) (j a : ℕ)
    → pointer ps j ≡ some a
    → cell (clear_tag_level h ps) a ≡ none
unfolding clear_tag_level free_level
clear_tag_level_freed h [] j a e = cc
clear_tag_level_freed h (p ∷ ps) zero a e =
    rw e (clear_stays_freed (set h a none) ps a (set-none h a))
clear_tag_level_freed h (none ∷ ps) (suc j) a e = clear_tag_level_freed h ps j a e
clear_tag_level_freed h (some p ∷ ps) (suc j) a e = clear_tag_level_freed (set h p none) ps j a e

-- A level that it does not point to is left alone.
pub clear_tag_level_kept :
    (h : Heap) (ps : Pointers) (a : ℕ)
    → ((j : ℕ) → pointer ps j ≢ some a)
    → cell (clear_tag_level h ps) a ≡ cell h a
unfolding clear_tag_level free_level
clear_tag_level_kept h [] a ne = refl
clear_tag_level_kept h (none ∷ ps) a ne = clear_tag_level_kept h ps a (λ j. ne (suc j))
clear_tag_level_kept h (some p ∷ ps) a ne =
    clear_tag_level_kept (set h p none) ps a (λ j. ne (suc j))
    ∙ other_cell h p a (λ same. ne 0 (ap some same))

-- Whether or not all levels could be allocated, clearing the array afterwards leaves every cell of
-- the heap as it was before: what was built is freed, and nothing else is.
pub clear-add_tag_level :
    (m : Memory) (h h' : Heap) (ps : Pointers) (code : ℤ) (a : ℕ)
    → add_tag_level m h no_pointers ≡ (h', ps, code)
    → cell (clear_tag_level h' ps) a ≡ cell h a
clear-add_tag_level m h h' ps code a e = restored (subst (Loop h) e (add_tag_level-Loop m h))
  where
    restored : Loop h (h', ps, code) → cell (clear_tag_level h' ps) a ≡ cell h a
    restored (n, b, r) = elim (Bool-cases (ltb a (length h))) [
      | inl old ↦
          clear_tag_level_kept h' ps a (λ j q. ground (arith, b.points j)) ∙ b.kept a (ground arith)
      | inr new ↦ elim (Bool-cases (ltb a (length h'))) [
        | inl built ↦
            clear_tag_level_freed h' ps (a - length h) a
              (b.points (a - length h) ∙ ground (arith, b.grown))
            ∙ sym (get_or-past h none a (ground arith))
        | inr past ↦
            get_or-past (clear_tag_level h' ps) none a
              (ground (arith, length-clear_tag_level h' ps))
            ∙ sym (get_or-past h none a (ground arith))
      ]
    ]

-- Memory does not shrink.
pub length-clear-add_tag_level :
    (m : Memory) (h h' : Heap) (ps : Pointers) (code : ℤ)
    → add_tag_level m h no_pointers ≡ (h', ps, code)
    → length h ≤ length (clear_tag_level h' ps)
length-clear-add_tag_level m h h' ps code e = longer (subst (Loop h) e (add_tag_level-Loop m h))
  where
    longer : Loop h (h', ps, code) → length h ≤ length (clear_tag_level h' ps)
    longer (n, b, r) = omega (arith, length-clear_tag_level h' ps, b.grown)
