-- ===== src/Ctl/Awake.antt =====
-- The loop of `TAG_AWAKE_ALL` in `tag_ctl`.
use mathlib.Core.Path.{subst}
use mathlib.Core.List.{Mem, mem-append_right, mem-cons_self}
use mathlib.Core.List.{Memᴰ}
use mathlib.Core.List.Memᴰ as Memᴰ
use mathlib.Core.Logic.{∥∥₁_map}
use tag_aos.Base.{
  ℕ, zero, suc, ◌+◌, ◌≤◌, ◌<◌, ◌≡◌, ◌≢◌, refl, sym, ap, ◌∙◌, inl, inr, arith, not, Option, none,
  some, List, [], ◌∷◌, ◌++◌, ◌==◌, ℤ, pos, negsuc, if◌then◌else◌, if-elim, Bool-cases, Option-cases,
  ltb,
}
use tag_aos.Tag.{eintr}
use tag_aos.Level.{TagLevel, cell}
use tag_aos.Level.Build.{pointer}
use tag_aos.Service.{Tag, Services}
use tag_aos.Ctl.{CtlCall, awake_from}

mem-append_left : (a : ℕ) (s t : List ℕ) → Mem a s → Mem a (s ++ t)
mem-append_left a s t h = ∥∥₁_map {B = Memᴰ a (s ++ t)} h (Memᴰ.append_left t)

module _ (c : CtlCall) (s : Services) (t : Tag) where
  -- The levels from `i`, with `left` to go, and those of `woken`, are among the levels woken.
  abbrev pub Covers : (left i : ℕ) (woken : List ℕ) → List ℕ → Type 0
  Covers left i woken w =
      ((a : ℕ) → Mem a woken → Mem a w)
      × ((j a : ℕ) (l : TagLevel)
          → i ≤ j
          → j < i + left
          → pointer t.tag_level j ≡ some a
          → cell s.levels a ≡ some l
          → l.waiting ≢ 0
          → Mem a w)

  abbrev pub Wakes : (left i : ℕ) (woken : List ℕ) → Option (List ℕ × ℤ) → Type 0
  Wakes left i woken none = Unit
  Wakes left i woken (some (w, pos zero)) = ⊥
  Wakes left i woken (some (w, pos (suc n))) = (n ≡ 0) × Covers left i woken w
  Wakes left i woken (some (w, negsuc n)) = n ≡ 3

  -- The level `i` is dealt with in `woken1`.
  Dealt : (i : ℕ) (woken1 : List ℕ) → Type 0
  Dealt i woken1 =
      (a : ℕ) (l : TagLevel)
      → pointer t.tag_level i ≡ some a
      → cell s.levels a ≡ some l
      → l.waiting ≢ 0
      → Mem a woken1

  widen-Covers :
      (left i : ℕ) (woken0 woken1 w : List ℕ)
      → ((a : ℕ) → Mem a woken0 → Mem a woken1)
      → Dealt i woken1
      → Covers left (i + 1) woken1 w
      → Covers (suc left) i woken0 w
  unfolding Dealt
  widen-Covers left i woken0 woken1 w sub dealt (more, rest) = (
    λ a m. more a (sub a m),
    λ j a l ge lt points alive waits. elim (Bool-cases (i == j)) [
      | inl same ↦
          more a (dealt a l (ap (pointer t.tag_level) (ground (arith, same)) ∙ points) alive waits)
      | inr other ↦ rest j a l (ground (arith, other, ge)) (omega (arith, lt)) points alive waits
    ],
  )

  widen :
      (left i : ℕ) (woken0 woken1 : List ℕ) (o : Option (List ℕ × ℤ))
      → ((a : ℕ) → Mem a woken0 → Mem a woken1)
      → Dealt i woken1
      → Wakes left (i + 1) woken1 o
      → Wakes (suc left) i woken0 o
  widen left i woken0 woken1 none sub dealt h = tt
  widen left i woken0 woken1 (some (w, pos zero)) sub dealt h = absurd h
  widen left i woken0 woken1 (some (w, pos (suc n))) sub dealt (one, cov) =
      (one, widen-Covers left i woken0 woken1 w sub dealt cov)
  widen left i woken0 woken1 (some (w, negsuc n)) sub dealt h = h

  awake_from-step :
      (left i : ℕ) (woken : List ℕ)
      → ((w : List ℕ) → Wakes left (i + 1) w (awake_from c s t left (i + 1) w))
      → Wakes (suc left) i woken (awake_from c s t (suc left) i woken)
  unfolding awake_from Dealt
  awake_from-step left i woken rest =
      if-elim (Wakes (suc left) i woken) (not (c.level_lock_ok i)) (λ _. refl)
        (λ _. elim (Option-cases (pointer t.tag_level i)) [
          | inl no_level ↦
              subst (λ p. Wakes (suc left) i woken (by_pointer p)) (sym no_level)
                (widen left i woken woken (awake_from c s t left (i + 1) woken) (λ a m. m)
                  (λ a l points alive waits. absurd (cc (no_level, points))) (rest woken))
          | inr (a, points) ↦
              subst (λ p. Wakes (suc left) i woken (by_pointer p)) (sym points) (at_cell a points)
        ])
    where
      by_cell : ℕ → Option TagLevel → Option (List ℕ × ℤ)
      by_cell a none = none
      by_cell a (some l) =
          let later =
            awake_from c s t left (i + 1) (if ltb 0 l.waiting then woken ++ a ∷ [] else woken) in
          if not (c.rcu_ok i) then some (woken, eintr) else later

      by_pointer : Option ℕ → Option (List ℕ × ℤ)
      by_pointer none = awake_from c s t left (i + 1) woken
      by_pointer (some a) = by_cell a (cell s.levels a)

      now : ℕ → TagLevel → List ℕ
      now a l = if ltb 0 l.waiting then woken ++ a ∷ [] else woken

      kept : (a : ℕ) (l : TagLevel) (b : ℕ) → Mem b woken → Mem b (now a l)
      kept a l b m =
          if-elim (λ w. Mem b w) (ltb 0 l.waiting) (λ _. mem-append_left b woken (a ∷ []) m)
            (λ _. m)

      added : (a : ℕ) (l : TagLevel) → l.waiting ≢ 0 → Mem a (now a l)
      added a l waits =
          if-elim (λ w. Mem a w) (ltb 0 l.waiting) (λ _. mem-append_right woken mem-cons_self)
            (λ none_waits. absurd (waits (ground (arith, none_waits))))

      one_level :
          (a b : ℕ) (l m : TagLevel)
          → pointer t.tag_level i ≡ some a
          → pointer t.tag_level i ≡ some b
          → cell s.levels a ≡ some l
          → cell s.levels b ≡ some m
          → l ≡ m
      one_level a b l m p q u v = cc (p, q, u, v)

      same_count :
          (a b : ℕ) (l m : TagLevel)
          → pointer t.tag_level i ≡ some a
          → pointer t.tag_level i ≡ some b
          → cell s.levels a ≡ some l
          → cell s.levels b ≡ some m
          → l.waiting ≡ 0
          → m.waiting ≡ 0
      same_count a b l m p q u v idle =
          ap (λ (l : TagLevel). l.waiting) (sym (one_level a b l m p q u v)) ∙ idle

      at_cell :
          (a : ℕ)
          → pointer t.tag_level i ≡ some a
          → Wakes (suc left) i woken (by_cell a (cell s.levels a))
      at_cell a points = elim (Option-cases (cell s.levels a)) [
        | inl dead ↦ subst (λ o. Wakes (suc left) i woken (by_cell a o)) (sym dead) tt
        | inr (l, alive) ↦
            subst (λ o. Wakes (suc left) i woken (by_cell a o)) (sym alive)
              (if-elim (Wakes (suc left) i woken) (not (c.rcu_ok i)) (λ _. refl)
                (λ _.
                  widen left i woken (now a l) (awake_from c s t left (i + 1) (now a l)) (kept a l)
                    (λ b m points' alive' waits.
                      subst (λ x. Mem x (now a l)) (cc (points, points'))
                        (added a l
                          (λ idle. waits (same_count a b l m points points' alive alive' idle))))
                    (rest (now a l))))
      ]

  pub awake_from-Wakes :
      (left i : ℕ) (woken : List ℕ) → Wakes left i woken (awake_from c s t left i woken)
  unfolding awake_from
  awake_from-Wakes zero i woken =
      (refl, ((λ a h. h), λ j a l ge lt p q w. absurd (omega (arith, ge, lt))))
  awake_from-Wakes (suc left) i woken =
      awake_from-step left i woken (λ w. awake_from-Wakes left (i + 1) w)
