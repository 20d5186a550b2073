-- ===== src/Receive/Renewed.antt =====
-- The move of a receiver to a new epoch of its level in tag-module/tag-syscall.c, branch by branch.
use mathlib.Core.Path.{subst}
use tag_aos.Base.{
  ℕ, ◌+◌, ◌-◌, ◌≡◌, ◌≢◌, refl, sym, ap, ◌∙◌, inl, inr, arith, Bool, true, false, Option, none, some,
  List, [], ◌∷◌, ◌++◌, ◌==◌, ℤ, if◌then◌else◌, if-elim, Option-cases, get_or, set, length,
  get_or-set, get_or-set_same,
}
use tag_aos.Tag.{enomem}
use tag_aos.Level.{Memory, TagLevel, cell, create_level}
use tag_aos.Level.Build.{pointer, get_or-append}
use tag_aos.Service.{Tag, Services, tag_at, set_level}
use tag_aos.Receive.{
  Receiver, Pc, done, renewing, asleep, cleaning, release_level, hold_level, leave, release_at,
  RenewCall, settle, renew_level, sleep_on, bind-elim, back_out,
}
use tag_aos.Receive.Clean.{alive-inside}

-- The receiver `r'` sleeps on a level without a message, the one that its tag and level lead to.
pub record SleepsOnNewest (s : Services) (r' : Receiver) : Type 0 where
  pub t : Tag
  pub l : TagLevel
  pub tag : tag_at s r'.tag ≡ some t
  pub alive : cell s.levels r'.address ≡ some l
  pub points : pointer t.tag_level r'.level ≡ some r'.address
  pub empty : l.ready ≡ false
  pub counted : l.waiting ≢ 0
  pub held : l.readers ≢ 0

abbrev pub Renewed : Option (Services × Pc) → Type 0
Renewed none = Unit
Renewed (some (s, done code message)) = Unit
Renewed (some (s, renewing r)) = ⊥
Renewed (some (s, asleep r)) = SleepsOnNewest s r
Renewed (some (s, cleaning r code message)) = ⊥

pub leave-Renewed :
    (s : Services) (r : Receiver) (code : ℤ) (message : List ℕ) → Renewed (leave s r code message)
unfolding leave
leave-Renewed s r code message = bind-elim Renewed (tag_at s r.tag) _ tt (λ t there. tt)

-- Letting go of the level at `x` leaves a level at `a` as it is, or with one reader less.
release_at-kept :
    (s s1 : Services) (x a : ℕ) (l : TagLevel)
    → release_at s x ≡ some s1
    → cell s.levels a ≡ some l
    → (n : ℕ) × (cell s1.levels a ≡ some (record l { readers = n })) × (s1.tags ≡ s.tags)
unfolding release_at
release_at-kept s s1 x a l e alive =
    subst (Kept s1) e (bind-elim (Kept s1) (cell s.levels x) _ (λ lost. absurd (cc lost)) after)
      refl
  where
    Kept : Services → Option Services → Type 0
    Kept s1 o =
        o ≡ some s1
        → (n : ℕ) × (cell s1.levels a ≡ some (record l { readers = n })) × (s1.tags ≡ s.tags)

    written :
        (lx : TagLevel)
        → cell s.levels x ≡ some lx
        → cell (set s.levels x (some (release_level lx))) a
          ≡ (if x == a then some (release_level lx) else cell s.levels a)
    written lx there = get_or-set s.levels x a _ none (alive-inside s.levels x lx there)

    kept_at :
        (lx : TagLevel)
        → cell s.levels x ≡ some lx
        → (b : Bool) → (x == a) ≡ b
        → (n : ℕ) × (cell (set s.levels x (some (release_level lx))) a
            ≡ some (record l { readers = n }))
          × (s.tags ≡ s.tags)
    kept_at lx there true here = (
      l.readers - 1,
      written lx there
          ∙ rw here
              (ap (λ (m : TagLevel). some (release_level m)) (cc (there, alive, same_place here))),
      refl,
    )
      where
        same_place : (x == a) ≡ true → x ≡ a
        same_place h = ground (arith, h)
    kept_at lx there false elsewhere = (l.readers, written lx there ∙ rw elsewhere alive, refl)

    after :
        (lx : TagLevel)
        → cell s.levels x ≡ some lx
        → Kept s1 (some (set_level s x (release_level lx)))
    after lx there same =
        subst
          (λ (s1 : Services).
            (n : ℕ) × (cell s1.levels a ≡ some (record l { readers = n })) × (s1.tags ≡ s.tags))
          (same_state same) (kept_at lx there (x == a) refl)
      where
        same_state :
            some (set_level s x (release_level lx)) ≡ some s1
            → set_level s x (release_level lx) ≡ s1
        same_state h = cc h

settle-Renewed :
    (c : RenewCall) (s : Services) (r : Receiver) (old a : ℕ) (t : Tag) (l : TagLevel)
    → tag_at s r.tag ≡ some t
    → pointer t.tag_level r.level ≡ some a
    → cell s.levels a ≡ some l
    → l.ready ≡ false
    → Renewed (settle c s r old a t)
unfolding settle sleep_on
settle-Renewed c s r old a t l there points alive empty =
    bind-elim Renewed (release_at s r.address) _ tt (λ s1 released.
      let (n, still, tags) = release_at-kept s s1 r.address a l released alive in
      bind-elim Renewed (cell s1.levels a) _ tt (λ l1 found.
        if-elim Renewed c.rcu_ok
          (λ _. record {
            t = t;
            l = record (hold_level l1) { waiting = l1.waiting + 1 };
            tag = ap (λ ts. get_or ts r.tag none) tags ∙ there;
            alive = get_or-set_same s1.levels a l1 _ found;
            points = points;
            empty = still_empty l1 n (cc (found, still));
            counted = omega arith;
            held = omega arith;
          })
          (λ _. leave-Renewed _ r _ _)))
  where
    still_empty : (l1 : TagLevel) (n : ℕ) → l1 ≡ record l { readers = n } → l1.ready ≡ false
    still_empty l1 n same = ap (λ (m : TagLevel). m.ready) same ∙ empty

create_level-empty :
    (m : Memory) (i epoch : ℕ) (l : TagLevel) → create_level m i epoch ≡ some l → l.ready ≡ false
unfolding create_level
create_level-empty m i epoch l e = subst Empty e (
    if-elim Empty (m.level_ok i) (λ _. if-elim Empty (m.buffer_ok i) (λ _. refl) (λ _. tt))
      (λ _. tt))
  where
    Empty : Option TagLevel → Type 0
    Empty none = Unit
    Empty (some l) = l.ready ≡ false

pub renew_level-Renewed :
    (c : RenewCall) (s : Services) (r : Receiver) (t : Tag) (old : ℕ) (l : TagLevel)
    → tag_at s r.tag ≡ some t
    → pointer t.tag_level r.level ≡ some old
    → cell s.levels old ≡ some l
    → Renewed (renew_level c s r t old l)
unfolding renew_level
renew_level-Renewed c s r t old l there points alive =
    if-elim Renewed l.ready
      (λ _. elim (Option-cases (create_level c.memory r.level (l.epoch + 1))) [
        | inl no_memory ↦ subst Renewed (sym (ap chosen no_memory)) back_out-Renewed
        | inr (fresh, e) ↦ subst Renewed (sym (ap chosen e)) (
            settle-Renewed c _ r old (length s.levels) _ fresh
              (get_or-set_same s.tags r.tag t _ there)
              (get_or-set_same t.tag_level r.level old _ points)
              (get_or-append s.levels (some fresh) none (length s.levels) ∙ ground arith)
              (create_level-empty c.memory r.level (l.epoch + 1) fresh e))
      ])
      (λ empty. settle-Renewed c s r old old t l there points alive empty)
  where
    back_out-Renewed : Renewed (back_out s r enomem)
    back_out-Renewed =
        bind-elim Renewed (release_at s r.address) _ tt (λ s1 e. leave-Renewed s1 r enomem [])

    chosen : Option TagLevel → Option (Services × Pc)
    chosen none = back_out s r enomem
    chosen (some fresh) =
        settle c
          (record s {
            tags =
                set s.tags r.tag (
                  some (record t { tag_level = set t.tag_level r.level (some (length s.levels)) }));
            levels = s.levels ++ some fresh ∷ [];
          })
          r old (length s.levels)
          (record t { tag_level = set t.tag_level r.level (some (length s.levels)) })
