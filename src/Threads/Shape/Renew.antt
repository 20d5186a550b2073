-- ===== src/Threads/Shape/Renew.antt =====
-- The step of `tag_receive` that may replace a level object, and what it does to the pointers.
use mathlib.Core.Path.{subst}
use tag_aos.Base.{
  ℕ, ◌+◌, ◌==◌, ◌≡◌, refl, sym, ap, ◌∙◌, not, Option, none, some, List, [], ℤ, inl, inr,
  if◌then◌else◌, if-elim, true, false, ◌⊎◌, Bool-cases, Option-cases, get_or, get_or-set_same, set,
  length, arith,
}
use tag_aos.Tag.{eintr, enomem, einval}
use tag_aos.Level.{TagLevel, cell, create_level}
use tag_aos.Level.Build.{pointer}
use tag_aos.Service.{Tag, Services, tag_at, set_tag}
use tag_aos.Receive.{
  RenewCall, Receiver, Pc, ◌>>=◌, bind-elim, drop_waiting, release_level, hold_level, sleep_on,
  leave, release_at, back_out, settle, renew_level, renew_tag, receive_renew,
}
use tag_aos.Threads.Balance.{get_or-set_alive}
use tag_aos.Threads.Receive.{moved}
use tag_aos.Threads.Shape.{
  points, points-some, points-Knows, IsShaped, KnowsPc, named, name_of, Keeps, Grows, Stays,
  Grows-trans, Keeps-trans, Stays-trans, Stays-Keeps,
}
use tag_aos.Threads.Shape.Moves.{
  set_tag-Stays, set_level-Stays, readers-Stays, moved-Grows, moved-Keeps,
}

pub record Route (s s' : Services) (p' : Pc) : Type 0 where
  pub keeps : Keeps s s'
  pub knows : KnowsPc s' p'

abbrev pub Routes : Services → Option (Services × Pc) → Type 0
Routes s none = Unit
Routes s (some (s', p')) = Route s s' p'

pub leave-Routes :
    {s0 : Services} (s : Services) (r : Receiver) (code : ℤ) (message : List ℕ)
    → Keeps s0 s
    → Routes s0 (leave s r code message)
unfolding leave drop_waiting
leave-Routes {s0} s r code message k = bind-elim (Routes s0) (tag_at s r.tag) _ tt (λ t there.
    record {
      keeps = Keeps-trans k (
          Stays-Keeps
            (Stays-trans (set_tag-Stays s r.tag t (drop_waiting t) there refl refl)
              (readers-Stays (set_tag s r.tag (some (drop_waiting t))) _))
            k.shaped);
      knows = tt;
    })

pub record Let (s s1 : Services) : Type 0 where
  pub stays : Stays s s1
  pub tags : s1.tags ≡ s.tags

pub release_at-Let : (s s1 : Services) (a : ℕ) → release_at s a ≡ some s1 → Let s s1
unfolding release_at
release_at-Let s s1 a e = subst Lets e (
    bind-elim Lets (cell s.levels a) _ tt
      (λ l alive. record { stays = set_level-Stays s a l (release_level l) alive; tags = refl }))
  where
    Lets : Option Services → Type 0
    Lets none = Unit
    Lets (some s1) = Let s s1

back_out-Routes :
    (s : Services) (r : Receiver) (code : ℤ) → IsShaped s → Routes s (back_out s r code)
unfolding back_out
back_out-Routes s r code v =
    bind-elim (Routes s) (release_at s r.address) _ tt
      (λ s1 e. leave-Routes s1 r code [] (Stays-Keeps (release_at-Let s s1 r.address e).stays v))

-- The receiver takes its pointer back: `u` at its tag leads where `t` did.
restored-Stays :
    (s s1 : Services) (d : ℕ) (t u w : Tag)
    → tag_at s d ≡ some t
    → tag_at s1 d ≡ some w
    → ((e : ℕ) → tag_at s1 e ≡ (if d == e then some w else tag_at s e))
    → ((i : ℕ) → pointer u.tag_level i ≡ pointer t.tag_level i)
    → name_of u ≡ name_of t
    → Grows s s1
    → Stays s (set_tag s1 d (some u))
unfolding points
restored-Stays s s1 d t u w there there1 others leads same_name g = record {
  grows = record { cells = g.cells; longer = g.longer };
  same = λ e i. ground (arith, get_or-set_alive s1.tags d w (some u) e there1, others e, leads i);
  names = λ e.
      ap named (get_or-set_alive s1.tags d w (some u) e there1) ∙ by_test e (Bool-cases (d == e));
}
  where
    by_test :
        (e : ℕ)
        → ((d == e) ≡ true) ⊎ ((d == e) ≡ false)
        → named (if d == e then some u else tag_at s1 e) ≡ named (tag_at s e)
    by_test e (inr other) = rw other (ap named (others e ∙ rw other refl))
    by_test e (inl here) =
        let de : d ≡ e = ground arith in
        rw here (ap some same_name ∙ sym (ap named (sym (ap (tag_at s) de) ∙ there)))

-- `s0` is the state before the pointer was looked at.
settle-Routes :
    {s0 : Services} (c : RenewCall) (s : Services) (r : Receiver) (old a : ℕ) (t : Tag)
    → Keeps s0 s
    → points s r.tag r.level ≡ some a
    → ((s1 : Services)
        → s1.tags ≡ s.tags
        → Grows s s1
        → Keeps s0
            (set_tag s1 r.tag (some (record t { tag_level = set t.tag_level r.level (some old) }))))
    → Routes s0 (settle c s r old a t)
unfolding settle sleep_on
settle-Routes {s0} c s r old a t k p undo =
    bind-elim (Routes s0) (release_at s r.address) _ tt (λ s1 e.
      bind-elim (Routes s0) (cell s1.levels a) _ tt (λ l alive.
        let out = release_at-Let s s1 r.address e in
        let asleep_now =
          Stays-trans out.stays
            (set_level-Stays s1 a l (record (hold_level l) { waiting = l.waiting + 1 }) alive) in
        let k' = Stays-Keeps asleep_now k.shaped in
        if-elim (Routes s0) c.rcu_ok
          (λ _. record {
            keeps = Keeps-trans k k';
            knows =
                points-Knows _ (record r { address = a }) k'.shaped
                  (asleep_now.same r.tag r.level ∙ p);
          })
          (λ _. leave-Routes _ r eintr [] (undo s1 out.tags out.stays.grows))))

module _ (s : Services) (r : Receiver) (v : IsShaped s) where
  pub Keeps-refl : Keeps s s
  Keeps-refl = record { shaped = v; knows = λ r k. k; names = λ d. refl }

  module _ (t : Tag) (old : ℕ) (there : tag_at s r.tag ≡ some t)
      (leads : pointer t.tag_level r.level ≡ some old) where
    -- Nothing was replaced.
    unmoved_undo :
        (s1 : Services)
        → s1.tags ≡ s.tags
        → Grows s s1
        → Keeps s
            (set_tag s1 r.tag (some (record t { tag_level = set t.tag_level r.level (some old) })))
    unmoved_undo s1 tags g =
        Stays-Keeps
          (restored-Stays s s1 r.tag t (record t { tag_level = set t.tag_level r.level (some old) })
            t there (ap (λ ts. get_or ts r.tag none) tags ∙ there)
            (λ e. ap (λ ts. get_or ts e none) tags ∙ ground (arith, there))
            (λ i. ground (arith, get_or-set_alive t.tag_level r.level old (some old) i leads)) refl
            g)
          v

    moved_undo :
        (fresh : TagLevel) (s1 : Services)
        → s1.tags ≡ (moved s r t fresh).tags
        → Grows (moved s r t fresh) s1
        → Keeps s (
            set_tag s1 r.tag (
              some (record t {
                tag_level =
                    set (set t.tag_level r.level (some (length s.levels))) r.level (some old);
              })))
    moved_undo fresh s1 tags g =
        Stays-Keeps
          (restored-Stays s s1 r.tag t
            (record t {
              tag_level = set (set t.tag_level r.level (some (length s.levels))) r.level (some old);
            })
            t' there
            (ap (λ ts. get_or ts r.tag none) tags ∙ get_or-set_same s.tags r.tag t (some t') there)
            (λ e.
              ap (λ ts. get_or ts e none) tags ∙ get_or-set_alive s.tags r.tag t (some t') e there)
            (λ i. ground (
              arith,
              get_or-set_alive t.tag_level r.level old (some (length s.levels)) i leads,
              get_or-set_alive (set t.tag_level r.level (some (length s.levels))) r.level
                  (length s.levels) (some old) i
                  (get_or-set_same t.tag_level r.level old (some (length s.levels)) leads),
            ))
            refl (Grows-trans (moved-Grows s r t fresh) g))
          v
      where
        t' : Tag
        t' = record t { tag_level = set t.tag_level r.level (some (length s.levels)) }

    renew_level-Routes : (c : RenewCall) (l : TagLevel) → Routes s (renew_level c s r t old l)
    unfolding renew_level
    renew_level-Routes c l =
        if-elim (Routes s) l.ready
          (λ _. elim (Option-cases (create_level c.memory r.level (l.epoch + 1))) [
            | inl no_memory ↦
                subst (Routes s) (sym (ap chosen no_memory)) (back_out-Routes s r enomem v)
            | inr (fresh, e) ↦ subst (Routes s) (sym (ap chosen e)) (
                settle-Routes c (moved s r t fresh) r old (length s.levels) t'
                  (moved-Keeps s r t fresh old there leads v)
                  (points-some (moved s r t fresh) r.tag r.level (length s.levels) t'
                    (get_or-set_same s.tags r.tag t (some t') there)
                    (get_or-set_same t.tag_level r.level old (some (length s.levels)) leads))
                  (moved_undo fresh))
          ])
          (λ _.
            settle-Routes c s r old old t Keeps-refl (points-some s r.tag r.level old t there leads)
              unmoved_undo)
      where
        t' : Tag
        t' = record t { tag_level = set t.tag_level r.level (some (length s.levels)) }

        chosen : Option TagLevel → Option (Services × Pc)
        chosen none = back_out s r enomem
        chosen (some fresh) = settle c (moved s r t fresh) r old (length s.levels) t'

  pub receive_renew-Routes : (c : RenewCall) → Routes s (receive_renew c s r)
  unfolding receive_renew renew_tag
  receive_renew-Routes c =
      if-elim (Routes s) (not c.write_lock_ok) (λ _. back_out-Routes s r eintr v)
        (λ _. bind-elim (Routes s) (tag_at s r.tag) _ tt (λ t there.
          elim (Option-cases (pointer t.tag_level r.level)) [
            | inl no_level ↦
                subst (Routes s) (sym (ap (chosen t) no_level)) (back_out-Routes s r einval v)
            | inr (old, leads) ↦ subst (Routes s) (sym (ap (chosen t) leads)) (
                bind-elim (Routes s) (cell s.levels old) _ tt
                  (λ l alive. renew_level-Routes t old there leads c l))
          ]))
    where
      chosen : Tag → Option ℕ → Option (Services × Pc)
      chosen t none = back_out s r einval
      chosen t (some old) = do l ← cell s.levels old; renew_level c s r t old l
