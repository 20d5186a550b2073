-- ===== src/Ctl/AwakeAll.antt =====
-- `TAG_AWAKE_ALL` in `tag_ctl` as a whole, with the wake up of the receivers in `tag_receive`.
use mathlib.Core.Path.{subst}
use mathlib.Core.List.{Mem}
use tag_aos.Base.{
  ℕ, zero, suc, ◌<◌, ◌≡◌, ◌≢◌, refl, sym, ap, ◌∙◌, inl, inr, ◌⊎◌, arith, Bool, true, false, not,
  Option, none, some, List, [], ◌==◌, ℤ, pos, negsuc, if-elim, Bool-cases, Option-cases,
  get_or-set_same,
}
use tag_aos.Tag.{levels_count, eintr}
use tag_aos.Level.{TagLevel, cell}
use tag_aos.Level.Build.{pointer}
use tag_aos.Service.{Tag, Services, Done, tag_at, set_tag, denied}
use tag_aos.Receive.{Receiver, Pc, receive_wake, wake_code, copy_message}
use tag_aos.Receive.Woken.{outcome, wake_last, wake_other}
use tag_aos.Ctl.{CtlCall, awake_from, awoken, awake_all}
use tag_aos.Ctl.Awake.{Wakes, awake_from-Wakes}

-- The tag `d` has its flag up, and the levels with receivers have been woken.
pub record Awoken (c : CtlCall) (s : Services) (d : ℕ) (o : Done Services) : Type 0 where
  pub t : Tag
  pub there : tag_at s d ≡ some t
  pub allowed : denied t c.euid ≡ false
  pub waited : t.waiting ≢ 0
  pub state : o.state ≡ set_tag s d (some (record t { ready = true }))
  pub woken :
      (j a : ℕ) (l : TagLevel)
      → j < levels_count
      → pointer t.tag_level j ≡ some a
      → cell s.levels a ≡ some l
      → l.waiting ≢ 0
      → Mem a o.woken

module _ (c : CtlCall) (s : Services) (d : ℕ) where
  abbrev Kept : Done Services → Type 0
  Kept o = (o.state ≡ s) × (o.woken ≡ [])

  -- An interruption in the loop leaves the flag up.
  abbrev Stopped : Done Services → Type 0
  Stopped o =
      (t : Tag) × (tag_at s d ≡ some t)
      × (o.code ≡ eintr)
      × (o.state ≡ set_tag s d (some (record t { ready = true })))

  abbrev ByCode : ℤ → Done Services → Type 0
  ByCode (pos zero) o = Kept o
  ByCode (pos (suc n)) o = (n ≡ 0) × Awoken c s d o
  ByCode (negsuc n) o = Kept o ⊎ Stopped o

  abbrev Outcome : Option (Done Services) → Type 0
  Outcome none = Unit
  Outcome (some o) = ByCode o.code o

  awoken-Outcome :
      (t : Tag)
      → tag_at s d ≡ some t
      → denied t c.euid ≡ false
      → t.waiting ≢ 0
      → (r : Option (List ℕ × ℤ))
      → Wakes c
          (set_tag s d (some (record t { ready = true })))
          (record t { ready = true })
          levels_count
          0
          []
          r
      → Outcome (awoken (set_tag s d (some (record t { ready = true }))) r)
  awoken-Outcome t there allowed waited none h = tt
  awoken-Outcome t there allowed waited (some (w, pos zero)) h = absurd h
  awoken-Outcome t there allowed waited (some (w, pos (suc n))) (one, cov) = (
    one,
    record {
      t = t;
      there = there;
      allowed = allowed;
      waited = waited;
      state = refl;
      woken = λ j a l lt. cov.1 j a l (omega arith) (omega (arith, lt));
    },
  )
  awoken-Outcome t there allowed waited (some (w, negsuc n)) h = inr (t, there, ap negsuc h, refl)

  awake_all-Outcome : Outcome (awake_all c s d)
  unfolding awake_all
  awake_all-Outcome =
      if-elim Outcome (not c.lock_ok) (λ _. inl (refl, refl))
        (λ _. elim (Option-cases (tag_at s d)) [
          | inl absent ↦ rw absent (inl (refl, refl))
          | inr (t, there) ↦ rw there (
              if-elim Outcome (denied t c.euid) (λ _. inl (refl, refl))
                (λ allowed.
                  if-elim Outcome t.ready (λ _. (refl, refl))
                    (λ _.
                      if-elim Outcome (t.waiting == 0) (λ _. (refl, refl))
                        (λ waited.
                          awoken-Outcome t there allowed
                            (λ idle. absurd (ground (arith, waited, idle)))
                            (awake_from c (set_tag s d (some (record t { ready = true })))
                              (record t { ready = true }) levels_count 0 [])
                            (awake_from-Wakes c (set_tag s d (some (record t { ready = true })))
                              (record t { ready = true }) levels_count 0 [])))))
        ])

  -- `TAG_AWAKE_ALL` that returns 1 was allowed to, found receivers on the tag, has put up the tag's
  -- flag and changed nothing else, and has woken every level of the tag that receivers wait on.
  pub awake_all_success :
      (o : Done Services) → awake_all c s d ≡ some o → o.code ≡ pos 1 → Awoken c s d o
  awake_all_success o e one = (subst (λ z. ByCode z o) one (subst Outcome e awake_all-Outcome)).1

  quiet : (o : Done Services) (z : ℤ) → z ≢ pos 1 → o.code ≡ z → z ≢ eintr → ByCode z o → Kept o
  quiet o (pos zero) ne e ok kept = kept
  quiet o (pos (suc n)) ne e ok (one, awoke) = absurd (ne (ap (λ n. pos (suc n)) one))
  quiet o (negsuc n) ne e ok (inl kept) = kept
  quiet o (negsuc n) ne e ok (inr (t, there, code, state)) = absurd (ok (sym e ∙ code))

  -- With any other answer than 1 and -EINTR, nothing changes and nobody is woken.
  pub awake_all_refused :
      (o : Done Services)
      → awake_all c s d ≡ some o
      → o.code ≢ pos 1
      → o.code ≢ eintr
      → (o.state ≡ s) × (o.woken ≡ [])
  awake_all_refused o e ne ok = quiet o o.code ne refl ok (subst Outcome e awake_all-Outcome)

copy_message_awake :
    (copy_ok : Bool) (r : Receiver) (t : Tag) (l : TagLevel)
    → t.ready ≡ true
    → copy_message copy_ok r l (wake_code t l) ≡ (pos 0, [])
unfolding copy_message wake_code
copy_message_awake copy_ok r t l up = rw up refl

-- After a `TAG_AWAKE_ALL` that returns 1, the wait queue of every level object that the tag leads to
-- and that a receiver waits on has been woken, and such a receiver, when it runs, returns 0 with no
-- message, whether or not its level has one.
pub awake_all-receive_wake :
    (c : CtlCall) (s : Services) (r : Receiver) (t : Tag) (l : TagLevel) (o : Done Services)
    (copy_ok : Bool)
    → awake_all c s r.tag ≡ some o
    → o.code ≡ pos 1
    → r.level < levels_count
    → tag_at s r.tag ≡ some t
    → pointer t.tag_level r.level ≡ some r.address
    → cell s.levels r.address ≡ some l
    → l.waiting ≢ 0
    → Mem r.address o.woken
      × ((s' : Services) × (pc : Pc) × (receive_wake copy_ok o.state r ≡ some (s', pc))
          × (outcome pc ≡ some (pos 0, [])))
awake_all-receive_wake c s r t l o copy_ok e one inside there leads alive waits =
    let x = awake_all_success c s r.tag o e one in
    let same : t ≡ x.t = ground (arith, there, x.there) in
    (
      x.woken r.level r.address l inside
          (sym (ap (λ (u : Tag). pointer u.tag_level r.level) same) ∙ leads) alive waits,
      subst Wakes0 (sym x.state) (
          by_last (record x.t { ready = true })
            (get_or-set_same s.tags r.tag x.t (some (record x.t { ready = true })) x.there) refl
            (Bool-cases (l.waiting == 1))),
    )
  where
    Wakes0 : Services → Type 0
    Wakes0 s' =
        (s'' : Services) × (pc : Pc) × (receive_wake copy_ok s' r ≡ some (s'', pc))
        × (outcome pc ≡ some (pos 0, []))

    by_last :
        (t' : Tag)
        → tag_at (set_tag s r.tag (some t')) r.tag ≡ some t'
        → t'.ready ≡ true
        → ((l.waiting == 1) ≡ true) ⊎ ((l.waiting == 1) ≡ false)
        → Wakes0 (set_tag s r.tag (some t'))
    by_last t' there up (inl last) = (
      _,
      _,
      wake_last (set_tag s r.tag (some t')) r t' l there alive copy_ok (pos 0) []
          (copy_message_awake copy_ok r t' l up) last,
      refl,
    )
    by_last t' there up (inr others) = (
      _,
      _,
      wake_other (set_tag s r.tag (some t')) r t' l there alive copy_ok (pos 0) []
          (copy_message_awake copy_ok r t' l up) others,
      refl,
    )
