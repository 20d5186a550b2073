-- ===== src/Receive/Enter.antt =====
-- `tag_receive` up to the sleep.
use mathlib.Core.Path.{subst}
use tag_aos.Base.{
  ℕ, ◌+◌, ◌≡◌, refl, inl, inr, Bool, true, false, not, Option, none, some, [], pos, negsuc,
  if◌then◌else◌, if-elim, Option-cases, ltb,
}
use tag_aos.Tag.{max_tags, levels_count, buffer_size, einval, eintr}
use tag_aos.Level.{TagLevel, cell}
use tag_aos.Level.Build.{pointer}
use tag_aos.Service.{Tag, Services, tag_at, set_tag, set_level, denied, index}
use tag_aos.Send.Publish.{Reaches}
use tag_aos.Receive.{
  ReceiveCall, Receiver, Pc, done, renewing, asleep, drop_waiting, add_waiting, hold_tag,
  hold_level, sleep_on, enter_tag, enter_checked, tag_receive,
}

-- The receiver `r` has registered with the level at `a`: the level is now `l'`, and the tag counts
-- one receiver more, and one reader of its lock.
pub record Registered (c : ReceiveCall) (s s' : Services) (r0 r : Receiver) (a : ℕ) (t : Tag)
    (l' : TagLevel) : Type 0 where
  pub allowed : denied t c.euid ≡ false
  pub receiver : r ≡ record r0 { address = a }
  pub state : s' ≡ set_level (hold_tag (set_tag s r0.tag (some (add_waiting t))) r0.tag) a l'

-- The ways that entering can end: with an error, no lock held, and at most a stale `ready` flag of a
-- tag with no other receiver cleared; with a message found that this thread is too late for; asleep on
-- a level that has no message.
module _ (c : ReceiveCall) (s : Services) (r0 : Receiver) where
  pub data Entered : Services × Pc → Type 0 where
    failed : (code : ℕ) → Entered (s, done (negsuc code) [])
    unregistered :
        (t : Tag)
        → tag_at s r0.tag ≡ some t
        → Entered (set_tag s r0.tag (some (drop_waiting (add_waiting t))), done eintr [])
    late :
        {s' : Services} {r : Receiver} (a : ℕ) (t : Tag) (l : TagLevel)
        → Reaches s r0.tag r0.level a t l
        → l.ready ≡ true
        → Registered c s s' r0 r a t (hold_level l)
        → Entered (s', renewing r)
    waits :
        {s' : Services} {r : Receiver} (a : ℕ) (t : Tag) (l : TagLevel)
        → Reaches s r0.tag r0.level a t l
        → l.ready ≡ false
        → Registered c s s' r0 r a t (record (hold_level l) { waiting = l.waiting + 1 })
        → Entered (s', asleep r)

  abbrev pub Enters : Option (Services × Pc) → Type 0
  Enters none =
      (t : Tag) × (a : ℕ) × (tag_at s r0.tag ≡ some t)
      × (pointer t.tag_level r0.level ≡ some a)
      × (cell s.levels a ≡ none)
  Enters (some o) = Entered o

  enter_tag-Enters : (t : Tag) → tag_at s r0.tag ≡ some t → Enters (enter_tag c s r0 t)
  unfolding enter_tag sleep_on
  enter_tag-Enters t there =
      if-elim Enters (denied t c.euid) (λ _. failed 0)
        (λ allowed.
          if-elim Enters (not c.level_lock_ok) (λ _. failed 3)
            (λ _. elim (Option-cases (pointer t.tag_level r0.level)) [
              | inl no_level ↦ rw no_level (failed 21)
              | inr (a, points) ↦ rw points (at_level a points allowed)
            ]))
    where
      registered :
          (a : ℕ) (l : TagLevel)
          → denied t c.euid ≡ false
          → Registered c s
              (set_level (hold_tag (set_tag s r0.tag (some (add_waiting t))) r0.tag) a l)
              r0
              (record r0 { address = a })
              a
              t
              l
      registered a l allowed = record { allowed = allowed; receiver = refl; state = refl }

      at_level :
          (a : ℕ)
          → pointer t.tag_level r0.level ≡ some a
          → denied t c.euid ≡ false
          → Enters (elim (cell s.levels a) [
            | none ↦ none
            | some l ↦
                let s' = hold_tag (set_tag s r0.tag (some (add_waiting t))) r0.tag in
                if not c.rcu_ok
                then some (set_tag s r0.tag (some (drop_waiting (add_waiting t))), done eintr [])
                else if l.ready
                then some (set_level s' a (hold_level l), renewing (record r0 { address = a }))
                else some (sleep_on s' r0 a l)
          ])
      at_level a points allowed = elim (Option-cases (cell s.levels a)) [
        | inl dead ↦ rw dead (t, a, there, points, dead)
        | inr (l, alive) ↦ rw alive (
            if-elim Enters (not c.rcu_ok) (λ _. unregistered t there)
              (λ _.
                if-elim Enters l.ready
                  (λ full.
                    late a t l (record { tag = there; points = points; alive = alive }) full
                      (registered a (hold_level l) allowed))
                  (λ free.
                    waits a t l (record { tag = there; points = points; alive = alive }) free
                      (registered a (record (hold_level l) { waiting = l.waiting + 1 }) allowed))))
      ]

  enter_checked-Enters : Enters (enter_checked c s r0)
  unfolding enter_checked
  enter_checked-Enters =
      if-elim Enters (not c.lock_ok) (λ _. failed 3)
        (λ _. elim (Option-cases (tag_at s r0.tag)) [
          | inl absent ↦ rw absent (failed 60)
          | inr (t, there) ↦ rw there (enter_tag-Enters t there)
        ])

-- The receiver that a call describes.
abbrev pub caller : (d i : ℕ) (has_buffer : Bool) (size : ℕ) → Receiver
caller d i has_buffer size = record {
  tag = d;
  level = i;
  address = 0;
  size = if has_buffer then size else 0;
  has_buffer = has_buffer;
}

module _ (c : ReceiveCall) (s : Services) (d i : ℕ) (has_buffer : Bool) (size : ℕ) where
  abbrev Call : Option (Services × Pc) → Type 0
  Call = Enters c s (caller d i has_buffer size)

  abbrev in_range : (d i : ℕ) → Option (Services × Pc)
  in_range d i =
      if ltb buffer_size size
      then some (s, done einval [])
      else enter_checked c s (caller d i has_buffer size)

  tag_receive-Enters : Call (tag_receive c s (pos d) (pos i) has_buffer size)
  unfolding tag_receive index
  tag_receive-Enters =
      if-elim
        (λ (x : Option ℕ). Call (elim x [
          | none ↦ some (s, done einval [])
          | some d ↦ elim (index (pos i) levels_count) [
            | none ↦ some (s, done einval [])
            | some i ↦ in_range d i
          ]
        ]))
        (ltb d max_tags)
        (λ _.
          if-elim
            (λ (x : Option ℕ).
              Call (elim x [ none ↦ some (s, done einval []) | some i ↦ in_range d i ]))
            (ltb i levels_count)
            (λ _.
              if-elim Call (ltb buffer_size size) (λ _. failed 21)
                (λ _. enter_checked-Enters c s (caller d i has_buffer size)))
            (λ _. failed 21))
        (λ _. failed 21)

  -- Entering a receive ends in one of four ways: with an error and nothing changed; interrupted at
  -- the level's lock, with the counts as before; registered with a level that has a message already,
  -- to be replaced; or registered and asleep on a level that has none. In the last two the tag
  -- counts the thread, and the level object is held.
  pub tag_receive_enters :
      (o : Services × Pc)
      → tag_receive c s (pos d) (pos i) has_buffer size ≡ some o
      → Entered c s (caller d i has_buffer size) o
  tag_receive_enters o e = subst Call e tag_receive-Enters

  -- If the pointer that the tag and the level lead to is alive, entering a receive touches no freed
  -- memory: it returns or sleeps.
  pub tag_receive_returns :
      ((t : Tag) (a : ℕ)
        → tag_at s d ≡ some t
        → pointer t.tag_level i ≡ some a
        → (l : TagLevel) × (cell s.levels a ≡ some l))
      → (o : Services × Pc) × (tag_receive c s (pos d) (pos i) has_buffer size ≡ some o)
  tag_receive_returns alive =
      elim (Option-cases (tag_receive c s (pos d) (pos i) has_buffer size)) [
        | inr found ↦ found
        | inl lost ↦ absurd (nothing_freed (subst Call lost tag_receive-Enters))
      ]
    where
      nothing_freed : Call none → ⊥
      nothing_freed (t, a, there, points, dead) = cc (dead, (alive t a there points).1)
