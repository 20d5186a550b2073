-- ===== src/Threads/Message.antt =====
-- A message on a level object, under the steps of the threads.
use mathlib.Core.Path.{subst}
use tag_aos.Base.{
  ℕ, ◌+◌, ◌-◌, ◌==◌, ◌≡◌, ◌≢◌, refl, sym, ap, ◌∙◌, inl, inr, true, false, not, Bool, Bool-cases,
  Option-cases, Option, none, some, List, [], ltb, if◌then◌else◌, if-elim, set, take, length, ℤ,
  pos, negsuc, arith,
}
use tag_aos.Tag.{max_tags, einval, eintr, eproto, enomem}
use tag_aos.Level.{TagLevel, cell, create_level, free_level}
use tag_aos.Level.Build.{pointer, get_or-append}
use tag_aos.Service.{Tag, Services, tag_at, set_tag, set_level, index}
use tag_aos.Receive.{
  ReceiveCall, RenewCall, Receiver, Pc, done, ◌>>=◌, bind-elim, add_waiting, hold_tag, hold_level,
  release_level, sleep_on, leave, release_at, back_out, settle, renew_level, renew_tag,
  receive_renew, receive_wake, receive_clean, tag_receive,
}
use tag_aos.Receive.Enter.{caller, Entered, failed, unregistered, late, waits, tag_receive_enters}
use tag_aos.Threads.{stock, level_readers, Turn, enter, renew, wake, clean}
use tag_aos.Threads.Balance.{get_or-set_alive}
use tag_aos.Threads.Receive.{moved, get_or-lt}

-- The object at `a` has the first `size` bytes of `message`.
pub record HasMessage (s : Services) (a : ℕ) (message : List ℕ) (size : ℕ) : Type 0 where
  pub l : TagLevel
  pub alive : cell s.levels a ≡ some l
  pub ready : l.ready ≡ true
  pub size_of : l.size ≡ size
  pub content : take size l.buffer ≡ take size message

module _ (a : ℕ) (message : List ℕ) (size : ℕ) where
  abbrev Has : Services → Type 0
  Has s = HasMessage s a message size

  abbrev pub Have : Option (Services × Pc) → Type 0
  Have none = Unit
  Have (some (s', p')) = HasMessage s' a message size

  -- A level may be written to if that keeps its message.
  pub set_level-Has :
      (s : Services) (x : ℕ) (l l' : TagLevel)
      → cell s.levels x ≡ some l
      → l'.ready ≡ l.ready
      → l'.size ≡ l.size
      → l'.buffer ≡ l.buffer
      → HasMessage s a message size
      → HasMessage (set_level s x l') a message size
  set_level-Has s x l l' e ready size_of buffer h = elim (Bool-cases (x == a)) [
    | inr other ↦ record {
      l = h.l;
      alive = get_or-set_alive s.levels x l (some l') a e ∙ ground (arith, other, h.alive);
      ready = h.ready;
      size_of = h.size_of;
      content = h.content;
    }
    | inl same ↦
        let old : l ≡ h.l = ground (arith, same, e, h.alive) in
        record {
          l = l';
          alive = get_or-set_alive s.levels x l (some l') a e ∙ ground (arith, same);
          ready = ready ∙ ap (λ (m : TagLevel). m.ready) old ∙ h.ready;
          size_of = size_of ∙ ap (λ (m : TagLevel). m.size) old ∙ h.size_of;
          content = ap (take size) (buffer ∙ ap (λ (m : TagLevel). m.buffer) old) ∙ h.content;
        }
  ]

  -- Any other level may be written to or freed.
  pub other-Has :
      (s s' : Services)
      → cell s'.levels a ≡ cell s.levels a
      → HasMessage s a message size
      → HasMessage s' a message size
  other-Has s s' e h = record {
    l = h.l;
    alive = e ∙ h.alive;
    ready = h.ready;
    size_of = h.size_of;
    content = h.content;
  }

  leave-Have :
      (s : Services) (r : Receiver) (code : ℤ) (m : List ℕ) → Has s → Have (leave s r code m)
  unfolding leave
  leave-Have s r code m h = bind-elim Have (tag_at s r.tag) _ tt (λ t there. other-Has s _ refl h)

  release_at-Has : (s s1 : Services) (x : ℕ) → Has s → release_at s x ≡ some s1 → Has s1
  unfolding release_at
  release_at-Has s s1 x h e = subst Frees e (
      bind-elim Frees (cell s.levels x) _ tt
        (λ l alive. set_level-Has s x l (release_level l) alive refl refl refl h))
    where
      Frees : Option Services → Type 0
      Frees none = Unit
      Frees (some s1) = Has s1

  back_out-Have : (s : Services) (r : Receiver) (code : ℤ) → Has s → Have (back_out s r code)
  unfolding back_out
  back_out-Have s r code h =
      bind-elim Have (release_at s r.address) _ tt
        (λ s1 e. leave-Have s1 r code [] (release_at-Has s s1 r.address h e))

  settle-Have :
      (c : RenewCall) (s : Services) (r : Receiver) (old b : ℕ) (t : Tag)
      → Has s
      → Have (settle c s r old b t)
  unfolding settle sleep_on
  settle-Have c s r old b t h = bind-elim Have (release_at s r.address) _ tt (λ s1 e.
      let h1 = release_at-Has s s1 r.address h e in
      bind-elim Have (cell s1.levels b) _ tt (λ l alive.
        if-elim Have c.rcu_ok
          (λ _.
            set_level-Has s1 b l (record (hold_level l) { waiting = l.waiting + 1 }) alive refl refl
              refl h1)
          (λ _. leave-Have _ r eintr [] (other-Has s1 _ refl h1))))

  moved-Has :
      (s : Services) (r : Receiver) (t : Tag) (fresh : TagLevel) → Has s → Has (moved s r t fresh)
  moved-Has s r t fresh h =
      other-Has s (moved s r t fresh)
        (ground
          (arith, get_or-append s.levels (some fresh) none a, get_or-lt s.levels a h.l h.alive))
        h

  renew_level-Have :
      (c : RenewCall) (s : Services) (r : Receiver) (t : Tag) (old : ℕ) (l : TagLevel)
      → Has s
      → Have (renew_level c s r t old l)
  unfolding renew_level
  renew_level-Have c s r t old l h =
      if-elim Have l.ready (λ _. by_memory (create_level c.memory r.level (l.epoch + 1)))
        (λ _. settle-Have c s r old old t h)
    where
      by_memory :
          (o : Option TagLevel)
          → Have (elim o [
            | none ↦ back_out s r enomem
            | some fresh ↦
                settle c
                  (moved s r t fresh)
                  r
                  old
                  (length s.levels)
                  (record t { tag_level = set t.tag_level r.level (some (length s.levels)) })
          ])
      by_memory none = back_out-Have s r enomem h
      by_memory (some fresh) = settle-Have c _ r old (length s.levels) _ (moved-Has s r t fresh h)

  receive_renew-Have :
      (c : RenewCall) (s : Services) (r : Receiver) → Has s → Have (receive_renew c s r)
  unfolding receive_renew renew_tag
  receive_renew-Have c s r h =
      if-elim Have (not c.write_lock_ok) (λ _. back_out-Have s r eintr h)
        (λ _.
          bind-elim Have (tag_at s r.tag) _ tt
            (λ t there. by_pointer t (pointer t.tag_level r.level)))
    where
      by_pointer :
          (t : Tag) (o : Option ℕ)
          → Have (elim o [
            | none ↦ back_out s r einval
            | some old ↦ do l ← cell s.levels old; renew_level c s r t old l
          ])
      by_pointer t none = back_out-Have s r einval h
      by_pointer t (some old) =
          bind-elim Have (cell s.levels old) _ tt (λ l now. renew_level-Have c s r t old l h)

  Entered-Has :
      (c : ReceiveCall) (s : Services) (r0 : Receiver) {s' : Services} {p : Pc}
      → Has s
      → Entered c s r0 (s', p)
      → Has s'
  Entered-Has c s r0 h (failed n) = h
  Entered-Has c s r0 h (unregistered t there) = other-Has s _ refl h
  Entered-Has c s r0 h (late b t l reach full reg) = subst Has (sym reg.state) (
      set_level-Has (hold_tag (set_tag s r0.tag (some (add_waiting t))) r0.tag) b l (hold_level l)
        reach.alive refl refl refl (other-Has s _ refl h))
  Entered-Has c s r0 h (waits b t l reach free reg) = subst Has (sym reg.state) (
      set_level-Has (hold_tag (set_tag s r0.tag (some (add_waiting t))) r0.tag) b l
        (record (hold_level l) { waiting = l.waiting + 1 }) reach.alive refl refl refl
        (other-Has s _ refl h))

  tag_receive-Have :
      (c : ReceiveCall) (s : Services) (tag level : ℤ) (has_buffer : Bool) (n : ℕ)
      → Has s
      → Have (tag_receive c s tag level has_buffer n)
  unfolding tag_receive index
  tag_receive-Have c s (negsuc d) level has_buffer n h = h
  tag_receive-Have c s (pos d) (negsuc i) has_buffer n h =
      if-elim
        (λ (x : Option ℕ).
          Have (elim x [ none ↦ some (s, done einval []) | some d ↦ some (s, done einval []) ]))
        (ltb d max_tags) (λ _. h) (λ _. h)
  tag_receive-Have c s (pos d) (pos i) has_buffer n h =
      elim (Option-cases (tag_receive c s (pos d) (pos i) has_buffer n)) [
        | inl lost ↦ subst Have (sym lost) tt
        | inr ((s', p), e) ↦ subst Have (sym e) (
            Entered-Has c s (caller d i has_buffer n) h
              (tag_receive_enters c s d i has_buffer n (s', p) e))
      ]

  receive_wake-Have :
      (s : Services) (r : Receiver) (copy_ok : Bool) → Has s → Have (receive_wake copy_ok s r)
  unfolding receive_wake
  receive_wake-Have s r copy_ok h = bind-elim Have (tag_at s r.tag) _ tt (λ t there.
      bind-elim Have (cell s.levels r.address) _ tt (λ l alive.
        let h1 =
          set_level-Has s r.address l (record (release_level l) { waiting = l.waiting - 1 }) alive
            refl refl refl h in
        if-elim Have (l.waiting == 1) (λ _. h1) (λ _. leave-Have _ r _ _ h1)))

  -- The cleaning is of an object that nobody holds.
  receive_clean-Have :
      (s : Services) (r : Receiver) (code : ℤ) (m : List ℕ)
      → (r.address == a) ≡ false
      → Has s
      → Have (receive_clean s r code m)
  unfolding receive_clean free_level
  receive_clean-Have s r code m apart h = bind-elim Have (tag_at s r.tag) _ tt (λ t there.
      bind-elim Have (cell s.levels r.address) _ tt
        (λ l alive. by_pointer l alive (pointer t.tag_level r.level)))
    where
      after : TagLevel → TagLevel → Services
      after l newest =
          if ltb l.epoch newest.epoch
          then record s { levels = set s.levels r.address none }
          else set_level s r.address (record l { ready = false; size = 0 })

      rewritten :
          (l : TagLevel) (o : Option TagLevel)
          → cell s.levels r.address ≡ some l
          → cell (set s.levels r.address o) a ≡ cell s.levels a
      rewritten l o alive = ground (arith, get_or-set_alive s.levels r.address l o a alive, apart)

      by_pointer :
          (l : TagLevel)
          → cell s.levels r.address ≡ some l
          → (o : Option ℕ)
          → Have (elim o [
            | none ↦ leave s r eproto m
            | some b ↦ do newest ← cell s.levels b; leave (after l newest) r code m
          ])
      by_pointer l alive none = leave-Have s r eproto m h
      by_pointer l alive (some b) = bind-elim Have (cell s.levels b) _ tt (λ newest current.
          leave-Have (after l newest) r code m (
            if-elim Has (ltb l.epoch newest.epoch) (λ _. other-Has s _ (rewritten l none alive) h)
              (λ _. other-Has s _ (rewritten l _ alive) h)))

  -- A step of a receiver leaves the message where it is, while somebody holds its object.
  pub Turn-Has :
      {s s' : Services} {p p' : Pc}
      → stock s (level_readers a) ≢ 0
      → HasMessage s a message size
      → Turn s s' p p'
      → HasMessage s' a message size
  Turn-Has {s} held h (enter c tag level has_buffer n e) =
      subst Have e (tag_receive-Have c s tag level has_buffer n h)
  Turn-Has {s} held h (renew c {r} e) = subst Have e (receive_renew-Have c s r h)
  Turn-Has {s} held h (wake copy_ok {r} e) = subst Have e (receive_wake-Have s r copy_ok h)
  Turn-Has {s} held h (clean {r} {code} {message = m} unread e) =
      subst Have e (receive_clean-Have s r code m apart h)
    where
      apart : (r.address == a) ≡ false
      apart = elim (Bool-cases (r.address == a)) [
        | inr other ↦ other
        | inl same ↦
            let at : r.address ≡ a = ground arith in
            absurd (held (sym (ap (λ x. stock s (level_readers x)) at) ∙ unread))
      ]
