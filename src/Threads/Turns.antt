-- ===== src/Threads/Turns.antt =====
-- Every step of a receiver is balanced.
use mathlib.Core.Path.{subst}
use tag_aos.Base.{
  ℕ, ◌+◌, ◌-◌, ◌≡◌, refl, sym, ap, ◌==◌, Bool, false, Option, none, some, List, [], ℤ, pos, negsuc,
  if◌then◌else◌, if-elim, Option-cases, inl, inr, arith, ltb,
}
use tag_aos.Tag.{max_tags, einval, eintr, eproto}
use tag_aos.Level.{TagLevel, cell, free_level}
use tag_aos.Level.Build.{pointer}
use tag_aos.Service.{Tag, Services, tag_at, set_tag, set_level, index}
use tag_aos.Receive.{
  ReceiveCall, Receiver, Pc, done, renewing, asleep, cleaning, ◌>>=◌, bind-elim, drop_waiting,
  add_waiting, hold_tag, hold_level, release_level, sleep_on, tag_receive, leave, receive_wake,
  receive_clean, copy_message, wake_code,
}
use tag_aos.Receive.Enter.{
  caller, Entered, failed, unregistered, late, waits, Registered, tag_receive_enters,
}
use tag_aos.Threads.{stock, share, level_waiting, level_readers}
use tag_aos.Threads.Balance.{
  Balance, Backs, Balance-Backs, Balance-trans, Balance-refl, same_tag-Balance, same_level-Balance,
  join-Balance,
}
use tag_aos.Threads.Registering.{hold-Balance, sleep_on-Balance, rise-Balance, free-Balance}
use tag_aos.Threads.Receive.{IsPaired, Settles, follow, get_or-lt, Balance-IsPaired, leave-Settles}

-- A thread outside has no share, whatever it returned.
outside-Balance :
    (s s' : Services) (code code' : ℤ) (message message' : List ℕ)
    → Balance s (done code message) s' (done code message)
    → Balance s (done code message) s' (done code' message')
unfolding share
outside-Balance s s' code code' message message' b = record {
  books = b.books;
  tags = b.tags;
  readers = b.readers;
}

module _ (c : ReceiveCall) (s : Services) (even : IsPaired s) (code : ℤ) (message : List ℕ) where
  Registered-Balance :
      (r0 r : Receiver) (s' : Services) (a : ℕ) (t : Tag) (l' : TagLevel) (p : Receiver → Pc)
      → tag_at s r0.tag ≡ some t
      → Registered c s s' r0 r a t l'
      → Balance
          (hold_tag (set_tag s r0.tag (some (add_waiting t))) r0.tag)
          (cleaning r0 (pos 0) [])
          (set_level (hold_tag (set_tag s r0.tag (some (add_waiting t))) r0.tag) a l')
          (p (record r0 { address = a }))
      → Balance s (done code message) s' (p r)
  Registered-Balance r0 r s' a t l' p there reg b =
      subst (λ x. Balance s (done code message) x (p r)) (sym reg.state)
        (subst
          (λ y.
            Balance s (done code message)
              (set_level (hold_tag (set_tag s r0.tag (some (add_waiting t))) r0.tag) a l') (p y))
          (sym reg.receiver)
          (Balance-trans
            (join-Balance s r0 t code (pos 0) message [] there
              (omega (arith, get_or-lt s.tags r0.tag t there)))
            b))

  Entered-Balance :
      (r0 : Receiver) {s' : Services} {p : Pc}
      → Entered c s r0 (s', p)
      → Balance s (done code message) s' p
  unfolding sleep_on
  Entered-Balance r0 (failed n) =
      outside-Balance s s code (negsuc n) message [] (Balance-refl s (done code message))
  Entered-Balance r0 (unregistered t there) = outside-Balance s _ code eintr message [] (
      same_tag-Balance s r0.tag t (drop_waiting (add_waiting t)) (done code message) there
        (counted_back t))
    where
      counted_back : (t : Tag) → (drop_waiting (add_waiting t)).waiting ≡ t.waiting
      counted_back t = unfold drop_waiting in omega arith
  Entered-Balance r0 (late {s'} {r} a t l reach full reg) =
      Registered-Balance r0 r s' a t (hold_level l) renewing reach.tag reg (
        hold-Balance (hold_tag (set_tag s r0.tag (some (add_waiting t))) r0.tag) r0 a l reach.alive
          (pos 0) [])
  Entered-Balance r0 (waits {s'} {r} a t l reach free reg) =
      Registered-Balance r0 r s' a t (record (hold_level l) { waiting = l.waiting + 1 }) asleep
        reach.tag reg
        (sleep_on-Balance (hold_tag (set_tag s r0.tag (some (add_waiting t))) r0.tag) r0 a l
          reach.alive (pos 0) [])

  pub tag_receive-Settles :
      (tag level : ℤ) (has_buffer : Bool) (size : ℕ)
      → Settles s (done code message) (tag_receive c s tag level has_buffer size)
  unfolding tag_receive index
  tag_receive-Settles (negsuc d) level has_buffer size =
      outside-Balance s s code einval message [] (Balance-refl s (done code message))
  tag_receive-Settles (pos d) (negsuc i) has_buffer size =
      if-elim
        (λ (x : Option ℕ).
          Settles s (done code message)
            (elim x [ none ↦ some (s, done einval []) | some d ↦ some (s, done einval []) ]))
        (ltb d max_tags) (λ _. refused) (λ _. refused)
    where
      refused : Balance s (done code message) s (done einval [])
      refused = outside-Balance s s code einval message [] (Balance-refl s (done code message))
  tag_receive-Settles (pos d) (pos i) has_buffer size =
      elim (Option-cases (tag_receive c s (pos d) (pos i) has_buffer size)) [
        | inl lost ↦ subst (Settles s (done code message)) (sym lost) tt
        | inr ((s', p), e) ↦ subst (Settles s (done code message)) (sym e) (
            Entered-Balance (caller d i has_buffer size)
              (tag_receive_enters c s d i has_buffer size (s', p) e))
      ]

module _ (s : Services) (r : Receiver) (even : IsPaired s) where
  pub receive_wake-Settles :
      (copy_ok : Bool) → Backs s (asleep r) → Settles s (asleep r) (receive_wake copy_ok s r)
  unfolding receive_wake
  receive_wake-Settles copy_ok backs =
      bind-elim (Settles s (asleep r)) (tag_at s r.tag) _ tt (λ t there.
        bind-elim (Settles s (asleep r)) (cell s.levels r.address) _ tt
          (λ l alive. risen t l alive (copy_message copy_ok r l (wake_code t l))))
    where
      s1 : TagLevel → Services
      s1 l = set_level s r.address (record (release_level l) { waiting = l.waiting - 1 })

      risen :
          (t : Tag) (l : TagLevel)
          → cell s.levels r.address ≡ some l
          → (m : ℤ × List ℕ)
          → Settles s
              (asleep r)
              (if l.waiting == 1 then some (s1 l, cleaning r m.0 m.1) else leave (s1 l) r m.0 m.1)
      risen t l alive m =
          let b = rise-Balance s r l alive m.0 m.1 backs in
          if-elim (Settles s (asleep r)) (l.waiting == 1) (λ _. b)
            (λ _. follow (leave (s1 l) r m.0 m.1) b (
              leave-Settles (s1 l) r m.0 m.0 m.1 m.1 (Balance-IsPaired b even)
                (Balance-Backs b backs)))

  -- By the time the trylock lets the thread on, nobody is counted on the level.
  pub receive_clean-Settles :
      (code : ℤ) (message : List ℕ)
      → Backs s (cleaning r code message)
      → stock s (level_waiting r.address) ≡ 0
      → stock s (level_readers r.address) ≡ 0
      → Settles s (cleaning r code message) (receive_clean s r code message)
  unfolding receive_clean stock
  receive_clean-Settles code message backs nobody unread =
      bind-elim (Settles s now) (tag_at s r.tag) _ tt (λ t there.
        bind-elim (Settles s now) (cell s.levels r.address) _ tt (λ l alive.
          elim (Option-cases (pointer t.tag_level r.level)) [
            | inl no_level ↦
                subst (Settles s now) (sym (ap (chosen l) no_level))
                  (leave-Settles s r code eproto message message even backs)
            | inr (b, points) ↦ subst (Settles s now) (sym (ap (chosen l) points)) (
                bind-elim (Settles s now) (cell s.levels b) _ tt
                  (λ newest current. kept_or_freed l newest alive))
          ]))
    where
      now : Pc
      now = cleaning r code message

      after : TagLevel → TagLevel → Services
      after l newest =
          if ltb l.epoch newest.epoch
          then record s { levels = free_level s.levels r.address }
          else set_level s r.address (record l { ready = false; size = 0 })

      chosen : TagLevel → Option ℕ → Option (Services × Pc)
      chosen l none = leave s r eproto message
      chosen l (some b) = do newest ← cell s.levels b; leave (after l newest) r code message

      kept_or_freed :
          (l newest : TagLevel)
          → cell s.levels r.address ≡ some l
          → Settles s now (leave (after l newest) r code message)
      kept_or_freed l newest alive =
          if-elim (λ x. Balance s now x now → Settles s now (leave x r code message))
            (ltb l.epoch newest.epoch) (λ _ b. out b) (λ _ b. out b)
            (if-elim (λ x. Balance s now x now) (ltb l.epoch newest.epoch)
              (λ _. free-Balance s r l alive now (cc (nobody, alive)) (cc (unread, alive)))
              (λ _.
                same_level-Balance s r.address l (record l { ready = false; size = 0 }) now alive
                  refl refl))
        where
          out : {x : Services} → Balance s now x now → Settles s now (leave x r code message)
          out {x} b = follow (leave x r code message) b (
              leave-Settles x r code code message message (Balance-IsPaired b even)
                (Balance-Backs b backs))
