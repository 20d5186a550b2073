-- ===== src/Threads/Shape/Turns.antt =====
-- Each step of a receiver keeps what other receivers know, and leaves the receiver with an object
-- that it knows.
use mathlib.Core.Path.{subst}
use tag_aos.Base.{
  ℕ, ◌+◌, ◌-◌, ◌==◌, ◌≡◌, ◌≢◌, refl, sym, ap, ◌∙◌, true, false, Bool, Option, none, some, List, [],
  ℤ, pos, negsuc, inl, inr, if◌then◌else◌, if-elim, Option-cases, arith, ltb,
}
use tag_aos.Tag.{max_tags, einval, eproto}
use tag_aos.Level.{TagLevel, cell, free_level}
use tag_aos.Level.Build.{pointer}
use tag_aos.Service.{Tag, Services, tag_at, set_tag, set_level, index}
use tag_aos.Send.Publish.{Reaches}
use tag_aos.Receive.{
  ReceiveCall, Receiver, Pc, done, renewing, asleep, cleaning, ◌>>=◌, bind-elim, add_waiting,
  drop_waiting, hold_tag, hold_level, release_level, leave, tag_receive, receive_wake,
  receive_clean, copy_message, wake_code,
}
use tag_aos.Receive.Enter.{
  caller, Entered, failed, unregistered, late, waits, Registered, tag_receive_enters,
}
use tag_aos.Threads.Shape.{
  points, points-some, points-Knows, IsShaped, Knows, KnowsPc, Keeps, Stays, Stays-trans,
  Stays-Keeps,
}
use tag_aos.Threads.Shape.Moves.{set_tag-Stays, set_level-Stays, readers-Stays, free-Keeps}
use tag_aos.Threads.Shape.Renew.{Route, Routes, leave-Routes, Keeps-refl}

module _ (c : ReceiveCall) (s : Services) (v : IsShaped s) where
  Registered-Route :
      (r0 r : Receiver) (s' : Services) (a : ℕ) (t : Tag) (l l' : TagLevel) (p : Receiver → Pc)
      → Reaches s r0.tag r0.level a t l
      → Registered c s s' r0 r a t l'
      → ((r : Receiver) → Knows s' r → KnowsPc s' (p r))
      → Route s s' (p r)
  Registered-Route r0 r s' a t l l' p reach reg as_known = record {
    keeps = k;
    knows = as_known r knows;
  }
    where
      in_tag : Services
      in_tag = hold_tag (set_tag s r0.tag (some (add_waiting t))) r0.tag

      stays : Stays s s'
      stays = subst (Stays s) (sym reg.state) (
          Stays-trans
            (Stays-trans (set_tag-Stays s r0.tag t (add_waiting t) reach.tag refl refl)
              (readers-Stays (set_tag s r0.tag (some (add_waiting t))) in_tag.readers))
            (set_level-Stays in_tag a l l' reach.alive))

      k : Keeps s s'
      k = Stays-Keeps stays v

      knows : Knows s' r
      knows = subst (Knows s') (sym reg.receiver) (
          points-Knows s' (record r0 { address = a }) k.shaped
            (stays.same r0.tag r0.level ∙ points-some s r0.tag r0.level a t reach.tag reach.points))

  Entered-Route : (r0 : Receiver) {s' : Services} {p : Pc} → Entered c s r0 (s', p) → Route s s' p
  unfolding drop_waiting
  Entered-Route r0 (failed n) = record { keeps = Keeps-refl s r0 v; knows = tt }
  Entered-Route r0 (unregistered t there) = record {
    keeps = Stays-Keeps (set_tag-Stays s r0.tag t (drop_waiting (add_waiting t)) there refl refl) v;
    knows = tt;
  }
  Entered-Route r0 (late {s'} {r} a t l reach full reg) =
      Registered-Route r0 r s' a t l (hold_level l) renewing reach reg (λ r k. k)
  Entered-Route r0 (waits {s'} {r} a t l reach free reg) =
      Registered-Route r0 r s' a t l (record (hold_level l) { waiting = l.waiting + 1 }) asleep
        reach reg (λ r k. k)

  pub tag_receive-Routes :
      (tag level : ℤ) (has_buffer : Bool) (size : ℕ)
      → Routes s (tag_receive c s tag level has_buffer size)
  unfolding tag_receive index
  tag_receive-Routes (negsuc d) level has_buffer size = record {
    keeps = Keeps-refl s (caller 0 0 has_buffer size) v;
    knows = tt;
  }
  tag_receive-Routes (pos d) (negsuc i) has_buffer size =
      if-elim
        (λ (x : Option ℕ).
          Routes s (elim x [ none ↦ some (s, done einval []) | some d ↦ some (s, done einval []) ]))
        (ltb d max_tags) (λ _. refused) (λ _. refused)
    where
      refused : Route s s (done einval [])
      refused = record { keeps = Keeps-refl s (caller 0 0 has_buffer size) v; knows = tt }
  tag_receive-Routes (pos d) (pos i) has_buffer size =
      elim (Option-cases (tag_receive c s (pos d) (pos i) has_buffer size)) [
        | inl lost ↦ subst (Routes s) (sym lost) tt
        | inr ((s', p), e) ↦ subst (Routes s) (sym e) (
            Entered-Route (caller d i has_buffer size)
              (tag_receive_enters c s d i has_buffer size (s', p) e))
      ]

module _ (s : Services) (r : Receiver) (v : IsShaped s) (known : Knows s r) where
  pub receive_wake-Routes : (copy_ok : Bool) → Routes s (receive_wake copy_ok s r)
  unfolding receive_wake
  receive_wake-Routes copy_ok = bind-elim (Routes s) (tag_at s r.tag) _ tt (λ t there.
      bind-elim (Routes s) (cell s.levels r.address) _ tt
        (λ l alive. risen l alive (copy_message copy_ok r l (wake_code t l))))
    where
      s1 : TagLevel → Services
      s1 l = set_level s r.address (record (release_level l) { waiting = l.waiting - 1 })

      risen :
          (l : TagLevel)
          → cell s.levels r.address ≡ some l
          → (m : ℤ × List ℕ)
          → Routes s
              (if l.waiting == 1 then some (s1 l, cleaning r m.0 m.1) else leave (s1 l) r m.0 m.1)
      risen l alive m =
          let k =
            Stays-Keeps
              (set_level-Stays s r.address l (record (release_level l) { waiting = l.waiting - 1 })
                alive)
              v in
          if-elim (Routes s) (l.waiting == 1) (λ _. record { keeps = k; knows = k.knows r known })
            (λ _. leave-Routes (s1 l) r m.0 m.1 k)

  pub receive_clean-Routes :
      (code : ℤ) (message : List ℕ) → Routes s (receive_clean s r code message)
  unfolding receive_clean
  receive_clean-Routes code message = bind-elim (Routes s) (tag_at s r.tag) _ tt (λ t there.
      bind-elim (Routes s) (cell s.levels r.address) _ tt (λ l alive.
        elim (Option-cases (pointer t.tag_level r.level)) [
          | inl no_level ↦
              subst (Routes s) (sym (ap (chosen l) no_level))
                (leave-Routes s r eproto message (Keeps-refl s r v))
          | inr (b, leads) ↦ subst (Routes s) (sym (ap (chosen l) leads)) (
              bind-elim (Routes s) (cell s.levels b) _ tt (λ newest current.
                leave-Routes (after l newest) r code message (
                  if-elim (Keeps s) (ltb l.epoch newest.epoch)
                    (λ older.
                      free-Keeps s r.address l alive
                        (unused t l newest b there alive leads current older) v)
                    (λ _.
                      Stays-Keeps
                        (set_level-Stays s r.address l (record l { ready = false; size = 0 }) alive)
                        v))))
        ]))
    where
      after : TagLevel → TagLevel → Services
      after l newest =
          if ltb l.epoch newest.epoch
          then record s { levels = free_level s.levels r.address }
          else set_level s r.address (record l { ready = false; size = 0 })

      chosen : TagLevel → Option ℕ → Option (Services × Pc)
      chosen l none = leave s r eproto message
      chosen l (some b) = do newest ← cell s.levels b; leave (after l newest) r code message

      -- an object with an older epoch than the one that its tag and level lead to is led to by none
      unused :
          (t : Tag) (l newest : TagLevel) (b : ℕ)
          → tag_at s r.tag ≡ some t
          → cell s.levels r.address ≡ some l
          → pointer t.tag_level r.level ≡ some b
          → cell s.levels b ≡ some newest
          → ltb l.epoch newest.epoch ≡ true
          → (d i : ℕ) → points s d i ≢ some r.address
      unused t l newest b there alive leads current older d i p =
          let (dt, il) = known.own d i p in
          let q = points-some s r.tag r.level b t there leads in
          absurd (ground (arith, ap (λ x. points s x i) dt, ap (λ x. points s r.tag x) il))
