-- ===== src/Threads/Others.antt =====
-- `tag_send` and `TAG_AWAKE_ALL` count nobody and move no pointer.
use mathlib.Core.Path.{subst}
use tag_aos.Base.{
  ℕ, ◌≡◌, refl, sym, ◌==◌, ltb, true, not, Option, none, some, List, ◌++◌, ◌⊎◌, ℤ, inl, inr,
  if◌then◌else◌, if-elim, Option-cases, take, drop,
}
use tag_aos.Tag.{max_tags, levels_count, buffer_size, einval, eintr, efault}
use tag_aos.Level.{TagLevel, cell}
use tag_aos.Level.Build.{pointer}
use tag_aos.Service.{Tag, Services, Done, returned, tag_at, set_tag, set_level, denied, index}
use tag_aos.Send.{
  SendCall, publish, send_level, send_tag, send_checked, tag_send, message_of, size_of,
}
use tag_aos.Receive.{Pc}
use tag_aos.Ctl.{CtlCall, awoken, awake_all}
use tag_aos.Threads.Balance.{Balance, Balance-refl, same_tag-Balance, same_level-Balance}
use tag_aos.Threads.Shape.{Stays}
use tag_aos.Threads.Shape.Moves.{set_tag-Stays, set_level-Stays, readers-Stays}

pub record Quiet (s s' : Services) : Type 0 where
  pub balance : (p : Pc) → Balance s p s' p
  pub stays : Stays s s'

abbrev pub Quiets : Services → Option (Done Services) → Type 0
Quiets s none = Unit
Quiets s (some o) = Quiet s o.state

Quiet-refl : (s : Services) → Quiet s s
Quiet-refl s = record { balance = Balance-refl s; stays = readers-Stays s s.readers }

set_level-Quiet :
    (s : Services) (a : ℕ) (l l' : TagLevel)
    → cell s.levels a ≡ some l
    → l'.waiting ≡ l.waiting
    → l'.readers ≡ l.readers
    → Quiet s (set_level s a l')
set_level-Quiet s a l l' e waiting readers = record {
  balance = λ p. same_level-Balance s a l l' p e waiting readers;
  stays = set_level-Stays s a l l' e;
}

module _ (c : SendCall) (s : Services) where
  send_level-Quiets :
      (a : ℕ) (l : TagLevel) (message : List ℕ) (size : ℕ)
      → cell s.levels a ≡ some l
      → Quiet s (send_level c s a l message size).state
  unfolding send_level publish
  send_level-Quiets a l message size e =
      if-elim P (not c.rcu_ok) (λ _. Quiet-refl s)
        (λ _.
          if-elim P (not c.mutex_free) (λ _. Quiet-refl s)
            (λ _.
              if-elim P l.ready (λ _. Quiet-refl s)
                (λ _.
                  if-elim P (l.waiting == 0) (λ _. Quiet-refl s)
                    (λ _.
                      if-elim P (ltb 0 size) (λ _. copied (Option-cases c.copy))
                        (λ _. set_level-Quiet s a l _ e refl refl)))))
    where
      P : Done Services → Type 0
      P o = Quiet s o.state

      copied :
          (c.copy ≡ none) ⊎ ((x : List ℕ) × (c.copy ≡ some x))
          → P (elim c.copy [
            | some spoiled ↦ returned (set_level s a (record l { buffer = spoiled })) efault
            | none ↦ publish s a l (take size message ++ drop size l.buffer) size
          ])
      copied (inl good) = rw good (set_level-Quiet s a l _ e refl refl)
      copied (inr (x, bad)) = rw bad (set_level-Quiet s a l (record l { buffer = x }) e refl refl)

  send_tag-Quiets :
      (t : Tag) (level : ℕ) (message : List ℕ) (size : ℕ)
      → Quiets s (send_tag c s t level message size)
  unfolding send_tag
  send_tag-Quiets t level message size =
      if-elim (Quiets s) (denied t c.euid) (λ _. Quiet-refl s)
        (λ _.
          if-elim (Quiets s) (t.waiting == 0) (λ _. Quiet-refl s)
            (λ _.
              if-elim (Quiets s) (not c.level_lock_ok) (λ _. Quiet-refl s)
                (λ _. at_pointer (Option-cases (pointer t.tag_level level)))))
    where
      on_cell : ℕ → Option TagLevel → Option (Done Services)
      on_cell a none = none
      on_cell a (some l) = some (send_level c s a l message size)

      on_pointer : Option ℕ → Option (Done Services)
      on_pointer none = some (returned s eintr)
      on_pointer (some a) = on_cell a (cell s.levels a)

      at_cell :
          (a : ℕ)
          → (cell s.levels a ≡ none) ⊎ ((l : TagLevel) × (cell s.levels a ≡ some l))
          → Quiets s (on_cell a (cell s.levels a))
      at_cell a (inl dead) = subst (λ o. Quiets s (on_cell a o)) (sym dead) tt
      at_cell a (inr (l, e)) =
          subst (λ o. Quiets s (on_cell a o)) (sym e) (send_level-Quiets a l message size e)

      at_pointer :
          (pointer t.tag_level level ≡ none) ⊎ ((a : ℕ) × (pointer t.tag_level level ≡ some a))
          → Quiets s (on_pointer (pointer t.tag_level level))
      at_pointer (inl no_level) = subst (λ o. Quiets s (on_pointer o)) (sym no_level) (Quiet-refl s)
      at_pointer (inr (a, leads)) =
          subst (λ o. Quiets s (on_pointer o)) (sym leads)
            (at_cell a (Option-cases (cell s.levels a)))

  send_checked-Quiets :
      (tag level : ℕ) (message : List ℕ) (size : ℕ)
      → Quiets s (send_checked c s tag level message size)
  unfolding send_checked
  send_checked-Quiets tag level message size =
      if-elim (Quiets s) (not c.lock_ok) (λ _. Quiet-refl s)
        (λ _. elim (Option-cases (tag_at s tag)) [
          | inl absent ↦ rw absent (Quiet-refl s)
          | inr (t, there) ↦ rw there (send_tag-Quiets t level message size)
        ])

  pub tag_send-Quiets :
      (tag level : ℤ) (buffer : Option (List ℕ)) (size : ℕ)
      → Quiets s (tag_send c s tag level buffer size)
  unfolding tag_send
  tag_send-Quiets tag level buffer size = at_tag (index tag max_tags)
    where
      on_level : ℕ → Option ℕ → Option (Done Services)
      on_level d none = some (returned s einval)
      on_level d (some i) =
          if ltb buffer_size size
          then some (returned s einval)
          else send_checked c s d i (message_of buffer) (size_of buffer size)

      at_level : (d : ℕ) (o : Option ℕ) → Quiets s (on_level d o)
      at_level d none = Quiet-refl s
      at_level d (some i) =
          if-elim (Quiets s) (ltb buffer_size size) (λ _. Quiet-refl s)
            (λ _. send_checked-Quiets d i (message_of buffer) (size_of buffer size))

      on_tag : Option ℕ → Option (Done Services)
      on_tag none = some (returned s einval)
      on_tag (some d) = on_level d (index level levels_count)

      at_tag : (o : Option ℕ) → Quiets s (on_tag o)
      at_tag none = Quiet-refl s
      at_tag (some d) = at_level d (index level levels_count)

pub awake_all-Quiets : (c : CtlCall) (s : Services) (d : ℕ) → Quiets s (awake_all c s d)
unfolding awake_all
awake_all-Quiets c s d =
    if-elim (Quiets s) (not c.lock_ok) (λ _. Quiet-refl s)
      (λ _. elim (Option-cases (tag_at s d)) [
        | inl absent ↦ rw absent (Quiet-refl s)
        | inr (t, there) ↦ rw there (
            if-elim (Quiets s) (denied t c.euid) (λ _. Quiet-refl s)
              (λ _.
                if-elim (Quiets s) t.ready (λ _. Quiet-refl s)
                  (λ _.
                    if-elim (Quiets s) (t.waiting == 0) (λ _. Quiet-refl s)
                      (λ _. awoken-Quiets t there _))))
      ])
  where
    awoken-Quiets :
        (t : Tag)
        → tag_at s d ≡ some t
        → (o : Option (List ℕ × ℤ))
        → Quiets s (awoken (set_tag s d (some (record t { ready = true }))) o)
    awoken-Quiets t there none = tt
    awoken-Quiets t there (some (woken, code)) = record {
      balance = λ p. same_tag-Balance s d t (record t { ready = true }) p there refl;
      stays = set_tag-Stays s d t (record t { ready = true }) there refl refl;
    }
