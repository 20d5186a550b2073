-- ===== src/Threads/Delivery.antt =====
-- A message is there for the threads that sleep on its object, whatever the others do before they
-- run.
use tag_aos.Base.{
  ℕ, ◌==◌, ◌≡◌, refl, ◌⊎◌, inl, inr, false, not, Option-cases, Option, none, some, List, ◌++◌, ltb,
  if◌then◌else◌, if-elim, take, drop, ℤ, arith,
}
use tag_aos.Tag.{max_tags, levels_count, buffer_size, einval, eintr, enodata, efault}
use tag_aos.Level.{TagLevel, cell}
use tag_aos.Level.Build.{pointer}
use tag_aos.Service.{Tag, Services, Done, returned, tag_at, set_level, denied, index}
use tag_aos.Send.{
  SendCall, publish, send_level, send_tag, send_checked, tag_send, message_of, size_of,
}
use tag_aos.Threads.Balance.{get_or-set_alive}
use tag_aos.Threads.Message.{HasMessage, other-Has}

module _ (c : SendCall) (s : Services) (a : ℕ) (message : List ℕ) (size : ℕ)
    (h : HasMessage s a message size) where
  abbrev pub Has : Option (Done Services) → Type 0
  Has none = Unit
  Has (some o) = HasMessage o.state a message size

  -- A sender leaves a level alone that has a message.
  send_level-Has :
      (b : ℕ) (l : TagLevel) (m : List ℕ) (n : ℕ)
      → cell s.levels b ≡ some l
      → HasMessage (send_level c s b l m n).state a message size
  unfolding send_level publish
  send_level-Has b l m n e =
      if-elim P (not c.rcu_ok) (λ _. h)
        (λ _.
          if-elim P (not c.mutex_free) (λ _. h)
            (λ _.
              if-elim P l.ready (λ _. h)
                (λ free.
                  if-elim P (l.waiting == 0) (λ _. h)
                    (λ _.
                      if-elim P (ltb 0 n) (λ _. copied free (Option-cases c.copy))
                        (λ _. elsewhere free _)))))
    where
      P : Done Services → Type 0
      P o = HasMessage o.state a message size

      elsewhere : l.ready ≡ false → (l' : TagLevel) → HasMessage (set_level s b l') a message size
      elsewhere free l' =
          other-Has a message size s (set_level s b l')
            (ground (arith, get_or-set_alive s.levels b l (some l') a e, h.alive, h.ready, free, e))
            h

      copied :
          l.ready ≡ false
          → (c.copy ≡ none) ⊎ ((x : List ℕ) × (c.copy ≡ some x))
          → P (elim c.copy [
            | some spoiled ↦ returned (set_level s b (record l { buffer = spoiled })) efault
            | none ↦ publish s b l (take n m ++ drop n l.buffer) n
          ])
      copied free (inl good) = rw good (elsewhere free _)
      copied free (inr (x, bad)) = rw bad (elsewhere free _)

  send_tag-Has : (t : Tag) (level : ℕ) (m : List ℕ) (n : ℕ) → Has (send_tag c s t level m n)
  unfolding send_tag
  send_tag-Has t level m n =
      if-elim Has (denied t c.euid) (λ _. h)
        (λ _.
          if-elim Has (t.waiting == 0) (λ _. h)
            (λ _.
              if-elim Has (not c.level_lock_ok) (λ _. h)
                (λ _. at_pointer (pointer t.tag_level level))))
    where
      on_cell : ℕ → Option TagLevel → Option (Done Services)
      on_cell b none = none
      on_cell b (some l) = some (send_level c s b l m n)

      at_cell : (b : ℕ) (o : Option TagLevel) → cell s.levels b ≡ o → Has (on_cell b o)
      at_cell b none e = tt
      at_cell b (some l) e = send_level-Has b l m n e

      on_pointer : Option ℕ → Option (Done Services)
      on_pointer none = some (returned s eintr)
      on_pointer (some b) = on_cell b (cell s.levels b)

      at_pointer : (o : Option ℕ) → Has (on_pointer o)
      at_pointer none = h
      at_pointer (some b) = at_cell b (cell s.levels b) refl

  pub tag_send-Has :
      (tag level : ℤ) (buffer : Option (List ℕ)) (n : ℕ) → Has (tag_send c s tag level buffer n)
  unfolding tag_send send_checked
  tag_send-Has tag level buffer n = at_tag (index tag max_tags)
    where
      on_found : ℕ → Option Tag → Option (Done Services)
      on_found i none = some (returned s enodata)
      on_found i (some t) = send_tag c s t i (message_of buffer) (size_of buffer n)

      at_found : (i : ℕ) (o : Option Tag) → Has (on_found i o)
      at_found i none = h
      at_found i (some t) = send_tag-Has t i (message_of buffer) (size_of buffer n)

      on_level : ℕ → Option ℕ → Option (Done Services)
      on_level d none = some (returned s einval)
      on_level d (some i) =
          if ltb buffer_size n
          then some (returned s einval)
          else if not c.lock_ok
          then some (returned s eintr)
          else on_found i (tag_at s d)

      at_level : (d : ℕ) (o : Option ℕ) → Has (on_level d o)
      at_level d none = h
      at_level d (some i) =
          if-elim Has (ltb buffer_size n) (λ _. h)
            (λ _. if-elim Has (not c.lock_ok) (λ _. h) (λ _. at_found i (tag_at s d)))

      on_tag : Option ℕ → Option (Done Services)
      on_tag none = some (returned s einval)
      on_tag (some d) = on_level d (index level levels_count)

      at_tag : (o : Option ℕ) → Has (on_tag o)
      at_tag none = h
      at_tag (some d) = at_level d (index level levels_count)
