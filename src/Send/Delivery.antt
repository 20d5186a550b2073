-- ===== src/Send/Delivery.antt =====
-- `tag_send` by its results.
use mathlib.Core.Path.{subst}
use tag_aos.Base.{
  ℕ, zero, suc, ◌≤◌, ◌<◌, ◌≡◌, ◌≢◌, refl, ap, inl, inr, ◌⊎◌, arith, true, false, Option, none, some,
  List, [], ◌∷◌, ◌++◌, ℤ, pos, negsuc, if◌then◌else◌, ltb, take, drop, Option-cases, Bool-cases,
  ◌==◌,
}
use tag_aos.Tag.{max_tags, levels_count, buffer_size, efault}
use tag_aos.Level.{TagLevel, cell}
use tag_aos.Level.Build.{pointer}
use tag_aos.Service.{Tag, Services, Done, tag_at, set_level, denied, index}
use tag_aos.Send.{
  SendCall, publish, send_level, send_tag, send_checked, tag_send, message_of, size_of,
}
use tag_aos.Send.Publish.{
  Reaches, with_message, Published, Spoiled, Kept, ByCode, Sends, tag_send-Outcome,
}

Reaches-ready :
    (s : Services) (d i a a' : ℕ) (t t' : Tag) (l l' : TagLevel)
    → Reaches s d i a t l
    → Reaches s d i a' t' l'
    → l.ready ≡ l'.ready
Reaches-ready s d i a a' t t' l l' r r' = subst (λ (m : TagLevel). l.ready ≡ m.ready) same refl
  where
    same : l ≡ l'
    same = cc (r.tag, r.points, r.alive, r'.tag, r'.points, r'.alive)

module _ (c : SendCall) (s : Services) (d i : ℕ) (buffer : Option (List ℕ)) (size : ℕ) where
  -- A send that returns 1 was allowed to, found receivers waiting on the level it leads to and no
  -- message there, and has done exactly this: the message is in that level's buffer, the level is
  -- ready, and its wait queue has been woken.
  pub tag_send_delivered :
      (o : Done Services)
      → tag_send c s (pos d) (pos i) buffer size ≡ some o
      → o.code ≡ pos 1
      → Published c s d i (message_of buffer) (size_of buffer size) o
  tag_send_delivered o e code =
      subst (λ z. ByCode c s d i (message_of buffer) (size_of buffer size) z o) code
        (subst (Sends c s d i buffer size) e (tag_send-Outcome c s d i buffer size))

  Kept-by :
      (o : Done Services) (z : ℤ)
      → z ≢ pos 1
      → (Spoiled s d i o → ⊥)
      → ByCode c s d i (message_of buffer) (size_of buffer size) z o
      → Kept s o
  Kept-by o (pos zero) h spoiled kept = kept
  Kept-by o (pos (suc zero)) h spoiled p = absurd (h refl)
  Kept-by o (pos (suc (suc n))) h spoiled p = absurd p
  Kept-by o (negsuc n) h spoiled (inl kept) = kept
  Kept-by o (negsuc n) h spoiled (inr bad) = absurd (spoiled bad)

  -- A send that returns neither 1 nor -EFAULT changes nothing and wakes nobody.
  pub tag_send_refused :
      (o : Done Services)
      → tag_send c s (pos d) (pos i) buffer size ≡ some o
      → o.code ≢ pos 1
      → o.code ≢ efault
      → (o.state ≡ s) × (o.woken ≡ [])
  tag_send_refused o e sent fault =
      Kept-by o o.code sent (λ bad. fault bad.code)
        (subst (Sends c s d i buffer size) e (tag_send-Outcome c s d i buffer size))

  pending_by :
      (o : Done Services) (a : ℕ) (t : Tag) (l : TagLevel) (z : ℤ)
      → Reaches s d i a t l
      → l.ready ≡ true
      → ByCode c s d i (message_of buffer) (size_of buffer size) z o
      → Kept s o
  pending_by o a t l (pos zero) r full kept = kept
  pending_by o a t l (pos (suc zero)) r full p =
      absurd (cc (full, p.was_free, Reaches-ready s d i a p.a t p.t l p.l r p.reaches))
  pending_by o a t l (pos (suc (suc n))) r full p = absurd p
  pending_by o a t l (negsuc n) r full (inl kept) = kept
  pending_by o a t l (negsuc n) r full (inr p) =
      absurd (cc (full, p.was_free, Reaches-ready s d i a p.a t p.t l p.l r p.reaches))

  -- A level that has a message its receivers have not all read yet keeps it: whatever a send to it
  -- returns, nothing changes and nobody is woken.
  pub tag_send-pending :
      (o : Done Services) (a : ℕ) (t : Tag) (l : TagLevel)
      → Reaches s d i a t l
      → l.ready ≡ true
      → tag_send c s (pos d) (pos i) buffer size ≡ some o
      → (o.state ≡ s) × (o.woken ≡ [])
  tag_send-pending o a t l r full e =
      pending_by o a t l o.code r full
        (subst (Sends c s d i buffer size) e (tag_send-Outcome c s d i buffer size))

  -- If the pointer that the tag and the level lead to is alive, a send touches no freed memory: it
  -- returns.
  pub tag_send_returns :
      ((t : Tag) (a : ℕ)
        → tag_at s d ≡ some t
        → pointer t.tag_level i ≡ some a
        → (l : TagLevel) × (cell s.levels a ≡ some l))
      → (o : Done Services) × (tag_send c s (pos d) (pos i) buffer size ≡ some o)
  tag_send_returns alive = elim (Option-cases (tag_send c s (pos d) (pos i) buffer size)) [
    | inr found ↦ found
    | inl lost ↦ absurd (
        nothing_freed
          (subst (Sends c s d i buffer size) lost (tag_send-Outcome c s d i buffer size)))
  ]
    where
      nothing_freed : Sends c s d i buffer size none → ⊥
      nothing_freed (a, t, there, points, dead) = cc (dead, (alive t a there points).1)

index-fits : (n bound : ℕ) → n < bound → index (pos n) bound ≡ some n
unfolding index
index-fits n bound fits = ground arith

module _ (c : SendCall) (s : Services) (a : ℕ) (l : TagLevel) (message : List ℕ) (size : ℕ)
    (rcu : c.rcu_ok ≡ true) (mutex : c.mutex_free ≡ true) (copied : c.copy ≡ none)
    (waited : (l.waiting == 0) ≡ false) (free : l.ready ≡ false) where
  send_level_success :
      send_level c s a l message size
      ≡ record { state = set_level s a (with_message l message size); code = pos 1; woken = a ∷ [] }
  unfolding send_level publish
  send_level_success =
      rw rcu (rw mutex (rw free (rw waited (rw copied (by_size (Bool-cases (ltb 0 size)))))))
    where
      by_size :
          (ltb 0 size ≡ true) ⊎ (ltb 0 size ≡ false)
          → (if ltb 0 size
              then publish s a l (take size message ++ drop size l.buffer) size
              else publish s a l l.buffer size)
            ≡ record {
              state = set_level s a (with_message l message size);
              code = pos 1;
              woken = a ∷ [];
            }
      by_size (inl some_bytes) = rw some_bytes refl
      by_size (inr no_bytes) = rw no_bytes refl

-- With the locks granted, the caller allowed, a receiver waiting and no message pending, a send of at
-- most `BUFFER_SIZE` bytes that can be copied succeeds: it returns 1 and publishes the message.
pub tag_send_success :
    (c : SendCall) (s : Services) (d i a : ℕ) (t : Tag) (l : TagLevel) (message : List ℕ) (size : ℕ)
    → Reaches s d i a t l
    → d < max_tags
    → i < levels_count
    → size ≤ buffer_size
    → c.lock_ok ≡ true
    → c.level_lock_ok ≡ true
    → c.rcu_ok ≡ true
    → c.mutex_free ≡ true
    → c.copy ≡ none
    → denied t c.euid ≡ false
    → t.waiting ≢ 0
    → l.waiting ≢ 0
    → l.ready ≡ false
    → tag_send c s (pos d) (pos i) (some message) size
      ≡ some (record {
        state = set_level s a (with_message l message size);
        code = pos 1;
        woken = a ∷ [];
      })
unfolding tag_send send_checked send_tag
tag_send_success c s d i a t l message size r dm il sz lock level_lock rcu mutex copied allowed tw
      lw free =
    rw (tag_send, index-fits d max_tags dm)
      (rw (index-fits i levels_count il) (
        rw (small, send_checked, lock, r.tag)
          (rw (send_tag, allowed, tag_waited, level_lock, r.points, r.alive)
            (ap some
              (send_level_success c s a l message size rcu mutex copied level_waited free)))))
  where
    small : ltb buffer_size size ≡ false
    small = ground arith

    tag_waited : (t.waiting == 0) ≡ false
    tag_waited = ground arith

    level_waited : (l.waiting == 0) ≡ false
    level_waited = ground arith
