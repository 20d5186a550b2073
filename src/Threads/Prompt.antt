-- ===== src/Threads/Prompt.antt =====
-- A `tag_send` of tag-module/tag-syscall.c to a level that a thread sleeps on.
use tag_aos.Base.{
  ℕ, ◌≤◌, ◌<◌, ◌≡◌, refl, ap, ◌∙◌, true, false, none, some, List, [], ◌∷◌, pos, get_or, min, take,
  length, arith,
}
use tag_aos.Hashmap.{Hashmap}
use tag_aos.Tag.{tag_compare, levels_count, buffer_size}
use tag_aos.Level.{TagLevel, cell}
use tag_aos.Level.Build.{pointer}
use tag_aos.Service.{Tag, Services, Done, tag_at, set_level, denied}
use tag_aos.Send.{SendCall, tag_send}
use tag_aos.Send.Publish.{with_message}
use tag_aos.Send.Delivery.{tag_send_success}
use tag_aos.Receive.{Receiver, Pc, asleep, receive_wake}
use tag_aos.Receive.Woken.{outcome}
use tag_aos.Threads.{idle, Threads, with_services, Reach, start_threads}
use tag_aos.Threads.Shape.{points-some}
use tag_aos.Threads.Steps.{Reach-IsSound}
use tag_aos.Threads.Safety.{Safe, sleeper_is_Safe}
use tag_aos.Threads.Meanwhile.{sent_is_received, now}

-- The locks are granted, the mutex is free, and the message can be copied.
pub record Granted (c : SendCall) : Type 0 where
  pub lock_ok : c.lock_ok ≡ true
  pub level_lock_ok : c.level_lock_ok ≡ true
  pub rcu_ok : c.rcu_ok ≡ true
  pub mutex_free : c.mutex_free ≡ true
  pub copy : c.copy ≡ none

module _ (H : Hashmap tag_compare) where
  open H use {Table}

  -- However the threads interleave after the module is loaded: while a thread with a buffer sleeps on
  -- the object that its tag and level (below `LEVELS`) lead to, with no message there and no
  -- `TAG_AWAKE_ALL` pending, a `tag_send` to it always succeeds, if it has at most `BUFFER_SIZE` bytes,
  -- and no more than its buffer, and its caller may use the tag and is granted the locks and the copy.
  -- It returns 1 and wakes that object's queue, and the thread, if it is the next to run and its copy
  -- does not fail, wakes up with code 1 and the message, cut to its buffer's size.
  pub sleeper_gets_message :
      (n i : ℕ) (x : Threads Table) (r : Receiver) (c : SendCall) (t : Tag) (l : TagLevel)
      (buffer : List ℕ) (size : ℕ)
      → Reach H (start_threads H n) x
      → get_or x.pcs i idle ≡ asleep r
      → r.level < levels_count
      → tag_at x.system.services r.tag ≡ some t
      → pointer t.tag_level r.level ≡ some r.address
      → cell x.system.services.levels r.address ≡ some l
      → t.ready ≡ false
      → l.ready ≡ false
      → r.has_buffer ≡ true
      → size ≤ buffer_size
      → size ≤ length buffer
      → denied t c.euid ≡ false
      → Granted c
      → (o : Done Services) × (tag_send c x.system.services
            (pos r.tag)
            (pos r.level)
            (some buffer)
            size
          ≡ some o)
        × (o.code ≡ pos 1)
        × (o.woken ≡ r.address ∷ [])
        × ((s' : Services) × (p : Pc) × (receive_wake true o.state r ≡ some (s', p))
            × (outcome p ≡ some (pos 1, take (min r.size size) buffer)))
  sleeper_gets_message n i x r c t l buffer size reach sleeps inside there leads alive quiet empty
        has_buffer fits enough allowed g =
      (
        sent,
        runs,
        refl,
        refl,
        sent_is_received H n i x (with_services x sent.state x.pcs) r c buffer size sent t reach
            sleeps (points-some x.system.services r.tag r.level r.address t there leads) has_buffer
            enough runs refl now there quiet,
      )
    where
      safe : Safe x.system.services r
      safe = sleeper_is_Safe H n i x r reach sleeps

      same_tag : safe.t ≡ t
      same_tag = ground (arith, safe.there, there)

      same_level : safe.l ≡ l
      same_level = ground (arith, safe.alive, alive)

      sent : Done Services
      sent = record {
        state = set_level x.system.services r.address (with_message l buffer size);
        code = pos 1;
        woken = r.address ∷ [];
      }

      runs : tag_send c x.system.services (pos r.tag) (pos r.level) (some buffer) size ≡ some sent
      runs =
          tag_send_success c x.system.services r.tag r.level r.address t l buffer size
            (record { tag = there; points = leads; alive = alive })
            (((Reach-IsSound H n reach).linked.owned r.tag t there).inside) inside fits g.lock_ok
            g.level_lock_ok g.rcu_ok g.mutex_free g.copy allowed
            (λ z. safe.inside (ap (λ (u : Tag). u.waiting) same_tag ∙ z))
            (λ z. safe.waited (ap (λ (k : TagLevel). k.waiting) same_level ∙ z)) empty
