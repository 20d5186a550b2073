-- ===== src/Threads/Returns.antt =====
-- No call and no step of a receiver touches a level object that has been freed, but for what a thread
-- that has woken up does after it has released the lock of its object.
use mathlib.Core.Path.{subst}
use tag_aos.Base.{ℕ, ◌≤◌, ◌≡◌, refl, Bool, Option, none, some, List, get_or, ℤ, arith}
use tag_aos.Hashmap.{Hashmap}
use tag_aos.Tag.{tag_compare}
use tag_aos.Level.{TagLevel, cell}
use tag_aos.Service.{Tag, Services, Done, tag_at}
use tag_aos.Send.{SendCall, tag_send}
use tag_aos.Receive.{
  ReceiveCall, RenewCall, Receiver, Pc, renewing, asleep, receive_renew, receive_wake, release_wake,
  tag_receive,
}
use tag_aos.Receive.Halves.{release_wake-result}
use tag_aos.Threads.{
  Counter, level_readers, tag_waiting, stock, share, waiting_at, readers_of, idle, Threads, Reach,
  start_threads,
}
use tag_aos.Threads.Sound.{IsSound, backed}
use tag_aos.Threads.Steps.{Reach-IsSound}
use tag_aos.Threads.Results.{
  result, receive_wake-Returns, receive_renew-Returns, on_tag-Returns, send-Returns,
}

module _ (H : Hashmap tag_compare) where
  open H use {Table}

  -- However the threads interleave after the module is loaded, a new `tag_receive` and a `tag_send`
  -- touch no freed level object, whatever the arguments: the first returns, sleeps or goes on to
  -- move to a new epoch, and the second returns.
  pub calls_return :
      (n : ℕ) (x : Threads Table) (c : ReceiveCall) (c' : SendCall) (tag level : ℤ)
      (has_buffer : Bool) (buffer : Option (List ℕ)) (size : ℕ)
      → Reach H (start_threads H n) x
      → ((o : Services × Pc) × (tag_receive c x.system.services tag level has_buffer size ≡ some o))
        × ((o : Done Services) × (tag_send c' x.system.services tag level buffer size ≡ some o))
  calls_return n x c c' tag level has_buffer buffer size reach =
      let v = (Reach-IsSound H n reach).shaped in
      (
        result (tag_receive c x.system.services tag level has_buffer size)
            (on_tag-Returns c x.system.services tag level has_buffer size v),
        result (tag_send c' x.system.services tag level buffer size)
            (send-Returns c' x.system.services tag level buffer size v),
      )

  -- Where a thread stands on a level object.
  record Stands (s : Services) (r : Receiver) : Type 0 where
    t : Tag
    l : TagLevel
    there : tag_at s r.tag ≡ some t
    alive : cell s.levels r.address ≡ some l

  Sound-Stands :
      (x : Threads Table) (i : ℕ) (r : Receiver) (p : Pc)
      → IsSound H x
      → get_or x.pcs i idle ≡ p
      → share p (tag_waiting r.tag) ≡ 1
      → share p (level_readers r.address) ≡ 1
      → Stands x.system.services r
  unfolding stock
  Sound-Stands x i r p v e one held = record {
    t = tag.0;
    l = level.0;
    there = tag.1;
    alive = level.1;
  }
    where
      claim : (c : Counter) → share p c ≤ stock x.system.services c
      claim c = subst (λ p. share p c ≤ stock x.system.services c) e (backed H x v i c)

      tag_of : (o : Option Tag) → 1 ≤ waiting_at o → (t : Tag) × (o ≡ some t)
      tag_of none h = absurd (omega arith)
      tag_of (some t) h = (t, refl)

      level_of : (o : Option TagLevel) → 1 ≤ readers_of o → (l : TagLevel) × (o ≡ some l)
      level_of none h = absurd (omega arith)
      level_of (some l) h = (l, refl)

      tag : (t : Tag) × (tag_at x.system.services r.tag ≡ some t)
      tag = tag_of (tag_at x.system.services r.tag) (ground (arith, claim (tag_waiting r.tag), one))

      level : (l : TagLevel) × (cell x.system.services.levels r.address ≡ some l)
      level =
          level_of (cell x.system.services.levels r.address)
            (ground (arith, claim (level_readers r.address), held))

  -- However the threads interleave after the module is loaded, a thread that moves on to a new epoch
  -- touches no freed level object, and neither does one that wakes up, for whatever reason, up to the
  -- point where it releases the lock of its level object: the step, or its first half, gives a result.
  pub receiver_returns :
      (n i : ℕ) (x : Threads Table) (r : Receiver)
      → Reach H (start_threads H n) x
      → ((c : RenewCall)
          → get_or x.pcs i idle ≡ renewing r
          → (o : Services × Pc) × (receive_renew c x.system.services r ≡ some o))
        × ((copy_ok : Bool)
            → get_or x.pcs i idle ≡ asleep r
            → (o : Services × (ℤ × List ℕ)) × (release_wake copy_ok x.system.services r ≡ some o))
  unfolding share
  receiver_returns n i x r reach = (renews, wakes)
    where
      v : IsSound H x
      v = Reach-IsSound H n reach

      renews :
          (c : RenewCall)
          → get_or x.pcs i idle ≡ renewing r
          → (o : Services × Pc) × (receive_renew c x.system.services r ≡ some o)
      renews c e =
          let at = Sound-Stands x i r (renewing r) v e (ground arith) (ground arith) in
          result (receive_renew c x.system.services r)
            (receive_renew-Returns x.system.services r at.t at.l at.there at.alive v.shaped c)

      wakes :
          (copy_ok : Bool)
          → get_or x.pcs i idle ≡ asleep r
          → (o : Services × (ℤ × List ℕ)) × (release_wake copy_ok x.system.services r ≡ some o)
      wakes copy_ok e =
          let at = Sound-Stands x i r (asleep r) v e (ground arith) (ground arith) in
          let (o, runs) =
            result (receive_wake copy_ok x.system.services r)
              (receive_wake-Returns x.system.services r at.t at.l at.there at.alive copy_ok) in
          release_wake-result copy_ok x.system.services r o runs
