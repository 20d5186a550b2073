-- ===== src/Threads/Meanwhile.antt =====
-- What the other threads do while one sleeps.
use mathlib.Core.Path.{subst}
use tag_aos.Base.{
  ℕ, ◌≤◌, ◌==◌, ◌≡◌, refl, sym, ap, ◌∙◌, true, false, some, List, min, get_or, get_or-set, take,
  length, ℤ, pos, arith,
}
use tag_aos.Hashmap.{Hashmap}
use tag_aos.Tag.{tag_compare}
use tag_aos.Level.{cell}
use tag_aos.Service.{Tag, Services, System, Done, tag_at}
use tag_aos.Send.{SendCall, tag_send}
use tag_aos.Send.Publish.{with_message, Published}
use tag_aos.Send.Delivery.{tag_send_delivered}
use tag_aos.Receive.{Receiver, Pc, asleep, receive_wake}
use tag_aos.Receive.Woken.{outcome, with_message-content}
use tag_aos.Receive.Deliver.{Holds, wake-Holds}
use tag_aos.Get.Cases.{tag_get-Got}
use tag_aos.Threads.{
  idle, Threads, with_services, Step, pick, send, control, get, Reach, start_threads,
}
use tag_aos.Threads.Balance.{get_or-set_alive}
use tag_aos.Threads.Shape.{points, points-some}
use tag_aos.Threads.Sound.{IsSound}
use tag_aos.Threads.Steps.{Step-IsSound, Reach-IsSound}
use tag_aos.Threads.Message.{HasMessage, Turn-Has}
use tag_aos.Threads.Delivery.{Has, tag_send-Has}
use tag_aos.Threads.Kept.{held, Keeps, control-Keeps, got-Keeps}

some_same : {a b : ℕ} → some a ≡ some b → a ≡ b
some_same e = ground arith

module _ (H : Hashmap tag_compare) where
  open H use {Table}

  -- A step of another thread than `i`, or a call.
  abbrev pub Spares : ℕ → {x y : Threads Table} → Step H x y → Type 0
  Spares i (pick j lt turn) = (j == i) ≡ false
  Spares i (send c tag level buffer size e) = Unit
  Spares i (control c tag command e) = Unit
  Spares i (get c key command permission ok e) = Unit

  -- The thread `i` takes no step.
  pub data Meanwhile (i : ℕ) (x : Threads Table) : Threads Table → Type 0 where
    now : Meanwhile i x x
    next :
        {y z : Threads Table} → Meanwhile i x y → (st : Step H y z) → Spares i st → Meanwhile i x z

  -- What holds of a sleeping thread and its message after a step of the others.
  record Waits (i : ℕ) (r : Receiver) (message : List ℕ) (size : ℕ) (x : Threads Table)
      : Type 0 where
    sound : IsSound H x
    sleeps : get_or x.pcs i idle ≡ asleep r
    has : HasMessage x.system.services r.address message size

  Step-Waits :
      (i : ℕ) (r : Receiver) (message : List ℕ) (size : ℕ) {x y : Threads Table} (st : Step H x y)
      → Spares i st
      → Waits i r message size x
      → Waits i r message size y
  Step-Waits i r message size {x} (pick j {s'} {p} lt turn) other w = record {
    sound = Step-IsSound H (pick j lt turn) w.sound;
    sleeps = get_or-set x.pcs j i p idle lt ∙ ground (arith, other, w.sleeps);
    has =
        Turn-Has r.address message size (held H x w.sound i r w.sleeps message size w.has) w.has
          turn;
  }
  Step-Waits i r message size {x} (send c tag level buffer n {o} e) other w = record {
    sound = Step-IsSound H (send c tag level buffer n e) w.sound;
    sleeps = w.sleeps;
    has =
        subst (Has c x.system.services r.address message size w.has) e
          (tag_send-Has c x.system.services r.address message size w.has tag level buffer n);
  }
  Step-Waits i r message size {x} (control c tag command e) other w = record {
    sound = Step-IsSound H (control c tag command e) w.sound;
    sleeps = w.sleeps;
    has =
        subst (Keeps H x w.sound i r w.sleeps message size w.has) e
          (control-Keeps H x w.sound i r w.sleeps message size w.has c tag command);
  }
  Step-Waits i r message size {x} (get c key command permission ok e) other w = record {
    sound = Step-IsSound H (get c key command permission ok e) w.sound;
    sleeps = w.sleeps;
    has =
        subst (λ (o : System Table × ℤ). HasMessage o.0.services r.address message size) e
          (got-Keeps H x w.sound i r w.sleeps message size w.has c _ permission
            (tag_get-Got H c x.system permission ok key command w.sound.linked));
  }

  Meanwhile-Waits :
      (i : ℕ) (r : Receiver) (message : List ℕ) (size : ℕ) {x y : Threads Table}
      → Meanwhile i x y
      → Waits i r message size x
      → Waits i r message size y
  Meanwhile-Waits i r message size now w = w
  Meanwhile-Waits i r message size (next m st other) w =
      Step-Waits i r message size st other (Meanwhile-Waits i r message size m w)

  Published-HasMessage :
      (c : SendCall) (s : Services) (r : Receiver) (buffer : List ℕ) (size : ℕ) (o : Done Services)
      → points s r.tag r.level ≡ some r.address
      → size ≤ length buffer
      → Published c s r.tag r.level buffer size o
      → HasMessage o.state r.address buffer size
  Published-HasMessage c s r buffer size o newest enough p = record {
    l = with_message p.l buffer size;
    alive =
        ap (λ (q : Services). cell q.levels r.address) p.state
        ∙ get_or-set_alive s.levels p.a p.l (some (with_message p.l buffer size)) r.address
            p.reaches.alive
        ∙ ground (arith, same);
    ready = refl;
    size_of = refl;
    content = with_message-content p.l buffer size enough;
  }
    where
      same : p.a ≡ r.address
      same =
          some_same
            (sym (points-some s r.tag r.level p.a p.t p.reaches.tag p.reaches.points) ∙ newest)

  -- A message that was sent reaches its receivers whenever they run. Let the threads interleave in
  -- any way after the module is loaded, until a thread with a buffer sleeps on the object that its
  -- tag and level lead to, and a `tag_send` there, of no more bytes than its buffer has, answers 1.
  -- Then whatever the other threads do and whichever calls are made before the thread runs (more
  -- sends, receives, deletions), it wakes up with code 1 and the message, cut to its buffer's size,
  -- as long as `TAG_AWAKE_ALL` has not raised the tag's flag by then and the copy does not fail.
  pub sent_is_received :
      (n i : ℕ) (x y : Threads Table) (r : Receiver) (c : SendCall) (buffer : List ℕ) (size : ℕ)
      (o : Done Services) (t : Tag)
      → Reach H (start_threads H n) x
      → get_or x.pcs i idle ≡ asleep r
      → points x.system.services r.tag r.level ≡ some r.address
      → r.has_buffer ≡ true
      → size ≤ length buffer
      → tag_send c x.system.services (pos r.tag) (pos r.level) (some buffer) size ≡ some o
      → o.code ≡ pos 1
      → Meanwhile i (with_services x o.state x.pcs) y
      → tag_at y.system.services r.tag ≡ some t
      → t.ready ≡ false
      → (s' : Services) × (p : Pc) × (receive_wake true y.system.services r ≡ some (s', p))
        × (outcome p ≡ some (pos 1, take (min r.size size) buffer))
  sent_is_received n i x y r c buffer size o t reach sleeps newest has_buffer enough e code m there
        quiet =
      let (s', p, runs, got, held) = wake-Holds buffer size y.system.services r holds has_buffer in
      (s', p, runs, got)
    where
      v : IsSound H x
      v = Reach-IsSound H n reach

      w : Waits i r buffer size y
      w = Meanwhile-Waits i r buffer size m (record {
        sound = Step-IsSound H (send c (pos r.tag) (pos r.level) (some buffer) size e) v;
        sleeps = sleeps;
        has =
            Published-HasMessage c x.system.services r buffer size o newest enough
              (tag_send_delivered c x.system.services r.tag r.level (some buffer) size o e code);
      })

      holds : Holds y.system.services r.tag r.address buffer size
      holds = record {
        t = t;
        l = w.has.l;
        tag = there;
        alive = w.has.alive;
        sleeping = quiet;
        ready = w.has.ready;
        size_of = w.has.size_of;
        content = w.has.content;
      }
