-- ===== src/Threads.antt =====
-- The threads that call tag-module/tag-syscall.c, with their steps interleaved in any order: a
-- receiver stops between its steps, every other call runs as a whole.
pub mod Balance
mod Registering
mod Receive
mod Turns
pub mod Shape
pub mod Others
mod Tags
mod Removed
pub mod Total
pub mod Sound
pub mod Steps
pub mod Safety
mod Results
pub mod Returns
pub mod Message
pub mod Delivery
mod Kept
pub mod Meanwhile
mod Prompt
pub mod Cleaners
pub mod Runs
mod Tests
use tag_aos.Base.{
  ℕ, ◌+◌, ◌==◌, ◌≡◌, ◌<◌, Bool, Option, none, some, List, [], ◌∷◌, ℤ, pos, true, if◌then◌else◌,
  get_or, set, length, replicate,
}
use tag_aos.Bitmask.{fresh_bitmask}
use tag_aos.Hashmap.{Hashmap}
use tag_aos.Tag.{tag_compare, max_tags}
use tag_aos.Level.{TagLevel, cell}
use tag_aos.Service.{Tag, Services, System, Done, tag_at}
use tag_aos.Init.{start_with}
use tag_aos.Get.{GetCall, tag_get}
use tag_aos.Send.{SendCall, tag_send}
use tag_aos.Receive.{
  ReceiveCall, RenewCall, Receiver, Pc, done, renewing, asleep, cleaning, tag_receive,
  receive_renew, receive_wake, receive_clean,
}
use tag_aos.Ctl.{CtlCall, tag_ctl}

-- What the module counts: the `waiting` of a tag and the readers of its `tag_lock`, the `waiting` of
-- a level object and the readers of its `rcu_lock`.
pub data Counter : Type 0 where
  tag_waiting : (d : ℕ) → Counter
  tag_readers : (d : ℕ) → Counter
  level_waiting : (a : ℕ) → Counter
  level_readers : (a : ℕ) → Counter

abbrev pub waiting_at : Option Tag → ℕ
waiting_at none = 0
waiting_at (some t) = t.waiting

abbrev pub waiting_on : Option TagLevel → ℕ
waiting_on none = 0
waiting_on (some l) = l.waiting

abbrev pub readers_of : Option TagLevel → ℕ
readers_of none = 0
readers_of (some l) = l.readers

-- The counter's value. A tag that is not there, or a level that is freed, counts none.
unfoldable pub stock : Services → Counter → ℕ
stock s (tag_waiting d) = waiting_at (tag_at s d)
stock s (tag_readers d) = get_or s.readers d 0
stock s (level_waiting a) = waiting_on (cell s.levels a)
stock s (level_readers a) = readers_of (cell s.levels a)

abbrev pub one_at : ℕ → ℕ → ℕ
one_at i j = if i == j then 1 else 0

-- A receiver inside `tag_receive` is counted by its tag.
abbrev pub inside : Receiver → Counter → ℕ
inside r (tag_waiting d) = one_at r.tag d
inside r (tag_readers d) = one_at r.tag d
inside r _ = 0

-- What a thread adds to a counter.
unfoldable pub share : Pc → Counter → ℕ
share (done code message) c = 0
share (renewing r) (level_readers a) = one_at r.address a
share (renewing r) c = inside r c
share (asleep r) (level_waiting a) = one_at r.address a
share (asleep r) (level_readers a) = one_at r.address a
share (asleep r) c = inside r c
share (cleaning r code message) c = inside r c

abbrev pub idle : Pc
idle = done (pos 0) []

-- One step of a receiver. The trylock of the cleaning thread lets it on once no thread reads the
-- level.
pub data Turn (s : Services) (s' : Services) : Pc → Pc → Type 0 where
  enter :
      (c : ReceiveCall) (tag level : ℤ) (has_buffer : Bool) (size : ℕ) {code : ℤ} {message : List ℕ}
      {p : Pc}
      → tag_receive c s tag level has_buffer size ≡ some (s', p)
      → Turn s s' (done code message) p
  renew :
      (c : RenewCall) {r : Receiver} {p : Pc}
      → receive_renew c s r ≡ some (s', p)
      → Turn s s' (renewing r) p
  wake :
      (copy_ok : Bool) {r : Receiver} {p : Pc}
      → receive_wake copy_ok s r ≡ some (s', p)
      → Turn s s' (asleep r) p
  clean :
      {r : Receiver} {code : ℤ} {message : List ℕ} {p : Pc}
      → stock s (level_readers r.address) ≡ 0
      → receive_clean s r code message ≡ some (s', p)
      → Turn s s' (cleaning r code message) p

-- `pcs` are the threads that may be inside `tag_receive`. `T` is the type of hash tables.
pub record Threads (T : Type 0) : Type 0 where
  pub system : System T
  pub pcs : List Pc

abbrev pub with_services : {T : Type 0} → Threads T → Services → List Pc → Threads T
with_services x s pcs = record { system = record x.system { services = s }; pcs = pcs }

module _ (H : Hashmap tag_compare) where
  open H use {Table}

  -- A thread is picked and takes a step, or a call that does not sleep inside runs as a whole. The
  -- wait that undoes a failed `TAG_CREAT` is not killed.
  pub data Step (x : Threads Table) : Threads Table → Type 0 where
    pick :
        (i : ℕ) {s' : Services} {p : Pc}
        → i < length x.pcs
        → Turn x.system.services s' (get_or x.pcs i idle) p
        → Step x (with_services x s' (set x.pcs i p))
    send :
        (c : SendCall) (tag level : ℤ) (buffer : Option (List ℕ)) (size : ℕ) {o : Done Services}
        → tag_send c x.system.services tag level buffer size ≡ some o
        → Step x (with_services x o.state x.pcs)
    control :
        (c : CtlCall) (tag command : ℤ) {o : Done (System Table)}
        → tag_ctl H c x.system tag command ≡ some o
        → Step x (record { system = o.state; pcs = x.pcs })
    get :
        (c : GetCall) (key command permission : ℤ) {o : System Table × ℤ}
        → c.undo_ok ≡ true
        → tag_get H c x.system key command permission ≡ o
        → Step x (record { system = o.0; pcs = x.pcs })

  pub data Reach (x : Threads Table) : Threads Table → Type 0 where
    here : Reach x x
    later : {y z : Threads Table} → Reach x y → Step y z → Reach x z

  -- The module is loaded, and `n` threads are outside.
  unfoldable pub start_threads : ℕ → Threads Table
  start_threads n = record {
    system = start_with H (fresh_bitmask max_tags);
    pcs = replicate n idle;
  }

-- The threads' shares in a counter, added up.
unfoldable pub total : List Pc → Counter → ℕ
total [] c = 0
total (p ∷ ps) c = share p c + total ps c
