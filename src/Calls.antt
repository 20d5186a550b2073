-- ===== src/Calls.antt =====
-- The system calls: the wrappers of tag-module/tag-syscall.c, which hold a reference to the module
-- while a call runs, and the threads that come in through them. Whether `try_module_get` succeeds is
-- an argument.
pub mod Counted
mod Tests
use tag_aos.Base.{
  ℕ, ◌+◌, ◌-◌, ◌≡◌, ◌<◌, Bool, true, false, not, Option, none, some, List, [], ℤ, negsuc,
  if◌then◌else◌, get_or, set, length,
}
use tag_aos.Hashmap.{Hashmap}
use tag_aos.Tag.{tag_compare}
use tag_aos.Service.{Services, System, Done, returned}
use tag_aos.Get.{GetCall, tag_get}
use tag_aos.Send.{SendCall, tag_send}
use tag_aos.Receive.{ReceiveCall, Pc, done, renewing, asleep, cleaning, ◌>>=◌, tag_receive}
use tag_aos.Ctl.{CtlCall, tag_ctl}
use tag_aos.Threads.{idle, Turn, Threads, with_services, start_threads}

-- `module_put` once a call has returned; a thread that is still inside keeps its reference.
unfoldable pub put_after : (refs : ℕ) → Pc → ℕ
put_after refs (done code message) = refs - 1
put_after refs (renewing r) = refs
put_after refs (asleep r) = refs
put_after refs (cleaning r code message) = refs

-- A thread that has entered `tag_receive` and not returned.
abbrev pub is_inside : Pc → Bool
is_inside (done code message) = false
is_inside (renewing r) = true
is_inside (asleep r) = true
is_inside (cleaning r code message) = true

-- The first step of a `tag_receive`, behind the wrapper.
unfoldable pub sys_tag_receive :
    (got : Bool)
    → ReceiveCall
    → (refs : ℕ) → Services
    → (tag level : ℤ) (has_buffer : Bool) (size : ℕ) → Option (ℕ × (Services × Pc))
unfolding put_after
sys_tag_receive got c refs s tag level has_buffer size =
    if not got
    then some (refs, (s, done (negsuc 0) []))
    else do o ← tag_receive c s tag level has_buffer size; some (put_after (refs + 1) o.1, o)

unfoldable pub sys_tag_send :
    (got : Bool)
    → SendCall
    → (refs : ℕ) → Services
    → (tag level : ℤ) (buffer : Option (List ℕ)) (size : ℕ) → Option (ℕ × Done Services)
sys_tag_send got c refs s tag level buffer size =
    if not got
    then some (refs, returned s (negsuc 0))
    else do o ← tag_send c s tag level buffer size; some (refs + 1 - 1, o)

module _ (H : Hashmap tag_compare) where
  open H use {Table}

  unfoldable pub sys_tag_get :
      (got : Bool)
      → GetCall
      → (refs : ℕ) → System Table
      → (key command permission : ℤ) → ℕ × (System Table × ℤ)
  sys_tag_get got c refs s key command permission =
      if not got
      then (refs, (s, negsuc 0))
      else (refs + 1 - 1, tag_get H c s key command permission)

  unfoldable pub sys_tag_ctl :
      (got : Bool)
      → CtlCall
      → (refs : ℕ) → System Table
      → (tag command : ℤ) → Option (ℕ × Done (System Table))
  sys_tag_ctl got c refs s tag command =
      if not got
      then some (refs, returned s (negsuc 0))
      else do o ← tag_ctl H c s tag command; some (refs + 1 - 1, o)

-- The module's reference count beside the threads.
pub record Loaded (T : Type 0) : Type 0 where
  pub threads : Threads T
  pub refs : ℕ

module _ (H : Hashmap tag_compare) where
  open H use {Table}

  -- A thread enters `tag_receive` or goes on in it, or another call runs as a whole. A call whose
  -- `try_module_get` fails changes nothing and is not a step.
  pub data Call (x : Loaded Table) : Loaded Table → Type 0 where
    call_receive :
        (i : ℕ) (c : ReceiveCall) (tag level : ℤ) (has_buffer : Bool) (size : ℕ) {code : ℤ}
        {message : List ℕ} {n : ℕ} {s' : Services} {p : Pc}
        → i < length x.threads.pcs
        → get_or x.threads.pcs i idle ≡ done code message
        → sys_tag_receive true c x.refs x.threads.system.services tag level has_buffer size
          ≡ some (n, (s', p))
        → Call x (record { threads = with_services x.threads s' (set x.threads.pcs i p); refs = n })
    call_on :
        (i : ℕ) {q p : Pc} {s' : Services}
        → i < length x.threads.pcs
        → get_or x.threads.pcs i idle ≡ q
        → is_inside q ≡ true
        → Turn x.threads.system.services s' q p
        → Call x (record {
          threads = with_services x.threads s' (set x.threads.pcs i p);
          refs = put_after x.refs p;
        })
    call_send :
        (c : SendCall) (tag level : ℤ) (buffer : Option (List ℕ)) (size : ℕ) {n : ℕ}
        {o : Done Services}
        → sys_tag_send true c x.refs x.threads.system.services tag level buffer size ≡ some (n, o)
        → Call x (record { threads = with_services x.threads o.state x.threads.pcs; refs = n })
    call_control :
        (c : CtlCall) (tag command : ℤ) {n : ℕ} {o : Done (System Table)}
        → sys_tag_ctl H true c x.refs x.threads.system tag command ≡ some (n, o)
        → Call x (record { threads = record { system = o.state; pcs = x.threads.pcs }; refs = n })
    call_get :
        (c : GetCall) (key command permission : ℤ) {n : ℕ} {o : System Table × ℤ}
        → c.undo_ok ≡ true
        → sys_tag_get H true c x.refs x.threads.system key command permission ≡ (n, o)
        → Call x (record { threads = record { system = o.0; pcs = x.threads.pcs }; refs = n })

  pub data Calls (x : Loaded Table) : Loaded Table → Type 0 where
    no_call : Calls x x
    then_call : {y z : Loaded Table} → Calls x y → Call y z → Calls x z

  -- The module is loaded, `n` threads are outside, and nobody has a reference.
  unfoldable pub start_calls : ℕ → Loaded Table
  start_calls n = record { threads = start_threads H n; refs = 0 }
