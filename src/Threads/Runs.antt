-- ===== src/Threads/Runs.antt =====
-- Two runs of three threads: one in which a message is sent while a thread sleeps and another moves on to
-- a new epoch, and one that ends with two threads that clean up after one level object.
use tag_aos.Base.{
  ◌≡◌, refl, true, false, Option, none, some, List, [], ◌∷◌, pos, set, replicate, arith,
}
use tag_aos.Bitmask.{fresh_bitmask, get_avail_number}
use tag_aos.Hashmap.Direct.{Direct, direct}
use tag_aos.Tag.{tag_creat, tag_perm_all}
use tag_aos.Registry.{reserve}
use tag_aos.Level.{add_tag_level}
use tag_aos.Init.{start_with}
use tag_aos.Service.{Tag, tag_at, Services, Done, denied, index}
use tag_aos.Get.{tag_get}
use tag_aos.Send.{tag_send}
use tag_aos.Ctl.{CtlCall}
use tag_aos.Receive.{
  Receiver, Pc, asleep, cleaning, renewing, RenewCall, tag_receive, receive_renew, receive_wake,
}
use tag_aos.Fixture.{created, create_runs, get_call, receive_call, sender, message}
use tag_aos.Threads.{
  Threads, with_services, Step, Reach, here, later, start_threads, pick, send, get, enter, wake,
  renew, idle,
}
use tag_aos.Threads.Shape.{points}
use tag_aos.Threads.Meanwhile.{Meanwhile, now, next}

abbrev pub ctl_call : CtlCall
ctl_call = record {
  lock_ok = true;
  level_lock_ok = λ i. true;
  rcu_ok = λ i. true;
  common_ok = true;
  grow_ok = true;
  euid = 1;
}

abbrev pub outside : List Pc
outside = replicate 3 idle

abbrev pub services_of : Services → Option (Services × Pc) → Services
services_of s none = s
services_of s (some o) = o.0

abbrev pub state_of : Services → Option (Done Services) → Services
state_of s none = s
state_of s (some o) = o.state

abbrev pub with_tag : Threads Direct
with_tag = record { system = created; pcs = outside }

-- A receiver of up to ten bytes on the level object 0.
abbrev pub reader : Receiver
reader = record { tag = 0; level = 0; address = 0; size = 10; has_buffer = true }

abbrev pub enter_call : Services → Option (Services × Pc)
enter_call s = tag_receive receive_call s (pos 0) (pos 0) true 10

-- Thread 0 sleeps.
abbrev pub sleeping : Threads Direct
sleeping =
    with_services with_tag (services_of created.services (enter_call created.services))
      (set outside 0 (asleep reader))

pub enter_runs : enter_call created.services ≡ some (sleeping.system.services, asleep reader)
unfolding tag_receive tag_get reserve add_tag_level start_with get_avail_number fresh_bitmask denied
    index
enter_runs = refl

pub reaches : Reach direct (start_threads direct 3) sleeping
unfolding start_threads
reaches =
    later (later here (get get_call (pos 5) tag_creat tag_perm_all refl create_runs))
      (pick 0 (omega arith) (enter receive_call (pos 0) (pos 0) true 10 enter_runs))

-- A message is sent.
abbrev pub send_call : Services → Option (Done Services)
send_call s = tag_send sender s (pos 0) (pos 0) (some message) 3

abbrev pub sent : Services
sent = state_of sleeping.system.services (send_call sleeping.system.services)

pub send_runs :
    send_call sleeping.system.services
    ≡ some (record { state = sent; code = pos 1; woken = 0 ∷ [] })
unfolding tag_send tag_receive tag_get reserve add_tag_level start_with get_avail_number
    fresh_bitmask denied index
send_runs = refl

-- Thread 1 comes too late for it, and goes on to a new epoch.
abbrev pub late_one : Services
late_one = services_of sent (enter_call sent)

pub late_runs : enter_call sent ≡ some (late_one, renewing reader)
unfolding tag_send tag_receive tag_get reserve add_tag_level start_with get_avail_number
    fresh_bitmask denied index
late_runs = refl

abbrev pub renew_call : RenewCall
renew_call = record {
  write_lock_ok = true;
  memory = record { level_ok = λ i. true; buffer_ok = λ i. true };
  rcu_ok = true;
}

abbrev pub renewed : Services
renewed = services_of late_one (receive_renew renew_call late_one reader)

pub renew_runs :
    receive_renew renew_call late_one reader
    ≡ some (renewed, asleep (record reader { address = 32 }))
unfolding receive_renew tag_send tag_receive tag_get reserve add_tag_level start_with
    get_avail_number fresh_bitmask denied index
renew_runs = refl

pub in_the_meantime : Meanwhile direct 0 (with_services sleeping sent sleeping.pcs) (
    with_services sleeping renewed
      (set (set sleeping.pcs 1 (renewing reader)) 1 (asleep (record reader { address = 32 }))))
in_the_meantime =
    next
      (next now (pick 1 (omega arith) (enter receive_call (pos 0) (pos 0) true 10 late_runs)) refl)
      (pick 1 (omega arith) (renew renew_call renew_runs)) refl

pub newest : points sleeping.system.services 0 0 ≡ some 0
unfolding points tag_receive tag_get reserve add_tag_level start_with get_avail_number fresh_bitmask
    denied index
newest = refl

pub renewed_tag : (t : Tag) × (tag_at renewed 0 ≡ some t) × (t.ready ≡ false)
unfolding receive_renew tag_send tag_receive tag_get reserve add_tag_level start_with
    get_avail_number fresh_bitmask denied index
renewed_tag = (_, refl, refl)

-- The other run: thread 0 is interrupted and finds that it was the last, but has not got the lock
-- yet, when thread 1 sleeps on the same object.
abbrev pub interrupted : Services
interrupted =
    services_of sleeping.system.services (receive_wake true sleeping.system.services reader)

abbrev pub second : Services
second = services_of interrupted (enter_call interrupted)

abbrev pub second_sent : Services
second_sent = state_of second (send_call second)

abbrev pub second_late : Services
second_late = services_of second_sent (enter_call second_sent)

abbrev pub second_renewed : Services
second_renewed = services_of second_late (receive_renew renew_call second_late reader)

abbrev pub second_woken : Services
second_woken = services_of second_renewed (receive_wake true second_renewed reader)

pub interrupted_runs :
    receive_wake true sleeping.system.services reader
    ≡ some (interrupted, cleaning reader (pos 0) [])
unfolding receive_wake tag_receive tag_get reserve add_tag_level start_with get_avail_number
    fresh_bitmask denied index
interrupted_runs = refl

pub second_runs : enter_call interrupted ≡ some (second, asleep reader)
unfolding receive_wake tag_receive tag_get reserve add_tag_level start_with get_avail_number
    fresh_bitmask denied index
second_runs = refl

pub second_sent_runs :
    send_call second ≡ some (record { state = second_sent; code = pos 1; woken = 0 ∷ [] })
unfolding receive_wake tag_send tag_receive tag_get reserve add_tag_level start_with
    get_avail_number fresh_bitmask denied index
second_sent_runs = refl

pub second_late_runs : enter_call second_sent ≡ some (second_late, renewing reader)
unfolding receive_wake tag_send tag_receive tag_get reserve add_tag_level start_with
    get_avail_number fresh_bitmask denied index
second_late_runs = refl

pub second_renewed_runs :
    receive_renew renew_call second_late reader
    ≡ some (second_renewed, asleep (record reader { address = 32 }))
unfolding receive_renew receive_wake tag_send tag_receive tag_get reserve add_tag_level start_with
    get_avail_number fresh_bitmask denied index
second_renewed_runs = refl

pub second_woken_runs :
    receive_wake true second_renewed reader ≡ some (second_woken, cleaning reader (pos 1) message)
unfolding receive_renew receive_wake tag_send tag_receive tag_get reserve add_tag_level start_with
    get_avail_number fresh_bitmask denied index
second_woken_runs = refl

abbrev pub both_cleaning : Threads Direct
both_cleaning = with_services sleeping second_woken (
    cleaning reader (pos 0) []
    ∷ cleaning reader (pos 1) message
    ∷ asleep (record reader { address = 32 })
    ∷ [])

pub both_reached : Reach direct (start_threads direct 3) both_cleaning
both_reached =
    later
      (later
        (later
          (later
            (later (later reaches (pick 0 (omega arith) (wake true interrupted_runs)))
              (pick 1 (omega arith) (enter receive_call (pos 0) (pos 0) true 10 second_runs)))
            (send sender (pos 0) (pos 0) (some message) 3 second_sent_runs))
          (pick 2 (omega arith) (enter receive_call (pos 0) (pos 0) true 10 second_late_runs)))
        (pick 2 (omega arith) (renew renew_call second_renewed_runs)))
      (pick 1 (omega arith) (wake true second_woken_runs))

pub sleeping_tag : (t : Tag) × (tag_at sleeping.system.services 0 ≡ some t)
unfolding tag_receive tag_get reserve add_tag_level start_with get_avail_number fresh_bitmask denied
    index
sleeping_tag = (_, refl)

pub woken_step :
    Step direct sleeping
      (with_services sleeping interrupted (set sleeping.pcs 0 (cleaning reader (pos 0) [])))
woken_step = pick 0 (omega arith) (wake true interrupted_runs)
