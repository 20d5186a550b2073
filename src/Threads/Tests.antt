-- ===== src/Threads/Tests.antt =====
-- The theorems on threads, at concrete runs.
use tag_aos.Base.{
  ℕ, ℤ, List, ◌≡◌, ◌≢◌, refl, inl, inr, Bool, true, none, some, [], ◌∷◌, pos, take, min, get_or,
  set, arith,
}
use tag_aos.Bitmask.{fresh_bitmask, get_avail_number}
use tag_aos.Hashmap.Direct.{direct}
use tag_aos.Tag.{eproto}
use tag_aos.Registry.{reserve}
use tag_aos.Level.{add_tag_level}
use tag_aos.Init.{start_with}
use tag_aos.Service.{Services, Done, denied, index}
use tag_aos.Get.{tag_get}
use tag_aos.Send.{tag_send}
use tag_aos.Receive.Woken.{outcome}
use tag_aos.Ctl.{delete}
use tag_aos.Receive.{
  Pc, done, asleep, renewing, RenewCall, tag_receive, receive_renew, receive_wake, release_wake,
  receive_clean,
}
use tag_aos.Fixture.{receive_call, sender, message}
use tag_aos.Threads.{with_services, idle}
use tag_aos.Threads.Sound.{IsSound}
use tag_aos.Threads.Steps.{Reach-IsSound}
use tag_aos.Threads.Safety.{Safe, sleeper_is_Safe, delete_waits, delete_never_eproto}
use tag_aos.Threads.Returns.{calls_return, receiver_returns}
use tag_aos.Threads.Cleaners.{clean_twice}
use tag_aos.Threads.Prompt.{sleeper_gets_message}
use tag_aos.Threads.Meanwhile.{sent_is_received}
use tag_aos.Threads.Runs.{
  ctl_call, reader, sleeping, reaches, sent, send_runs, renewed, in_the_meantime, newest,
  renewed_tag, both_cleaning,
}

Reach-IsSound_example : IsSound direct sleeping
Reach-IsSound_example = Reach-IsSound direct 3 reaches

sleeper_is_Safe_example : Safe sleeping.system.services reader
sleeper_is_Safe_example = sleeper_is_Safe direct 3 0 sleeping reader reaches refl

delete_waits_example : delete direct ctl_call sleeping.system 0 ≡ (sleeping.system, pos 0)
delete_waits_example = delete_waits direct 3 0 sleeping reader ctl_call reaches (inr (inl refl))

delete_never_eproto_example : (delete direct ctl_call sleeping.system 0).1 ≢ eproto
delete_never_eproto_example = delete_never_eproto direct 3 0 sleeping ctl_call reaches

calls_return_example :
    ((o : Services × Pc) × (tag_receive receive_call sleeping.system.services
          (pos 0)
          (pos 7)
          true
          10
        ≡ some o))
    × ((o : Done Services) × (tag_send sender sleeping.system.services
            (pos 0)
            (pos 7)
            (some message)
            10
          ≡ some o))
calls_return_example =
    calls_return direct 3 sleeping receive_call sender (pos 0) (pos 7) true (some message) 10
      reaches

receiver_returns_example :
    ((c : RenewCall)
      → get_or sleeping.pcs 0 idle ≡ renewing reader
      → (o : Services × Pc) × (receive_renew c sleeping.system.services reader ≡ some o))
    × ((copy_ok : Bool)
        → get_or sleeping.pcs 0 idle ≡ asleep reader
        → (o : Services × (ℤ × List ℕ)) × (release_wake copy_ok sleeping.system.services reader
            ≡ some o))
receiver_returns_example = receiver_returns direct 3 0 sleeping reader reaches

sent_is_received_example :
    (s' : Services) × (p : Pc) × (receive_wake true renewed reader ≡ some (s', p))
    × (outcome p ≡ some (pos 1, take (min 10 3) message))
sent_is_received_example =
    sent_is_received direct 3 0 sleeping
      (with_services sleeping renewed
        (set (set sleeping.pcs 1 (renewing reader)) 1 (asleep (record reader { address = 32 }))))
      reader sender message 3 (record { state = sent; code = pos 1; woken = 0 ∷ [] }) renewed_tag.0
      reaches refl newest refl (omega arith) send_runs refl in_the_meantime renewed_tag.1
      renewed_tag.2

clean_twice_example :
    (s' : Services) × (receive_clean both_cleaning.system.services reader (pos 0) []
      ≡ some (s', done (pos 0) []))
    × (receive_clean s' reader (pos 1) message ≡ none)
unfolding receive_renew receive_wake tag_send tag_receive tag_get reserve add_tag_level start_with
    get_avail_number fresh_bitmask denied index
clean_twice_example =
    clean_twice both_cleaning.system.services reader reader _ _ _ 32 (pos 0) (pos 1) [] message refl
      refl refl refl refl refl

sleeper_gets_message_example :
    (o : Done Services) × (tag_send sender sleeping.system.services (pos 0) (pos 0) (some message) 3
      ≡ some o)
    × (o.code ≡ pos 1)
    × (o.woken ≡ 0 ∷ [])
    × ((s' : Services) × (p : Pc) × (receive_wake true o.state reader ≡ some (s', p))
        × (outcome p ≡ some (pos 1, take (min 10 3) message)))
unfolding tag_receive tag_get reserve add_tag_level start_with get_avail_number fresh_bitmask denied
    index
sleeper_gets_message_example =
    sleeper_gets_message direct 3 0 sleeping reader sender _ _ message 3 reaches refl (omega arith)
      refl refl refl refl refl refl (omega arith) (omega arith) refl
      (record {
        lock_ok = refl;
        level_lock_ok = refl;
        rcu_ok = refl;
        mutex_free = refl;
        copy = refl;
      })
