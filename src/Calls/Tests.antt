-- ===== src/Calls/Tests.antt =====
-- A thread that sleeps, gets a message and returns, through the wrappers.
use tag_aos.Base.{ℕ, ◌≡◌, refl, true, some, List, [], ◌∷◌, ℤ, pos, get_or, arith}
use tag_aos.Bitmask.{fresh_bitmask, get_avail_number}
use tag_aos.Hashmap.Direct.{Direct, direct}
use tag_aos.Tag.{tag_creat, tag_perm_all}
use tag_aos.Registry.{reserve}
use tag_aos.Level.{add_tag_level}
use tag_aos.Init.{start_with}
use tag_aos.Service.{Services, denied, index}
use tag_aos.Get.{tag_get}
use tag_aos.Send.{tag_send}
use tag_aos.Receive.{done, asleep, cleaning, tag_receive, receive_wake, receive_clean}
use tag_aos.Fixture.{start, created, get_call, receive_call, sender, message}
use tag_aos.Threads.{Counter, stock, level_readers, with_services, start_threads, idle, wake, clean}
use tag_aos.Threads.Runs.{reader, sleeping, sent, services_of}
use tag_aos.Calls.{
  sys_tag_receive, sys_tag_send, sys_tag_get, Loaded, call_receive, call_on, call_send, call_get,
  Calls, no_call, then_call, start_calls, put_after,
}
use tag_aos.Calls.Counted.{unload_is_quiet}

abbrev woken : Services
woken = services_of sent (receive_wake true sent reader)

abbrev left : Services
left = services_of woken (receive_clean woken reader (pos 1) message)

create_runs :
    sys_tag_get direct true get_call 0 start (pos 5) tag_creat tag_perm_all ≡ (0, (created, pos 0))
unfolding sys_tag_get tag_get reserve add_tag_level start_with get_avail_number fresh_bitmask
create_runs = refl

enter_runs :
    sys_tag_receive true receive_call 0 created.services (pos 0) (pos 0) true 10
    ≡ some (1, (sleeping.system.services, asleep reader))
unfolding sys_tag_receive put_after tag_receive tag_get reserve add_tag_level start_with
    get_avail_number fresh_bitmask denied index
enter_runs = refl

send_runs :
    sys_tag_send true sender 1 sleeping.system.services (pos 0) (pos 0) (some message) 3
    ≡ some (1, record { state = sent; code = pos 1; woken = 0 ∷ [] })
unfolding sys_tag_send tag_send tag_receive tag_get reserve add_tag_level start_with
    get_avail_number fresh_bitmask denied index
send_runs = refl

wake_runs : receive_wake true sent reader ≡ some (woken, cleaning reader (pos 1) message)
unfolding receive_wake tag_send tag_receive tag_get reserve add_tag_level start_with
    get_avail_number fresh_bitmask denied index
wake_runs = refl

unread : stock woken (level_readers 0) ≡ 0
unfolding stock receive_wake tag_send tag_receive tag_get reserve add_tag_level start_with
    get_avail_number fresh_bitmask denied index
unread = refl

clean_runs : receive_clean woken reader (pos 1) message ≡ some (left, done (pos 1) message)
unfolding receive_clean receive_wake tag_send tag_receive tag_get reserve add_tag_level start_with
    get_avail_number fresh_bitmask denied index
clean_runs = refl

abbrev all_left : Loaded Direct
all_left = record {
  threads = with_services sleeping left (done (pos 1) message ∷ idle ∷ idle ∷ []);
  refs = 0;
}

calls : Calls direct (start_calls direct 3) all_left
unfolding start_calls start_threads put_after
calls =
    then_call
      (then_call
        (then_call
          (then_call
            (then_call no_call (call_get get_call (pos 5) tag_creat tag_perm_all refl create_runs))
            (call_receive 0 receive_call (pos 0) (pos 0) true 10 (omega arith) refl enter_runs))
          (call_send sender (pos 0) (pos 0) (some message) 3 send_runs))
        (call_on 0 (omega arith) refl refl (wake true wake_runs)))
      (call_on 0 (omega arith) refl refl (clean unread clean_runs))

unload_is_quiet_example :
    ((i : ℕ) → (code : ℤ) × (text : List ℕ) × (get_or all_left.threads.pcs i idle ≡ done code text))
    × ((c : Counter) → stock all_left.threads.system.services c ≡ 0)
unload_is_quiet_example = unload_is_quiet direct 3 all_left calls refl
