-- ===== src/Receive/Tests.antt =====
-- The theorems on receives at concrete states.
use tag_aos.Base.{
  ℕ, ◌<◌, ◌≡◌, refl, arith, true, false, none, some, List, [], ◌∷◌, ◌==◌, pos, map, if◌then◌else◌,
  ltb,
}
use tag_aos.Level.{TagLevel, new_level, cell, create_level}
use tag_aos.Service.{Services, Done, tag_at, index, denied}
use tag_aos.Send.{tag_send}
use tag_aos.Receive.{
  Pc, done, asleep, drop_waiting, release_level, RenewCall, tag_receive, receive_renew,
  receive_clean,
}
use tag_aos.Receive.Enter.{Entered, caller, tag_receive_enters}
use tag_aos.Receive.Woken.{outcome}
use tag_aos.Receive.Deliver.{wake_all, broadcast}
use tag_aos.Receive.Clean.{receive_clean_result}
use tag_aos.Receive.Renewed.{SleepsOnNewest}
use tag_aos.Receive.Epoch.{receive_renew_sleeps, receive_renew_fresh}
use tag_aos.Fixture.{
  quiet_level, full_level, a_tag, services_with, services_with-Reaches, sender, message,
  small_receiver, large_receiver, receive_call,
}

-- A third receiver falls asleep.
abbrev entered : Services × Pc
entered = (
  record {
    tags = some (record a_tag { waiting = 3 }) ∷ [];
    levels = some (record quiet_level { waiting = 3; readers = 3 }) ∷ [];
    readers = 3 ∷ [];
  },
  asleep large_receiver,
)

enter_runs :
    tag_receive receive_call (services_with quiet_level) (pos 0) (pos 0) true 10 ≡ some entered
unfolding tag_receive index denied
enter_runs = refl

tag_receive_enters_example :
    Entered receive_call (services_with quiet_level) (caller 0 0 true 10) entered
tag_receive_enters_example =
    tag_receive_enters receive_call (services_with quiet_level) 0 0 true 10 entered enter_runs

abbrev sent : Done Services
sent = record { state = services_with full_level; code = pos 1; woken = 0 ∷ [] }

send_runs : tag_send sender (services_with quiet_level) (pos 0) (pos 0) (some message) 3 ≡ some sent
unfolding tag_send index denied
send_runs = refl

-- Both receivers get the message, the first of them only two bytes.
broadcast_example :
    (s' : Services) × (pcs : List Pc) × (wake_all
        (services_with full_level)
        (small_receiver ∷ large_receiver ∷ [])
      ≡ some (s', pcs))
    × (map outcome pcs ≡ some (pos 1, 7 ∷ 8 ∷ []) ∷ some (pos 1, 7 ∷ 8 ∷ 9 ∷ []) ∷ [])
broadcast_example =
    broadcast sender (services_with quiet_level) 0 0 0 a_tag quiet_level message 3 sent
      (small_receiver ∷ large_receiver ∷ []) (services_with-Reaches quiet_level) refl (omega arith)
      send_runs refl (refl, refl, refl, (refl, refl, refl, tt))

abbrev last_level : TagLevel
last_level = record full_level { waiting = 0; readers = 0 }

receive_clean_result_example :
    (s' : Services) × (receive_clean (services_with last_level) large_receiver (pos 1) message
      ≡ some (s', done (pos 1) message))
    × (tag_at s' 0 ≡ some (drop_waiting a_tag))
    × ((x : ℕ)
        → cell s'.levels x ≡ (
            if 0 == x
            then if ltb 0 0 then none else some (record last_level { ready = false; size = 0 })
            else cell (services_with last_level).levels x))
receive_clean_result_example =
    receive_clean_result (services_with last_level) large_receiver a_tag last_level last_level 0
      refl refl refl refl (pos 1) message

abbrev renew_call : RenewCall
renew_call = record {
  write_lock_ok = true;
  memory = record { level_ok = λ i. true; buffer_ok = λ i. true };
  rcu_ok = true;
}

abbrev renewed : Services
renewed = record {
  tags = some (record a_tag { tag_level = some 1 ∷ [] }) ∷ [];
  levels =
      some (release_level full_level)
      ∷ some (record (new_level 0 1) { readers = 1; waiting = 1 })
      ∷ [];
  readers = 2 ∷ [];
}

renew_runs :
    receive_renew renew_call (services_with full_level) large_receiver
    ≡ some (renewed, asleep (record large_receiver { address = 1 }))
unfolding receive_renew create_level
renew_runs = refl

receive_renew_sleeps_example : SleepsOnNewest renewed (record large_receiver { address = 1 })
receive_renew_sleeps_example =
    receive_renew_sleeps renew_call (services_with full_level) renewed large_receiver
      (record large_receiver { address = 1 }) renew_runs

receive_renew_fresh_example :
    (s' : Services) × (receive_renew renew_call (services_with full_level) large_receiver
      ≡ some (s', asleep (record large_receiver { address = 1 })))
    × (tag_at s' 0 ≡ some (record a_tag { tag_level = some 1 ∷ [] }))
    × (cell s'.levels 1 ≡ some (record (new_level 0 1) { readers = 1; waiting = 1 }))
    × ((x : ℕ)
        → x < 1
        → cell s'.levels x
          ≡ (if 0 == x then some (release_level full_level) else cell (some full_level ∷ []) x))
receive_renew_fresh_example =
    receive_renew_fresh renew_call (services_with full_level) large_receiver a_tag 0 full_level
      full_level refl refl refl refl refl refl refl refl refl
