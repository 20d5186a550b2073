-- ===== src/Send/Tests.antt =====
-- The theorems on sends at concrete states.
use tag_aos.Base.{ℕ, ◌≡◌, refl, some, List, [], ◌∷◌, pos}
use tag_aos.Service.{Services, Done, returned, index, denied}
use tag_aos.Send.{tag_send}
use tag_aos.Send.Publish.{Published}
use tag_aos.Send.Delivery.{tag_send_delivered, tag_send-pending}
use tag_aos.Fixture.{
  quiet_level, full_level, a_tag, services_with, services_with-Reaches, sender, message,
}

abbrev sent : Done Services
sent = record {
  state = services_with (record full_level { waiting = 2 });
  code = pos 1;
  woken = 0 ∷ [];
}

send_runs : tag_send sender (services_with quiet_level) (pos 0) (pos 0) (some message) 3 ≡ some sent
unfolding tag_send index denied
send_runs = refl

-- The level has a message.
send_late_runs :
    tag_send sender (services_with full_level) (pos 0) (pos 0) (some message) 3
    ≡ some (returned (services_with full_level) (pos 0))
unfolding tag_send index denied
send_late_runs = refl

tag_send_delivered_example : Published sender (services_with quiet_level) 0 0 message 3 sent
tag_send_delivered_example =
    tag_send_delivered sender (services_with quiet_level) 0 0 (some message) 3 sent send_runs refl

tag_send-pending_example :
    (services_with full_level ≡ services_with full_level) × (◌≡◌ {A = List ℕ} [] [])
tag_send-pending_example =
    tag_send-pending sender (services_with full_level) 0 0 (some message) 3
      (returned (services_with full_level) (pos 0)) 0 a_tag full_level
      (services_with-Reaches full_level) refl send_late_runs
