-- ===== src/Fixture.antt =====
-- Concrete states that the tests share: one tag with one level that two receivers sleep on, and the
-- state right after the module is loaded.
use tag_aos.Base.{ℕ, ◌≡◌, refl, true, false, none, some, List, [], ◌∷◌, pos}
use tag_aos.Bitmask.{fresh_bitmask, get_avail_number}
use tag_aos.Hashmap.Direct.{Direct, direct}
use tag_aos.Tag.{max_tags, tag_creat, tag_perm_all}
use tag_aos.Registry.{reserve}
use tag_aos.Invariant.{IsLinked}
use tag_aos.Init.{start_with}
use tag_aos.Init.Linked.{start_with-IsLinked}
use tag_aos.Get.{GetCall, tag_get}
use tag_aos.Get.Open.{tag_get_creat-IsLinked}
use tag_aos.Level.{TagLevel, add_tag_level}
use tag_aos.Service.{Tag, Services, System}
use tag_aos.Send.{SendCall}
use tag_aos.Send.Publish.{Reaches}
use tag_aos.Receive.{ReceiveCall, Receiver}

abbrev pub quiet_level : TagLevel
quiet_level = record {
  level = 0;
  size = 0;
  ready = false;
  epoch = 0;
  waiting = 2;
  readers = 2;
  buffer = 0 ∷ 0 ∷ 0 ∷ 0 ∷ [];
}

-- The same level with the message 7, 8, 9.
abbrev pub full_level : TagLevel
full_level = record quiet_level { size = 3; ready = true; buffer = 7 ∷ 8 ∷ 9 ∷ 0 ∷ [] }

abbrev pub a_tag : Tag
a_tag = record {
  key = 5;
  tag_key = 0;
  ready = false;
  permission = tag_perm_all;
  euid = 1000;
  tag_level = some 0 ∷ [];
  waiting = 2;
}

abbrev pub services_with : TagLevel → Services
services_with l = record { tags = some a_tag ∷ []; levels = some l ∷ []; readers = 2 ∷ [] }

pub services_with-Reaches : (l : TagLevel) → Reaches (services_with l) 0 0 0 a_tag l
services_with-Reaches l = record { tag = refl; points = refl; alive = refl }

abbrev pub sender : SendCall
sender = record {
  lock_ok = true;
  level_lock_ok = true;
  rcu_ok = true;
  mutex_free = true;
  copy = none;
  euid = 1;
}

abbrev pub message : List ℕ
message = 7 ∷ 8 ∷ 9 ∷ []

-- A receiver of up to two bytes, and one of up to ten.
abbrev pub small_receiver : Receiver
small_receiver = record { tag = 0; level = 0; address = 0; size = 2; has_buffer = true }

abbrev pub large_receiver : Receiver
large_receiver = record small_receiver { size = 10 }

abbrev pub receive_call : ReceiveCall
receive_call = record { lock_ok = true; level_lock_ok = true; rcu_ok = true; euid = 1 }

abbrev pub start : System Direct
start = start_with direct (fresh_bitmask max_tags)

pub start-IsLinked : IsLinked direct start
start-IsLinked = start_with-IsLinked direct

abbrev pub get_call : GetCall
get_call = record {
  lock_ok = true;
  grow_ok = true;
  array_ok = true;
  memory = record { level_ok = λ i. true; buffer_ok = λ i. true };
  entry_ok = true;
  undo_ok = true;
  euid = 1000;
}

abbrev pub created : System Direct
created = (tag_get direct get_call start (pos 5) tag_creat tag_perm_all).0

pub create_runs : tag_get direct get_call start (pos 5) tag_creat tag_perm_all ≡ (created, pos 0)
unfolding tag_get reserve add_tag_level start_with get_avail_number fresh_bitmask
create_runs = refl

pub created-IsLinked : IsLinked direct created
created-IsLinked =
    tag_get_creat-IsLinked direct get_call start created 5 0 tag_perm_all start-IsLinked create_runs
