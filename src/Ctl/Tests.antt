-- ===== src/Ctl/Tests.antt =====
-- The theorems on `tag_ctl` at concrete states.
use mathlib.Core.List.{Mem}
use tag_aos.Base.{
  ◌≡◌, refl, arith, true, false, Option, none, some, [], ◌∷◌, ◌==◌, pos, negsuc, if◌then◌else◌,
  get_or,
}
use tag_aos.Bitmask.{taken, get_avail_number, clear_number, fresh_bitmask}
use tag_aos.Hashmap.Direct.{Direct, direct}
use tag_aos.Tag.{ipc_private}
use tag_aos.Registry.{lookup, reserve, clear_tag_common, IsConsistent}
use tag_aos.Level.{add_tag_level, clear_tag_level}
use tag_aos.Level.Build.{pointer}
use tag_aos.Service.{Tag, Services, System, Done, returned, tag_at, set_tag, denied}
use tag_aos.Init.{start_with}
use tag_aos.Get.{tag_get}
use tag_aos.Receive.{Pc, receive_wake}
use tag_aos.Receive.Woken.{outcome}
use tag_aos.Ctl.{CtlCall, awake_all, delete}
use tag_aos.Ctl.Delete.{delete_success, delete_failure}
use tag_aos.Ctl.AwakeAll.{awake_all-receive_wake}
use tag_aos.Fixture.{created, created-IsLinked, a_tag, full_level, services_with, large_receiver}

abbrev call : CtlCall
call = record {
  lock_ok = true;
  level_lock_ok = λ i. true;
  rcu_ok = λ i. true;
  common_ok = true;
  grow_ok = true;
  euid = 1000;
}

abbrev deleted : System Direct
deleted = (delete direct call created 0).0

delete_runs : delete direct call created 0 ≡ (deleted, pos 1)
unfolding delete tag_get reserve add_tag_level start_with get_avail_number fresh_bitmask
    clear_tag_common clear_tag_level clear_number denied
delete_runs = refl

delete_success_example :
    ((t : Tag) × (tag_at created.services 0 ≡ some t)
      × (denied t 1000 ≡ false)
      × (get_or created.services.readers 0 0 ≡ 0)
      × (t.waiting ≡ 0)
      × (lookup direct deleted.registry 5 ≡ (
          if t.key == ipc_private
          then lookup direct created.registry 5
          else if t.key == 5
          then none
          else lookup direct created.registry 5)))
    × (tag_at deleted.services 0 ≡ (if 0 == 0 then none else tag_at created.services 0))
    × (taken deleted.registry.bitmask 0
        ≡ (if 0 == 0 then false else taken created.registry.bitmask 0))
    × IsConsistent direct deleted.registry
delete_success_example =
    delete_success direct call created deleted 0 5 0 created-IsLinked (omega arith) delete_runs

-- The tag that the call finds.
abbrev found_tag : Option Tag → Tag
found_tag none = a_tag
found_tag (some t) = t

found_runs : tag_at created.services 0 ≡ some (found_tag (tag_at created.services 0))
unfolding tag_get reserve add_tag_level start_with get_avail_number fresh_bitmask
found_runs = refl

points_runs : pointer (found_tag (tag_at created.services 0)).tag_level 3 ≡ some 3
unfolding tag_get reserve add_tag_level start_with get_avail_number fresh_bitmask
points_runs = refl

-- There is no tag 3.
delete_none_runs : delete direct call created 3 ≡ (created, negsuc 60)
unfolding delete tag_get reserve add_tag_level start_with get_avail_number fresh_bitmask
delete_none_runs = refl

delete_failure_example : created ≡ created
delete_failure_example =
    delete_failure direct call created created 3 (negsuc 60) created-IsLinked (λ e. cc e)
      delete_none_runs

abbrev awoken : Done Services
awoken = record {
  state = set_tag (services_with full_level) 0 (some (record a_tag { ready = true }));
  code = pos 1;
  woken = 0 ∷ [];
}

awake_runs : awake_all call (services_with full_level) 0 ≡ some awoken
unfolding awake_all denied
awake_runs = refl

-- The flag is up already.
awake_again_runs : awake_all call awoken.state 0 ≡ some (returned awoken.state (pos 0))
unfolding awake_all denied
awake_again_runs = refl

awake_all-receive_wake_example :
    Mem 0 awoken.woken
    × ((s' : Services) × (pc : Pc) × (receive_wake true awoken.state large_receiver ≡ some (s', pc))
        × (outcome pc ≡ some (pos 0, [])))
awake_all-receive_wake_example =
    awake_all-receive_wake call (services_with full_level) large_receiver a_tag full_level awoken
      true awake_runs refl (omega arith) refl refl refl (omega arith)
