-- ===== src/Get/Tests.antt =====
-- The theorems on `tag_get` from the state of a module that has just been loaded.
use tag_aos.Base.{
  ℕ, ◌<◌, ◌≡◌, refl, arith, ◌⊎◌, true, false, none, some, ◌==◌, pos, negsuc, if◌then◌else◌, ltb,
}
use tag_aos.Bitmask.{taken, fresh_bitmask, get_avail_number}
use tag_aos.Hashmap.Direct.{Direct, direct}
use tag_aos.Tag.{ipc_private, max_tags, tag_creat, tag_open, tag_perm_all, tag_perm_usr}
use tag_aos.Registry.{lookup, reserve, clear_tag_common, IsConsistent}
use tag_aos.Level.{Pointers, cell, new_level, add_tag_level}
use tag_aos.Level.Build.{pointer}
use tag_aos.Service.{System, tag_at}
use tag_aos.Init.{start_with}
use tag_aos.Get.{GetCall, new_tag, tag_get}
use tag_aos.Fixture.{start, start-IsLinked, get_call, created, create_runs}
use tag_aos.Get.Create.{tag_get_creat_success, tag_get_creat_failure}
use tag_aos.Get.Open.{open_after_creat}

tag_get_creat_success_example :
    ((tag_perm_all ≡ tag_perm_usr) ⊎ (tag_perm_all ≡ tag_perm_all))
    × (0 < max_tags)
    × (taken start.registry.bitmask 0 ≡ false)
    × (lookup direct start.registry 5 ≡ none)
    × ((ps : Pointers) × (a : ℕ) × (tag_at created.services 0
          ≡ (if 0 == 0 then some (new_tag 5 0 tag_perm_all 1000 ps) else tag_at start.services 0))
        × (pointer ps 3 ≡ some a)
        × (cell start.services.levels a ≡ none)
        × (cell created.services.levels a ≡ some (new_level 3 0)))
    × (lookup direct created.registry 5 ≡ (
        if 5 == ipc_private
        then lookup direct start.registry 5
        else if 5 == 5
        then some (record { key = 5; tag_key = 0 })
        else lookup direct start.registry 5))
    × IsConsistent direct created.registry
tag_get_creat_success_example =
    tag_get_creat_success direct get_call start created 5 0 0 3 5 tag_perm_all
      start-IsLinked.consistent start-IsLinked.sized (omega arith) create_runs

-- The third level cannot be allocated.
abbrev short_call : GetCall
short_call = record get_call { memory = record { level_ok = λ i. ltb i 2; buffer_ok = λ i. true } }

abbrev failed : System Direct
failed = (tag_get direct short_call start (pos 5) tag_creat tag_perm_all).0

failure_runs : tag_get direct short_call start (pos 5) tag_creat tag_perm_all ≡ (failed, negsuc 11)
unfolding tag_get reserve add_tag_level start_with get_avail_number fresh_bitmask clear_tag_common
failure_runs = refl

tag_get_creat_failure_example :
    (failed.registry.bitmask ≡ start.registry.bitmask)
    × (lookup direct failed.registry 5 ≡ lookup direct start.registry 5)
    × (failed.services.tags ≡ start.services.tags)
    × (failed.services.readers ≡ start.services.readers)
    × (cell failed.services.levels 1 ≡ cell start.services.levels 1)
tag_get_creat_failure_example =
    tag_get_creat_failure direct short_call start failed 5 11 5 1 tag_perm_all
      start-IsLinked.consistent refl failure_runs

open_after_creat_example :
    tag_get direct get_call created (pos 5) tag_open tag_perm_usr ≡ (created, pos 0)
open_after_creat_example =
    open_after_creat direct get_call get_call start created 5 0 tag_perm_all tag_perm_usr
      start-IsLinked.consistent start-IsLinked.sized (omega arith) refl create_runs

open_runs : tag_get direct get_call created (pos 5) tag_open tag_perm_usr ≡ (created, pos 0)
unfolding tag_get reserve add_tag_level start_with get_avail_number fresh_bitmask
open_runs = refl
