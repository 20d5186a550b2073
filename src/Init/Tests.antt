-- ===== src/Init/Tests.antt =====
-- The module loads.
use tag_aos.Base.{◌≡◌, true, false, ◌&&◌, none, some, pos, negsuc, if◌then◌else◌}
use tag_aos.Bitmask.{taken, fresh_bitmask}
use tag_aos.Hashmap.Direct.{direct}
use tag_aos.Tag.{max_tags}
use tag_aos.Registry.{lookup}
use tag_aos.Service.{tag_at}
use tag_aos.Invariant.{IsLinked}
use tag_aos.Init.{InitCall, start_with, initialize}
use tag_aos.Init.Linked.{initialize_start}

abbrev call : InitCall
call = record { table_ok = true; mask_ok = true; struct_ok = true; tags_ok = true }

initialize_start_example :
    (initialize direct call ≡ (
      if call.table_ok && (call.mask_ok && (call.struct_ok && call.tags_ok))
      then (some (start_with direct (fresh_bitmask max_tags)), pos 0)
      else (none, negsuc 0)))
    × IsLinked direct (start_with direct (fresh_bitmask max_tags))
    × (taken (start_with direct (fresh_bitmask max_tags)).registry.bitmask 7 ≡ false)
    × (lookup direct (start_with direct (fresh_bitmask max_tags)).registry 5 ≡ none)
    × (tag_at (start_with direct (fresh_bitmask max_tags)).services 7 ≡ none)
initialize_start_example = initialize_start direct call 7 5
