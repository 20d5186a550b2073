-- ===== src/Module.antt =====
-- `init_module` and `cleanup_module` of tag-module/tag-module.c. The device and the hash table, which
-- are registered and freed there too, hold nothing that the model sees.
pub mod Load
mod Tests
use tag_aos.Base.{ℕ, ◌==◌, Option, none, some, List, [], ◌∷◌, ℤ, pos, negsuc, if◌then◌else◌}
use tag_aos.Hashmap.{Hashmap}
use tag_aos.Tag.{tag_compare}
use tag_aos.Level.{Heap, clear_tag_level}
use tag_aos.Service.{Tag, System}
use tag_aos.Init.{InitCall, initialize}
use tag_aos.Syscalls.{Discovery, Installed, install_syscalls}

-- `T` is the type of hash tables. `state` is `none` if the module's structures have been freed.
pub record Loaded (T : Type 0) : Type 0 where
  pub state : Option (System T)
  pub discovery : Discovery
  pub code : ℤ

module _ (H : Hashmap tag_compare) where
  open H use {Table}

  pub after_initialize :
      Discovery → (get send receive ctl : ℕ) → Option (System Table) → Loaded Table
  after_initialize d get send receive ctl none = record {
    state = none;
    discovery = d;
    code = negsuc 0;
  }
  after_initialize d get send receive ctl (some s) =
      let installed = install_syscalls d get send receive ctl in
      if installed.result == 0
      then record { state = none; discovery = installed.discovery; code = negsuc 0 }
      else record { state = some s; discovery = installed.discovery; code = pos 0 }

  pub init_module : InitCall → Discovery → (get send receive ctl : ℕ) → Loaded Table
  unfolding after_initialize
  init_module c d get send receive ctl = after_initialize d get send receive ctl (initialize H c).0

  -- The loop over `tags`: the levels of each tag go.
  pub cleanup_tags : List (Option Tag) → Heap → Heap
  cleanup_tags [] h = h
  cleanup_tags (none ∷ tags) h = cleanup_tags tags h
  cleanup_tags (some t ∷ tags) h = cleanup_tags tags (clear_tag_level h t.tag_level)

  -- The heap that is left.
  pub cleanup_module : System Table → Heap
  unfolding cleanup_tags
  cleanup_module s = cleanup_tags s.services.tags s.services.levels
