-- ===== src/Init.antt =====
-- `initialize` of tag-module/tag-module.c: the state that the module starts from.
pub mod Linked
mod Tests
use tag_aos.Base.{
  Bool, true, false, ◌&&◌, not, Option, none, some, ℤ, pos, negsuc, if◌then◌else◌, replicate,
}
use tag_aos.Bitmask.{Bitmask, initialize_bitmask}
use tag_aos.Hashmap.{Hashmap}
use tag_aos.Tag.{tag_compare, max_tags}
use tag_aos.Service.{System}

-- Which of the four allocations succeed.
pub record InitCall : Type 0 where
  pub table_ok : Bool
  pub mask_ok : Bool
  pub struct_ok : Bool
  pub tags_ok : Bool

module _ (H : Hashmap tag_compare) where
  open H use {Table, hashmap_new}

  unfoldable pub start_with : Bitmask → System Table
  start_with b = record {
    registry = record { table = hashmap_new; bitmask = b };
    services = record {
      tags = replicate max_tags none;
      levels = replicate 0 none;
      readers = replicate max_tags 0;
    };
  }

  -- The state, and 0 or -1. On a failure what had been allocated is freed, and there is no state.
  pub initialize : InitCall → Option (System Table) × ℤ
  unfolding start_with
  initialize c =
      if not c.table_ok
      then (none, negsuc 0)
      else elim (initialize_bitmask c.mask_ok c.struct_ok (pos max_tags)) [
        | none ↦ (none, negsuc 0)
        | some b ↦ if c.tags_ok then (some (start_with b), pos 0) else (none, negsuc 0)
      ]
