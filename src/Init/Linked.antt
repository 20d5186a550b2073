-- ===== src/Init/Linked.antt =====
-- `initialize` of tag-module/tag-module.c, and the invariant.
use tag_aos.Base.{
  ℕ, ◌≡◌, ◌&&◌, arith, true, false, Option, none, some, pos, negsuc, if◌then◌else◌,
  length-replicate, get_or-replicate,
}
use tag_aos.Bitmask.{taken, fresh_bitmask}
use tag_aos.Bitmask.Clear.{initialize_bitmask_empty, fresh_bitmask_n_bits}
use tag_aos.Hashmap.{Hashmap}
use tag_aos.Tag.{tag_compare, key_item, max_tags}
use tag_aos.Registry.{lookup}
use tag_aos.Service.{Tag, tag_at}
use tag_aos.Invariant.{IsLinked}
use tag_aos.Init.{InitCall, start_with, initialize}

module _ (H : Hashmap tag_compare) where
  open H use {Table}

  pub start_with-IsLinked : IsLinked H (start_with H (fresh_bitmask max_tags))
  unfolding start_with
  start_with-IsLinked = record {
    consistent = record {
      valid = (initialize_bitmask_empty true true max_tags 0).2;
      bits = fresh_bitmask_n_bits max_tags;
      filed = λ k e h. cc (H.get-new (key_item k));
      private = H.get-new (key_item 0);
      held = λ k e h. cc (H.get-new (key_item k));
      own = λ k j e f h g q. cc (H.get-new (key_item k));
    };
    sized = record {
      tags = length-replicate {A = Option Tag} max_tags none;
      readers = length-replicate {A = ℕ} max_tags 0;
    };
    placed = λ d t h. cc (get_or-replicate {A = Option Tag} max_tags none d);
    owned = λ d t h. cc (get_or-replicate {A = Option Tag} max_tags none d);
  }

  -- `initialize` succeeds exactly when every allocation does. Then the state meets the invariant,
  -- with no descriptor taken, no key filed and no tag.
  pub initialize_start :
      (c : InitCall) (d k : ℕ)
      → (initialize H c ≡ (
          if c.table_ok && (c.mask_ok && (c.struct_ok && c.tags_ok))
          then (some (start_with H (fresh_bitmask max_tags)), pos 0)
          else (none, negsuc 0)))
        × IsLinked H (start_with H (fresh_bitmask max_tags))
        × (taken (start_with H (fresh_bitmask max_tags)).registry.bitmask d ≡ false)
        × (lookup H (start_with H (fresh_bitmask max_tags)).registry k ≡ none)
        × (tag_at (start_with H (fresh_bitmask max_tags)).services d ≡ none)
  unfolding initialize start_with
  initialize_start c d k = (
    ground (arith, (initialize_bitmask_empty c.mask_ok c.struct_ok max_tags 0).0),
    start_with-IsLinked,
    (initialize_bitmask_empty true true max_tags d).1,
    H.get-new (key_item k),
    get_or-replicate max_tags none d,
  )
