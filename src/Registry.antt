-- ===== src/Registry.antt =====
-- The structures that `common_lock` protects, `tag_table` and `tag_bitmask`, and the three critical
-- sections of tag-module/tag-syscall.c over them: the reservation of a descriptor in `tag_get`, the
-- lookup of `TAG_OPEN`, and `clear_tag_common`.
pub mod Reserve
pub mod Consistent
pub mod Busy
pub mod Clear
mod Tests
use tag_aos.Base.{
  ℕ, ◌≡◌, ◌<◌, ◌==◌, Bool, true, not, ◌&&◌, Option, none, some, ℤ, pos, negsuc, ◌==ℤ◌, leb,
  if◌then◌else◌,
}
use tag_aos.Bitmask.{Bitmask, IsValid, taken, get_avail_number, clear_number}
use tag_aos.Hashmap.{Hashmap, is_some}
use tag_aos.Tag.{
  TagTableEntry, tag_compare, key_item, max_tags, ipc_private, eproto, ebusy, enomem, emaxtag,
  eintr,
}

-- `T` is the type of hash tables.
pub record Registry (T : Type 0) : Type 0 where
  pub table : T
  pub bitmask : Bitmask

module _ (H : Hashmap tag_compare) where
  open H use {Table, hashmap_count, hashmap_oom, hashmap_get, hashmap_set, hashmap_delete}

  -- `hashmap_get(tag_table, &(tag_table_entry_t){ .key = key})`
  abbrev pub lookup : Registry Table → ℕ → Option TagTableEntry
  lookup r key = hashmap_get r.table (key_item key)

  -- The branch for a key that is not private: no second tag with the same key, then the insertion.
  -- `r` has the bit of `tag_key` set already.
  unfoldable pub insert_key :
      (grow_ok : Bool) → Registry Table → (key tag_key : ℕ) → Registry Table × ℤ
  insert_key grow_ok r key tag_key =
      let cleared = (clear_number r.bitmask tag_key).0 in
      let (table', replaced) =
        hashmap_set grow_ok r.table (record { key = key; tag_key = tag_key }) in
      if is_some (lookup r key)
      then (record r { bitmask = cleared }, ebusy)
      else if not (is_some replaced) && hashmap_oom table'
      then (record { table = table'; bitmask = cleared }, enomem)
      else (record r { table = table' }, pos tag_key)

  -- What follows `get_avail_number`, whose result is the last argument.
  unfoldable pub reserve_number :
      (grow_ok : Bool) → Registry Table → (key : ℕ) → Bitmask × ℤ → Registry Table × ℤ
  unfolding insert_key
  reserve_number grow_ok r key (b, negsuc n) = (record r { bitmask = b }, eproto)
  reserve_number grow_ok r key (b, pos tag_key) =
      if leb max_tags tag_key
      then (record r { bitmask = b }, eproto)
      else if key == ipc_private
      then (record r { bitmask = b }, pos tag_key)
      else insert_key grow_ok (record r { bitmask = b }) key tag_key

  -- The critical section of `TAG_CREAT`: the new registry, and the descriptor or an error.
  unfoldable pub reserve : (grow_ok : Bool) → Registry Table → (key : ℕ) → Registry Table × ℤ
  unfolding reserve_number
  reserve grow_ok r key =
      if leb max_tags (hashmap_count r.table)
      then (r, emaxtag)
      else reserve_number grow_ok r key (get_avail_number r.bitmask)

  -- The entry for `key` goes, if it is the one of `tag_key`.
  unfoldable pub delete_key : Registry Table → (key tag_key : ℕ) → Registry Table
  delete_key r key tag_key = if key == ipc_private then r else elim (lookup r key) [
    | some entry ↦
        if entry.tag_key == tag_key
        then record r { table = (hashmap_delete r.table (key_item key)).0 }
        else r
    | none ↦ r
  ]

  -- The bit of `tag_key` goes; if that fails, the entry is put back.
  unfoldable pub clear_bit_of :
      (grow_ok : Bool) → Registry Table → (key tag_key : ℕ) → Registry Table
  clear_bit_of grow_ok r key tag_key =
      let (b, result) = clear_number r.bitmask tag_key in
      if result ==ℤ pos 1
      then record r { bitmask = b }
      else if key == ipc_private
      then record r { bitmask = b }
      else record {
        table = (hashmap_set grow_ok r.table (record { key = key; tag_key = tag_key })).0;
        bitmask = b;
      }

  -- `lock_ok` is false if the wait for `common_lock` was killed.
  unfoldable pub clear_tag_common :
      (lock_ok grow_ok : Bool) → Registry Table → (key tag_key : ℕ) → Registry Table × ℤ
  unfolding delete_key clear_bit_of
  clear_tag_common lock_ok grow_ok r key tag_key =
      if lock_ok
      then (clear_bit_of grow_ok (delete_key r key tag_key) key tag_key, pos 0)
      else (r, eintr)

  -- Entries are filed under their keys, each has its own descriptor, and that descriptor is taken.
  pub record IsConsistent (r : Registry Table) : Type 0 where
    pub valid : IsValid r.bitmask
    pub bits : r.bitmask.n_bits ≡ max_tags
    pub filed : (k : ℕ) (e : TagTableEntry) → lookup r k ≡ some e → e.key ≡ k
    pub private : lookup r ipc_private ≡ none
    pub held :
        (k : ℕ) (e : TagTableEntry)
        → lookup r k ≡ some e
        → (e.tag_key < max_tags) × (taken r.bitmask e.tag_key ≡ true)
    pub own :
        (k j : ℕ) (e f : TagTableEntry)
        → lookup r k ≡ some e
        → lookup r j ≡ some f
        → e.tag_key ≡ f.tag_key
        → k ≡ j
