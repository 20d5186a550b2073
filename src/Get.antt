-- ===== src/Get.antt =====
-- `tag_get` of tag-module/tag-syscall.c. What the kernel decides (waits that are killed, allocations
-- that fail, the caller's user) is an argument.
pub mod Created
pub mod Create
pub mod Open
pub mod Cases
mod Tests
use tag_aos.Base.{
  ℕ, ◌==◌, Bool, true, false, ◌||◌, not, Option, none, some, ℤ, pos, negsuc, ◌==ℤ◌, if◌then◌else◌,
  get_or, set,
}
use tag_aos.Hashmap.{Hashmap}
use tag_aos.Tag.{
  TagTableEntry, tag_compare, tag_open, tag_creat, tag_perm_all, tag_perm_usr, ipc_private, einval,
  eintr, enomem, enodata,
}
use tag_aos.Registry.{Registry, lookup, reserve, clear_tag_common}
use tag_aos.Level.{Heap, Pointers, Memory, add_tag_level, clear_tag_level}
use tag_aos.Level.Build.{no_pointers}
use tag_aos.Service.{Tag, Services, System, tag_at}

pub record GetCall : Type 0 where
  pub lock_ok : Bool  -- the wait for `common_lock` is not interrupted
  pub grow_ok : Bool  -- the hash table can grow
  pub array_ok : Bool  -- the array of levels can be allocated
  pub memory : Memory  -- the levels that can be
  pub entry_ok : Bool  -- the `tag_t` can be
  pub undo_ok : Bool  -- the second wait for `common_lock`, in `clear_tag_common`, is not killed
  pub euid : ℕ

abbrev pub new_tag : (key tag_key : ℕ) → (permission : ℤ) → (euid : ℕ) → Pointers → Tag
new_tag key tag_key permission euid ps = record {
  key = key;
  tag_key = tag_key;
  ready = false;
  permission = permission;
  euid = euid;
  tag_level = ps;
  waiting = 0;
}

module _ (H : Hashmap tag_compare) where
  open H use {Table}

  -- An allocation failed: give the descriptor back.
  unfoldable pub undo_create : GetCall → System Table → (key tag_key : ℕ) → System Table × ℤ
  undo_create c s key tag_key =
      let (r, code) = clear_tag_common H c.undo_ok c.grow_ok s.registry key tag_key in
      (record s { registry = r }, if code ==ℤ pos 0 then enomem else eintr)

  -- The allocations, once the descriptor is reserved.
  unfoldable pub build_tag :
      GetCall
      → System Table
      → (key tag_key : ℕ) (permission : ℤ) → Heap × Pointers × ℤ
      → System Table × ℤ
  unfolding undo_create
  build_tag c s key tag_key permission (h, ps, code) =
      let cleared = record s { services = record s.services { levels = clear_tag_level h ps } } in
      let tags = set s.services.tags tag_key (some (new_tag key tag_key permission c.euid ps)) in
      if not (code ==ℤ pos 0)
      then undo_create c cleared key tag_key
      else if not c.entry_ok
      then undo_create c cleared key tag_key
      else (record s { services = record s.services { tags = tags; levels = h } }, pos tag_key)

  unfoldable pub after_reserve :
      GetCall → System Table → (key : ℕ) (permission : ℤ) → Registry Table × ℤ → System Table × ℤ
  unfolding undo_create build_tag
  after_reserve c s key permission (r, negsuc n) = (record s { registry = r }, negsuc n)
  after_reserve c s key permission (r, pos tag_key) =
      let s' = record s { registry = r } in
      if not c.array_ok
      then undo_create c s' key tag_key
      else build_tag c s' key tag_key permission
          (add_tag_level c.memory s'.services.levels no_pointers)

  -- `TAG_CREAT`
  unfoldable pub create : GetCall → System Table → (key : ℕ) (permission : ℤ) → System Table × ℤ
  unfolding after_reserve
  create c s key permission =
      if not (permission ==ℤ tag_perm_usr || permission ==ℤ tag_perm_all)
      then (s, einval)
      else if not c.lock_ok
      then (s, eintr)
      else after_reserve c s key permission (reserve H c.grow_ok s.registry key)

  -- `TAG_OPEN`
  unfoldable pub open_tag : GetCall → System Table → (key : ℕ) → System Table × ℤ
  open_tag c s key =
      if key == ipc_private
      then (s, einval)
      else if not c.lock_ok
      then (s, eintr)
      else elim (lookup H s.registry key) [
        | none ↦ (s, enodata)
        | some entry ↦ elim (tag_at s.services entry.tag_key) [
          | none ↦ (s, enodata)
          | some t ↦ (s, pos entry.tag_key)
        ]
      ]

  unfoldable pub tag_get : GetCall → System Table → (key command permission : ℤ) → System Table × ℤ
  unfolding create open_tag
  tag_get c s (negsuc n) command permission = (s, einval)
  tag_get c s (pos key) command permission =
      if command ==ℤ tag_creat
      then create c s key permission
      else if command ==ℤ tag_open
      then open_tag c s key
      else (s, einval)
