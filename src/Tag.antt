-- ===== src/Tag.antt =====
-- tag-module/include/tag.h, tag-module/tag-struct.h and the two callbacks of tag-module/tag-module.c:
-- the constants, the error codes of the system calls, and the entry of the table from keys to
-- descriptors.
use tag_aos.Base.{ℕ, ◌≡◌, ◌==◌, arith, ℤ, pos, neg, sub_ℕ}
use tag_aos.Hashmap.{same}

abbrev pub levels_count : ℕ
levels_count = 32

abbrev pub max_tags : ℕ
max_tags = 256

abbrev pub buffer_size : ℕ
buffer_size = 4096

abbrev pub tag_open : ℤ
tag_open = pos 0

abbrev pub tag_creat : ℤ
tag_creat = pos 1

abbrev pub tag_awake_all : ℤ
tag_awake_all = pos 0

abbrev pub tag_delete : ℤ
tag_delete = pos 1

abbrev pub tag_perm_all : ℤ
tag_perm_all = pos 0

abbrev pub tag_perm_usr : ℤ
tag_perm_usr = pos 1

-- The kernel's key for a private object.
abbrev pub ipc_private : ℕ
ipc_private = 0

-- The return codes `-EINVAL`, `-EINTR` and so on; 132 is the module's own.
abbrev pub einval : ℤ
einval = neg 22

abbrev pub eintr : ℤ
eintr = neg 4

abbrev pub eproto : ℤ
eproto = neg 71

abbrev pub ebusy : ℤ
ebusy = neg 16

abbrev pub enomem : ℤ
enomem = neg 12

abbrev pub enodata : ℤ
enodata = neg 61

abbrev pub eperm : ℤ
eperm = neg 1

abbrev pub efault : ℤ
efault = neg 14

abbrev pub emaxtag : ℤ
emaxtag = neg 132

-- `tag_table_entry_t`. Keys are not negative: `tag_get` refuses others at once.
pub record TagTableEntry : Type 0 where
  pub key : ℕ
  pub tag_key : ℕ

abbrev pub tag_compare : TagTableEntry → TagTableEntry → ℤ
tag_compare a b = sub_ℕ a.key b.key

-- `(tag_table_entry_t){ .key = key}`
abbrev pub key_item : ℕ → TagTableEntry
key_item key = record { key = key; tag_key = 0 }

-- The table takes two entries for the same exactly when their keys are equal.
pub same-tag_compare : (a b : TagTableEntry) → same tag_compare a b ≡ (a.key == b.key)
same-tag_compare a b = ground arith
