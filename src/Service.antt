-- ===== src/Service.antt =====
-- `tag_t` of tag-module/tag-struct.h, and the global state of tag-module/tag-module.c that the system
-- calls work on. Sleeping locks hold nothing between two steps of the model, but `tag_lock[tag]` is
-- held for reading while a thread sleeps in `tag_receive`: its readers are counted.
use tag_aos.Base.{
  ℕ, ◌≡◌, ◌==◌, Bool, not, ◌&&◌, Option, none, some, List, [], ℤ, pos, negsuc, ◌==ℤ◌, ltb,
  if◌then◌else◌, length, get_or, set,
}
use tag_aos.Tag.{max_tags, tag_perm_usr}
use tag_aos.Level.{TagLevel, Heap, Pointers}
use tag_aos.Registry.{Registry}

pub record Tag : Type 0 where
  pub key : ℕ
  pub tag_key : ℕ
  pub ready : Bool
  pub permission : ℤ
  pub euid : ℕ
  pub tag_level : Pointers
  pub waiting : ℕ

pub record Services : Type 0 where
  pub tags : List (Option Tag)
  pub levels : Heap
  pub readers : List ℕ  -- of each `tag_lock`

-- `T` is the type of hash tables.
pub record System (T : Type 0) : Type 0 where
  pub registry : Registry T
  pub services : Services

-- `tags[tag]`
abbrev pub tag_at : Services → ℕ → Option Tag
tag_at s d = get_or s.tags d none

-- `CHECKPERM`: the caller with `euid` may not use the tag. Root always may.
unfoldable pub denied : Tag → (euid : ℕ) → Bool
denied t euid = t.permission ==ℤ tag_perm_usr && (not (euid == 0) && not (t.euid == euid))

-- An `int` argument as an index, if it lies in the range.
unfoldable pub index : ℤ → (bound : ℕ) → Option ℕ
index (negsuc n) bound = none
index (pos n) bound = if ltb n bound then some n else none

-- What a step returns: the new state, the return code, and the levels whose wait queue it woke.
pub record Done (S : Type 0) : Type 0 where
  pub state : S
  pub code : ℤ
  pub woken : List ℕ

abbrev pub returned : {S : Type 0} → S → ℤ → Done S
returned s code = record { state = s; code = code; woken = [] }

-- `tags[d] = t`
abbrev pub set_tag : Services → ℕ → Option Tag → Services
set_tag s d t = record s { tags = set s.tags d t }

-- A write through the pointer `a`.
abbrev pub set_level : Services → ℕ → TagLevel → Services
set_level s a l = record s { levels = set s.levels a (some l) }

-- The arrays have their sizes.
pub record IsSized (s : Services) : Type 0 where
  pub tags : length s.tags ≡ max_tags
  pub readers : length s.readers ≡ max_tags
