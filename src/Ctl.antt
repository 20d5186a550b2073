-- ===== src/Ctl.antt =====
-- `tag_ctl` of tag-module/tag-syscall.c. `none` stands for an access to a level that has been freed.
pub mod Deleted
pub mod Delete
pub mod Awake
pub mod AwakeAll
mod Tests
use tag_aos.Base.{
  ℕ, zero, suc, ◌+◌, ◌==◌, Bool, true, false, not, Option, none, some, List, [], ◌∷◌, ◌++◌, ℤ, pos,
  ◌==ℤ◌, ltb, if◌then◌else◌, get_or, set,
}
use tag_aos.Hashmap.{Hashmap}
use tag_aos.Tag.{
  tag_compare, max_tags, levels_count, tag_awake_all, tag_delete, einval, eintr, enodata, eperm,
  eproto,
}
use tag_aos.Registry.{Registry, clear_tag_common}
use tag_aos.Level.{TagLevel, cell, clear_tag_level}
use tag_aos.Level.Build.{pointer}
use tag_aos.Service.{Tag, Services, System, Done, returned, tag_at, set_tag, denied, index}

pub record CtlCall : Type 0 where
  pub lock_ok : Bool  -- the wait for `tag_lock` is not interrupted
  pub level_lock_ok : ℕ → Bool  -- nor that for the `level_lock` of a level
  pub rcu_ok : ℕ → Bool  -- nor that for its `rcu_lock`
  pub common_ok : Bool  -- the wait for `common_lock` is not killed
  pub grow_ok : Bool  -- the hash table can grow
  pub euid : ℕ

-- The loop of `TAG_AWAKE_ALL` at level `i`, with `left` levels to go: the levels woken, and the code.
unfoldable pub awake_from :
    CtlCall → Services → Tag → (left i : ℕ) (woken : List ℕ) → Option (List ℕ × ℤ)
awake_from c s t zero i woken = some (woken, pos 1)
awake_from c s t (suc left) i woken =
    if not (c.level_lock_ok i) then some (woken, eintr) else elim (pointer t.tag_level i) [
      | none ↦ awake_from c s t left (i + 1) woken
      | some a ↦ elim (cell s.levels a) [
        | none ↦ none
        | some l ↦
            let rest =
              awake_from c s t left (i + 1) (if ltb 0 l.waiting then woken ++ a ∷ [] else woken) in
            if not (c.rcu_ok i) then some (woken, eintr) else rest
      ]
    ]

abbrev pub awoken : Services → Option (List ℕ × ℤ) → Option (Done Services)
awoken s none = none
awoken s (some (woken, code)) = some (record { state = s; code = code; woken = woken })

-- `TAG_AWAKE_ALL`
unfoldable pub awake_all : CtlCall → Services → (tag : ℕ) → Option (Done Services)
unfolding awake_from
awake_all c s tag = if not c.lock_ok then some (returned s eintr) else elim (tag_at s tag) [
  | none ↦ some (returned s enodata)
  | some t ↦
      let t' = record t { ready = true } in
      let s' = set_tag s tag (some t') in
      if denied t c.euid
      then some (returned s eperm)
      else if t.ready
      then some (returned s (pos 0))
      else if t.waiting == 0
      then some (returned s (pos 0))
      else awoken s' (awake_from c s' t' levels_count 0 [])
]

module _ (H : Hashmap tag_compare) where
  open H use {Table}

  -- The tag is out of `tags`: the check for receivers, the registry, and the memory.
  unfoldable pub delete_tag : CtlCall → System Table → (tag : ℕ) → Tag → System Table × ℤ
  delete_tag c s tag t =
      let hidden = set_tag s.services tag none in
      let restored = set_tag hidden tag (some t) in
      let (r, code) = clear_tag_common H c.common_ok c.grow_ok s.registry t.key t.tag_key in
      if not (t.waiting == 0)
      then (record s { services = restored }, eproto)
      else if not (code ==ℤ pos 0)
      then (record { registry = r; services = restored }, eintr)
      else (
        record {
          registry = r;
          services = record hidden { levels = clear_tag_level hidden.levels t.tag_level };
        },
        pos 1,
      )

  -- `TAG_DELETE`. The trylock fails while any thread holds `tag_lock[tag]`.
  unfoldable pub delete : CtlCall → System Table → (tag : ℕ) → System Table × ℤ
  unfolding delete_tag
  delete c s tag =
      if not (get_or s.services.readers tag 0 == 0)
      then (s, pos 0)
      else elim (tag_at s.services tag) [
        | none ↦ (s, enodata)
        | some t ↦ if denied t c.euid then (s, eperm) else delete_tag c s tag t
      ]

  abbrev pub in_system : System Table → Option (Done Services) → Option (Done (System Table))
  in_system s none = none
  in_system s (some o) =
      some (record { state = record s { services = o.state }; code = o.code; woken = o.woken })

  unfoldable pub tag_ctl : CtlCall → System Table → (tag command : ℤ) → Option (Done (System Table))
  unfolding awake_all delete
  tag_ctl c s tag command = elim (index tag max_tags) [
    | none ↦ some (returned s einval)
    | some d ↦
        if command ==ℤ tag_awake_all
        then in_system s (awake_all c s.services d)
        else if command ==ℤ tag_delete
        then some (returned (delete c s d).0 (delete c s d).1)
        else some (returned s einval)
  ]
