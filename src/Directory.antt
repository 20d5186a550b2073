-- ===== src/Directory.antt =====
-- What a user may expect of `tag_get` and `tag_ctl`, with no registry, bitmask, hash table or threads:
-- a directory of tags by descriptor, which calls add to and remove from.
pub mod Refines
pub mod Unique
mod Tests
use tag_aos.Base.{ℕ, ◌<◌, ◌==◌, ◌≡◌, ◌≢◌, ◌⊎◌, Option, none, some, ℤ, if◌then◌else◌}
use tag_aos.Tag.{max_tags, ipc_private, tag_perm_all, tag_perm_usr}
use tag_aos.Service.{Tag, System, tag_at}

-- The key of a tag, who may use it, and who made it.
pub record Entry : Type 0 where
  pub key : ℕ
  pub permission : ℤ
  pub euid : ℕ

abbrev pub Directory : Type 0
Directory = ℕ → Option Entry

-- A call changes nothing, or adds a tag at a free descriptor under a key that no tag has (a private
-- key may be used again), or removes a tag.
pub data Change (f g : Directory) : Type 0 where
  stays : ((d : ℕ) → g d ≡ f d) → Change f g
  adds :
      (d : ℕ) (e : Entry)
      → d < max_tags
      → f d ≡ none
      → (e.permission ≡ tag_perm_usr) ⊎ (e.permission ≡ tag_perm_all)
      → (e.key ≢ ipc_private → (m : ℕ) (x : Entry) → f m ≡ some x → x.key ≢ e.key)
      → ((m : ℕ) → g m ≡ (if d == m then some e else f m))
      → Change f g
  removes :
      (d : ℕ) (e : Entry)
      → f d ≡ some e
      → ((m : ℕ) → g m ≡ (if d == m then none else f m))
      → Change f g

-- The directories that calls can lead to, starting without a tag.
pub data History : Directory → Type 0 where
  empty : {f : Directory} → ((d : ℕ) → f d ≡ none) → History f
  after : {f g : Directory} → History f → Change f g → History g

abbrev pub entry_of : Tag → Entry
entry_of t = record { key = t.key; permission = t.permission; euid = t.euid }

abbrev pub entry_at : Option Tag → Option Entry
entry_at none = none
entry_at (some t) = some (entry_of t)

-- The directory that a system stands for.
unfoldable pub directory : {T : Type 0} → System T → Directory
directory s d = entry_at (tag_at s.services d)
