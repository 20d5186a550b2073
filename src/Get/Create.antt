-- ===== src/Get/Create.antt =====
-- `TAG_CREAT` in `tag_get`.
use mathlib.Core.Path.{subst}
use tag_aos.Base.{
  ℕ, ◌+◌, ◌<◌, ◌≡◌, ap, ◌∙◌, ◌⊎◌, ◌==◌, arith, true, false, none, some, ℤ, pos, negsuc,
  if◌then◌else◌, length, get_or, get_or-set,
}
use tag_aos.Bitmask.{taken}
use tag_aos.Hashmap.{Hashmap}
use tag_aos.Tag.{
  tag_compare, tag_creat, tag_perm_all, tag_perm_usr, max_tags, levels_count, ipc_private,
}
use tag_aos.Registry.{lookup, IsConsistent}
use tag_aos.Registry.Consistent.{Reserved-IsConsistent}
use tag_aos.Level.{Pointers, cell, new_level}
use tag_aos.Level.Build.{pointer, get_or-past}
use tag_aos.Service.{System, tag_at, IsSized}
use tag_aos.Get.{GetCall, new_tag, tag_get}
use tag_aos.Get.Created.{Created, Same, Outcome, create-Outcome, creat-Created}

module _ (H : Hashmap tag_compare) where
  open H use {Table}

  -- A successful `TAG_CREAT`: the permission is one of the two, the descriptor is below `MAX_TAGS`
  -- and was free, and the hash table had no entry for the key, which it never has for a private key.
  -- The descriptor then holds a tag with the key, the permission and the caller's user, whose levels
  -- are all new, while every other descriptor's tag is the one it was. A key that is not private leads
  -- to the descriptor, all other keys lead where they led, and the registry stays consistent.
  pub tag_get_creat_success :
      (c : GetCall) (s s' : System Table) (key d j i m : ℕ) (permission : ℤ)
      → IsConsistent H s.registry
      → IsSized s.services
      → i < levels_count
      → tag_get H c s (pos key) tag_creat permission ≡ (s', pos d)
      → ((permission ≡ tag_perm_usr) ⊎ (permission ≡ tag_perm_all))
        × (d < max_tags)
        × (taken s.registry.bitmask d ≡ false)
        × (lookup H s.registry key ≡ none)
        × ((ps : Pointers) × (a : ℕ) × (tag_at s'.services j
              ≡ (if d == j then some (new_tag key d permission c.euid ps) else tag_at s.services j))
            × (pointer ps i ≡ some a)
            × (cell s.services.levels a ≡ none)
            × (cell s'.services.levels a ≡ some (new_level i 0)))
        × (lookup H s'.registry m ≡ (
            if key == ipc_private
            then lookup H s.registry m
            else if key == m
            then some (record { key = key; tag_key = d })
            else lookup H s.registry m))
        × IsConsistent H s'.registry
  tag_get_creat_success c s s' key d j i m permission k z lt e = (
    n.permitted,
    n.reserved.inside,
    n.reserved.free,
    n.reserved.absent,
    (
      n.ps,
      length s.services.levels + i,
      ap (λ ts. get_or ts j none) n.tags
          ∙ get_or-set s.services.tags d j _ none (omega (arith, z.tags, n.reserved.inside)),
      n.built.points i ∙ ground arith,
      get_or-past s.services.levels none (length s.services.levels + i) (omega arith),
      n.built.fresh i lt,
    ),
    n.reserved.finds m,
    Reserved-IsConsistent H s.registry s'.registry key d k n.reserved,
  )
    where
      n : Created H c s s' key d permission
      n = creat-Created H c s s' key d permission k e

  -- A failed `TAG_CREAT` leaves no trace, as long as the wait for the lock to undo the reservation
  -- is not killed: the bitmask, the entries, the tags and every cell of the heap are as before, so
  -- whatever was allocated has been freed.
  pub tag_get_creat_failure :
      (c : GetCall) (s s' : System Table) (key n j a : ℕ) (permission : ℤ)
      → IsConsistent H s.registry
      → c.undo_ok ≡ true
      → tag_get H c s (pos key) tag_creat permission ≡ (s', negsuc n)
      → (s'.registry.bitmask ≡ s.registry.bitmask)
        × (lookup H s'.registry j ≡ lookup H s.registry j)
        × (s'.services.tags ≡ s.services.tags)
        × (s'.services.readers ≡ s.services.readers)
        × (cell s'.services.levels a ≡ cell s.services.levels a)
  unfolding tag_get
  tag_get_creat_failure c s s' key n j a permission k ok e =
      (u.bitmask, u.finds j, u.tags, u.readers, u.cells a)
    where
      u : Same H s s'
      u = subst (Outcome H c s key permission) e (create-Outcome H c s key permission k) ok
