-- ===== src/Get/Open.antt =====
-- `TAG_OPEN` in `tag_get`, after `TAG_CREAT`.
use mathlib.Core.Path.{subst}
use tag_aos.Base.{
  ℕ, ◌<◌, ◌≡◌, ◌≢◌, refl, sym, ap, ◌∙◌, inl, inr, ◌⊎◌, ◌==◌, arith, true, false, not, ◌||◌, none,
  some, ℤ, pos, negsuc, ◌==ℤ◌, if◌then◌else◌, if-elim, Bool-cases, Option-cases, length, get_or,
  get_or-set, length-set,
}
use tag_aos.Bitmask.{taken}
use tag_aos.Hashmap.{Hashmap}
use tag_aos.Tag.{
  TagTableEntry, tag_compare, tag_open, tag_creat, max_tags, ipc_private, ebusy, enodata,
  tag_perm_usr, tag_perm_all,
}
use tag_aos.Registry.{Registry, lookup, reserve, IsConsistent}
use tag_aos.Registry.Reserve.{Reserved}
use tag_aos.Registry.Consistent.{Reserved-cases, Reserved-IsConsistent}
use tag_aos.Registry.Busy.{reserve_busy}
use tag_aos.Registry.Clear.{Owns, Reserved-Owns}
use tag_aos.Service.{Tag, System, tag_at, IsSized}
use tag_aos.Invariant.{IsLinked}
use tag_aos.Get.{GetCall, new_tag, after_reserve, create, open_tag, tag_get}
use tag_aos.Get.Created.{Created, creat-Created}

module _ (H : Hashmap tag_compare) where
  open H use {Table, hashmap_count}

  pub tag_at-Created :
      (c : GetCall) (s s' : System Table) (key d j : ℕ) (permission : ℤ)
      → IsSized s.services
      → (n : Created H c s s' key d permission)
      → tag_at s'.services j
        ≡ (if d == j then some (new_tag key d permission c.euid n.ps) else tag_at s.services j)
  tag_at-Created c s s' key d j permission z n =
      ap (λ ts. get_or ts j none) n.tags
      ∙ get_or-set s.services.tags d j _ none (omega (arith, z.tags, n.reserved.inside))

  -- What a descriptor was owned by, it still is after a reservation.
  Owns-Reserved :
      (r r' : Registry Table) (key d k j : ℕ)
      → IsConsistent H r
      → Reserved H r r' key d
      → Owns H r k j
      → Owns H r' k j
  Owns-Reserved r r' key d k j c n o = record {
    inside = o.inside;
    used = ground (arith, n.marks j, o.used);
    entry = λ public. kept public (o.entry public);
    only = λ i f h at. only i f at (Reserved-cases H r r' key d i f n h);
  }
    where
      kept :
          k ≢ ipc_private
          → lookup H r k ≡ some (record { key = k; tag_key = j })
          → lookup H r' k ≡ some (record { key = k; tag_key = j })
      kept public old = elim (Bool-cases (key == k)) [
        | inl same ↦ let e : key ≡ k = ground arith in cc (n.absent, ap (lookup H r) e)
        | inr other ↦ ground (arith, n.finds k)
      ]

      only :
          (i : ℕ) (f : TagTableEntry)
          → f.tag_key ≡ j
          → ((key ≢ ipc_private) × (i ≡ key) × (f ≡ record { key = key; tag_key = d }))
            ⊎ (lookup H r i ≡ some f)
          → i ≡ k
      only i f at (inl (p, q, new)) =
          let dj : d ≡ j = sym (ap (λ (x : TagTableEntry). x.tag_key) new) ∙ at in
          cc (n.free, o.used, ap (taken r.bitmask) dj)
      only i f at (inr old) = o.only i f old at

  pub Created-IsLinked :
      (c : GetCall) (s s' : System Table) (key d : ℕ) (permission : ℤ)
      → IsLinked H s
      → Created H c s s' key d permission
      → IsLinked H s'
  Created-IsLinked c s s' key d permission v n = record {
    consistent = Reserved-IsConsistent H s.registry s'.registry key d v.consistent n.reserved;
    sized = record {
      tags = ap length n.tags ∙ length-set s.services.tags d _ ∙ v.sized.tags;
      readers = ap length n.readers ∙ v.sized.readers;
    };
    placed = λ j t h. placed j t h (tag_at-Created c s s' key d j permission v.sized n);
    owned = λ j t h. owned j t h (tag_at-Created c s s' key d j permission v.sized n);
  }
    where
      placed :
          (j : ℕ) (t : Tag)
          → tag_at s'.services j ≡ some t
          → tag_at s'.services j
            ≡ (if d == j then some (new_tag key d permission c.euid n.ps) else tag_at s.services j)
          → t.tag_key ≡ j
      placed j t h at = elim (Bool-cases (d == j)) [
        | inl same ↦ ground arith
        | inr other ↦ v.placed j t (ground arith)
      ]

      owned :
          (j : ℕ) (t : Tag)
          → tag_at s'.services j ≡ some t
          → tag_at s'.services j
            ≡ (if d == j then some (new_tag key d permission c.euid n.ps) else tag_at s.services j)
          → Owns H s'.registry t.key j
      owned j t h at = elim (Bool-cases (d == j)) [
        | inl same ↦
            let dj : d ≡ j = ground arith in
            let kt : key ≡ t.key = ground arith in
            subst (λ x. Owns H s'.registry x j) kt
              (subst (Owns H s'.registry key) dj
                (Reserved-Owns H s.registry s'.registry key d v.consistent n.reserved))
        | inr other ↦
            Owns-Reserved s.registry s'.registry key d t.key j v.consistent n.reserved
              (v.owned j t (ground arith))
      ]

  -- A successful `TAG_CREAT` keeps the tags and the registry in step.
  pub tag_get_creat-IsLinked :
      (c : GetCall) (s s' : System Table) (key d : ℕ) (permission : ℤ)
      → IsLinked H s
      → tag_get H c s (pos key) tag_creat permission ≡ (s', pos d)
      → IsLinked H s'
  tag_get_creat-IsLinked c s s' key d permission v e =
      Created-IsLinked c s s' key d permission v
        (creat-Created H c s s' key d permission v.consistent e)

  after_reserve_busy :
      (c : GetCall) (s : System Table) (key : ℕ) (permission : ℤ) (o : Registry Table × ℤ)
      → o.1 ≡ ebusy
      → (after_reserve H c s key permission o).1 ≡ ebusy
  unfolding after_reserve
  after_reserve_busy c s key permission (r, negsuc n) e = e
  after_reserve_busy c s key permission (r, pos d) e = cc

  create_code :
      (c : GetCall) (s : System Table) (key : ℕ) (permission : ℤ)
      → (permission ≡ tag_perm_usr) ⊎ (permission ≡ tag_perm_all)
      → c.lock_ok ≡ true
      → (reserve H c.grow_ok s.registry key).1 ≡ ebusy
      → (create H c s key permission).1 ≡ ebusy
  unfolding create
  create_code c s key permission p ok e =
      if-elim (λ (o : System Table × ℤ). o.1 ≡ ebusy)
        (not (permission ==ℤ tag_perm_usr || permission ==ℤ tag_perm_all))
        (λ unknown. absurd (ground arith))
        (λ _.
          if-elim (λ (o : System Table × ℤ). o.1 ≡ ebusy) (not c.lock_ok) (λ no_lock. ground arith)
            (λ _. after_reserve_busy c s key permission _ e))

  -- A key that is not private can be opened right after its creation, by anybody whose wait for the
  -- lock is not interrupted: the answer is the descriptor, and nothing changes.
  pub open_after_creat :
      (c c' : GetCall) (s s' : System Table) (key d : ℕ) (permission permission' : ℤ)
      → IsConsistent H s.registry
      → IsSized s.services
      → key ≢ ipc_private
      → c'.lock_ok ≡ true
      → tag_get H c s (pos key) tag_creat permission ≡ (s', pos d)
      → tag_get H c' s' (pos key) tag_open permission' ≡ (s', pos d)
  unfolding tag_get open_tag
  open_after_creat c c' s s' key d permission permission' k z public ok e =
      if-elim (λ o. o ≡ (s', pos d)) (key == ipc_private) (λ p. absurd (public (ground arith)))
        (λ _.
          if-elim (λ o. o ≡ (s', pos d)) (not c'.lock_ok) (λ no_lock. ground arith)
            (λ _. rw (found, there)))
    where
      n : Created H c s s' key d permission
      n = creat-Created H c s s' key d permission k e

      found : lookup H s'.registry key ≡ some (record { key = key; tag_key = d })
      found = ground (arith, n.reserved.finds key)

      there : tag_at s'.services d ≡ some (new_tag key d permission c.euid n.ps)
      there = tag_at-Created c s s' key d d permission z n ∙ ground arith

  abbrev pub Opened : System Table → ℕ → System Table × ℤ → Type 0
  Opened s key (s', pos d) = (s' ≡ s) × ((t : Tag) × (tag_at s.services d ≡ some t) × (t.key ≡ key))
  Opened s key (s', negsuc n) = s' ≡ s

  pub open_tag-Opened :
      (c : GetCall) (s : System Table) (key : ℕ) → IsLinked H s → Opened s key (open_tag H c s key)
  unfolding open_tag
  open_tag-Opened c s key v =
      if-elim (Opened s key) (key == ipc_private) (λ _. refl)
        (λ _.
          if-elim (Opened s key) (not c.lock_ok) (λ _. refl)
            (λ _. elim (Option-cases (lookup H s.registry key)) [
              | inl absent ↦ rw absent refl
              | inr (f, found) ↦
                  rw found (entry f found (Option-cases (tag_at s.services f.tag_key)))
            ]))
    where
      entry :
          (f : TagTableEntry)
          → lookup H s.registry key ≡ some f
          → (tag_at s.services f.tag_key ≡ none)
            ⊎ ((t : Tag) × (tag_at s.services f.tag_key ≡ some t))
          → Opened s key (elim (tag_at s.services f.tag_key) [
            | none ↦ (s, enodata)
            | some t ↦ (s, pos f.tag_key)
          ])
      entry f found (inl gone) = rw gone refl
      entry f found (inr (t, there)) =
          rw there (refl, (t, there, sym ((v.owned f.tag_key t there).only key f found refl)))

  -- A descriptor that `TAG_OPEN` returns holds a tag with that key, and nothing has changed.
  pub tag_get_open_success :
      (c : GetCall) (s s' : System Table) (key d : ℕ) (permission : ℤ)
      → IsLinked H s
      → tag_get H c s (pos key) tag_open permission ≡ (s', pos d)
      → (s' ≡ s) × ((t : Tag) × (tag_at s.services d ≡ some t) × (t.key ≡ key))
  unfolding tag_get
  tag_get_open_success c s s' key d permission v e =
      subst (Opened s key) e (open_tag-Opened c s key v)

  -- A second `TAG_CREAT` with the key of a tag is refused with -EBUSY, while fewer than `MAX_TAGS`
  -- keys are filed, some descriptor is free, the permission is one of the two and the wait for the
  -- lock is not interrupted.
  pub tag_get_creat_twice :
      (c c' : GetCall) (s s' : System Table) (key d m : ℕ) (permission : ℤ)
      → IsLinked H s
      → key ≢ ipc_private
      → c'.lock_ok ≡ true
      → hashmap_count s'.registry.table < max_tags
      → m < max_tags
      → taken s'.registry.bitmask m ≡ false
      → tag_get H c s (pos key) tag_creat permission ≡ (s', pos d)
      → (tag_get H c' s' (pos key) tag_creat permission).1 ≡ ebusy
  unfolding tag_get
  tag_get_creat_twice c c' s s' key d m permission v public ok few lt free e =
      create_code c' s' key permission n.permitted ok (
        reserve_busy H c'.grow_ok s'.registry key m (record { key = key; tag_key = d }) k few lt
          free found)
    where
      n : Created H c s s' key d permission
      n = creat-Created H c s s' key d permission v.consistent e

      k : IsConsistent H s'.registry
      k = Reserved-IsConsistent H s.registry s'.registry key d v.consistent n.reserved

      found : lookup H s'.registry key ≡ some (record { key = key; tag_key = d })
      found = ground (arith, n.reserved.finds key)
