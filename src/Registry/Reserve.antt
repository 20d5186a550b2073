-- ===== src/Registry/Reserve.antt =====
-- The reservation of a descriptor in `tag_get`, a critical section of tag-module/tag-syscall.c: its two
-- ends, by the number that it returns.
use tag_aos.Base.{
  ℕ, ◌<◌, ◌≡◌, refl, sym, ap, ◌∙◌, inl, inr, ◌==◌, ==_iff, arith, Bool, true, false, none, some, ℤ,
  pos, negsuc, leb, if◌then◌else◌, Bool-cases, Option-cases,
}
use mathlib.Core.Path.{subst}
use tag_aos.Bitmask.{Bitmask, IsValid, taken, get_avail_number, clear_number}
use tag_aos.Bitmask.Avail.{
  Got, get_avail_number-Got, get_avail_number_fresh, get_avail_number_full, get_avail_number_n_bits,
}
use tag_aos.Bitmask.Clear.{clear-get_avail_number}
use tag_aos.Hashmap.{Hashmap}
use tag_aos.Tag.{
  TagTableEntry, tag_compare, same-tag_compare, key_item, max_tags, ipc_private, ebusy, enomem,
}
use tag_aos.Registry.{Registry, lookup, insert_key, reserve_number, reserve, IsConsistent}

module _ (H : Hashmap tag_compare) where
  open H use {Table, hashmap_count, hashmap_oom, hashmap_get, hashmap_set}

  -- The registry `r'` is `r` with descriptor `d` reserved for `key`.
  pub record Reserved (r r' : Registry Table) (key d : ℕ) : Type 0 where
    pub number : get_avail_number r.bitmask ≡ (r'.bitmask, pos d)
    pub inside : d < max_tags
    pub free : taken r.bitmask d ≡ false
    pub absent : lookup H r key ≡ none
    pub marks : (m : ℕ) → taken r'.bitmask m ≡ (if d == m then true else taken r.bitmask m)
    pub finds :
        (j : ℕ)
        → lookup H r' j ≡ (
            if key == ipc_private
            then lookup H r j
            else if key == j
            then some (record { key = key; tag_key = d })
            else lookup H r j)
    pub valid : IsValid r'.bitmask
    pub bits : r'.bitmask.n_bits ≡ max_tags

  -- The registry `r'` holds what `r` does.
  pub record Unchanged (r r' : Registry Table) : Type 0 where
    pub bitmask : r'.bitmask ≡ r.bitmask
    pub finds : (j : ℕ) → lookup H r' j ≡ lookup H r j
    pub count : hashmap_count r'.table ≡ hashmap_count r.table

  abbrev pub Outcome : Registry Table → ℕ → Registry Table × ℤ → Type 0
  Outcome r key (r', pos d) = Reserved r r' key d
  Outcome r key (r', negsuc n) = Unchanged r r'

  module _ (grow_ok : Bool) (r : Registry Table) (key d : ℕ) (b : Bitmask) (c : IsConsistent H r)
      (e : get_avail_number r.bitmask ≡ (b, pos d)) where
    number : Got r.bitmask b d
    number = get_avail_number-Got r.bitmask b d c.valid e

    pub d_inside : d < max_tags
    d_inside = omega (arith, number.inside, c.bits)

    undone : (clear_number b d).0 ≡ r.bitmask
    undone = ap (λ p. p.0) (clear-get_avail_number r.bitmask b d c.valid e)

    marked : (m : ℕ) → taken b m ≡ (if d == m then true else taken r.bitmask m)
    marked m = (get_avail_number_fresh r.bitmask b d m c.valid e).2

    bits : b.n_bits ≡ max_tags
    bits = get_avail_number_n_bits r.bitmask b d c.valid e ∙ c.bits

    still-IsValid : IsValid b
    still-IsValid = (get_avail_number_fresh r.bitmask b d d c.valid e).3

    abbrev item : TagTableEntry
    item = record { key = key; tag_key = d }

    inserted :
        lookup H r key ≡ none
        → (key == ipc_private) ≡ false
        → hashmap_oom (hashmap_set grow_ok r.table item).0 ≡ false
        → Reserved r (record { table = (hashmap_set grow_ok r.table item).0; bitmask = b }) key d
    inserted absent public fits = record {
      number = e;
      inside = d_inside;
      free = number.free;
      absent = absent;
      marks = marked;
      finds = λ j. rw public (
          H.get-set grow_ok r.table item (key_item j) fits
          ∙ ap (λ t. if t then some item else lookup H r j) (same-tag_compare item (key_item j)));
      valid = still-IsValid;
      bits = bits;
    }

    not_inserted :
        hashmap_oom (hashmap_set grow_ok r.table item).0 ≡ true
        → Unchanged r (record {
          table = (hashmap_set grow_ok r.table item).0;
          bitmask = (clear_number b d).0;
        })
    not_inserted oom = record {
      bitmask = undone;
      finds = λ j. H.get-set_oom grow_ok r.table item (key_item j) oom;
      count = H.count-set_oom grow_ok r.table item oom;
    }

    entry_absent : lookup H r key ≡ none → hashmap_get r.table item ≡ none
    entry_absent absent =
        H.get-same r.table item (key_item key)
          (same-tag_compare item (key_item key) ∙ (==_iff key key).1 refl)
        ∙ absent

    pub insert_key-busy :
        {f : TagTableEntry}
        → lookup H r key ≡ some f
        → insert_key H grow_ok (record r { bitmask = b }) key d
          ≡ (record r { bitmask = (clear_number b d).0 }, ebusy)
    unfolding insert_key
    insert_key-busy old = rw old

    insert_key-oom :
        lookup H r key ≡ none
        → hashmap_oom (hashmap_set grow_ok r.table item).0 ≡ true
        → insert_key H grow_ok (record r { bitmask = b }) key d ≡ (
          record { table = (hashmap_set grow_ok r.table item).0; bitmask = (clear_number b d).0 },
          enomem,
        )
    unfolding insert_key
    insert_key-oom absent oom = rw (absent, H.set_oom-result grow_ok r.table item oom, oom)

    insert_key-fits :
        lookup H r key ≡ none
        → hashmap_oom (hashmap_set grow_ok r.table item).0 ≡ false
        → insert_key H grow_ok (record r { bitmask = b }) key d
          ≡ (record { table = (hashmap_set grow_ok r.table item).0; bitmask = b }, pos d)
    unfolding insert_key
    insert_key-fits absent fits =
        rw (absent, H.set-result grow_ok r.table item fits, entry_absent absent, fits)

    insert_key-Outcome :
        (key == ipc_private) ≡ false
        → Outcome r key (insert_key H grow_ok (record r { bitmask = b }) key d)
    insert_key-Outcome public = elim (Option-cases (lookup H r key)) [
      | inr (f, old) ↦
          subst (Outcome r key) (sym (insert_key-busy old))
            (record { bitmask = undone; finds = λ j. refl; count = refl })
      | inl absent ↦ elim (Bool-cases (hashmap_oom (hashmap_set grow_ok r.table item).0)) [
        | inl oom ↦ subst (Outcome r key) (sym (insert_key-oom absent oom)) (not_inserted oom)
        | inr fits ↦
            subst (Outcome r key) (sym (insert_key-fits absent fits)) (inserted absent public fits)
      ]
    ]

    with_private : key ≡ ipc_private → Reserved r (record r { bitmask = b }) key d
    with_private z = record {
      number = e;
      inside = d_inside;
      free = number.free;
      absent = rw z c.private;
      marks = marked;
      finds = λ j. rw z refl;
      valid = still-IsValid;
      bits = bits;
    }

    some_number : Outcome r key (reserve_number H grow_ok r key (b, pos d))
    unfolding reserve_number
    some_number = rw (not_past) (elim (Bool-cases (key == ipc_private)) [
      | inl z ↦ rw z (with_private ((==_iff key ipc_private).0 z))
      | inr public ↦ rw public (insert_key-Outcome public)
    ])
      where
        not_past : leb max_tags d ≡ false
        not_past = ground (arith, d_inside)

  no_number :
      (grow_ok : Bool) (r : Registry Table) (key n : ℕ) (b : Bitmask)
      → IsConsistent H r
      → get_avail_number r.bitmask ≡ (b, negsuc n)
      → Outcome r key (reserve_number H grow_ok r key (b, negsuc n))
  unfolding reserve_number
  no_number grow_ok r key n b c e = record {
    bitmask = (get_avail_number_full r.bitmask b n 0 c.valid e (omega (arith, c.bits))).0;
    finds = λ j. refl;
    count = refl;
  }

  by_number :
      (grow_ok : Bool) (r : Registry Table) (key : ℕ) (found : Bitmask × ℤ)
      → IsConsistent H r
      → get_avail_number r.bitmask ≡ found
      → Outcome r key (reserve_number H grow_ok r key found)
  by_number grow_ok r key (b, pos d) c e = some_number grow_ok r key d b c e
  by_number grow_ok r key (b, negsuc n) c e = no_number grow_ok r key n b c e

  pub reserve-Outcome :
      (grow_ok : Bool) (r : Registry Table) (key : ℕ)
      → IsConsistent H r
      → Outcome r key (reserve H grow_ok r key)
  unfolding reserve
  reserve-Outcome grow_ok r key c = elim (Bool-cases (leb max_tags (hashmap_count r.table))) [
    | inl many ↦ rw many (record { bitmask = refl; finds = λ j. refl; count = refl })
    | inr few ↦ rw few (by_number grow_ok r key (get_avail_number r.bitmask) c refl)
  ]

  pub reserve-Reserved :
      (grow_ok : Bool) (r r' : Registry Table) (key d : ℕ)
      → IsConsistent H r
      → reserve H grow_ok r key ≡ (r', pos d)
      → Reserved r r' key d
  reserve-Reserved grow_ok r r' key d c e =
      subst (Outcome r key) e (reserve-Outcome grow_ok r key c)

  -- A successful reservation, with or without a key: the descriptor is below `MAX_TAGS` and was
  -- free, no entry had the key, and afterwards the descriptor is taken, the key, unless it is
  -- private, leads to the descriptor, and every other key and descriptor is as before.
  pub reserve_success :
      (grow_ok : Bool) (r r' : Registry Table) (key d j m : ℕ)
      → IsConsistent H r
      → reserve H grow_ok r key ≡ (r', pos d)
      → (d < max_tags)
        × (taken r.bitmask d ≡ false)
        × (lookup H r key ≡ none)
        × (taken r'.bitmask m ≡ (if d == m then true else taken r.bitmask m))
        × (lookup H r' j ≡ (
            if key == ipc_private
            then lookup H r j
            else if key == j
            then some (record { key = key; tag_key = d })
            else lookup H r j))
  reserve_success grow_ok r r' key d j m c e =
      let s = reserve-Reserved grow_ok r r' key d c e in
      (s.inside, s.free, s.absent, s.marks m, s.finds j)

  -- A failed reservation has no effect: every word of the bitmask is as before, each key leads
  -- where it led, and the number of entries is the same.
  pub reserve_failure :
      (grow_ok : Bool) (r r' : Registry Table) (key n j : ℕ)
      → IsConsistent H r
      → reserve H grow_ok r key ≡ (r', negsuc n)
      → (r'.bitmask ≡ r.bitmask)
        × (lookup H r' j ≡ lookup H r j)
        × (hashmap_count r'.table ≡ hashmap_count r.table)
  reserve_failure grow_ok r r' key n j c e =
      let u : Unchanged r r' = subst (Outcome r key) e (reserve-Outcome grow_ok r key c) in
      (u.bitmask, u.finds j, u.count)

  pub reserve-Unchanged :
      (grow_ok : Bool) (r r' : Registry Table) (key n : ℕ)
      → IsConsistent H r
      → reserve H grow_ok r key ≡ (r', negsuc n)
      → Unchanged r r'
  reserve-Unchanged grow_ok r r' key n c e =
      subst (Outcome r key) e (reserve-Outcome grow_ok r key c)
