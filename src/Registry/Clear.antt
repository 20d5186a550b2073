-- ===== src/Registry/Clear.antt =====
-- `clear_tag_common` of tag-module/tag-syscall.c.
use tag_aos.Base.{
  ℕ, ◌<◌, ◌≡◌, ◌≢◌, refl, sym, ap, ◌∙◌, inl, inr, ◌==◌, ==_iff, arith, Bool, true, false, none,
  some, pos, if◌then◌else◌, Bool-cases, leb,
}
use tag_aos.Bitmask.{Bitmask, taken, clear_number}
use tag_aos.Bitmask.Update.{unmark, unmark-IsValid, taken-unmark, unmark_n_bits}
use tag_aos.Bitmask.Clear.{clear_number_lem, clear-get_avail_number}
use tag_aos.Hashmap.{Hashmap}
use tag_aos.Tag.{
  TagTableEntry, tag_compare, same-tag_compare, key_item, max_tags, ipc_private, eintr,
}
use tag_aos.Registry.{
  Registry, lookup, delete_key, clear_bit_of, clear_tag_common, reserve, IsConsistent,
}
use tag_aos.Registry.Reserve.{Reserved, reserve-Reserved}
use tag_aos.Registry.Consistent.{Reserved-cases}

module _ (H : Hashmap tag_compare) where
  open H use {Table, hashmap_count, hashmap_get, hashmap_set, hashmap_delete}

  -- Descriptor `d` is taken for `key`, and for no other key.
  pub record Owns (r : Registry Table) (key d : ℕ) : Type 0 where
    pub inside : d < max_tags
    pub used : taken r.bitmask d ≡ true
    pub entry : key ≢ ipc_private → lookup H r key ≡ some (record { key = key; tag_key = d })
    pub only : (j : ℕ) (f : TagTableEntry) → lookup H r j ≡ some f → f.tag_key ≡ d → j ≡ key

  -- The registry `r'` is `r` without `key` and with `d` free.
  pub record Removed (r r' : Registry Table) (key d : ℕ) : Type 0 where
    pub bitmask : r'.bitmask ≡ unmark r.bitmask d
    pub finds :
        (j : ℕ)
        → lookup H r' j
          ≡ (if key == ipc_private then lookup H r j else if key == j then none else lookup H r j)

  module _ (r : Registry Table) (key d : ℕ) where
    lookup-delete_key :
        (key ≢ ipc_private → lookup H r key ≡ some (record { key = key; tag_key = d }))
        → (j : ℕ)
        → lookup H (delete_key H r key d) j
          ≡ (if key == ipc_private then lookup H r j else if key == j then none else lookup H r j)
    unfolding delete_key
    lookup-delete_key entry j = elim (Bool-cases (key == ipc_private)) [
      | inl z ↦ rw z
      | inr public ↦
          rw (public, entry (λ z. cc ((==_iff key ipc_private).1 z)), (==_iff d d).1 refl)
            (H.get-delete r.table (key_item key) (key_item j)
              ∙ ap (λ t. if t then none else lookup H r j)
                  (same-tag_compare (key_item key) (key_item j)))
    ]

    bitmask-delete_key : (delete_key H r key d).bitmask ≡ r.bitmask
    unfolding delete_key
    bitmask-delete_key = ground arith

    clear_bit_of-cleared :
        (grow_ok : Bool) (b : Bitmask)
        → clear_number r.bitmask d ≡ (b, pos 1)
        → clear_bit_of H grow_ok r key d ≡ record r { bitmask = b }
    unfolding clear_bit_of
    clear_bit_of-cleared grow_ok b e = rw e

  -- The result of `clear_tag_common` on a descriptor that `key` owns, once the bit is known to go.
  clear_tag_common-cleared :
      (grow_ok : Bool) (r : Registry Table) (key d : ℕ) (b : Bitmask)
      → clear_number r.bitmask d ≡ (b, pos 1)
      → clear_tag_common H true grow_ok r key d
        ≡ (record (delete_key H r key d) { bitmask = b }, pos 0)
  unfolding clear_tag_common
  clear_tag_common-cleared grow_ok r key d b e =
      ap (λ q. (q, pos 0))
        (clear_bit_of-cleared (delete_key H r key d) key d grow_ok b
          (ap (λ m. clear_number m d) (bitmask-delete_key r key d) ∙ e))

  owned-clear_number :
      (r : Registry Table) (key d : ℕ)
      → IsConsistent H r
      → Owns r key d
      → clear_number r.bitmask d ≡ (unmark r.bitmask d, pos 1)
  owned-clear_number r key d c o = clear_number_lem r.bitmask d c.valid ∙ rw (not_past, o.used)
    where
      not_past : leb r.bitmask.n_bits d ≡ false
      not_past = ground (arith, c.bits, o.inside)

  Removed-IsConsistent :
      (r r' : Registry Table) (key d : ℕ)
      → IsConsistent H r
      → Owns r key d
      → Removed r r' key d
      → IsConsistent H r'
  Removed-IsConsistent r r' key d c o m = record {
    valid = rw m.bitmask (unmark-IsValid r.bitmask d c.valid);
    bits = rw m.bitmask (unmark_n_bits r.bitmask d ∙ c.bits);
    filed = λ k e h. c.filed k e (old k e h).1;
    private = ground (arith, m.finds ipc_private, c.private);
    held = λ k e h. held k e (old k e h);
    own = λ k j e f h g. c.own k j e f (old k e h).1 (old j f g).1;
  }
    where
      inside : d < r.bitmask.n_bits
      inside = ground (arith, c.bits, o.inside)

      -- an entry that is left was there before, under another key
      old :
          (k : ℕ) (e : TagTableEntry)
          → lookup H r' k ≡ some e
          → ((key ≢ ipc_private → key ≢ k)) × (lookup H r k ≡ some e)
      old k e h = ground (arith, m.finds k)

      other_descriptor :
          (k : ℕ) (e : TagTableEntry)
          → (key ≢ ipc_private → key ≢ k)
          → lookup H r k ≡ some e
          → e.tag_key ≢ d
      other_descriptor k e other found at =
          let k_key : k ≡ key = o.only k e found at in
          elim (Bool-cases (key == ipc_private)) [
            | inl z ↦
                let kz : k ≡ ipc_private = k_key ∙ (==_iff key ipc_private).0 z in
                cc (found, c.private, ap (lookup H r) kz)
            | inr public ↦ other (λ z. cc ((==_iff key ipc_private).1 z)) (sym k_key)
          ]

      held :
          (k : ℕ) (e : TagTableEntry)
          → ((key ≢ ipc_private → key ≢ k)) × (lookup H r k ≡ some e)
          → (e.tag_key < max_tags) × (taken r'.bitmask e.tag_key ≡ true)
      held k e (other, found) =
          let h = c.held k e found in
          let t =
            ap (λ b. taken b e.tag_key) m.bitmask
            ∙ taken-unmark r.bitmask d e.tag_key c.valid inside in
          (h.0, ground (arith, other_descriptor k e other found))

  -- Under the lock, a descriptor that `key` owns becomes free and the entry of `key` goes. Every
  -- other key and descriptor is as before, and the registry stays consistent.
  pub clear_tag_common_success :
      (grow_ok : Bool) (r : Registry Table) (key d j m : ℕ)
      → IsConsistent H r
      → Owns r key d
      → ((clear_tag_common H true grow_ok r key d).1 ≡ pos 0)
        × (taken (clear_tag_common H true grow_ok r key d).0.bitmask m
            ≡ (if d == m then false else taken r.bitmask m))
        × (lookup H (clear_tag_common H true grow_ok r key d).0 j ≡ (
            if key == ipc_private then lookup H r j else if key == j then none else lookup H r j))
        × IsConsistent H (clear_tag_common H true grow_ok r key d).0
  clear_tag_common_success grow_ok r key d j m c o = rw result (
    refl,
    ap (λ b. taken b m) removed.bitmask ∙ taken-unmark r.bitmask d m c.valid inside,
    removed.finds j,
    Removed-IsConsistent r _ key d c o removed,
  )
    where
      inside : d < r.bitmask.n_bits
      inside = ground (arith, c.bits, o.inside)

      result :
          clear_tag_common H true grow_ok r key d
          ≡ (record (delete_key H r key d) { bitmask = unmark r.bitmask d }, pos 0)
      result = clear_tag_common-cleared grow_ok r key d _ (owned-clear_number r key d c o)

      removed : Removed r (record (delete_key H r key d) { bitmask = unmark r.bitmask d }) key d
      removed = record { bitmask = refl; finds = λ i. lookup-delete_key r key d o.entry i }

  -- Clearing right after a reservation undoes it: every word of the bitmask is as it was before,
  -- and each key leads where it led.
  pub clear_tag_common-reserve :
      (grow_ok grow_ok' : Bool) (r r' : Registry Table) (key d j : ℕ)
      → IsConsistent H r
      → reserve H grow_ok r key ≡ (r', pos d)
      → ((clear_tag_common H true grow_ok' r' key d).1 ≡ pos 0)
        × ((clear_tag_common H true grow_ok' r' key d).0.bitmask ≡ r.bitmask)
        × (lookup H (clear_tag_common H true grow_ok' r' key d).0 j ≡ lookup H r j)
  clear_tag_common-reserve grow_ok grow_ok' r r' key d j c e =
      rw
        (clear_tag_common-cleared grow_ok' r' key d r.bitmask
          (clear-get_avail_number r.bitmask r'.bitmask d c.valid s.number))
        (refl, refl, lookup-delete_key r' key d entry j ∙ back)
    where
      s : Reserved H r r' key d
      s = reserve-Reserved H grow_ok r r' key d c e

      entry : key ≢ ipc_private → lookup H r' key ≡ some (record { key = key; tag_key = d })
      entry public = ground (arith, s.finds key)

      back :
          (if key == ipc_private then lookup H r' j else if key == j then none else lookup H r' j)
          ≡ lookup H r j
      back = elim (Bool-cases (key == j)) [
        | inl same_key ↦
            let e : key ≡ j = ground arith in ground (arith, s.finds j, s.absent, ap (lookup H r) e)
        | inr other ↦ ground (arith, s.finds j)
      ]

  -- A reserved descriptor is owned by its key.
  pub Reserved-Owns :
      (r r' : Registry Table) (key d : ℕ) → IsConsistent H r → Reserved H r r' key d → Owns r' key d
  Reserved-Owns r r' key d c s = record {
    inside = s.inside;
    used = ground (arith, s.marks d);
    entry = λ public. ground (arith, s.finds key);
    only = λ j f h at. only j f h at;
  }
    where
      only : (j : ℕ) (f : TagTableEntry) → lookup H r' j ≡ some f → f.tag_key ≡ d → j ≡ key
      only j f h at = elim (Reserved-cases H r r' key d j f s h) [
        | inl (p, q, new) ↦ q
        | inr old ↦
            let now = ap (taken r.bitmask) at in
            let before = (c.held j f old).1 in let gone = s.free in cc
      ]

  -- With the wait for the lock killed nothing is done.
  pub clear_tag_common_killed :
      (lock_ok grow_ok : Bool) (r : Registry Table) (key d : ℕ)
      → lock_ok ≡ false
      → clear_tag_common H lock_ok grow_ok r key d ≡ (r, eintr)
  unfolding clear_tag_common
  clear_tag_common_killed lock_ok grow_ok r key d e = rw e
