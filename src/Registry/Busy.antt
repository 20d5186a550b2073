-- ===== src/Registry/Busy.antt =====
-- The error codes of the reservation in `tag_get`.
use tag_aos.Base.{
  ℕ, ◌≤◌, ◌<◌, ◌≡◌, ◌≢◌, refl, ap, ◌==◌, arith, Bool, true, false, some, ℤ, pos, negsuc, leb,
  if-elim,
}
use tag_aos.Bitmask.{Bitmask, taken, get_avail_number}
use tag_aos.Bitmask.Avail.{get_avail_number-Got, get_avail_number_total}
use tag_aos.Hashmap.{Hashmap}
use tag_aos.Tag.{TagTableEntry, tag_compare, max_tags, ipc_private, eproto, ebusy}
use tag_aos.Registry.{Registry, lookup, reserve_number, reserve, IsConsistent}
use tag_aos.Registry.Reserve.{d_inside, insert_key-busy}

module _ (H : Hashmap tag_compare) where
  open H use {Table, hashmap_count, hashmap_oom, hashmap_get, hashmap_set}

  number_busy :
      (grow_ok : Bool) (r : Registry Table) (key d : ℕ) (b : Bitmask) (f : TagTableEntry)
      → IsConsistent H r
      → get_avail_number r.bitmask ≡ (b, pos d)
      → key ≢ ipc_private
      → lookup H r key ≡ some f
      → (reserve_number H grow_ok r key (b, pos d)).1 ≡ ebusy
  unfolding reserve_number
  number_busy grow_ok r key d b f c e public found =
      let lt = d_inside H grow_ok r key d b c e in
      if-elim (λ (o : Registry Table × ℤ). o.1 ≡ ebusy) (leb max_tags d)
        (λ past. absurd (ground arith))
        (λ _.
          if-elim (λ (o : Registry Table × ℤ). o.1 ≡ ebusy) (key == ipc_private)
            (λ z. absurd (public (ground arith)))
            (λ _. ap (λ o. o.1) (insert_key-busy H grow_ok r key d b c e found)))

  reserve_number-none :
      (grow_ok : Bool) (r : Registry Table) (key n : ℕ) (b : Bitmask)
      → (reserve_number H grow_ok r key (b, negsuc n)).1 ≡ eproto
  unfolding reserve_number
  reserve_number-none grow_ok r key n b = refl

  -- While fewer than `MAX_TAGS` keys are filed and some descriptor is free, a key that is filed
  -- already is refused with -EBUSY.
  pub reserve_busy :
      (grow_ok : Bool) (r : Registry Table) (key m : ℕ) (f : TagTableEntry)
      → IsConsistent H r
      → hashmap_count r.table < max_tags
      → m < max_tags
      → taken r.bitmask m ≡ false
      → lookup H r key ≡ some f
      → (reserve H grow_ok r key).1 ≡ ebusy
  unfolding reserve
  reserve_busy grow_ok r key m f c few lt free found =
      if-elim (λ (o : Registry Table × ℤ). o.1 ≡ ebusy) (leb max_tags (hashmap_count r.table))
        (λ many. absurd (ground arith)) (λ _. busy (get_avail_number r.bitmask) refl)
    where
      number : (n : ℕ) × ((get_avail_number r.bitmask).1 ≡ pos n) × (n ≤ m)
      number = get_avail_number_total r.bitmask m c.valid (omega (arith, c.bits)) free

      public : key ≢ ipc_private
      public z = cc (found, c.private, ap (lookup H r) z)

      busy :
          (o : Bitmask × ℤ)
          → get_avail_number r.bitmask ≡ o
          → (reserve_number H grow_ok r key o).1 ≡ ebusy
      busy (b, negsuc n) e = cc (number.1, ap (λ p. p.1) e)
      busy (b, pos d) e = number_busy grow_ok r key d b f c e public found

  -- With every descriptor taken the answer is -EPROTO, not -EMAXTAG, as long as fewer than
  -- `MAX_TAGS` keys are filed: tags with a private key are not counted.
  pub reserve_exhausted :
      (grow_ok : Bool) (r : Registry Table) (key : ℕ)
      → IsConsistent H r
      → hashmap_count r.table < max_tags
      → ((m : ℕ) → m < max_tags → taken r.bitmask m ≡ true)
      → (reserve H grow_ok r key).1 ≡ eproto
  unfolding reserve
  reserve_exhausted grow_ok r key c few all =
      if-elim (λ (o : Registry Table × ℤ). o.1 ≡ eproto) (leb max_tags (hashmap_count r.table))
        (λ many. absurd (ground arith)) (λ _. exhausted (get_avail_number r.bitmask) refl)
    where
      exhausted :
          (o : Bitmask × ℤ)
          → get_avail_number r.bitmask ≡ o
          → (reserve_number H grow_ok r key o).1 ≡ eproto
      exhausted (b, negsuc n) e = reserve_number-none grow_ok r key n b
      exhausted (b, pos d) e =
          let g = get_avail_number-Got r.bitmask b d c.valid e in
          let used = all d (omega (arith, g.inside, c.bits)) in let free = g.free in cc
