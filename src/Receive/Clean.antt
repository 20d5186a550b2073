-- ===== src/Receive/Clean.antt =====
-- The end of `tag_receive` for the last receiver of a level.
use tag_aos.Base.{
  ℕ, ◌<◌, ◌≡◌, refl, inl, inr, arith, false, none, some, List, ◌==◌, ℤ, if◌then◌else◌, Bool-cases,
  ltb, set, length, get_or-set, get_or-set_same,
}
use tag_aos.Level.{TagLevel, Heap, cell, free_level}
use tag_aos.Level.Build.{pointer, get_or-past}
use tag_aos.Service.{Tag, Services, tag_at, set_tag, set_level}
use tag_aos.Receive.{Receiver, done, drop_waiting, release_tag, leave, receive_clean}

pub alive-inside : (h : Heap) (a : ℕ) (l : TagLevel) → cell h a ≡ some l → a < length h
alive-inside h a l e = elim (Bool-cases (ltb a (length h))) [
  | inl inside ↦ ground (arith, inside)
  | inr outside ↦ absurd (cc (e, get_or-past h none a (ground (arith, outside))))
]

module _ (s : Services) (r : Receiver) (t : Tag) (l newest : TagLevel) (b : ℕ)
    (there : tag_at s r.tag ≡ some t) (alive : cell s.levels r.address ≡ some l)
    (points : pointer t.tag_level r.level ≡ some b) (current : cell s.levels b ≡ some newest) where
  -- The last receiver frees a level whose pointer leads to a newer epoch by now, and makes any other
  -- ready for the next message, with its buffer kept. The other levels stay, the tag counts one
  -- receiver less, and the receiver returns the code and the message it had.
  pub receive_clean_result :
      (code : ℤ) (message : List ℕ)
      → (s' : Services) × (receive_clean s r code message ≡ some (s', done code message))
        × (tag_at s' r.tag ≡ some (drop_waiting t))
        × ((x : ℕ)
            → cell s'.levels x ≡ (
                if r.address == x
                then if ltb l.epoch newest.epoch
                  then none
                  else some (record l { ready = false; size = 0 })
                else cell s.levels x))
  unfolding receive_clean leave free_level
  receive_clean_result code message = elim (Bool-cases (ltb l.epoch newest.epoch)) [
    | inl old ↦ (
      behind (record s { levels = set s.levels r.address none }),
      rw (there, alive, points, current, old) (rw there refl),
      get_or-set_same s.tags r.tag t (some (drop_waiting t)) there,
      λ x.
          rw old
            (get_or-set s.levels r.address x none none (alive-inside s.levels r.address l alive)),
    )
    | inr newest_one ↦ (
      behind (set_level s r.address (record l { ready = false; size = 0 })),
      rw (there, alive, points, current, newest_one) (rw there refl),
      get_or-set_same s.tags r.tag t (some (drop_waiting t)) there,
      λ x.
          rw newest_one
            (get_or-set s.levels r.address x _ none (alive-inside s.levels r.address l alive)),
    )
  ]
    where
      behind : Services → Services
      behind s = release_tag (set_tag s r.tag (some (drop_waiting t))) r.tag
