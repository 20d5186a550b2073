-- ===== src/Send/Publish.antt =====
-- The branches of `tag_send`, by the return code.
use tag_aos.Base.{
  ℕ, zero, suc, ◌≡◌, ◌≢◌, refl, ap, inl, inr, ◌⊎◌, ◌==◌, arith, true, false, not, Option, none,
  some, List, [], ◌∷◌, ◌++◌, ℤ, pos, negsuc, ltb, if◌then◌else◌, if-elim, Option-cases, take, drop,
}
use tag_aos.Tag.{max_tags, levels_count, buffer_size, einval, efault}
use tag_aos.Level.{TagLevel, cell}
use tag_aos.Level.Build.{pointer}
use tag_aos.Service.{Tag, Services, Done, returned, tag_at, set_level, denied, index}
use tag_aos.Send.{
  SendCall, publish, send_level, send_tag, send_checked, tag_send, message_of, size_of,
}

-- The level object that a tag and a level lead to.
pub record Reaches (s : Services) (d i a : ℕ) (t : Tag) (l : TagLevel) : Type 0 where
  pub tag : tag_at s d ≡ some t
  pub points : pointer t.tag_level i ≡ some a
  pub alive : cell s.levels a ≡ some l

-- The level with the message in it.
abbrev pub with_message : TagLevel → List ℕ → ℕ → TagLevel
with_message l message size = record l {
  buffer = if ltb 0 size then take size message ++ drop size l.buffer else l.buffer;
  size = size;
  ready = true;
}

-- The services `s'` are `s` with the message published on a level that was waiting for one.
pub record Published (c : SendCall) (s : Services) (d i : ℕ) (message : List ℕ) (size : ℕ)
    (o : Done Services) : Type 0 where
  pub a : ℕ
  pub t : Tag
  pub l : TagLevel
  pub reaches : Reaches s d i a t l
  pub allowed : denied t c.euid ≡ false
  pub waited : l.waiting ≢ 0
  pub was_free : l.ready ≡ false
  pub state : o.state ≡ set_level s a (with_message l message size)
  pub woken : o.woken ≡ a ∷ []

-- A copy that failed has spoiled the buffer of a level that has no message.
pub record Spoiled (s : Services) (d i : ℕ) (o : Done Services) : Type 0 where
  pub a : ℕ
  pub t : Tag
  pub l : TagLevel
  pub reaches : Reaches s d i a t l
  pub was_free : l.ready ≡ false
  pub junk : List ℕ
  pub state : o.state ≡ set_level s a (record l { buffer = junk })
  pub code : o.code ≡ efault

abbrev pub Kept : Services → Done Services → Type 0
Kept s o = (o.state ≡ s) × (o.woken ≡ [])

module _ (c : SendCall) (s : Services) (d i : ℕ) (message : List ℕ) (size : ℕ) where
  abbrev pub ByCode : ℤ → Done Services → Type 0
  ByCode (pos zero) o = Kept s o
  ByCode (pos (suc zero)) o = Published c s d i message size o
  ByCode (pos (suc (suc n))) o = ⊥
  ByCode (negsuc n) o = Kept s o ⊎ Spoiled s d i o

  abbrev pub OfLevel : Done Services → Type 0
  OfLevel o = ByCode o.code o

  abbrev pub Outcome : Option (Done Services) → Type 0
  Outcome none =
      (a : ℕ) × (t : Tag) × (tag_at s d ≡ some t)
      × (pointer t.tag_level i ≡ some a)
      × (cell s.levels a ≡ none)
  Outcome (some o) = OfLevel o

  module _ (a : ℕ) (t : Tag) (l : TagLevel) (r : Reaches s d i a t l)
      (allowed : denied t c.euid ≡ false) where
    publish-OfLevel :
        (buffer : List ℕ)
        → l.ready ≡ false
        → l.waiting ≢ 0
        → buffer ≡ (if ltb 0 size then take size message ++ drop size l.buffer else l.buffer)
        → OfLevel (publish s a l buffer size)
    unfolding publish
    publish-OfLevel buffer free waited e = record {
      a = a;
      t = t;
      l = l;
      reaches = r;
      allowed = allowed;
      waited = waited;
      was_free = free;
      state = ap (λ b. set_level s a (record l { buffer = b; size = size; ready = true })) e;
      woken = refl;
    }

    copied-OfLevel :
        (copy : Option (List ℕ))
        → l.ready ≡ false
        → l.waiting ≢ 0
        → ltb 0 size ≡ true
        → OfLevel (elim copy [
          | some spoiled ↦ returned (set_level s a (record l { buffer = spoiled })) efault
          | none ↦ publish s a l (take size message ++ drop size l.buffer) size
        ])
    copied-OfLevel none free waited some_bytes =
        publish-OfLevel (take size message ++ drop size l.buffer) free waited (rw some_bytes refl)
    copied-OfLevel (some spoiled) free waited some_bytes = inr (record {
      a = a;
      t = t;
      l = l;
      reaches = r;
      was_free = free;
      junk = spoiled;
      state = refl;
      code = refl;
    })

    send_level-OfLevel : OfLevel (send_level c s a l message size)
    unfolding send_level
    send_level-OfLevel =
        if-elim OfLevel (not c.rcu_ok) (λ _. inl (refl, refl))
          (λ _.
            if-elim OfLevel (not c.mutex_free) (λ _. (refl, refl))
              (λ _.
                if-elim OfLevel l.ready (λ _. (refl, refl))
                  (λ free.
                    if-elim OfLevel (l.waiting == 0) (λ _. (refl, refl))
                      (λ waited.
                        if-elim OfLevel (ltb 0 size)
                          (λ bytes. copied-OfLevel c.copy free (ground arith) bytes)
                          (λ no_bytes.
                            publish-OfLevel l.buffer free (ground arith) (rw no_bytes refl))))))

  send_tag-Outcome : (t : Tag) → tag_at s d ≡ some t → Outcome (send_tag c s t i message size)
  unfolding send_tag
  send_tag-Outcome t there =
      if-elim Outcome (denied t c.euid) (λ _. inl (refl, refl))
        (λ allowed.
          if-elim Outcome (t.waiting == 0) (λ _. (refl, refl))
            (λ _.
              if-elim Outcome (not c.level_lock_ok) (λ _. inl (refl, refl))
                (λ _. elim (Option-cases (pointer t.tag_level i)) [
                  | inl no_level ↦ rw no_level (inl (refl, refl))
                  | inr (a, points) ↦ rw points (at_level a points allowed)
                ])))
    where
      at_level :
          (a : ℕ)
          → pointer t.tag_level i ≡ some a
          → denied t c.euid ≡ false
          → Outcome (elim (cell s.levels a) [
            | none ↦ none
            | some l ↦ some (send_level c s a l message size)
          ])
      at_level a points allowed = elim (Option-cases (cell s.levels a)) [
        | inl dead ↦ rw dead (a, t, there, points, dead)
        | inr (l, alive) ↦ rw alive (
            send_level-OfLevel a t l (record { tag = there; points = points; alive = alive })
              allowed)
      ]

  send_checked-Outcome : Outcome (send_checked c s d i message size)
  unfolding send_checked
  send_checked-Outcome =
      if-elim Outcome (not c.lock_ok) (λ _. inl (refl, refl))
        (λ _. elim (Option-cases (tag_at s d)) [
          | inl absent ↦ rw absent (inl (refl, refl))
          | inr (t, there) ↦ rw there (send_tag-Outcome t there)
        ])

module _ (c : SendCall) (s : Services) (d i : ℕ) (buffer : Option (List ℕ)) (size : ℕ) where
  abbrev pub Sends : Option (Done Services) → Type 0
  Sends = Outcome c s d i (message_of buffer) (size_of buffer size)

  abbrev in_range : (d i : ℕ) → Option (Done Services)
  in_range d i =
      if ltb buffer_size size
      then some (returned s einval)
      else send_checked c s d i (message_of buffer) (size_of buffer size)

  pub tag_send-Outcome : Sends (tag_send c s (pos d) (pos i) buffer size)
  unfolding tag_send index
  tag_send-Outcome =
      if-elim
        (λ (x : Option ℕ). Sends (elim x [
          | none ↦ some (returned s einval)
          | some d ↦ elim (index (pos i) levels_count) [
            | none ↦ some (returned s einval)
            | some i ↦ in_range d i
          ]
        ]))
        (ltb d max_tags)
        (λ _.
          if-elim
            (λ (x : Option ℕ).
              Sends (elim x [ none ↦ some (returned s einval) | some i ↦ in_range d i ]))
            (ltb i levels_count)
            (λ _.
              if-elim Sends (ltb buffer_size size) (λ _. inl (refl, refl))
                (λ _. send_checked-Outcome c s d i (message_of buffer) (size_of buffer size)))
            (λ _. inl (refl, refl)))
        (λ _. inl (refl, refl))
