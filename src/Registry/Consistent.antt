-- ===== src/Registry/Consistent.antt =====
-- The reservation in `tag_get` and the consistency of the registry.
use tag_aos.Base.{
  ℕ, ◌<◌, ◌≡◌, ◌≢◌, sym, ap, ◌∙◌, ◌⊎◌, inl, inr, arith, Bool, true, some, ℤ, pos, negsuc,
}
use tag_aos.Bitmask.{taken}
use tag_aos.Hashmap.{Hashmap, same}
use tag_aos.Tag.{TagTableEntry, tag_compare, max_tags, ipc_private}
use tag_aos.Registry.{Registry, lookup, reserve, IsConsistent}
use tag_aos.Registry.Reserve.{Reserved, Unchanged, Outcome, reserve-Outcome}

module _ (H : Hashmap tag_compare) where
  open H use {Table, hashmap_count, hashmap_oom, hashmap_get, hashmap_set}

  Unchanged-IsConsistent :
      (r r' : Registry Table) → IsConsistent H r → Unchanged H r r' → IsConsistent H r'
  Unchanged-IsConsistent r r' c u = record {
    valid = rw u.bitmask c.valid;
    bits = rw u.bitmask c.bits;
    filed = λ k e h. c.filed k e (sym (u.finds k) ∙ h);
    private = u.finds ipc_private ∙ c.private;
    held = λ k e h. rw u.bitmask (c.held k e (sym (u.finds k) ∙ h));
    own = λ k j e f h g. c.own k j e f (sym (u.finds k) ∙ h) (sym (u.finds j) ∙ g);
  }

  -- An entry of the new registry is the new one or an old one.
  pub Reserved-cases :
      (r r' : Registry Table) (key d k : ℕ) (e : TagTableEntry)
      → Reserved H r r' key d
      → lookup H r' k ≡ some e
      → ((key ≢ ipc_private) × (k ≡ key) × (e ≡ record { key = key; tag_key = d }))
        ⊎ (lookup H r k ≡ some e)
  Reserved-cases r r' key d k e s h = ground (arith, s.finds k)

  Reserved-own :
      (r r' : Registry Table) (key d k j : ℕ) (e f : TagTableEntry)
      → IsConsistent H r
      → Reserved H r r' key d
      → lookup H r' k ≡ some e
      → lookup H r' j ≡ some f
      → e.tag_key ≡ f.tag_key
      → k ≡ j
  Reserved-own r r' key d k j e f c s h g same = elim (Reserved-cases r r' key d k e s h) [
    | inl (p, q, new) ↦ elim (Reserved-cases r r' key d j f s g) [
      | inl (p', q', new') ↦ omega arith
      | inr old' ↦ absurd (clash j f old' (sym same ∙ ap (λ (x : TagTableEntry). x.tag_key) new))
    ]
    | inr old ↦ elim (Reserved-cases r r' key d j f s g) [
      | inl (p', q', new') ↦
          absurd (clash k e old (same ∙ ap (λ (x : TagTableEntry). x.tag_key) new'))
      | inr old' ↦ c.own k j e f old old' same
    ]
  ]
    where
      clash : (i : ℕ) (x : TagTableEntry) → lookup H r i ≡ some x → x.tag_key ≡ d → ⊥
      clash i x found at =
          let now = ap (taken r.bitmask) at in
          let before = (c.held i x found).1 in let gone = s.free in cc

  pub Reserved-IsConsistent :
      (r r' : Registry Table) (key d : ℕ)
      → IsConsistent H r
      → Reserved H r r' key d
      → IsConsistent H r'
  Reserved-IsConsistent r r' key d c s = record {
    valid = s.valid;
    bits = s.bits;
    filed = λ k e h. filed k e (Reserved-cases r r' key d k e s h);
    private = ground (arith, s.finds ipc_private, c.private);
    held = λ k e h. held k e (Reserved-cases r r' key d k e s h);
    own = λ k j e f h g. Reserved-own r r' key d k j e f c s h g;
  }
    where
      filed :
          (k : ℕ) (e : TagTableEntry)
          → ((key ≢ ipc_private) × (k ≡ key) × (e ≡ record { key = key; tag_key = d }))
            ⊎ (lookup H r k ≡ some e)
          → e.key ≡ k
      filed k e (inl (p, q, new)) = ap (λ (x : TagTableEntry). x.key) new ∙ sym q
      filed k e (inr old) = c.filed k e old

      held :
          (k : ℕ) (e : TagTableEntry)
          → ((key ≢ ipc_private) × (k ≡ key) × (e ≡ record { key = key; tag_key = d }))
            ⊎ (lookup H r k ≡ some e)
          → (e.tag_key < max_tags) × (taken r'.bitmask e.tag_key ≡ true)
      held k e (inl (p, q, new)) = rw new (s.inside, ground (arith, s.marks d))
      held k e (inr old) = let h = c.held k e old in (h.0, ground (arith, s.marks e.tag_key))

  by-Outcome :
      (r : Registry Table) (key : ℕ) (o : Registry Table × ℤ)
      → IsConsistent H r
      → Outcome H r key o
      → IsConsistent H o.0
  by-Outcome r key (r', pos d) c s = Reserved-IsConsistent r r' key d c s
  by-Outcome r key (r', negsuc n) c u = Unchanged-IsConsistent r r' c u

  -- A reservation keeps the registry consistent, whatever its result.
  pub reserve-IsConsistent :
      (grow_ok : Bool) (r : Registry Table) (key : ℕ)
      → IsConsistent H r
      → IsConsistent H (reserve H grow_ok r key).0
  reserve-IsConsistent grow_ok r key c =
      by-Outcome r key (reserve H grow_ok r key) c (reserve-Outcome H grow_ok r key c)
