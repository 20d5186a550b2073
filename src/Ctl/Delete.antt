-- ===== src/Ctl/Delete.antt =====
-- `TAG_DELETE` in `tag_ctl`.
use mathlib.Core.Path.{subst}
use tag_aos.Base.{
  ℕ, zero, suc, ◌<◌, ◌≡◌, ◌≢◌, refl, sym, ap, ◌∙◌, ◌==◌, arith, false, none, some, ℤ, pos, negsuc,
  if◌then◌else◌, length, get_or, get_or-set, length-set,
}
use tag_aos.Bitmask.{taken}
use tag_aos.Hashmap.{Hashmap}
use tag_aos.Tag.{TagTableEntry, tag_compare, max_tags, ipc_private}
use tag_aos.Registry.{lookup, IsConsistent}
use tag_aos.Registry.Clear.{Owns}
use tag_aos.Level.{cell}
use tag_aos.Level.Build.{pointer, clear_tag_level_freed}
use tag_aos.Service.{Tag, System, tag_at, denied}
use tag_aos.Invariant.{IsLinked}
use tag_aos.Ctl.{CtlCall, delete}
use tag_aos.Ctl.Deleted.{Deleted, Outcome, delete-Outcome, delete-Deleted}

same_descriptor : (e f : TagTableEntry) → some e ≡ some f → e.tag_key ≡ f.tag_key
same_descriptor e f h = ground arith

module _ (H : Hashmap tag_compare) where
  open H use {Table}

  -- `TAG_DELETE` answers 1 only for a tag that the caller may use, with no thread inside it. It
  -- takes the tag out of `tags`, frees its descriptor and its key, and leaves every
  -- other tag, descriptor and key as it was.
  pub delete_success :
      (c : CtlCall) (s s' : System Table) (d j m : ℕ)
      → IsLinked H s
      → d < max_tags
      → delete H c s d ≡ (s', pos 1)
      → ((t : Tag) × (tag_at s.services d ≡ some t)
          × (denied t c.euid ≡ false)
          × (get_or s.services.readers d 0 ≡ 0)
          × (t.waiting ≡ 0)
          × (lookup H s'.registry j ≡ (
              if t.key == ipc_private
              then lookup H s.registry j
              else if t.key == j
              then none
              else lookup H s.registry j)))
        × (tag_at s'.services m ≡ (if d == m then none else tag_at s.services m))
        × (taken s'.registry.bitmask m ≡ (if d == m then false else taken s.registry.bitmask m))
        × IsConsistent H s'.registry
  delete_success c s s' d j m v lt e = (
    (x.t, x.there, x.allowed, x.idle, x.unused, x.finds j),
    ap (λ ts. get_or ts m none) x.tags
        ∙ get_or-set s.services.tags d m none none (omega (arith, v.sized.tags)),
    x.bits m,
    x.consistent,
  )
    where
      x : Deleted H c s s' d
      x = delete-Deleted H c s s' d v e

  -- It frees every level of the tag.
  pub delete_frees_levels :
      (c : CtlCall) (s s' : System Table) (d i a : ℕ) (t : Tag)
      → IsLinked H s
      → tag_at s.services d ≡ some t
      → pointer t.tag_level i ≡ some a
      → delete H c s d ≡ (s', pos 1)
      → cell s'.services.levels a ≡ none
  delete_frees_levels c s s' d i a t v there p e =
      ap (λ h. cell h a) x.levels
      ∙ clear_tag_level_freed s.services.levels x.t.tag_level i a
          (ap (λ (u : Tag). pointer u.tag_level i) same ∙ p)
    where
      x : Deleted H c s s' d
      x = delete-Deleted H c s s' d v e

      same : x.t ≡ t
      same = ground (arith, x.there)

  unchanged :
      (c : CtlCall) (s s' : System Table) (d : ℕ) (code : ℤ)
      → code ≢ pos 1
      → Outcome H c s d (s', code)
      → s' ≡ s
  unchanged c s s' d (negsuc n) ne o = o
  unchanged c s s' d (pos zero) ne o = o
  unchanged c s s' d (pos (suc zero)) ne o = absurd (ne refl)
  unchanged c s s' d (pos (suc (suc n))) ne o = absurd o

  -- If `TAG_DELETE` answers anything but 1, the system is exactly as before, also where the tag had
  -- been taken out and was put back.
  pub delete_failure :
      (c : CtlCall) (s s' : System Table) (d : ℕ) (code : ℤ)
      → IsLinked H s
      → code ≢ pos 1
      → delete H c s d ≡ (s', code)
      → s' ≡ s
  delete_failure c s s' d code v ne e =
      unchanged c s s' d code ne (subst (Outcome H c s d) e (delete-Outcome H c s d v))

  -- `TAG_DELETE` keeps the tags and the registry in step.
  pub delete-IsLinked :
      (c : CtlCall) (s s' : System Table) (d : ℕ)
      → IsLinked H s
      → d < max_tags
      → delete H c s d ≡ (s', pos 1)
      → IsLinked H s'
  delete-IsLinked c s s' d v lt e = record {
    consistent = x.consistent;
    sized = record {
      tags = ap length x.tags ∙ length-set s.services.tags d none ∙ v.sized.tags;
      readers = ap length x.readers ∙ v.sized.readers;
    };
    placed = λ j t h. v.placed j t (left j t h).1;
    owned = λ j t h. owned j t (left j t h).0 (left j t h).1;
  }
    where
      x : Deleted H c s s' d
      x = delete-Deleted H c s s' d v e

      left :
          (j : ℕ) (t : Tag)
          → tag_at s'.services j ≡ some t
          → (d ≢ j) × (tag_at s.services j ≡ some t)
      left j t h = ground (
        arith,
        ap (λ ts. get_or ts j none) x.tags,
        get_or-set s.services.tags d j none none (omega (arith, v.sized.tags)),
      )

      -- another tag's key is not the one that went, since each key has its own descriptor
      owned : (j : ℕ) (t : Tag) → d ≢ j → tag_at s.services j ≡ some t → Owns H s'.registry t.key j
      owned j t ne there = record {
        inside = o.inside;
        used = ground (arith, x.bits j, o.used);
        entry = λ public. ground (arith, x.finds t.key, o.entry public, other public);
        only = λ k f h at. o.only k f (ground (arith, x.finds k)) at;
      }
        where
          o : Owns H s.registry t.key j
          o = v.owned j t there

          other : t.key ≢ ipc_private → x.t.key ≢ t.key
          other public same =
              let gone = (v.owned d x.t x.there).entry (λ z. public (sym same ∙ z)) in
              ne (same_descriptor _ _ (sym gone ∙ ap (lookup H s.registry) same ∙ o.entry public))
