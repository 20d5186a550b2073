-- ===== src/Get/Cases.antt =====
-- Every call of `tag_get`, whatever the command: it creates a tag or leaves the system as it is.
use mathlib.Core.Path.{subst}
use tag_aos.Base.{
  ℕ, ◌≡◌, sym, ap, ◌∙◌, ◌⊎◌, inl, inr, true, none, some, ℤ, pos, negsuc, ◌==ℤ◌, if-elim, length,
  get_or,
}
use tag_aos.Bitmask.{taken}
use tag_aos.Hashmap.{Hashmap}
use tag_aos.Tag.{tag_compare, tag_creat, tag_open}
use tag_aos.Registry.Clear.{Owns}
use tag_aos.Service.{Tag, System, tag_at}
use tag_aos.Invariant.{IsLinked}
use tag_aos.Get.{GetCall, tag_get}
use tag_aos.Get.Created.{Created, Same, Same-refl, Outcome, create-Outcome}
use tag_aos.Get.Open.{Opened, open_tag-Opened}

module _ (H : Hashmap tag_compare) where
  open H use {Table}

  pub Same-IsLinked : (s s' : System Table) → IsLinked H s → Same H s s' → IsLinked H s'
  Same-IsLinked s s' v u = record {
    consistent = record {
      valid = rw u.bitmask v.consistent.valid;
      bits = rw u.bitmask v.consistent.bits;
      filed = λ k e h. v.consistent.filed k e (sym (u.finds k) ∙ h);
      private = u.finds 0 ∙ v.consistent.private;
      held = λ k e h. rw u.bitmask (v.consistent.held k e (sym (u.finds k) ∙ h));
      own = λ k j e f h g. v.consistent.own k j e f (sym (u.finds k) ∙ h) (sym (u.finds j) ∙ g);
    };
    sized = record {
      tags = ap length u.tags ∙ v.sized.tags;
      readers = ap length u.readers ∙ v.sized.readers;
    };
    placed = λ d t h. v.placed d t (before d t h);
    owned = λ d t h. owned d t (v.owned d t (before d t h));
  }
    where
      before : (d : ℕ) (t : Tag) → tag_at s'.services d ≡ some t → tag_at s.services d ≡ some t
      before d t h = sym (ap (λ ts. get_or ts d none) u.tags) ∙ h

      owned : (d : ℕ) (t : Tag) → Owns H s.registry t.key d → Owns H s'.registry t.key d
      owned d t o = record {
        inside = o.inside;
        used = ap (λ b. taken b d) u.bitmask ∙ o.used;
        entry = λ public. u.finds t.key ∙ o.entry public;
        only = λ j f h at. o.only j f (sym (u.finds j) ∙ h) at;
      }

  module _ (c : GetCall) (s : System Table) (permission : ℤ) (ok : c.undo_ok ≡ true) where
    abbrev pub Got : System Table × ℤ → Type 0
    Got o = ((key : ℕ) × (d : ℕ) × Created H c s o.0 key d permission) ⊎ Same H s o.0

    created-Got : (key : ℕ) (o : System Table × ℤ) → Outcome H c s key permission o → Got o
    created-Got key (s', pos d) n = inl (key, d, n)
    created-Got key (s', negsuc n) u = inr (u ok)

    Opened-Got : (key : ℕ) (o : System Table × ℤ) → Opened H s key o → Got o
    Opened-Got key (s', pos d) p = inr (subst (Same H s) (sym p.0) (Same-refl H s))
    Opened-Got key (s', negsuc n) p = inr (subst (Same H s) (sym p) (Same-refl H s))

    pub tag_get-Got : (key command : ℤ) → IsLinked H s → Got (tag_get H c s key command permission)
    unfolding tag_get
    tag_get-Got (negsuc n) command v = inr (Same-refl H s)
    tag_get-Got (pos key) command v =
        if-elim Got (command ==ℤ tag_creat)
          (λ _. created-Got key _ (create-Outcome H c s key permission v.consistent))
          (λ _.
            if-elim Got (command ==ℤ tag_open) (λ _. Opened-Got key _ (open_tag-Opened H c s key v))
              (λ _. inr (Same-refl H s)))
