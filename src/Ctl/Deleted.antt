-- ===== src/Ctl/Deleted.antt =====
-- What a `TAG_DELETE` of `tag_ctl` does to the system, branch by branch.
use mathlib.Core.Path.{subst}
use tag_aos.Base.{
  ℕ, zero, suc, ◌≡◌, refl, sym, ap, ◌∙◌, inl, inr, ◌==◌, arith, Bool, true, false, not, none, some,
  ℤ, pos, negsuc, ◌==ℤ◌, if◌then◌else◌, if-elim, Bool-cases, Option-cases, get_or, set,
  set-set_self,
}
use tag_aos.Bitmask.{taken}
use tag_aos.Hashmap.{Hashmap}
use tag_aos.Tag.{tag_compare, ipc_private, eintr}
use tag_aos.Registry.{lookup, clear_tag_common, IsConsistent}
use tag_aos.Registry.Clear.{clear_tag_common_success, clear_tag_common_killed}
use tag_aos.Level.{clear_tag_level}
use tag_aos.Service.{Tag, System, tag_at, set_tag, denied}
use tag_aos.Invariant.{IsLinked}
use tag_aos.Ctl.{CtlCall, delete_tag, delete}

module _ (H : Hashmap tag_compare) where
  open H use {Table}

  -- The system `s'` is `s` without the tag at `d`.
  pub record Deleted (c : CtlCall) (s s' : System Table) (d : ℕ) : Type 0 where
    pub t : Tag
    pub there : tag_at s.services d ≡ some t
    pub allowed : denied t c.euid ≡ false
    pub idle : get_or s.services.readers d 0 ≡ 0
    pub unused : t.waiting ≡ 0
    pub tags : s'.services.tags ≡ set s.services.tags d none
    pub readers : s'.services.readers ≡ s.services.readers
    pub levels : s'.services.levels ≡ clear_tag_level s.services.levels t.tag_level
    pub bits :
        (m : ℕ)
        → taken s'.registry.bitmask m ≡ (if d == m then false else taken s.registry.bitmask m)
    pub finds :
        (j : ℕ)
        → lookup H s'.registry j ≡ (
            if t.key == ipc_private
            then lookup H s.registry j
            else if t.key == j
            then none
            else lookup H s.registry j)
    pub consistent : IsConsistent H s'.registry

  abbrev pub Outcome : CtlCall → System Table → ℕ → System Table × ℤ → Type 0
  Outcome c s d (s', pos zero) = s' ≡ s
  Outcome c s d (s', pos (suc zero)) = Deleted c s s' d
  Outcome c s d (s', pos (suc (suc n))) = ⊥
  Outcome c s d (s', negsuc n) = s' ≡ s

  module _ (c : CtlCall) (s : System Table) (d : ℕ) (t : Tag) (v : IsLinked H s)
      (there : tag_at s.services d ≡ some t) where
    put_back : set_tag (set_tag s.services d none) d (some t) ≡ s.services
    put_back =
        ap (λ ts. record s.services { tags = ts })
          (ap (set (set s.services.tags d none) d) (sym there)
            ∙ set-set_self s.services.tags d none none)

    -- `clear_tag_common` for a descriptor `x` that is `d`, with the lock granted.
    abbrev Cleared : Bool → ℕ → Type 0
    Cleared ok x =
        (j m : ℕ)
        → ((clear_tag_common H ok c.grow_ok s.registry t.key x).1 ≡ pos 0)
          × (taken (clear_tag_common H ok c.grow_ok s.registry t.key x).0.bitmask m
              ≡ (if d == m then false else taken s.registry.bitmask m))
          × (lookup H (clear_tag_common H ok c.grow_ok s.registry t.key x).0 j ≡ (
              if t.key == ipc_private
              then lookup H s.registry j
              else if t.key == j
              then none
              else lookup H s.registry j))
          × IsConsistent H (clear_tag_common H ok c.grow_ok s.registry t.key x).0

    cleared : c.common_ok ≡ true → Cleared c.common_ok t.tag_key
    cleared ok = subst (Cleared c.common_ok) (sym (v.placed d t there)) (
        subst (λ u. Cleared u d) (sym ok)
          (λ j m.
            clear_tag_common_success H c.grow_ok s.registry t.key d j m v.consistent
              (v.owned d t there)))

    deleted :
        denied t c.euid ≡ false
        → get_or s.services.readers d 0 ≡ 0
        → t.waiting ≡ 0
        → c.common_ok ≡ true
        → Deleted c s
            (record {
              registry = (clear_tag_common H c.common_ok c.grow_ok s.registry t.key t.tag_key).0;
              services = record s.services {
                tags = set s.services.tags d none;
                levels = clear_tag_level s.services.levels t.tag_level;
              };
            })
            d
    deleted allowed idle unused ok = record {
      t = t;
      there = there;
      allowed = allowed;
      idle = idle;
      unused = unused;
      tags = refl;
      readers = refl;
      levels = refl;
      bits = λ m. (cleared ok 0 m).1;
      finds = λ j. (cleared ok j 0).2;
      consistent = (cleared ok 0 0).3;
    }

    -- The two ends of the call, by whether the lock was granted.
    by_lock :
        denied t c.euid ≡ false
        → get_or s.services.readers d 0 ≡ 0
        → t.waiting ≡ 0
        → Outcome c s d (
            if not
              ((clear_tag_common H c.common_ok c.grow_ok s.registry t.key t.tag_key).1 ==ℤ pos 0)
            then (
              record {
                registry = (clear_tag_common H c.common_ok c.grow_ok s.registry t.key t.tag_key).0;
                services = set_tag (set_tag s.services d none) d (some t);
              },
              eintr,
            )
            else (
              record {
                registry = (clear_tag_common H c.common_ok c.grow_ok s.registry t.key t.tag_key).0;
                services = record s.services {
                  tags = set s.services.tags d none;
                  levels = clear_tag_level s.services.levels t.tag_level;
                };
              },
              pos 1,
            ))
    by_lock allowed idle unused = elim (Bool-cases c.common_ok) [
      | inl ok ↦ rw ((cleared ok 0 0).0) (deleted allowed idle unused ok)
      | inr killed ↦
          rw (clear_tag_common_killed H c.common_ok c.grow_ok s.registry t.key t.tag_key killed)
            (ap (λ q. record s { services = q }) put_back)
    ]

    delete_tag-Outcome :
        denied t c.euid ≡ false
        → get_or s.services.readers d 0 ≡ 0
        → Outcome c s d (delete_tag H c s d t)
    unfolding delete_tag
    delete_tag-Outcome allowed idle =
        if-elim (Outcome c s d) (not (t.waiting == 0))
          (λ _. ap (λ q. record s { services = q }) put_back)
          (λ unused. by_lock allowed idle (ground arith))

  pub delete-Outcome :
      (c : CtlCall) (s : System Table) (d : ℕ) → IsLinked H s → Outcome c s d (delete H c s d)
  unfolding delete
  delete-Outcome c s d v =
      if-elim (Outcome c s d) (not (get_or s.services.readers d 0 == 0)) (λ _. refl)
        (λ idle. elim (Option-cases (tag_at s.services d)) [
          | inl absent ↦ rw absent refl
          | inr (t, there) ↦ rw there (
              if-elim (Outcome c s d) (denied t c.euid) (λ _. refl)
                (λ allowed. delete_tag-Outcome c s d t v there allowed (ground arith)))
        ])

  pub delete-Deleted :
      (c : CtlCall) (s s' : System Table) (d : ℕ)
      → IsLinked H s
      → delete H c s d ≡ (s', pos 1)
      → Deleted c s s' d
  delete-Deleted c s s' d v e = subst (Outcome c s d) e (delete-Outcome c s d v)
