-- ===== src/Get/Created.antt =====
-- What a `TAG_CREAT` of `tag_get` does to the system, branch by branch.
use mathlib.Core.Path.{subst}
use tag_aos.Base.{
  ℕ, ◌≤◌, ◌≡◌, refl, sym, ap, ◌∙◌, inl, inr, ◌⊎◌, arith, true, false, not, ◌||◌, some, ℤ, pos,
  negsuc, ◌==ℤ◌, ==ℤ_iff, if◌then◌else◌, if-elim, Bool-cases, length, set,
}
use tag_aos.Hashmap.{Hashmap}
use tag_aos.Tag.{tag_compare, tag_creat, tag_perm_all, tag_perm_usr, levels_count, enomem, eintr}
use tag_aos.Registry.{Registry, lookup, reserve, clear_tag_common, IsConsistent}
use tag_aos.Registry.Reserve.{Reserved, reserve-Reserved, Unchanged, reserve-Unchanged}
use tag_aos.Registry.Clear.{clear_tag_common-reserve, clear_tag_common_killed}
use tag_aos.Level.{Heap, Pointers, cell, add_tag_level, clear_tag_level}
use tag_aos.Level.Build.{
  Built, no_pointers, add_tag_level-Built, clear-add_tag_level, length-clear-add_tag_level,
}
use tag_aos.Service.{System}
use tag_aos.Get.{GetCall, new_tag, undo_create, build_tag, after_reserve, create, tag_get}

module _ (H : Hashmap tag_compare) where
  open H use {Table}

  -- The system `s'` is `s` with the new tag `d`.
  pub record Created (c : GetCall) (s s' : System Table) (key d : ℕ) (permission : ℤ) : Type 0 where
    pub permitted : (permission ≡ tag_perm_usr) ⊎ (permission ≡ tag_perm_all)
    pub reserved : Reserved H s.registry s'.registry key d
    pub ps : Pointers
    pub built : Built s.services.levels levels_count s'.services.levels ps
    pub tags : s'.services.tags ≡ set s.services.tags d (some (new_tag key d permission c.euid ps))
    pub readers : s'.services.readers ≡ s.services.readers

  -- The system `s'` holds what `s` does.
  pub record Same (s s' : System Table) : Type 0 where
    pub bitmask : s'.registry.bitmask ≡ s.registry.bitmask
    pub finds : (j : ℕ) → lookup H s'.registry j ≡ lookup H s.registry j
    pub tags : s'.services.tags ≡ s.services.tags
    pub readers : s'.services.readers ≡ s.services.readers
    pub cells : (a : ℕ) → cell s'.services.levels a ≡ cell s.services.levels a
    pub longer : length s.services.levels ≤ length s'.services.levels

  abbrev pub Outcome : GetCall → System Table → ℕ → ℤ → System Table × ℤ → Type 0
  Outcome c s key permission (s', pos d) = Created c s s' key d permission
  Outcome c s key permission (s', negsuc n) = c.undo_ok ≡ true → Same s s'

  pub Same-refl : (s : System Table) → Same s s
  Same-refl s = record {
    bitmask = refl;
    finds = λ j. refl;
    tags = refl;
    readers = refl;
    cells = λ a. refl;
    longer = omega arith;
  }

  module _ (c : GetCall) (s : System Table) (key d : ℕ) (permission : ℤ) (r : Registry Table)
      (k : IsConsistent H s.registry) (e : reserve H c.grow_ok s.registry key ≡ (r, pos d)) where
    undone :
        c.undo_ok ≡ true
        → (j : ℕ)
        → ((clear_tag_common H c.undo_ok c.grow_ok r key d).1 ≡ pos 0)
          × ((clear_tag_common H c.undo_ok c.grow_ok r key d).0.bitmask ≡ s.registry.bitmask)
          × (lookup H (clear_tag_common H c.undo_ok c.grow_ok r key d).0 j ≡ lookup H s.registry j)
    undone ok j =
        subst
          (λ u.
            ((clear_tag_common H u c.grow_ok r key d).1 ≡ pos 0)
            × ((clear_tag_common H u c.grow_ok r key d).0.bitmask ≡ s.registry.bitmask)
            × (lookup H (clear_tag_common H u c.grow_ok r key d).0 j ≡ lookup H s.registry j))
          (sym ok) (clear_tag_common-reserve H c.grow_ok c.grow_ok s.registry r key d j k e)

    -- The undo, from a state whose heap has the old cells.
    undo-Outcome :
        (h : Heap)
        → ((a : ℕ) → cell h a ≡ cell s.services.levels a)
        → length s.services.levels ≤ length h
        → Outcome c s key permission (
            undo_create H c
              (record { registry = r; services = record s.services { levels = h } })
              key
              d)
    unfolding undo_create
    undo-Outcome h cells longer = elim (Bool-cases c.undo_ok) [
      | inl ok ↦
          subst
            (λ code.
              Outcome c s key permission (undone_to h, if code ==ℤ pos 0 then enomem else eintr))
            (sym (undone ok 0).0) (λ _. restored h cells longer ok)
      | inr killed ↦
          subst
            (λ code.
              Outcome c s key permission (undone_to h, if code ==ℤ pos 0 then enomem else eintr))
            (sym (ap (λ o. o.1) (clear_tag_common_killed H c.undo_ok c.grow_ok r key d killed)))
            (λ ok. cc)
    ]
      where
        undone_to : Heap → System Table
        undone_to h' = record {
          registry = (clear_tag_common H c.undo_ok c.grow_ok r key d).0;
          services = record s.services { levels = h' };
        }

        restored :
            (h' : Heap)
            → ((a : ℕ) → cell h' a ≡ cell s.services.levels a)
            → length s.services.levels ≤ length h'
            → c.undo_ok ≡ true
            → Same s (undone_to h')
        restored h' cells' longer' ok = record {
          bitmask = (undone ok 0).1;
          finds = λ j. (undone ok j).2;
          tags = refl;
          readers = refl;
          cells = cells';
          longer = longer';
        }

    build_tag-Outcome :
        (permission ≡ tag_perm_usr) ⊎ (permission ≡ tag_perm_all)
        → (h : Heap) (ps : Pointers) (code : ℤ)
        → add_tag_level c.memory s.services.levels no_pointers ≡ (h, ps, code)
        → Outcome c s key permission
            (build_tag H c (record s { registry = r }) key d permission (h, ps, code))
    unfolding build_tag
    build_tag-Outcome ok h ps code built =
        if-elim (Outcome c s key permission) (not (code ==ℤ pos 0))
          (λ _. undo-Outcome (clear_tag_level h ps) cleared longer)
          (λ all_levels.
            if-elim (Outcome c s key permission) (not c.entry_ok)
              (λ _. undo-Outcome (clear_tag_level h ps) cleared longer)
              (λ _. finished ((==ℤ_iff code (pos 0)).0 (ground arith))))
      where
        at_end : System Table
        at_end = record {
          registry = r;
          services = record s.services {
            tags = set s.services.tags d (some (new_tag key d permission c.euid ps));
            levels = h;
          };
        }

        cleared : (a : ℕ) → cell (clear_tag_level h ps) a ≡ cell s.services.levels a
        cleared a = clear-add_tag_level c.memory s.services.levels h ps code a built

        longer : length s.services.levels ≤ length (clear_tag_level h ps)
        longer = length-clear-add_tag_level c.memory s.services.levels h ps code built

        finished : code ≡ pos 0 → Created c s at_end key d permission
        finished zero_code = record {
          permitted = ok;
          reserved = reserve-Reserved H c.grow_ok s.registry r key d k e;
          ps = ps;
          built =
              add_tag_level-Built c.memory s.services.levels h ps
                (built ∙ ap (λ q. (h, ps, q)) zero_code);
          tags = refl;
          readers = refl;
        }

    reserved-Outcome :
        (permission ≡ tag_perm_usr) ⊎ (permission ≡ tag_perm_all)
        → Outcome c s key permission (after_reserve H c s key permission (r, pos d))
    unfolding after_reserve
    reserved-Outcome ok =
        if-elim (Outcome c s key permission) (not c.array_ok)
          (λ _. undo-Outcome s.services.levels (λ a. refl) (omega arith))
          (λ _. build_tag-Outcome ok _ _ _ refl)

  after_reserve-Outcome :
      (c : GetCall) (s : System Table) (key : ℕ) (permission : ℤ) (o : Registry Table × ℤ)
      → IsConsistent H s.registry
      → (permission ≡ tag_perm_usr) ⊎ (permission ≡ tag_perm_all)
      → reserve H c.grow_ok s.registry key ≡ o
      → Outcome c s key permission (after_reserve H c s key permission o)
  unfolding after_reserve
  after_reserve-Outcome c s key permission (r, pos d) k ok e =
      reserved-Outcome c s key d permission r k e ok
  after_reserve-Outcome c s key permission (r, negsuc n) k ok e = λ _. record {
    bitmask = u.bitmask;
    finds = u.finds;
    tags = refl;
    readers = refl;
    cells = λ a. refl;
    longer = omega arith;
  }
    where
      u : Unchanged H s.registry r
      u = reserve-Unchanged H c.grow_ok s.registry r key n k e

  pub create-Outcome :
      (c : GetCall) (s : System Table) (key : ℕ) (permission : ℤ)
      → IsConsistent H s.registry
      → Outcome c s key permission (create H c s key permission)
  unfolding create
  create-Outcome c s key permission k =
      if-elim (Outcome c s key permission)
        (not (permission ==ℤ tag_perm_usr || permission ==ℤ tag_perm_all)) (λ _ _. Same-refl s)
        (λ known.
          if-elim (Outcome c s key permission) (not c.lock_ok) (λ _ _. Same-refl s)
            (λ _. after_reserve-Outcome c s key permission _ k (permitted known) refl))
    where
      permitted :
          not (permission ==ℤ tag_perm_usr || permission ==ℤ tag_perm_all) ≡ false
          → (permission ≡ tag_perm_usr) ⊎ (permission ≡ tag_perm_all)
      permitted known = elim (Bool-cases (permission ==ℤ tag_perm_usr)) [
        | inl usr ↦ inl ((==ℤ_iff permission tag_perm_usr).0 usr)
        | inr other ↦ inr ((==ℤ_iff permission tag_perm_all).0 (ground arith))
      ]

  pub creat-Created :
      (c : GetCall) (s s' : System Table) (key d : ℕ) (permission : ℤ)
      → IsConsistent H s.registry
      → tag_get H c s (pos key) tag_creat permission ≡ (s', pos d)
      → Created c s s' key d permission
  unfolding tag_get
  creat-Created c s s' key d permission k e =
      subst (Outcome c s key permission) e (create-Outcome c s key permission k)
