-- ===== src/Module/Load.antt =====
-- `init_module` and `cleanup_module` of tag-module/tag-module.c, by their results.
use mathlib.Core.Path.{subst}
use tag_aos.Base.{
  Bool, true, ◌↔◌, ◌==ℤ◌, ==_iff, if◌then◌else◌, ℕ, zero, suc, ◌≡◌, ◌≢◌, refl, sym, ap, ◌∙◌, ◌⊎◌,
  inl, inr, ◌==◌, ◌&&◌, arith, false, Option, none, some, List, [], ◌∷◌, ℤ, pos, negsuc, if-elim,
  get_or,
}
use tag_aos.Bitmask.{fresh_bitmask}
use tag_aos.Hashmap.{Hashmap}
use tag_aos.Tag.{tag_compare, max_tags}
use tag_aos.Level.{Heap, cell, clear_tag_level}
use tag_aos.Level.Build.{pointer, clear_tag_level_freed, clear_stays_freed}
use tag_aos.Service.{Tag, System, tag_at}
use tag_aos.Init.{InitCall, start_with, initialize}
use tag_aos.Init.Linked.{initialize_start}
use tag_aos.Syscalls.{Discovery, install_syscalls}
use tag_aos.Syscalls.Install.{install_syscalls_result}
use tag_aos.Module.{Loaded, after_initialize, init_module, cleanup_tags, cleanup_module}

module _ (H : Hashmap tag_compare) where
  open H use {Table}

  stays_freed :
      (tags : List (Option Tag)) (h : Heap) (a : ℕ)
      → cell h a ≡ none
      → cell (cleanup_tags H tags h) a ≡ none
  unfolding cleanup_tags
  stays_freed [] h a e = e
  stays_freed (none ∷ tags) h a e = stays_freed tags h a e
  stays_freed (some t ∷ tags) h a e =
      stays_freed tags (clear_tag_level h t.tag_level) a (clear_stays_freed h t.tag_level a e)

  cleanup_tags_frees :
      (tags : List (Option Tag)) (h : Heap) (d i a : ℕ) (t : Tag)
      → get_or tags d none ≡ some t
      → pointer t.tag_level i ≡ some a
      → cell (cleanup_tags H tags h) a ≡ none
  unfolding cleanup_tags
  cleanup_tags_frees [] h d i a t there points = absurd (cc there)
  cleanup_tags_frees (none ∷ tags) h zero i a t there points = absurd (cc there)
  cleanup_tags_frees (none ∷ tags) h (suc d) i a t there points =
      cleanup_tags_frees tags h d i a t there points
  cleanup_tags_frees (some u ∷ tags) h zero i a t there points =
      stays_freed tags (clear_tag_level h u.tag_level) a (
        clear_tag_level_freed h u.tag_level i a
          (ap (λ (t : Tag). pointer t.tag_level i) (same there) ∙ points))
    where
      same : some u ≡ some t → u ≡ t
      same e = cc e
  cleanup_tags_frees (some u ∷ tags) h (suc d) i a t there points =
      cleanup_tags_frees tags (clear_tag_level h u.tag_level) d i a t there points

  -- Unloading the module frees every level that a pointer of some tag leads to.
  pub cleanup_module_frees :
      (s : System Table) (d i a : ℕ) (t : Tag)
      → tag_at s.services d ≡ some t
      → pointer t.tag_level i ≡ some a
      → cell (cleanup_module H s) a ≡ none
  unfolding cleanup_module
  cleanup_module_frees s d i a t there points =
      cleanup_tags_frees s.services.tags s.services.levels d i a t there points

  abbrev allocated : InitCall → Bool
  allocated c = c.table_ok && (c.mask_ok && (c.struct_ok && c.tags_ok))

  -- The ends of `init_module`, where `ok` says that `initialize` has succeeded.
  abbrev Ends : Bool → Discovery → (get send receive ctl : ℕ) → Loaded Table → Type 0
  Ends ok d get send receive ctl o =
      ((o.code ≡ pos 0) ↔ (
        (ok ≡ true)
        × (((install_syscalls d get send receive ctl).get_nr ≢ 0)
            × (((install_syscalls d get send receive ctl).send_nr ≢ 0)
                × (((install_syscalls d get send receive ctl).receive_nr ≢ 0)
                    × ((install_syscalls d get send receive ctl).ctl_nr ≢ 0))))))
      × (o.state
          ≡ (if o.code ==ℤ pos 0 then some (start_with H (fresh_bitmask max_tags)) else none))
      × (o.discovery ≡ (if ok then (install_syscalls d get send receive ctl).discovery else d))
      × ((o.code ≡ pos 0) ⊎ (o.code ≡ negsuc 0))

  module _ (d : Discovery) (get send receive ctl : ℕ) where
    some_zero :
        ((install_syscalls d get send receive ctl).get_nr ≢ 0)
          × (((install_syscalls d get send receive ctl).send_nr ≢ 0)
              × (((install_syscalls d get send receive ctl).receive_nr ≢ 0)
                  × ((install_syscalls d get send receive ctl).ctl_nr ≢ 0)))
        → (install_syscalls d get send receive ctl).result ≢ 0
    some_zero (g, (s, (r, c))) z = elim ((install_syscalls_result d get send receive ctl).0 z) [
      | inl e ↦ g e
      | inr (inl e) ↦ s e
      | inr (inr (inl e)) ↦ r e
      | inr (inr (inr e)) ↦ c e
    ]

    failed-Ends : Ends false d get send receive ctl (after_initialize H d get send receive ctl none)
    unfolding after_initialize
    failed-Ends = ((λ e. absurd (cc e), λ all. absurd (cc (all.0))), refl, refl, inr refl)

    started-Ends :
        Ends true d get send receive ctl
          (after_initialize H d get send receive ctl (some (start_with H (fresh_bitmask max_tags))))
    unfolding after_initialize
    started-Ends =
        if-elim (Ends true d get send receive ctl)
          ((install_syscalls d get send receive ctl).result == 0)
          (λ zero_result. (
            (λ e. absurd (cc e), λ all. absurd (some_zero all.1 ((==_iff _ 0).0 zero_result))),
            refl,
            refl,
            inr refl,
          ))
          (λ all.
            let back = (install_syscalls_result d get send receive ctl).1 in
            (
              (
                λ e. (
                  refl,
                  (
                    (λ z. nonzero all (back (inl z))),
                    (
                      (λ z. nonzero all (back (inr (inl z)))),
                      (
                        (λ z. nonzero all (back (inr (inr (inl z))))),
                        (λ z. nonzero all (back (inr (inr (inr z))))),
                      ),
                    ),
                  ),
                ),
                λ _. refl,
              ),
              refl,
              refl,
              inl refl,
            ))
      where
        nonzero :
            ((install_syscalls d get send receive ctl).result == 0) ≡ false
            → (install_syscalls d get send receive ctl).result ≢ 0
        nonzero all z = absurd (ground (arith, all, z))

  -- Loading the module returns 0 exactly if every allocation succeeds and all four system calls get a
  -- number; any other result is -1. With 0 the state is the fresh one, and with -1 the structures are
  -- gone. Once `initialize` has succeeded, what could be installed stays in the system call table,
  -- with either result.
  pub init_module_result :
      (c : InitCall) (d : Discovery) (get send receive ctl : ℕ)
      → (((init_module H c d get send receive ctl).code ≡ pos 0) ↔ (
          ((c.table_ok && (c.mask_ok && (c.struct_ok && c.tags_ok))) ≡ true)
          × (((install_syscalls d get send receive ctl).get_nr ≢ 0)
              × (((install_syscalls d get send receive ctl).send_nr ≢ 0)
                  × (((install_syscalls d get send receive ctl).receive_nr ≢ 0)
                      × ((install_syscalls d get send receive ctl).ctl_nr ≢ 0))))))
        × ((init_module H c d get send receive ctl).state ≡ (
            if (init_module H c d get send receive ctl).code ==ℤ pos 0
            then some (start_with H (fresh_bitmask max_tags))
            else none))
        × ((init_module H c d get send receive ctl).discovery ≡ (
            if c.table_ok && (c.mask_ok && (c.struct_ok && c.tags_ok))
            then (install_syscalls d get send receive ctl).discovery
            else d))
        × (((init_module H c d get send receive ctl).code ≡ pos 0)
            ⊎ ((init_module H c d get send receive ctl).code ≡ negsuc 0))
  unfolding init_module
  init_module_result c d get send receive ctl = by_call (allocated c) (initialize_start H c 0 0).0
    where
      by_call :
          (ok : Bool)
          → initialize H c ≡ (
              if ok
              then (some (start_with H (fresh_bitmask max_tags)), pos 0)
              else (none, negsuc 0))
          → Ends ok d get send receive ctl
              (after_initialize H d get send receive ctl (initialize H c).0)
      by_call true e =
          subst
            (λ (o : Option (System Table) × ℤ).
              Ends true d get send receive ctl (after_initialize H d get send receive ctl o.0))
            (sym e) (started-Ends d get send receive ctl)
      by_call false e =
          subst
            (λ (o : Option (System Table) × ℤ).
              Ends false d get send receive ctl (after_initialize H d get send receive ctl o.0))
            (sym e) (failed-Ends d get send receive ctl)
