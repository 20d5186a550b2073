-- ===== src/Threads/Kept.antt =====
-- What calls of `tag_get` and `tag_ctl` in tag-module/tag-syscall.c leave of a message that a sleeping
-- thread has not read.
use mathlib.Core.Path.{subst}
use tag_aos.Base.{
  ℕ, ◌==◌, ◌≡◌, ◌≢◌, refl, sym, ap, ◌∙◌, ◌⊎◌, inl, inr, true, not, Bool-cases, Option-cases, Option,
  none, some, List, if◌then◌else◌, if-elim, get_or, ℤ, pos, ◌==ℤ◌, ==ℤ_iff,
}
use tag_aos.Hashmap.{Hashmap}
use tag_aos.Tag.{tag_compare, max_tags, einval, tag_awake_all, tag_delete}
use tag_aos.Level.{cell}
use tag_aos.Level.Build.{clear_tag_level_kept}
use tag_aos.Service.{Tag, Services, System, Done, returned, tag_at, set_tag, denied, index}
use tag_aos.Receive.{Receiver, asleep}
use tag_aos.Get.{GetCall}
use tag_aos.Get.Created.{Created, Same}
use tag_aos.Ctl.{CtlCall, awake_all, awoken, delete, in_system, tag_ctl}
use tag_aos.Ctl.Deleted.{Deleted, delete-Deleted}
use tag_aos.Ctl.Delete.{delete_failure}
use tag_aos.Threads.{level_readers, readers_of, stock, idle, Threads}
use tag_aos.Threads.Receive.{get_or-lt}
use tag_aos.Threads.Sound.{IsSound, unused}
use tag_aos.Threads.Safety.{Sound-Safe}
use tag_aos.Threads.Message.{HasMessage, other-Has}

module _ (H : Hashmap tag_compare) where
  open H use {Table}

  module _ (x : Threads Table) (v : IsSound H x) (i : ℕ) (r : Receiver)
      (sleeps : get_or x.pcs i idle ≡ asleep r) (message : List ℕ) (size : ℕ)
      (h : HasMessage x.system.services r.address message size) where
    pub held : stock x.system.services (level_readers r.address) ≢ 0
    unfolding stock
    held e =
        let safe = Sound-Safe H x v i r sleeps in safe.held (sym (ap readers_of safe.alive) ∙ e)

    abbrev pub Keeps : Option (Done (System Table)) → Type 0
    Keeps none = Unit
    Keeps (some o) = HasMessage o.state.services r.address message size

    awoken-Keeps :
        (d : ℕ) (t : Tag) (o : Option (List ℕ × ℤ))
        → Keeps (
            in_system H x.system
              (awoken (set_tag x.system.services d (some (record t { ready = true }))) o))
    awoken-Keeps d t none = tt
    awoken-Keeps d t (some (woken, code)) =
        other-Has r.address message size x.system.services
          (set_tag x.system.services d (some (record t { ready = true }))) refl h

    awake_all-Keeps :
        (c : CtlCall) (d : ℕ) → Keeps (in_system H x.system (awake_all c x.system.services d))
    unfolding awake_all
    awake_all-Keeps c d =
        if-elim P (not c.lock_ok) (λ _. h)
          (λ _. elim (Option-cases (tag_at x.system.services d)) [
            | inl absent ↦ rw absent h
            | inr (t, there) ↦ rw there (
                if-elim P (denied t c.euid) (λ _. h)
                  (λ _.
                    if-elim P t.ready (λ _. h)
                      (λ _. if-elim P (t.waiting == 0) (λ _. h) (λ _. awoken-Keeps d t _))))
          ])
      where
        P : Option (Done Services) → Type 0
        P o = Keeps (in_system H x.system o)

    -- A tag that is deleted does not lead to the object.
    delete-Keeps :
        (c : CtlCall) (d : ℕ) → HasMessage (delete H c x.system d).0.services r.address message size
    delete-Keeps c d = elim (Bool-cases ((delete H c x.system d).1 ==ℤ pos 1)) [
      | inl yes_code ↦ deleted (
          delete-Deleted H c x.system _ d v.linked
            (ap (λ code. ((delete H c x.system d).0, code)) ((==ℤ_iff _ (pos 1)).0 yes_code)))
      | inr no_code ↦
          subst (λ (s : System Table). HasMessage s.services r.address message size)
            (sym (
              delete_failure H c x.system _ d _ v.linked
                (λ e. cc (no_code, (==ℤ_iff _ (pos 1)).1 e)) refl))
            h
    ]
      where
        deleted :
            Deleted H c x.system (delete H c x.system d).0 d
            → HasMessage (delete H c x.system d).0.services r.address message size
        deleted gone =
            other-Has r.address message size x.system.services _
              (ap (λ m. cell m r.address) gone.levels
                ∙ clear_tag_level_kept x.system.services.levels gone.t.tag_level r.address
                    (λ j leads.
                      held (unused H x v d j r.address gone.t gone.there gone.idle leads).1))
              h

    pub control-Keeps : (c : CtlCall) (tag command : ℤ) → Keeps (tag_ctl H c x.system tag command)
    unfolding tag_ctl
    control-Keeps c tag command = at_tag (index tag max_tags)
      where
        on_tag : Option ℕ → Option (Done (System Table))
        on_tag none = some (returned x.system einval)
        on_tag (some d) =
            if command ==ℤ tag_awake_all
            then in_system H x.system (awake_all c x.system.services d)
            else if command ==ℤ tag_delete
            then some (returned (delete H c x.system d).0 (delete H c x.system d).1)
            else some (returned x.system einval)

        at_tag : (o : Option ℕ) → Keeps (on_tag o)
        at_tag none = h
        at_tag (some d) =
            if-elim Keeps (command ==ℤ tag_awake_all) (λ _. awake_all-Keeps c d)
              (λ _. if-elim Keeps (command ==ℤ tag_delete) (λ _. delete-Keeps c d) (λ _. h))

    pub got-Keeps :
        (c : GetCall) (s' : System Table) (permission : ℤ)
        → ((key : ℕ) × (d : ℕ) × Created H c x.system s' key d permission) ⊎ Same H x.system s'
        → HasMessage s'.services r.address message size
    got-Keeps c s' permission (inl (key, d, n)) =
        other-Has r.address message size x.system.services s'.services
          (n.built.kept r.address (get_or-lt x.system.services.levels r.address h.l h.alive)) h
    got-Keeps c s' permission (inr u) =
        other-Has r.address message size x.system.services s'.services (u.cells r.address) h
