-- ===== src/Threads/Steps.antt =====
-- Every step of the system keeps the invariant, and the loaded module meets it.
use mathlib.Core.Path.{subst}
use tag_aos.Base.{
  ℕ, ◌<◌, ◌≡◌, refl, sym, ap, ◌∙◌, ◌⊎◌, inl, inr, Bool-cases, Option-cases, Option, none, some,
  if◌then◌else◌, if-elim, get_or-replicate, ℤ, pos, negsuc, ◌==ℤ◌, ==ℤ_iff, arith,
}
use tag_aos.Hashmap.{Hashmap}
use tag_aos.Tag.{tag_compare, max_tags, tag_awake_all, tag_delete, einval}
use tag_aos.Service.{Services, System, Done, returned, tag_at, index}
use tag_aos.Init.{start_with}
use tag_aos.Init.Linked.{start_with-IsLinked}
use tag_aos.Get.{GetCall}
use tag_aos.Get.Created.{Created, Same}
use tag_aos.Get.Open.{Created-IsLinked}
use tag_aos.Get.Cases.{Same-IsLinked, tag_get-Got}
use tag_aos.Ctl.{CtlCall, awake_all, delete, in_system, tag_ctl}
use tag_aos.Ctl.Deleted.{delete-Deleted}
use tag_aos.Ctl.Delete.{delete_failure, delete-IsLinked}
use tag_aos.Threads.{
  Counter, tag_waiting, tag_readers, level_waiting, level_readers, stock, idle, Threads,
  with_services, Step, pick, send, control, get, Reach, here, later, start_threads, total,
}
use tag_aos.Threads.Total.{total-idle}
use tag_aos.Threads.Others.{Quiet, Quiets, tag_send-Quiets, awake_all-Quiets}
use tag_aos.Threads.Shape.{points, KnowsPc}
use tag_aos.Threads.Tags.{Quiet-Sits, created-Sits, Same-Sits}
use tag_aos.Threads.Removed.{deleted-Sits}
use tag_aos.Threads.Sound.{
  IsSound, renamed-IsLinked, IsSized-by, pick-IsSound, other-IsSound, unused,
}

pub index-inside : (z : ℤ) (bound d : ℕ) → index z bound ≡ some d → (z ≡ pos d) × (d < bound)
unfolding index
index-inside (negsuc n) bound d e = absurd (ground arith)
index-inside (pos n) bound d e = ground arith

module _ (H : Hashmap tag_compare) where
  open H use {Table}

  module _ (x : Threads Table) (v : IsSound H x) where
    -- What is left of the threads' world after a call that may have freed something.
    abbrev Sounds : Option (Done (System Table)) → Type 0
    Sounds none = Unit
    Sounds (some o) = IsSound H (record { system = o.state; pcs = x.pcs })

    Quiet-IsSound :
        (s' : Services) → Quiet x.system.services s' → IsSound H (with_services x s' x.pcs)
    Quiet-IsSound s' q =
        other-IsSound H x v (record x.system { services = s' })
          (renamed-IsLinked H x.system s' v.linked (IsSized-by H x v (q.balance idle))
            q.stays.names)
          (Quiet-Sits v.shaped q)

    unchanged-IsSound :
        (s' : System Table) → s' ≡ x.system → IsSound H (record { system = s'; pcs = x.pcs })
    unchanged-IsSound s' e = subst (λ s. IsSound H (record { system = s; pcs = x.pcs })) (sym e) v

    delete-IsSound :
        (c : CtlCall) (d : ℕ)
        → d < max_tags
        → IsSound H (record { system = (delete H c x.system d).0; pcs = x.pcs })
    delete-IsSound c d lt = elim (Bool-cases ((delete H c x.system d).1 ==ℤ pos 1)) [
      | inl yes_code ↦
          let e = ap (λ code. ((delete H c x.system d).0, code)) ((==ℤ_iff _ (pos 1)).0 yes_code) in
          let gone = delete-Deleted H c x.system _ d v.linked e in
          other-IsSound H x v _ (delete-IsLinked H c x.system _ d v.linked lt e) (
            deleted-Sits H c x.system _ d v.shaped gone
              (λ i a leads. unused H x v d i a gone.t gone.there gone.idle leads))
      | inr no_code ↦ unchanged-IsSound _ (
          delete_failure H c x.system _ d _ v.linked (λ e. cc (no_code, (==ℤ_iff _ (pos 1)).1 e))
            refl)
    ]

    awoken-IsSound :
        (o : Option (Done Services)) → Quiets x.system.services o → Sounds (in_system H x.system o)
    awoken-IsSound none q = tt
    awoken-IsSound (some o) q = Quiet-IsSound o.state q

    control-Sounds : (c : CtlCall) (tag command : ℤ) → Sounds (tag_ctl H c x.system tag command)
    unfolding tag_ctl
    control-Sounds c tag command = at_tag (index tag max_tags) refl
      where
        on_tag : Option ℕ → Option (Done (System Table))
        on_tag none = some (returned x.system einval)
        on_tag (some d) =
            if command ==ℤ tag_awake_all
            then in_system H x.system (awake_all c x.system.services d)
            else if command ==ℤ tag_delete
            then some (returned (delete H c x.system d).0 (delete H c x.system d).1)
            else some (returned x.system einval)

        at_tag : (o : Option ℕ) → index tag max_tags ≡ o → Sounds (on_tag o)
        at_tag none e = v
        at_tag (some d) e =
            if-elim Sounds (command ==ℤ tag_awake_all)
              (λ _. awoken-IsSound _ (awake_all-Quiets c x.system.services d))
              (λ _.
                if-elim Sounds (command ==ℤ tag_delete)
                  (λ _. delete-IsSound c d (index-inside tag max_tags d e).1) (λ _. v))

    got-IsSound :
        (c : GetCall) (s' : System Table) (permission : ℤ)
        → ((key : ℕ) × (d : ℕ) × Created H c x.system s' key d permission) ⊎ Same H x.system s'
        → IsSound H (record { system = s'; pcs = x.pcs })
    got-IsSound c s' permission (inr u) =
        other-IsSound H x v s' (Same-IsLinked H x.system s' v.linked u)
          (Same-Sits H x.system s' v.shaped u)
    got-IsSound c s' permission (inl (key, d, n)) =
        other-IsSound H x v s' (Created-IsLinked H c x.system s' key d permission v.linked n)
          (created-Sits H c x.system s' key d permission v.linked.sized vacant n v.shaped)
      where
        vacant : tag_at x.system.services d ≡ none
        vacant = elim (Option-cases (tag_at x.system.services d)) [
          | inl e ↦ e
          | inr (t, there) ↦ absurd (cc (n.reserved.free, (v.linked.owned d t there).used))
        ]

  -- Every step keeps the invariant.
  pub Step-IsSound : {x y : Threads Table} → Step H x y → IsSound H x → IsSound H y
  Step-IsSound {x} (pick i {s'} {p} lt turn) v = pick-IsSound H x v i s' p lt turn
  Step-IsSound {x} (send c tag level buffer size {o} e) v = Quiet-IsSound x v o.state (
      subst (Quiets x.system.services) e
        (tag_send-Quiets c x.system.services tag level buffer size))
  Step-IsSound {x} (control c tag command {o} e) v =
      subst (Sounds x v) e (control-Sounds x v c tag command)
  Step-IsSound {x} (get c key command permission {o} ok e) v =
      subst (λ (o : System Table × ℤ). IsSound H (record { system = o.0; pcs = x.pcs })) e
        (got-IsSound x v c _ permission
          (tag_get-Got H c x.system permission ok key command v.linked))

  start-IsSound : (n : ℕ) → IsSound H (start_threads H n)
  unfolding start_threads start_with stock points
  start-IsSound n = record {
    linked = start_with-IsLinked H;
    booked = booked;
    shaped = record {
      separate = λ d i e j a p q. absurd (cc (p, nothing d i));
      alive = λ d i a p. absurd (cc (p, nothing d i));
    };
    known = λ i.
        subst (KnowsPc (start_threads H n).system.services) (sym (get_or-replicate n idle i)) tt;
  }
    where
      empty : (d : ℕ) → tag_at (start_threads H n).system.services d ≡ none
      empty d = get_or-replicate max_tags none d

      nothing : (d i : ℕ) → points (start_threads H n).system.services d i ≡ none
      nothing d i = ground (arith, empty d)

      booked :
          (c : Counter)
          → stock (start_threads H n).system.services c ≡ total (start_threads H n).pcs c
      booked (tag_waiting d) = ground (arith, empty d, total-idle n (tag_waiting d))
      booked (tag_readers d) = get_or-replicate max_tags 0 d ∙ sym (total-idle n (tag_readers d))
      booked (level_waiting a) = sym (total-idle n (level_waiting a))
      booked (level_readers a) = sym (total-idle n (level_readers a))

  -- However the threads interleave after the module is loaded: each tag counts the threads that are
  -- inside `tag_receive` for it, and so does its lock; each level object counts the threads that sleep
  -- on it, and its lock those and the ones about to move to a new epoch; a counter of something that
  -- is not there stands for no thread. The pointers of the tags lead to live objects, no two to the
  -- same one, and none but that of a thread's own tag and level to the object the thread has
  -- registered with. And the tags and the registry agree: keys and descriptors of the tags are
  -- reserved.
  pub Reach-IsSound : (n : ℕ) {x : Threads Table} → Reach H (start_threads H n) x → IsSound H x
  Reach-IsSound n here = start-IsSound n
  Reach-IsSound n (later r st) = Step-IsSound st (Reach-IsSound n r)
