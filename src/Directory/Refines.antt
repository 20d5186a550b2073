-- ===== src/Directory/Refines.antt =====
-- Every step of the threads is a change that the directory allows.
use mathlib.Core.Path.{subst}
use tag_aos.Base.{
  ℕ, ◌==◌, ◌≡◌, ◌≢◌, refl, sym, ap, ◌∙◌, ◌⊎◌, inl, inr, true, false, Bool-cases, Option-cases,
  Option, none, some, get_or, get_or-replicate, if◌then◌else◌, if-elim, ℤ, pos, ◌==ℤ◌, ==ℤ_iff,
  arith,
}
use tag_aos.Hashmap.{Hashmap}
use tag_aos.Tag.{tag_compare, max_tags, ipc_private, tag_awake_all, tag_delete, einval}
use tag_aos.Registry.{lookup}
use tag_aos.Service.{Tag, Services, System, Done, returned, tag_at, index}
use tag_aos.Init.{start_with}
use tag_aos.Get.{GetCall, new_tag}
use tag_aos.Get.Created.{Created, Same}
use tag_aos.Get.Open.{tag_at-Created}
use tag_aos.Get.Cases.{tag_get-Got}
use tag_aos.Ctl.{CtlCall, awake_all, delete, in_system, tag_ctl}
use tag_aos.Ctl.Deleted.{Deleted, delete-Deleted}
use tag_aos.Ctl.Delete.{delete_failure}
use tag_aos.Threads.{Threads, Step, pick, send, control, get, Reach, here, later, start_threads}
use tag_aos.Threads.Balance.{get_or-set_alive}
use tag_aos.Threads.Others.{Quiets, tag_send-Quiets, awake_all-Quiets}
use tag_aos.Threads.Shape.{Name, named, SameNames}
use tag_aos.Threads.Sound.{IsSound, Turn-Route}
use tag_aos.Threads.Steps.{Reach-IsSound}
use tag_aos.Directory.{
  Entry, Change, stays, adds, removes, History, empty, after, entry_of, entry_at, directory,
}

-- The entry is a part of the name.
abbrev entry_of_name : Option Name → Option Entry
entry_of_name none = none
entry_of_name (some n) = some (record { key = n.key; permission = n.permission; euid = n.euid })

entry_of_name-named : (o : Option Tag) → entry_of_name (named o) ≡ entry_at o
entry_of_name-named none = refl
entry_of_name-named (some t) = refl

SameNames-entry :
    (s s' : Services) → SameNames s s' → (d : ℕ) → entry_at (tag_at s' d) ≡ entry_at (tag_at s d)
SameNames-entry s s' names d =
    sym (entry_of_name-named (tag_at s' d))
    ∙ ap entry_of_name (names d)
    ∙ entry_of_name-named (tag_at s d)

module _ (H : Hashmap tag_compare) where
  open H use {Table}

  module _ (x : Threads Table) (v : IsSound H x) where
    abbrev To : System Table → Type 0
    To s = Change (directory x.system) (directory s)

    named-To :
        (s' : Services) → SameNames x.system.services s' → To (record x.system { services = s' })
    unfolding directory
    named-To s' names = stays (SameNames-entry x.system.services s' names)

    Created-To :
        (c : GetCall) (s' : System Table) (permission : ℤ)
        → ((key : ℕ) × (d : ℕ) × Created H c x.system s' key d permission) ⊎ Same H x.system s'
        → To s'
    unfolding directory
    Created-To c s' permission (inr u) = stays (λ d. ap (λ ts. entry_at (get_or ts d none)) u.tags)
    Created-To c s' permission (inl (key, d, n)) =
        adds d (record { key = key; permission = permission; euid = c.euid }) n.reserved.inside
          (ap entry_at vacant) n.permitted unique at
      where
        vacant : tag_at x.system.services d ≡ none
        vacant = elim (Option-cases (tag_at x.system.services d)) [
          | inl e ↦ e
          | inr (t, there) ↦ absurd (cc (n.reserved.free, (v.linked.owned d t there).used))
        ]

        unique :
            key ≢ ipc_private
            → (m : ℕ) (e : Entry) → entry_at (tag_at x.system.services m) ≡ some e
            → e.key ≢ key
        unique public m e found same = elim (Option-cases (tag_at x.system.services m)) [
          | inl absent ↦ absurd (ground (arith, found, absent))
          | inr (t, there) ↦
              let tk : t.key ≡ key = ground (arith, found, there, same) in
              let filed = (v.linked.owned m t there).entry (λ p. public (sym tk ∙ p)) in
              absurd (cc (filed, n.reserved.absent, ap (lookup H x.system.registry) tk))
        ]

        at :
            (m : ℕ)
            → entry_at (tag_at s'.services m) ≡ (
                if d == m
                then some (record { key = key; permission = permission; euid = c.euid })
                else entry_at (tag_at x.system.services m))
        at m =
            ap entry_at (tag_at-Created H c x.system s' key d m permission v.linked.sized n)
            ∙ by_test (Bool-cases (d == m))
          where
            by_test :
                ((d == m) ≡ true) ⊎ ((d == m) ≡ false)
                → entry_at (
                    if d == m
                    then some (new_tag key d permission c.euid n.ps)
                    else tag_at x.system.services m)
                  ≡ (if d == m
                      then some (record { key = key; permission = permission; euid = c.euid })
                      else entry_at (tag_at x.system.services m))
            by_test (inl same) = rw same refl
            by_test (inr other) = rw other refl

    deleted-To : (c : CtlCall) (s' : System Table) (d : ℕ) → Deleted H c x.system s' d → To s'
    unfolding directory
    deleted-To c s' d gone = removes d (entry_of gone.t) (ap entry_at gone.there) at
      where
        at :
            (m : ℕ)
            → entry_at (tag_at s'.services m)
              ≡ (if d == m then none else entry_at (tag_at x.system.services m))
        at m =
            ap (λ ts. entry_at (get_or ts m none)) gone.tags
            ∙ ap entry_at (get_or-set_alive x.system.services.tags d gone.t none m gone.there)
            ∙ by_test (Bool-cases (d == m))
          where
            by_test :
                ((d == m) ≡ true) ⊎ ((d == m) ≡ false)
                → entry_at (if d == m then none else tag_at x.system.services m)
                  ≡ (if d == m then none else entry_at (tag_at x.system.services m))
            by_test (inl same) = rw same refl
            by_test (inr other) = rw other refl

    delete-To : (c : CtlCall) (d : ℕ) → To (delete H c x.system d).0
    unfolding directory
    delete-To c d = elim (Bool-cases ((delete H c x.system d).1 ==ℤ pos 1)) [
      | inl yes_code ↦ deleted-To c _ d (
          delete-Deleted H c x.system _ d v.linked
            (ap (λ code. ((delete H c x.system d).0, code)) ((==ℤ_iff _ (pos 1)).0 yes_code)))
      | inr no_code ↦ stays (λ m.
          ap (λ (s : System Table). entry_at (tag_at s.services m))
            (delete_failure H c x.system _ d _ v.linked (λ e. cc (no_code, (==ℤ_iff _ (pos 1)).1 e))
              refl))
    ]

    abbrev All : Option (Done (System Table)) → Type 0
    All none = Unit
    All (some o) = To o.state

    same-To : To x.system
    same-To = stays (λ d. refl)

    awoken-To :
        (o : Option (Done Services)) → Quiets x.system.services o → All (in_system H x.system o)
    awoken-To none q = tt
    awoken-To (some o) q = named-To o.state q.stays.names

    control-To : (c : CtlCall) (tag command : ℤ) → All (tag_ctl H c x.system tag command)
    unfolding tag_ctl
    control-To c tag command = at_tag (index tag max_tags)
      where
        on_tag : Option ℕ → Option (Done (System Table))
        on_tag none = some (returned x.system einval)
        on_tag (some d) =
            if command ==ℤ tag_awake_all
            then in_system H x.system (awake_all c x.system.services d)
            else if command ==ℤ tag_delete
            then some (returned (delete H c x.system d).0 (delete H c x.system d).1)
            else some (returned x.system einval)

        at_tag : (o : Option ℕ) → All (on_tag o)
        at_tag none = same-To
        at_tag (some d) =
            if-elim All (command ==ℤ tag_awake_all)
              (λ _. awoken-To _ (awake_all-Quiets c x.system.services d))
              (λ _. if-elim All (command ==ℤ tag_delete) (λ _. delete-To c d) (λ _. same-To))

  Step-Change :
      {x y : Threads Table}
      → IsSound H x
      → Step H x y
      → Change (directory x.system) (directory y.system)
  Step-Change {x} v (pick i {s'} lt turn) =
      named-To x v s' (Turn-Route v.shaped (v.known i) turn).keeps.names
  Step-Change {x} v (send c tag level buffer size {o} e) =
      named-To x v o.state
        (subst (Quiets x.system.services) e
          (tag_send-Quiets c x.system.services tag level buffer size)).stays.names
  Step-Change {x} v (control c tag command e) = subst (All x v) e (control-To x v c tag command)
  Step-Change {x} v (get c key command permission ok e) =
      subst (λ (o : System Table × ℤ). Change (directory x.system) (directory o.0)) e
        (Created-To x v c _ permission
          (tag_get-Got H c x.system permission ok key command v.linked))

  -- The system implements the directory. In any interleaving after the module is loaded, each step of
  -- a thread and each call changes the directory as it may be changed or not at all: a tag is added
  -- only at a free descriptor below `MAX_TAGS`, with one of the two permissions and under a key that
  -- no tag has unless the key is private, or one tag is removed. What other threads are doing in
  -- between is not seen.
  pub Step_refines :
      (n : ℕ) (x y : Threads Table)
      → Reach H (start_threads H n) x
      → Step H x y
      → Change (directory x.system) (directory y.system)
  Step_refines n x y reach st = Step-Change (Reach-IsSound H n reach) st

  pub Reach_refines :
      (n : ℕ) {x : Threads Table} → Reach H (start_threads H n) x → History (directory x.system)
  unfolding start_threads start_with directory
  Reach_refines n here = empty (λ d. ap entry_at (get_or-replicate max_tags none d))
  Reach_refines n (later r st) = after (Reach_refines n r) (Step-Change (Reach-IsSound H n r) st)
