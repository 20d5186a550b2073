-- ===== src/Threads/Sound.antt =====
-- The invariant of the whole system, and that every step keeps it.
use mathlib.Core.Path.{subst}
use tag_aos.Base.{
  ℕ, ◌<◌, ◌==◌, ◌≡◌, refl, sym, ap, ◌∙◌, ◌⊎◌, inl, inr, true, false, Bool-cases, some,
  if◌then◌else◌, get_or, get_or-set, set, length, arith,
}
use tag_aos.Hashmap.{Hashmap}
use tag_aos.Tag.{tag_compare}
use tag_aos.Level.Build.{pointer}
use tag_aos.Registry.Clear.{Owns}
use tag_aos.Service.{Tag, Services, System, tag_at, IsSized}
use tag_aos.Receive.{Receiver, Pc, done, renewing, asleep, cleaning}
use tag_aos.Invariant.{IsLinked}
use tag_aos.Threads.{
  Counter, tag_readers, level_waiting, level_readers, stock, share, one_at, idle, Turn, enter,
  renew, wake, clean, Threads, with_services, total,
}
use tag_aos.Threads.Total.{share-le-total, total-set, total-eq-zero, total-waiting-le}
use tag_aos.Threads.Balance.{Balance, Backs}
use tag_aos.Threads.Receive.{IsPaired, Settles, receive_renew-Settles}
use tag_aos.Threads.Turns.{tag_receive-Settles, receive_wake-Settles, receive_clean-Settles}
use tag_aos.Threads.Shape.{points-some, IsShaped, Knows, KnowsPc, Name, SameNames, same_name}
use tag_aos.Threads.Shape.Renew.{Route, Routes, receive_renew-Routes}
use tag_aos.Threads.Shape.Turns.{tag_receive-Routes, receive_wake-Routes, receive_clean-Routes}
use tag_aos.Threads.Tags.{Sits}

Turn-Balance :
    {s s' : Services} {p p' : Pc}
    → IsPaired s
    → Backs s p
    → ((a : ℕ) → stock s (level_readers a) ≡ 0 → stock s (level_waiting a) ≡ 0)
    → Turn s s' p p'
    → Balance s p s' p'
Turn-Balance {s} even backs held (enter c tag level has_buffer size {code} {message} e) =
    subst (Settles s (done code message)) e
      (tag_receive-Settles c s even code message tag level has_buffer size)
Turn-Balance {s} even backs held (renew c {r} e) =
    subst (Settles s (renewing r)) e (receive_renew-Settles s r even backs c)
Turn-Balance {s} even backs held (wake copy_ok {r} e) =
    subst (Settles s (asleep r)) e (receive_wake-Settles s r even copy_ok backs)
Turn-Balance {s} even backs held (clean {r} {code} {message} unread e) =
    subst (Settles s (cleaning r code message)) e
      (receive_clean-Settles s r even code message backs (held r.address unread) unread)

pub Turn-Route :
    {s s' : Services} {p p' : Pc} → IsShaped s → KnowsPc s p → Turn s s' p p' → Route s s' p'
Turn-Route {s} v k (enter c tag level has_buffer size e) =
    subst (Routes s) e (tag_receive-Routes c s v tag level has_buffer size)
Turn-Route {s} v k (renew c {r} e) = subst (Routes s) e (receive_renew-Routes s r v c)
Turn-Route {s} v k (wake copy_ok {r} e) = subst (Routes s) e (receive_wake-Routes s r v k copy_ok)
Turn-Route {s} v k (clean {r} {code} {message} unread e) =
    subst (Routes s) e (receive_clean-Routes s r v k code message)

KnowsPc-map :
    (s s' : Services) (p : Pc)
    → ((r : Receiver) → Knows s r → Knows s' r)
    → KnowsPc s p
    → KnowsPc s' p
KnowsPc-map s s' (done code message) f k = tt
KnowsPc-map s s' (renewing r) f k = f r k
KnowsPc-map s s' (asleep r) f k = f r k
KnowsPc-map s s' (cleaning r code message) f k = f r k

module _ (H : Hashmap tag_compare) where
  open H use {Table}

  -- The tags and the registry agree; every counter is the number of threads that it stands for;
  -- pointers are alive and apart; and a thread inside has registered with an object that no other tag
  -- and level lead to.
  pub record IsSound (x : Threads Table) : Type 0 where
    pub linked : IsLinked H x.system
    pub booked : (c : Counter) → stock x.system.services c ≡ total x.pcs c
    pub shaped : IsShaped x.system.services
    pub known : (i : ℕ) → KnowsPc x.system.services (get_or x.pcs i idle)

  pub renamed-IsLinked :
      (s : System Table) (s' : Services)
      → IsLinked H s
      → IsSized s'
      → SameNames s.services s'
      → IsLinked H (record s { services = s' })
  renamed-IsLinked s s' v z names = record {
    consistent = v.consistent;
    sized = z;
    placed = λ d t' h.
        let (t, there, same) = same_name s.services s' d t' names h in
        ap (λ (n : Name). n.tag_key) same ∙ v.placed d t there;
    owned = λ d t' h.
        let (t, there, same) = same_name s.services s' d t' names h in
        subst (λ (n : Name). Owns H s.registry n.key d) (sym same) (v.owned d t there);
  }

  module _ (x : Threads Table) (v : IsSound x) where
    paired : IsPaired x.system.services
    paired = v.linked.sized.tags ∙ sym v.linked.sized.readers

    pub backed : (i : ℕ) → Backs x.system.services (get_or x.pcs i idle)
    backed i c = omega (arith, share-le-total x.pcs i c, v.booked c)

    unheld :
        (a : ℕ)
        → stock x.system.services (level_readers a) ≡ 0
        → stock x.system.services (level_waiting a) ≡ 0
    unheld a e =
        omega
          (arith, total-waiting-le x.pcs a, v.booked (level_readers a), v.booked (level_waiting a))

    pub IsSized-by : {s' : Services} {p p' : Pc} → Balance x.system.services p s' p' → IsSized s'
    IsSized-by b = record {
      tags = b.tags ∙ v.linked.sized.tags;
      readers = b.readers ∙ v.linked.sized.readers;
    }

    -- A step of the thread `i`.
    pub pick-IsSound :
        (i : ℕ) (s' : Services) (p : Pc)
        → i < length x.pcs
        → Turn x.system.services s' (get_or x.pcs i idle) p
        → IsSound (with_services x s' (set x.pcs i p))
    pick-IsSound i s' p lt turn = record {
      linked = renamed-IsLinked x.system s' v.linked (IsSized-by b) r.keeps.names;
      booked = λ c. omega (arith, b.books c, v.booked c, total-set x.pcs i p c lt);
      shaped = r.keeps.shaped;
      known = λ j.
          subst (KnowsPc s') (sym (get_or-set x.pcs i j p idle lt)) (each j (Bool-cases (i == j)));
    }
      where
        b : Balance x.system.services (get_or x.pcs i idle) s' p
        b = Turn-Balance paired (backed i) unheld turn

        r : Route x.system.services s' p
        r = Turn-Route v.shaped (v.known i) turn

        each :
            (j : ℕ)
            → ((i == j) ≡ true) ⊎ ((i == j) ≡ false)
            → KnowsPc s' (if i == j then p else get_or x.pcs j idle)
        each j (inl same) = rw same r.knows
        each j (inr other) =
            rw other
              (KnowsPc-map x.system.services s' (get_or x.pcs j idle) r.keeps.knows (v.known j))

    -- A call that is not a receiver's.
    pub other-IsSound :
        (s' : System Table)
        → IsLinked H s'
        → Sits x.system.services s'.services
        → IsSound (record { system = s'; pcs = x.pcs })
    other-IsSound s' linked sits = record {
      linked = linked;
      booked = λ c. omega (arith, (sits.balance idle).books c, v.booked c);
      shaped = sits.shaped;
      known = λ i.
          KnowsPc-map x.system.services s'.services (get_or x.pcs i idle) sits.knows (v.known i);
    }

    -- With no reader of its lock, a tag leads to no object that anybody is registered with.
    pub unused :
        (d i a : ℕ) (t : Tag)
        → tag_at x.system.services d ≡ some t
        → get_or x.system.services.readers d 0 ≡ 0
        → pointer t.tag_level i ≡ some a
        → (stock x.system.services (level_waiting a) ≡ 0)
          × (stock x.system.services (level_readers a) ≡ 0)
    unfolding stock share
    unused d i a t there idle_tag leads = (unheld a nobody, nobody)
      where
        elsewhere :
            (r : Receiver) → Knows x.system.services r → one_at r.tag d ≡ 0 → one_at r.address a ≡ 0
        elsewhere r k e = elim (Bool-cases (r.address == a)) [
          | inr other ↦ ground arith
          | inl same ↦
              let at : a ≡ r.address = ground arith in
              let led = points-some x.system.services d i r.address t there (leads ∙ ap some at) in
              absurd (ground (arith, (k.own d i led).0))
        ]

        apart :
            (p : Pc)
            → KnowsPc x.system.services p
            → share p (tag_readers d) ≡ 0
            → share p (level_readers a) ≡ 0
        apart (done code message) k e = refl
        apart (renewing r) k e = elsewhere r k e
        apart (asleep r) k e = elsewhere r k e
        apart (cleaning r code message) k e = refl

        outside : (j : ℕ) → share (get_or x.pcs j idle) (tag_readers d) ≡ 0
        outside j =
            let books : get_or x.system.services.readers d 0 ≡ total x.pcs (tag_readers d) =
              v.booked (tag_readers d) in
            omega (arith, share-le-total x.pcs j (tag_readers d), books)

        nobody : stock x.system.services (level_readers a) ≡ 0
        nobody =
            v.booked (level_readers a)
            ∙ total-eq-zero x.pcs (level_readers a)
                (λ j. apart (get_or x.pcs j idle) (v.known j) (outside j))
