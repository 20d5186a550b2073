-- ===== src/Calls/Counted.antt =====
-- The module's reference count is the number of threads inside: what unloading can rely on.
use mathlib.Core.Path.{subst}
use tag_aos.Base.{
  ℕ, zero, suc, ◌+◌, ◌-◌, ◌<◌, ◌≤◌, ◌≡◌, refl, sym, ap, ◌∙◌, Bool, true, false, Option, none, some,
  List, [], ◌∷◌, ℤ, get_or, set, length, replicate, arith,
}
use tag_aos.Hashmap.{Hashmap}
use tag_aos.Tag.{tag_compare}
use tag_aos.Service.{System}
use tag_aos.Receive.{Pc, done, renewing, asleep, cleaning, ◌>>=◌, tag_receive}
use tag_aos.Send.{tag_send}
use tag_aos.Ctl.{tag_ctl}
use tag_aos.Threads.{
  Counter, stock, share, idle, enter, pick, send, control, get, Turn, Reach, here, later,
  start_threads,
}
use tag_aos.Threads.Total.{total-eq-zero}
use tag_aos.Threads.Steps.{Reach-IsSound}
use tag_aos.Calls.{
  is_inside, put_after, sys_tag_receive, sys_tag_send, sys_tag_get, sys_tag_ctl, Loaded, Call,
  call_receive, call_on, call_send, call_control, call_get, Calls, no_call, then_call, start_calls,
}

abbrev one_if : Bool → ℕ
one_if true = 1
one_if false = 0

-- How many threads are inside.
unfoldable pub running : List Pc → ℕ
running [] = 0
running (p ∷ ps) = one_if (is_inside p) + running ps

running-set :
    (ps : List Pc) (i : ℕ) (p : Pc)
    → i < length ps
    → running (set ps i p) + one_if (is_inside (get_or ps i idle))
      ≡ running ps + one_if (is_inside p)
unfolding running
running-set [] i p h = absurd (omega arith)
running-set (q ∷ ps) zero p h = omega arith
running-set (q ∷ ps) (suc i) p h = omega (arith, running-set ps i p (omega arith))

running-has : (ps : List Pc) (i : ℕ) → one_if (is_inside (get_or ps i idle)) ≤ running ps
unfolding running
running-has [] i = omega arith
running-has (p ∷ ps) zero = omega arith
running-has (p ∷ ps) (suc i) = omega (arith, running-has ps i)

running-idle : (n : ℕ) → running (replicate n idle) ≡ 0
unfolding running
running-idle zero = refl
running-idle (suc n) = omega (arith, running-idle n)

put_after_lem : (refs : ℕ) (p : Pc) → put_after (refs + 1) p ≡ refs + one_if (is_inside p)
unfolding put_after
put_after_lem refs (done code message) = omega arith
put_after_lem refs (renewing r) = refl
put_after_lem refs (asleep r) = refl
put_after_lem refs (cleaning r code message) = refl

get_or-running : (ps : List Pc) (i : ℕ) → running ps ≡ 0 → is_inside (get_or ps i idle) ≡ false
unfolding running
get_or-running [] i e = refl
get_or-running (p ∷ ps) zero e = by_state (is_inside p) e
  where
    by_state : (b : Bool) → one_if b + running ps ≡ 0 → b ≡ false
    by_state true e = absurd (omega (arith, e))
    by_state false e = refl
get_or-running (p ∷ ps) (suc i) e = get_or-running ps i (omega (arith, e))

-- How the count goes on with a thread that was inside.
put_after-inside :
    (refs : ℕ) (p : Pc) → 1 ≤ refs → put_after refs p + 1 ≡ refs + one_if (is_inside p)
unfolding put_after
put_after-inside refs (done code message) le = omega arith
put_after-inside refs (renewing r) le = refl
put_after-inside refs (asleep r) le = refl
put_after-inside refs (cleaning r code message) le = refl

-- A thread that is not inside is outside, and adds to no counter.
outside : (p : Pc) → is_inside p ≡ false → (code : ℤ) × (message : List ℕ) × (p ≡ done code message)
outside (done code message) e = (code, message, refl)
outside (renewing r) e = absurd (cc e)
outside (asleep r) e = absurd (cc e)
outside (cleaning r code message) e = absurd (cc e)

share-outside : (p : Pc) (c : Counter) → is_inside p ≡ false → share p c ≡ 0
unfolding share
share-outside (done code message) c e = refl
share-outside (renewing r) c e = absurd (cc e)
share-outside (asleep r) c e = absurd (cc e)
share-outside (cleaning r code message) c e = absurd (cc e)

-- What a wrapper that has its reference does: the call, and a count.
let_in {ℓ} :
    {A : Type ℓ} (o : Option A) (f : A → ℕ) (n : ℕ) (a : A)
    → ◌>>=◌ {B = ℕ × A} o (λ x. some (f x, x)) ≡ some (n, a)
    → (o ≡ some a) × (n ≡ f a)
let_in none f n a e = absurd (cc e)
let_in (some x) f n a e =
    let same : x ≡ a = cc e in let count : f x ≡ n = cc e in (ap some same, sym count ∙ ap f same)

module _ (H : Hashmap tag_compare) where
  open H use {Table}

  -- The threads have come in by steps of theirs, and the count is right.
  record IsCounted (n : ℕ) (x : Loaded Table) : Type 0 where
    reach : Reach H (start_threads H n) x.threads
    counted : x.refs ≡ running x.threads.pcs

  Call-IsCounted : (n : ℕ) {x y : Loaded Table} → Call H x y → IsCounted n x → IsCounted n y
  unfolding sys_tag_receive sys_tag_send sys_tag_get sys_tag_ctl
  Call-IsCounted n {x} (call_receive i c tag level has_buffer size {n = m} {s' = s'} {p = p} lt q e)
        v =
      let (runs, count) =
        let_in (tag_receive c x.threads.system.services tag level has_buffer size)
          (λ o. put_after (x.refs + 1) o.1) m (s', p) e in
      record {
        reach = later v.reach (
            pick i lt (
              subst (λ q. Turn x.threads.system.services s' q p) (sym q)
                (enter c tag level has_buffer size runs)));
        counted = omega (
          arith,
          count,
          put_after_lem x.refs p,
          v.counted,
          running-set x.threads.pcs i p lt,
          ap (λ q. one_if (is_inside q)) q,
        );
      }
  Call-IsCounted n {x} (call_on i {q = q} {p = p} {s' = s'} lt at inside turn) v =
      let was : one_if (is_inside (get_or x.threads.pcs i idle)) ≡ 1 = rw (at, inside) refl in
      let some_in : one_if (is_inside (get_or x.threads.pcs i idle)) ≤ running x.threads.pcs =
        running-has x.threads.pcs i in
      record {
        reach =
            later v.reach
              (pick i lt (subst (λ q. Turn x.threads.system.services s' q p) (sym at) turn));
        counted = omega (
          arith,
          v.counted,
          put_after-inside x.refs p (omega (arith, v.counted, was, some_in)),
          was,
          running-set x.threads.pcs i p lt,
        );
      }
  Call-IsCounted n {x} (call_send c tag level buffer size {n = m} {o = o} e) v =
      let (runs, count) =
        let_in (tag_send c x.threads.system.services tag level buffer size) (λ o. x.refs + 1 - 1) m
          o e in
      record {
        reach = later v.reach (send c tag level buffer size runs);
        counted = omega (arith, count, v.counted);
      }
  Call-IsCounted n {x} (call_control c tag command {n = m} {o = o} e) v =
      let (runs, count) =
        let_in (tag_ctl H c x.threads.system tag command) (λ o. x.refs + 1 - 1) m o e in
      record {
        reach = later v.reach (control c tag command runs);
        counted = omega (arith, count, v.counted);
      }
  Call-IsCounted n {x} (call_get c key command permission {n = m} {o = o} ok e) v = record {
    reach =
        later v.reach
          (get c key command permission ok (ap (λ (p : ℕ × (System Table × ℤ)). p.1) e));
    counted = omega (arith, ap (λ (p : ℕ × (System Table × ℤ)). p.0) e, v.counted);
  }

  Calls-IsCounted : (n : ℕ) {x : Loaded Table} → Calls H (start_calls H n) x → IsCounted n x
  unfolding start_calls start_threads
  Calls-IsCounted n no_call = record { reach = here; counted = sym (running-idle n) }
  Calls-IsCounted n (then_call r c) = Call-IsCounted n c (Calls-IsCounted n r)

  -- What unloading relies on: in every state that system calls lead to after loading, if the module's
  -- reference count is 0, then no thread is inside `tag_receive`, no tag and no level object counts a
  -- waiting thread, and no lock of either has a reader.
  pub unload_is_quiet :
      (n : ℕ) (x : Loaded Table)
      → Calls H (start_calls H n) x
      → x.refs ≡ 0
      → ((i : ℕ)
          → (code : ℤ) × (message : List ℕ) × (get_or x.threads.pcs i idle ≡ done code message))
        × ((c : Counter) → stock x.threads.system.services c ≡ 0)
  unload_is_quiet n x calls unused = (
    λ i. outside (get_or x.threads.pcs i idle) (out i),
    (λ c.
        (Reach-IsSound H n v.reach).booked c
        ∙ total-eq-zero x.threads.pcs c
            (λ i. share-outside (get_or x.threads.pcs i idle) c (out i))),
  )
    where
      v : IsCounted n x
      v = Calls-IsCounted n calls

      out : (i : ℕ) → is_inside (get_or x.threads.pcs i idle) ≡ false
      out i = get_or-running x.threads.pcs i (sym v.counted ∙ unused)
