-- ===== src/Threads/Results.antt =====
-- The steps of a thread, and the calls that start one, give a result where no level object that they
-- reach is freed.
use mathlib.Core.Path.{subst}
use tag_aos.Base.{
  ℕ, ◌+◌, ◌==◌, ◌≡◌, refl, sym, ap, ◌∙◌, not, Bool, Option, none, some, List, [], ltb, if-elim,
  get_or, get_or-set_same, set, length, ℤ, pos, negsuc, arith,
}
use tag_aos.Tag.{max_tags, einval, eintr, enomem}
use tag_aos.Level.{TagLevel, cell, create_level}
use tag_aos.Level.Build.{pointer, get_or-append}
use tag_aos.Service.{Tag, Services, returned, tag_at, set_level, index}
use tag_aos.Send.{SendCall, tag_send}
use tag_aos.Send.Delivery.{tag_send_returns}
use tag_aos.Receive.{
  ReceiveCall, RenewCall, Receiver, Pc, done, ◌>>=◌, release_level, leave, release_at, back_out,
  settle, renew_level, renew_tag, receive_renew, receive_wake, tag_receive,
}
use tag_aos.Receive.Enter.{tag_receive_returns}
use tag_aos.Threads.Receive.{moved}
use tag_aos.Threads.Shape.{points-some, IsShaped, Grows}
use tag_aos.Threads.Shape.Moves.{moved-Grows}
use tag_aos.Threads.Shape.Renew.{release_at-Let}

abbrev Returns {ℓ} : {A : Type ℓ} → Option A → Type 0
Returns none = ⊥
Returns (some a) = Unit

pub result {ℓ} : {A : Type ℓ} (o : Option A) → Returns o → (a : A) × (o ≡ some a)
result none r = absurd r
result (some a) r = (a, refl)

pub returns {ℓ} : {A : Type ℓ} (o : Option A) (a : A) → o ≡ some a → Returns o
returns o a e = subst Returns (sym e) tt

leave-Returns :
    (s : Services) (r : Receiver) (t : Tag) (code : ℤ) (message : List ℕ)
    → tag_at s r.tag ≡ some t
    → Returns (leave s r code message)
unfolding leave
leave-Returns s r t code message there = rw there tt

record Free (s : Services) (a : ℕ) : Type 0 where
  s1 : Services
  runs : release_at s a ≡ some s1
  tags : s1.tags ≡ s.tags
  grows : Grows s s1

release_at-Free : (s : Services) (a : ℕ) (l : TagLevel) → cell s.levels a ≡ some l → Free s a
unfolding release_at
release_at-Free s a l alive =
    let e : release_at s a ≡ some (set_level s a (release_level l)) = rw (alive, ◌>>=◌) refl in
    record {
      s1 = set_level s a (release_level l);
      runs = e;
      tags = refl;
      grows = (release_at-Let s (set_level s a (release_level l)) a e).stays.grows;
    }

module _ (s : Services) (r : Receiver) (t : Tag) (l : TagLevel) (there : tag_at s r.tag ≡ some t)
    (alive : cell s.levels r.address ≡ some l) where
  f : Free s r.address
  f = release_at-Free s r.address l alive

  back_out-Returns : (code : ℤ) → Returns (back_out s r code)
  unfolding back_out
  back_out-Returns code =
      rw (f.runs, ◌>>=◌)
        (leave-Returns f.s1 r t code [] (ap (λ ts. get_or ts r.tag none) f.tags ∙ there))

  settle-Returns :
      (c : RenewCall) (old a : ℕ) (u : Tag) (m : TagLevel)
      → cell s.levels a ≡ some m
      → Returns (settle c s r old a u)
  unfolding settle
  settle-Returns c old a u m chosen =
      let (m', still) = f.grows.cells a m chosen in
      rw (f.runs, ◌>>=◌)
        (rw (still, ◌>>=◌)
          (if-elim Returns c.rcu_ok (λ _. tt)
            (λ _.
              leave-Returns _ r (record u { tag_level = set u.tag_level r.level (some old) }) eintr
                []
                (get_or-set_same f.s1.tags r.tag t _
                  (ap (λ ts. get_or ts r.tag none) f.tags ∙ there)))))

  pub receive_wake-Returns : (copy_ok : Bool) → Returns (receive_wake copy_ok s r)
  unfolding receive_wake leave
  receive_wake-Returns copy_ok =
      rw (there, ◌>>=◌) (rw (alive, ◌>>=◌) (if-elim Returns (l.waiting == 1) (λ _. tt) (λ _. tt)))

module _ (s : Services) (r : Receiver) (t : Tag) (l : TagLevel) (there : tag_at s r.tag ≡ some t)
    (alive : cell s.levels r.address ≡ some l) (v : IsShaped s) where
  renew_level-Returns :
      (c : RenewCall) (old : ℕ) (m : TagLevel)
      → pointer t.tag_level r.level ≡ some old
      → cell s.levels old ≡ some m
      → Returns (renew_level c s r t old m)
  unfolding renew_level
  renew_level-Returns c old m leads now =
      if-elim Returns m.ready (λ _. by_memory (create_level c.memory r.level (m.epoch + 1)))
        (λ _. settle-Returns s r t l there alive c old old t m now)
    where
      t' : Tag
      t' = record t { tag_level = set t.tag_level r.level (some (length s.levels)) }

      chosen : Option TagLevel → Option (Services × Pc)
      chosen none = back_out s r enomem
      chosen (some fresh) = settle c (moved s r t fresh) r old (length s.levels) t'

      on_fresh :
          (fresh : TagLevel)
          → (l' : TagLevel) × (cell (moved s r t fresh).levels r.address ≡ some l')
          → Returns (settle c (moved s r t fresh) r old (length s.levels) t')
      on_fresh fresh (l', still) =
          settle-Returns (moved s r t fresh) r t' l'
            (get_or-set_same s.tags r.tag t (some t') there) still c old (length s.levels) t' fresh
            (get_or-append s.levels (some fresh) none (length s.levels) ∙ ground arith)

      by_memory : (o : Option TagLevel) → Returns (chosen o)
      by_memory none = back_out-Returns s r t l there alive enomem
      by_memory (some fresh) = on_fresh fresh ((moved-Grows s r t fresh).cells r.address l alive)

  pub receive_renew-Returns : (c : RenewCall) → Returns (receive_renew c s r)
  unfolding receive_renew renew_tag
  receive_renew-Returns c =
      if-elim Returns (not c.write_lock_ok) (λ _. back_out-Returns s r t l there alive eintr)
        (λ _. rw (there, ◌>>=◌) (by_pointer (pointer t.tag_level r.level) refl))
    where
      chosen : Option ℕ → Option (Services × Pc)
      chosen none = back_out s r einval
      chosen (some old) = do m ← cell s.levels old; renew_level c s r t old m

      by_pointer : (o : Option ℕ) → pointer t.tag_level r.level ≡ o → Returns (chosen o)
      by_pointer none leads = back_out-Returns s r t l there alive einval
      by_pointer (some old) leads =
          let (m, now) =
            v.alive r.tag r.level old (points-some s r.tag r.level old t there leads) in
          rw (now, ◌>>=◌) (renew_level-Returns c old m leads now)

pub on_tag-Returns :
    (c : ReceiveCall) (s : Services) (tag level : ℤ) (has_buffer : Bool) (size : ℕ)
    → IsShaped s
    → Returns (tag_receive c s tag level has_buffer size)
unfolding tag_receive index
on_tag-Returns c s (negsuc d) level has_buffer size v = tt
on_tag-Returns c s (pos d) (negsuc i) has_buffer size v =
    if-elim
      (λ (x : Option ℕ).
        Returns {A = Services × Pc}
          (elim x [ none ↦ some (s, done einval []) | some d ↦ some (s, done einval []) ]))
      (ltb d max_tags) (λ _. tt) (λ _. tt)
on_tag-Returns c s (pos d) (pos i) has_buffer size v =
    let (o, e) =
      tag_receive_returns c s d i has_buffer size
        (λ t a there leads. v.alive d i a (points-some s d i a t there leads)) in
    returns (tag_receive c s (pos d) (pos i) has_buffer size) o e

pub send-Returns :
    (c : SendCall) (s : Services) (tag level : ℤ) (buffer : Option (List ℕ)) (size : ℕ)
    → IsShaped s
    → Returns (tag_send c s tag level buffer size)
unfolding tag_send index
send-Returns c s (negsuc d) level buffer size v = tt
send-Returns c s (pos d) (negsuc i) buffer size v =
    if-elim
      (λ (x : Option ℕ).
        Returns (elim x [ none ↦ some (returned s einval) | some d ↦ some (returned s einval) ]))
      (ltb d max_tags) (λ _. tt) (λ _. tt)
send-Returns c s (pos d) (pos i) buffer size v =
    let (o, e) =
      tag_send_returns c s d i buffer size
        (λ t a there leads. v.alive d i a (points-some s d i a t there leads)) in
    returns (tag_send c s (pos d) (pos i) buffer size) o e
