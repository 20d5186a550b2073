-- ===== src/Threads/Receive.antt =====
-- The steps of `tag_receive` are balanced.
use tag_aos.Base.{
  ℕ, zero, suc, ◌+◌, ◌<◌, ◌≡◌, refl, sym, ap, ◌∙◌, not, Option, none, some, List, [], ◌∷◌, ◌++◌, ℤ,
  pos, if-elim, Option-cases, inl, inr, get_or, get_or-set_same, set, length, arith,
}
use mathlib.Core.Path.{subst}
use tag_aos.Tag.{einval, eintr, enomem}
use tag_aos.Level.{TagLevel, Memory, cell, create_level, new_level}
use tag_aos.Level.Build.{pointer}
use tag_aos.Service.{Tag, Services, tag_at, set_tag}
use tag_aos.Receive.{
  RenewCall, Receiver, Pc, renewing, cleaning, ◌>>=◌, bind-elim, leave, release_at, back_out,
  settle, renew_level, renew_tag, receive_renew,
}
use tag_aos.Threads.Balance.{
  Balance, Backs, Balance-Backs, Balance-trans, same_tag-Balance, part-Balance,
}
use tag_aos.Threads.Registering.{sleep_on-Balance, release-Balance, append-Balance}

-- Each tag has its lock.
abbrev pub IsPaired : Services → Type 0
IsPaired s = length s.tags ≡ length s.readers

abbrev pub Settles : Services → Pc → Option (Services × Pc) → Type 0
Settles s p none = Unit
Settles s p (some (s', p')) = Balance s p s' p'

pub follow :
    {s s1 : Services} {p q : Pc} (o : Option (Services × Pc))
    → Balance s p s1 q
    → Settles s1 q o
    → Settles s p o
follow none b rest = tt
follow (some (s', p')) b rest = Balance-trans b rest

pub get_or-lt {ℓ} :
    {A : Type ℓ} (xs : List (Option A)) (i : ℕ) (x : A) → get_or xs i none ≡ some x → i < length xs
get_or-lt [] i x h = absurd (ground arith)
get_or-lt (y ∷ ys) zero x h = omega arith
get_or-lt (y ∷ ys) (suc i) x h = omega (arith, get_or-lt ys i x h)

pub Balance-IsPaired : {s s' : Services} {p p' : Pc} → Balance s p s' p' → IsPaired s → IsPaired s'
Balance-IsPaired b even = omega (arith, b.tags, b.readers)

pub leave-Settles :
    (s : Services) (r : Receiver) (code code' : ℤ) (message message' : List ℕ)
    → IsPaired s
    → Backs s (cleaning r code message)
    → Settles s (cleaning r code message) (leave s r code' message')
unfolding leave
leave-Settles s r code code' message message' even backs =
    bind-elim (Settles s (cleaning r code message)) (tag_at s r.tag) _ tt (λ t there.
      part-Balance s r t code code' message message' there
        (omega (arith, get_or-lt s.tags r.tag t there)) backs)

record Released (s : Services) (r : Receiver) (s1 : Services) : Type 0 where
  balance : Balance s (renewing r) s1 (cleaning r (pos 0) [])
  tags : s1.tags ≡ s.tags

release_at-Released :
    (s s1 : Services) (r : Receiver)
    → Backs s (renewing r)
    → release_at s r.address ≡ some s1
    → Released s r s1
unfolding release_at
release_at-Released s s1 r backs e = subst Frees e (
    bind-elim Frees (cell s.levels r.address) _ tt
      (λ l alive. record { balance = release-Balance s r l alive (pos 0) [] backs; tags = refl }))
  where
    Frees : Option Services → Type 0
    Frees none = Unit
    Frees (some s1) = Released s r s1

module _ (s : Services) (r : Receiver) (even : IsPaired s) (backs : Backs s (renewing r)) where
  back_out-Settles : (code : ℤ) → Settles s (renewing r) (back_out s r code)
  unfolding back_out
  back_out-Settles code = bind-elim (Settles s (renewing r)) (release_at s r.address) _ tt (λ s1 e.
      let out = release_at-Released s s1 r backs e in
      follow (leave s1 r code []) out.balance (
        leave-Settles s1 r (pos 0) code [] [] (Balance-IsPaired out.balance even)
          (Balance-Backs out.balance backs)))

  settle-Settles :
      (c : RenewCall) (old a : ℕ) (t : Tag)
      → tag_at s r.tag ≡ some t
      → Settles s (renewing r) (settle c s r old a t)
  unfolding settle
  settle-Settles c old a t there =
      bind-elim (Settles s (renewing r)) (release_at s r.address) _ tt (λ s1 e.
        bind-elim (Settles s (renewing r)) (cell s1.levels a) _ tt (λ l alive.
          let out = release_at-Released s s1 r backs e in
          let there1 = ap (λ ts. get_or ts r.tag none) out.tags ∙ there in
          let back = record t { tag_level = set t.tag_level r.level (some old) } in
          let undone =
            Balance-trans out.balance
              (same_tag-Balance s1 r.tag t back (cleaning r (pos 0) []) there1 refl) in
          if-elim (Settles s (renewing r)) c.rcu_ok
            (λ _. Balance-trans out.balance (sleep_on-Balance s1 r a l alive (pos 0) []))
            (λ _. follow (leave (set_tag s1 r.tag (some back)) r eintr []) undone (
              leave-Settles (set_tag s1 r.tag (some back)) r (pos 0) eintr [] []
                (Balance-IsPaired undone even) (Balance-Backs undone backs)))))

create_level-new :
    (m : Memory) (i epoch : ℕ) (l : TagLevel)
    → create_level m i epoch ≡ some l
    → l ≡ new_level i epoch
unfolding create_level
create_level-new m i epoch l e =
    subst New e (
      if-elim New (m.level_ok i) (λ _. if-elim New (m.buffer_ok i) (λ _. refl) (λ _. tt)) (λ _. tt))
  where
    New : Option TagLevel → Type 0
    New none = Unit
    New (some l) = l ≡ new_level i epoch

-- The pointer moves to a new level, at the end of the memory.
abbrev pub moved : Services → Receiver → Tag → TagLevel → Services
moved s r t fresh = record s {
  levels = s.levels ++ some fresh ∷ [];
  tags =
      set s.tags r.tag
        (some (record t { tag_level = set t.tag_level r.level (some (length s.levels)) }));
}

module _ (s : Services) (r : Receiver) (even : IsPaired s) (backs : Backs s (renewing r)) where
  moved-Balance :
      (t : Tag) (fresh : TagLevel) (epoch : ℕ)
      → tag_at s r.tag ≡ some t
      → fresh ≡ new_level r.level epoch
      → Balance s (renewing r) (moved s r t fresh) (renewing r)
  moved-Balance t fresh epoch there e = rw e (
      Balance-trans (append-Balance s r.level epoch (renewing r)) (
        same_tag-Balance (record s { levels = s.levels ++ some (new_level r.level epoch) ∷ [] })
          r.tag t (record t { tag_level = set t.tag_level r.level (some (length s.levels)) })
          (renewing r) there refl))

  renew_level-Settles :
      (c : RenewCall) (t : Tag) (old : ℕ) (l : TagLevel)
      → tag_at s r.tag ≡ some t
      → Settles s (renewing r) (renew_level c s r t old l)
  unfolding renew_level
  renew_level-Settles c t old l there =
      if-elim (Settles s (renewing r)) l.ready
        (λ _. elim (Option-cases (create_level c.memory r.level (l.epoch + 1))) [
          | inl no_memory ↦
              subst (Settles s (renewing r)) (sym (ap chosen no_memory))
                (back_out-Settles s r even backs enomem)
          | inr (fresh, e) ↦
              subst (Settles s (renewing r)) (sym (ap chosen e))
                (on_fresh fresh (create_level-new c.memory r.level (l.epoch + 1) fresh e))
        ])
        (λ _. settle-Settles s r even backs c old old t there)
    where
      t' : Tag
      t' = record t { tag_level = set t.tag_level r.level (some (length s.levels)) }

      chosen : Option TagLevel → Option (Services × Pc)
      chosen none = back_out s r enomem
      chosen (some fresh) = settle c (moved s r t fresh) r old (length s.levels) t'

      on_fresh :
          (fresh : TagLevel)
          → fresh ≡ new_level r.level (l.epoch + 1)
          → Settles s (renewing r) (settle c (moved s r t fresh) r old (length s.levels) t')
      on_fresh fresh new =
          let b = moved-Balance t fresh (l.epoch + 1) there new in
          follow (settle c (moved s r t fresh) r old (length s.levels) t') b (
            settle-Settles (moved s r t fresh) r (Balance-IsPaired b even) (Balance-Backs b backs) c
              old (length s.levels) t' (get_or-set_same s.tags r.tag t (some t') there))

  pub receive_renew-Settles : (c : RenewCall) → Settles s (renewing r) (receive_renew c s r)
  unfolding receive_renew renew_tag
  receive_renew-Settles c =
      if-elim (Settles s (renewing r)) (not c.write_lock_ok)
        (λ _. back_out-Settles s r even backs eintr)
        (λ _. bind-elim (Settles s (renewing r)) (tag_at s r.tag) _ tt (λ t there.
          elim (Option-cases (pointer t.tag_level r.level)) [
            | inl no_level ↦
                subst (Settles s (renewing r)) (sym (ap (chosen t) no_level))
                  (back_out-Settles s r even backs einval)
            | inr (old, points) ↦ subst (Settles s (renewing r)) (sym (ap (chosen t) points)) (
                bind-elim (Settles s (renewing r)) (cell s.levels old) _ tt
                  (λ l alive. renew_level-Settles c t old l there))
          ]))
    where
      chosen : Tag → Option ℕ → Option (Services × Pc)
      chosen t none = back_out s r einval
      chosen t (some old) = do l ← cell s.levels old; renew_level c s r t old l
