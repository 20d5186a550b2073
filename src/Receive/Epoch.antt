-- ===== src/Receive/Epoch.antt =====
-- The part of `tag_receive` that moves a level to a new epoch.
use mathlib.Core.Path.{subst}
use tag_aos.Base.{
  ℕ, ◌+◌, ◌<◌, ◌≡◌, refl, sym, ap, ◌∙◌, inl, inr, arith, true, not, Option, none, some, [], ◌∷◌,
  ◌++◌, ◌==◌, if◌then◌else◌, if-elim, Option-cases, set, length, get_or-set, get_or-set_same,
  length-append, length-set,
}
use tag_aos.Tag.{einval, eintr}
use tag_aos.Level.{TagLevel, Heap, cell, new_level, create_level}
use tag_aos.Level.Build.{pointer, get_or-append}
use tag_aos.Service.{Tag, Services, tag_at}
use tag_aos.Receive.{
  Receiver, Pc, asleep, release_level, hold_level, release_at, RenewCall, settle, renew_level,
  renew_tag, receive_renew, sleep_on, ◌>>=◌, bind-elim, back_out,
}
use tag_aos.Receive.Clean.{alive-inside}
use tag_aos.Receive.Renewed.{SleepsOnNewest, Renewed, leave-Renewed, renew_level-Renewed}

receive_renew-Renewed :
    (c : RenewCall) (s : Services) (r : Receiver) → Renewed (receive_renew c s r)
unfolding receive_renew renew_tag back_out
receive_renew-Renewed c s r =
    if-elim Renewed (not c.write_lock_ok)
      (λ _. bind-elim Renewed (release_at s r.address) _ tt (λ s1 e. leave-Renewed s1 r eintr []))
      (λ _. bind-elim Renewed (tag_at s r.tag) _ tt (λ t there.
        elim (Option-cases (pointer t.tag_level r.level)) [
          | inl no_level ↦ subst Renewed (sym (ap (chosen t) no_level)) (
              bind-elim Renewed (release_at s r.address) _ tt
                (λ s1 e. leave-Renewed s1 r einval []))
          | inr (old, points) ↦ subst Renewed (sym (ap (chosen t) points)) (
              bind-elim Renewed (cell s.levels old) _ tt
                (λ l alive. renew_level-Renewed c s r t old l there points alive))
        ]))
  where
    chosen : Tag → Option ℕ → Option (Services × Pc)
    chosen t none = back_out s r einval
    chosen t (some old) = do l ← cell s.levels old; renew_level c s r t old l

-- A receiver that found a message it is too late for, and sleeps after the second look, sleeps on the
-- level that its tag and level lead to now, which has no message, counts it, and is held by it: the
-- next send finds it.
pub receive_renew_sleeps :
    (c : RenewCall) (s s' : Services) (r r' : Receiver)
    → receive_renew c s r ≡ some (s', asleep r')
    → SleepsOnNewest s' r'
receive_renew_sleeps c s s' r r' e = subst Renewed e (receive_renew-Renewed c s r)

pub receive_renew_fresh :
    (c : RenewCall) (s : Services) (r : Receiver) (t : Tag) (old : ℕ) (l here : TagLevel)
    → tag_at s r.tag ≡ some t
    → pointer t.tag_level r.level ≡ some old
    → cell s.levels old ≡ some l
    → l.ready ≡ true
    → cell s.levels r.address ≡ some here
    → c.write_lock_ok ≡ true
    → c.memory.level_ok r.level ≡ true
    → c.memory.buffer_ok r.level ≡ true
    → c.rcu_ok ≡ true
    → (s' : Services) × (receive_renew c s r
        ≡ some (s', asleep (record r { address = length s.levels })))
      × (tag_at s' r.tag
          ≡ some (record t { tag_level = set t.tag_level r.level (some (length s.levels)) }))
      × (cell s'.levels (length s.levels)
          ≡ some (record (new_level r.level (l.epoch + 1)) { readers = 1; waiting = 1 }))
      × ((x : ℕ)
          → x < length s.levels
          → cell s'.levels x
            ≡ (if r.address == x then some (release_level here) else cell s.levels x))
unfolding receive_renew renew_tag renew_level settle sleep_on release_at create_level
receive_renew_fresh c s r t old l here there points alive full on write_ok level_ok buffer_ok rcu =
    (
      behind,
      rw (write_ok, there, ◌>>=◌)
          (rw points (
            rw (alive, ◌>>=◌)
              (rw (full, level_ok, buffer_ok) (rw found (rw chosen (rw rcu refl)))))),
      get_or-set_same s.tags r.tag t _ there,
      get_or-set_same released n0 fresh _ chosen,
      others,
    )
  where
    n0 : ℕ
    n0 = length s.levels

    fresh : TagLevel
    fresh = new_level r.level (l.epoch + 1)

    grown : Heap
    grown = s.levels ++ some fresh ∷ []

    released : Heap
    released = set grown r.address (some (release_level here))

    behind : Services
    behind = record s {
      tags = set s.tags r.tag (some (record t { tag_level = set t.tag_level r.level (some n0) }));
      levels = set released n0 (some (record (hold_level fresh) { waiting = 1 }));
    }

    inside : r.address < n0
    inside = alive-inside s.levels r.address here on

    grows : length grown ≡ n0 + 1
    grows = length-append s.levels (some fresh ∷ []) ∙ omega arith

    found : cell grown r.address ≡ some here
    found = get_or-append s.levels (some fresh) none r.address ∙ ground (arith, inside, on)

    chosen : cell released n0 ≡ some fresh
    chosen =
        get_or-set grown r.address n0 (some (release_level here)) none
          (omega (arith, inside, grows))
        ∙ ground (arith, inside, get_or-append s.levels (some fresh) none n0)

    others :
        (x : ℕ)
        → x < n0
        → cell behind.levels x
          ≡ (if r.address == x then some (release_level here) else cell s.levels x)
    others x lt =
        get_or-set released n0 x _ none
          (omega (arith, grows, length-set grown r.address (some (release_level here))))
        ∙ ground (
          arith,
          lt,
          get_or-set grown r.address x (some (release_level here)) none
              (omega (arith, inside, grows)),
          get_or-append s.levels (some fresh) none x,
        )
