-- ===== src/Receive/Halves.antt =====
-- The two halves of the wake up in `tag_receive` of tag-module/tag-syscall.c. Between them other threads
-- may run, and the level object is not locked.
use tag_aos.Base.{
  ℕ, zero, suc, ◌-◌, ◌==◌, ◌≡◌, refl, sym, ap, ◌∙◌, Bool, inl, inr, Option, Option-cases, none,
  some, List, [], ◌∷◌, ℤ, get_or-set_same, set, if◌then◌else◌,
}
use tag_aos.Level.{TagLevel, cell}
use tag_aos.Service.{Tag, Services, tag_at, set_level, set_tag}
use tag_aos.Receive.{
  Receiver, Pc, done, cleaning, ◌>>=◌, release_level, leave, release_tag, drop_waiting, wake_code,
  copy_message, release_wake, count_down, receive_wake,
}

set-set {ℓ} : {A : Type ℓ} (xs : List A) (i : ℕ) (v w : A) → set (set xs i v) i w ≡ set xs i w
set-set [] i v w = refl
set-set (x ∷ xs) zero v w = refl
set-set (x ∷ xs) (suc i) v w = ap (◌∷◌ x) (set-set xs i v w)

module _ (copy_ok : Bool) (s : Services) (r : Receiver) (t : Tag) (l : TagLevel)
    (there : tag_at s r.tag ≡ some t) (alive : cell s.levels r.address ≡ some l) where
  abbrev pub released : Services
  released = set_level s r.address (release_level l)

  pub release_wake-runs :
      release_wake copy_ok s r ≡ some (released, copy_message copy_ok r l (wake_code t l))
  unfolding release_wake
  release_wake-runs = rw (there, alive) refl

  -- The object is still there, unlocked.
  pub released_alive : cell released.levels r.address ≡ some (release_level l)
  released_alive = get_or-set_same s.levels r.address l (some (release_level l)) alive

  count_down-runs :
      (code : ℤ) (message : List ℕ)
      → count_down released r code message ≡ (
          if l.waiting == 1
          then some (
            set_level s r.address (record (release_level l) { waiting = l.waiting - 1 }),
            cleaning r code message,
          )
          else some (
            release_tag
                (set_tag
                  (set_level s r.address (record (release_level l) { waiting = l.waiting - 1 }))
                  r.tag
                  (some (drop_waiting t)))
                r.tag,
            done code message,
          ))
  unfolding count_down leave
  count_down-runs code message =
      rw
        (
          released_alive,
          set-set s.levels r.address (some (release_level l))
              (some (record (release_level l) { waiting = l.waiting - 1 })),
          there,
        )
        refl

-- The wake up is its two halves, one after the other.
pub receive_wake_lem :
    (copy_ok : Bool) (s : Services) (r : Receiver)
    → receive_wake copy_ok s r ≡ (release_wake copy_ok s r >>= λ o. count_down o.0 r o.1.0 o.1.1)
unfolding receive_wake release_wake
receive_wake_lem copy_ok s r = elim (Option-cases (tag_at s r.tag)) [
  | inl absent ↦ rw absent refl
  | inr (t, there) ↦ elim (Option-cases (cell s.levels r.address)) [
    | inl freed ↦ rw (there, freed) refl
    | inr (l, alive) ↦
        let (code, message) = copy_message copy_ok r l (wake_code t l) in
        rw (there, alive) (sym (count_down-runs copy_ok s r t l there alive code message))
  ]
]

-- A wake up that gives a result has come through its first half.
pub release_wake-result :
    (copy_ok : Bool) (s : Services) (r : Receiver) (o : Services × Pc)
    → receive_wake copy_ok s r ≡ some o
    → (x : Services × (ℤ × List ℕ)) × (release_wake copy_ok s r ≡ some x)
release_wake-result copy_ok s r o e =
    first (release_wake copy_ok s r) (sym (receive_wake_lem copy_ok s r) ∙ e)
  where
    first :
        (x : Option (Services × (ℤ × List ℕ)))
        → (x >>= λ y. count_down y.0 r y.1.0 y.1.1) ≡ some o
        → (y : Services × (ℤ × List ℕ)) × (x ≡ some y)
    first none e = absurd (cc e)
    first (some y) e = (y, refl)
