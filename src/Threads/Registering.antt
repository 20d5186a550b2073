-- ===== src/Threads/Registering.antt =====
-- Balanced changes of a level's counters, and of the levels that there are.
use tag_aos.Base.{
  ℕ, zero, suc, ◌+◌, ◌-◌, ◌==◌, ◌≡◌, ◌⊎◌, inl, inr, refl, Option, none, some, List, [], ◌∷◌, ◌++◌,
  ℤ, if◌then◌else◌, get_or, arith,
}
use tag_aos.Level.{TagLevel, cell, free_level, new_level}
use tag_aos.Service.{Services, set_level}
use tag_aos.Receive.{Receiver, Pc, renewing, asleep, cleaning, hold_level, release_level, sleep_on}
use tag_aos.Threads.{Counter, tag_waiting, tag_readers, level_waiting, level_readers, stock, share}
use tag_aos.Threads.Balance.{Balance, Backs, get_or-set_alive}

-- A write to the level at `a`, for which the two counters of that level have to be looked at only.
pub set_level-Balance :
    (s : Services) (a : ℕ) (l l' : TagLevel) (p p' : Pc)
    → cell s.levels a ≡ some l
    → ((x : ℕ) → share p (tag_waiting x) ≡ share p' (tag_waiting x))
    → ((x : ℕ) → share p (tag_readers x) ≡ share p' (tag_readers x))
    → ((x : ℕ)
        → (if a == x then l'.waiting else stock s (level_waiting x)) + share p (level_waiting x)
          ≡ stock s (level_waiting x) + share p' (level_waiting x))
    → ((x : ℕ)
        → (if a == x then l'.readers else stock s (level_readers x)) + share p (level_readers x)
          ≡ stock s (level_readers x) + share p' (level_readers x))
    → Balance s p (set_level s a l') p'
unfolding stock
set_level-Balance s a l l' p p' e tw tr lw lr = record {
  books = books;
  tags = refl;
  readers = refl;
}
  where
    books : (c : Counter) → stock (set_level s a l') c + share p c ≡ stock s c + share p' c
    books (tag_waiting x) = omega (arith, tw x)
    books (tag_readers x) = omega (arith, tr x)
    books (level_waiting x) = ground (arith, get_or-set_alive s.levels a l (some l') x e, lw x)
    books (level_readers x) = ground (arith, get_or-set_alive s.levels a l (some l') x e, lr x)

module _ (s : Services) (r : Receiver) (a : ℕ) (l : TagLevel) (e : cell s.levels a ≡ some l) where
  -- Holding the level, not yet asleep.
  pub hold-Balance :
      (code : ℤ) (message : List ℕ)
      → Balance s
          (cleaning r code message)
          (set_level s a (hold_level l))
          (renewing (record r { address = a }))
  unfolding stock share
  hold-Balance code message =
      set_level-Balance s a l (hold_level l) (cleaning r code message)
        (renewing (record r { address = a })) e (λ x. refl) (λ x. refl) (λ x. ground arith)
        (λ x. ground arith)

  pub sleep_on-Balance :
      (code : ℤ) (message : List ℕ)
      → Balance s (cleaning r code message) (sleep_on s r a l).0 (sleep_on s r a l).1
  unfolding stock share sleep_on
  sleep_on-Balance code message =
      set_level-Balance s a l (record (hold_level l) { waiting = l.waiting + 1 })
        (cleaning r code message) (asleep (record r { address = a })) e (λ x. refl) (λ x. refl)
        (λ x. ground arith) (λ x. ground arith)

module _ (s : Services) (r : Receiver) (l : TagLevel) (e : cell s.levels r.address ≡ some l) where
  pub release-Balance :
      (code : ℤ) (message : List ℕ)
      → Backs s (renewing r)
      → Balance s (renewing r) (set_level s r.address (release_level l)) (cleaning r code message)
  unfolding stock share
  release-Balance code message backs =
      set_level-Balance s r.address l (release_level l) (renewing r) (cleaning r code message) e
        (λ x. refl) (λ x. refl) (λ x. ground arith) (λ x. ground (arith, backs (level_readers x)))

  pub rise-Balance :
      (code : ℤ) (message : List ℕ)
      → Backs s (asleep r)
      → Balance s
          (asleep r)
          (set_level s r.address (record (release_level l) { waiting = l.waiting - 1 }))
          (cleaning r code message)
  unfolding stock share
  rise-Balance code message backs =
      set_level-Balance s r.address l (record (release_level l) { waiting = l.waiting - 1 })
        (asleep r) (cleaning r code message) e (λ x. refl) (λ x. refl)
        (λ x. ground (arith, backs (level_waiting x)))
        (λ x. ground (arith, backs (level_readers x)))

  -- Nobody is counted on a level that is freed.
  pub free-Balance :
      (p : Pc)
      → l.waiting ≡ 0
      → l.readers ≡ 0
      → Balance s p (record s { levels = free_level s.levels r.address }) p
  unfolding stock free_level
  free-Balance p waiting readers = record { books = books; tags = refl; readers = refl }
    where
      books :
          (c : Counter)
          → stock (record s { levels = free_level s.levels r.address }) c + share p c
            ≡ stock s c + share p c
      books (tag_waiting x) = refl
      books (tag_readers x) = refl
      books (level_waiting x) = ground (arith, get_or-set_alive s.levels r.address l none x e)
      books (level_readers x) = ground (arith, get_or-set_alive s.levels r.address l none x e)

-- A new level.
append-counts :
    (h : List (Option TagLevel)) (i epoch x : ℕ)
    → (get_or (h ++ some (new_level i epoch) ∷ []) x none ≡ get_or h x none)
      ⊎ ((get_or (h ++ some (new_level i epoch) ∷ []) x none ≡ some (new_level i epoch))
          × (get_or h x none ≡ none))
append-counts [] i epoch zero = inr (refl, refl)
append-counts [] i epoch (suc x) = inl refl
append-counts (c ∷ h) i epoch zero = inl refl
append-counts (c ∷ h) i epoch (suc x) = append-counts h i epoch x

pub append-Balance :
    (s : Services) (i epoch : ℕ) (p : Pc)
    → Balance s p (record s { levels = s.levels ++ some (new_level i epoch) ∷ [] }) p
unfolding stock
append-Balance s i epoch p = record { books = books; tags = refl; readers = refl }
  where
    books :
        (c : Counter)
        → stock (record s { levels = s.levels ++ some (new_level i epoch) ∷ [] }) c + share p c
          ≡ stock s c + share p c
    books (tag_waiting x) = refl
    books (tag_readers x) = refl
    books (level_waiting x) = ground (arith, append-counts s.levels i epoch x)
    books (level_readers x) = ground (arith, append-counts s.levels i epoch x)
