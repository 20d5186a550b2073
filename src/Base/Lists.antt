-- ===== src/Base/Lists.antt =====
-- C arrays as lists, measured and indexed by native numbers, under the library's names.
use Prim.Native.Nat.{ℕ, zero, suc, ◌+◌, ◌≤◌, ◌<◌, min}
use mathlib.Core.Path.{◌≡◌, refl, ap}
use mathlib.Core.List.{List, [], ◌∷◌, ◌++◌}
use mathlib.Core.Option.{Option, none, some}
use native.Mathlib.Omega.{arith}
use tag_aos.Base.Tests.{◌==◌, if◌then◌else◌}

module _ {ℓ} {A : Type ℓ} where
  abbrev pub length : List A → ℕ
  length [] = 0
  length (x ∷ xs) = suc (length xs)

  abbrev pub get_or : List A → ℕ → A → A
  get_or [] i d = d
  get_or (x ∷ xs) zero d = x
  get_or (x ∷ xs) (suc i) d = get_or xs i d

  -- A write out of bounds changes nothing.
  abbrev pub set : List A → ℕ → A → List A
  set [] i v = []
  set (x ∷ xs) zero v = v ∷ xs
  set (x ∷ xs) (suc i) v = x ∷ set xs i v

  abbrev pub take : ℕ → List A → List A
  take zero xs = []
  take (suc n) [] = []
  take (suc n) (x ∷ xs) = x ∷ take n xs

  abbrev pub drop : ℕ → List A → List A
  drop zero xs = xs
  drop (suc n) [] = []
  drop (suc n) (x ∷ xs) = drop n xs

  abbrev pub replicate : ℕ → A → List A
  replicate zero a = []
  replicate (suc n) a = a ∷ replicate n a

module _ {ℓ} {A : Type ℓ} where
  pub length-append : (xs ys : List A) → length (xs ++ ys) ≡ length xs + length ys
  length-append [] ys = omega arith
  length-append (x ∷ xs) ys = omega (arith, length-append xs ys)

  pub length-set : (xs : List A) (i : ℕ) (v : A) → length (set xs i v) ≡ length xs
  length-set [] i v = refl
  length-set (x ∷ xs) zero v = refl
  length-set (x ∷ xs) (suc i) v = ap suc (length-set xs i v)

  pub length-replicate : (n : ℕ) (a : A) → length (replicate n a) ≡ n
  length-replicate zero a = refl
  length-replicate (suc n) a = ap suc (length-replicate n a)

  pub length-take : (n : ℕ) (xs : List A) → length (take n xs) ≡ min n (length xs)
  length-take zero xs = omega arith
  length-take (suc n) [] = omega arith
  length-take (suc n) (x ∷ xs) = omega (arith, length-take n xs)

  pub get_or-replicate : (n : ℕ) (a : A) (i : ℕ) → get_or (replicate n a) i a ≡ a
  get_or-replicate zero a i = refl
  get_or-replicate (suc n) a zero = refl
  get_or-replicate (suc n) a (suc i) = get_or-replicate n a i

  -- A read after a write in bounds.
  pub get_or-set :
      (xs : List A) (i j : ℕ) (v d : A)
      → i < length xs
      → get_or (set xs i v) j d ≡ (if i == j then v else get_or xs j d)
  get_or-set [] i j v d h = absurd (omega arith)
  get_or-set (x ∷ xs) zero zero v d h = ground arith
  get_or-set (x ∷ xs) zero (suc j) v d h = ground arith
  get_or-set (x ∷ xs) (suc i) zero v d h = ground arith
  get_or-set (x ∷ xs) (suc i) (suc j) v d h = ground (arith, get_or-set xs i j v d)

  -- Writing back what was there.
  pub set-set_self : (xs : List A) (i : ℕ) (v d : A) → set (set xs i v) i (get_or xs i d) ≡ xs
  set-set_self [] i v d = refl
  set-set_self (x ∷ xs) zero v d = refl
  set-set_self (x ∷ xs) (suc i) v d = ap (◌∷◌ x) (set-set_self xs i v d)

-- A bound on the cells survives a write within it.
pub get_or-set-lt :
    (xs : List ℕ) (i w j bound : ℕ)
    → ((k : ℕ) → get_or xs k 0 < bound)
    → w < bound
    → get_or (set xs i w) j 0 < bound
get_or-set-lt [] i w j bound h lt = h j
get_or-set-lt (x ∷ xs) zero w zero bound h lt = lt
get_or-set-lt (x ∷ xs) zero w (suc j) bound h lt = h (suc j)
get_or-set-lt (x ∷ xs) (suc i) w zero bound h lt = h 0
get_or-set-lt (x ∷ xs) (suc i) w (suc j) bound h lt =
    get_or-set-lt xs i w j bound (λ k. h (suc k)) lt

min-zero : (n : ℕ) → min 0 n ≡ 0
min-zero n = omega arith

min-zero_right : (k : ℕ) → min k 0 ≡ 0
min-zero_right k = omega arith

min-suc : (k n : ℕ) → min (suc k) (suc n) ≡ suc (min k n)
min-suc k n = omega arith

module _ {ℓ} {A : Type ℓ} where
  pub take-min : (k n : ℕ) (xs : List A) → take (min k n) xs ≡ take k (take n xs)
  take-min zero n xs = rw (min-zero n) refl
  take-min (suc k) zero xs = rw (min-zero_right (suc k)) refl
  take-min (suc k) (suc n) [] = rw (min-suc k n) refl
  take-min (suc k) (suc n) (x ∷ xs) = rw (min-suc k n) (ap (◌∷◌ x) (take-min k n xs))

  pub take-take_append :
      (n : ℕ) (xs ys : List A) → n ≤ length xs → take n (take n xs ++ ys) ≡ take n xs
  take-take_append zero xs ys h = refl
  take-take_append (suc n) [] ys h = absurd (omega arith)
  take-take_append (suc n) (x ∷ xs) ys h = ap (◌∷◌ x) (take-take_append n xs ys (omega arith))

  -- A write through a pointer that is alive.
  pub get_or-set_same :
      (xs : List (Option A)) (i : ℕ) (x : A) (v : Option A)
      → get_or xs i none ≡ some x
      → get_or (set xs i v) i none ≡ v
  get_or-set_same [] i x v h = absurd (ground arith)
  get_or-set_same (y ∷ ys) zero x v h = refl
  get_or-set_same (y ∷ ys) (suc i) x v h = get_or-set_same ys i x v h
