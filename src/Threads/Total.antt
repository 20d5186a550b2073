-- ===== src/Threads/Total.antt =====
-- The threads' shares, added up.
use tag_aos.Base.{
  ℕ, zero, suc, ◌+◌, ◌≤◌, ◌<◌, ◌≡◌, refl, List, [], ◌∷◌, get_or, set, length, replicate, arith,
}
use tag_aos.Receive.{Pc, done, renewing, asleep, cleaning}
use tag_aos.Threads.{
  Counter, tag_waiting, tag_readers, level_waiting, level_readers, share, idle, total,
}

pub share-le-total : (ps : List Pc) (i : ℕ) (c : Counter) → share (get_or ps i idle) c ≤ total ps c
unfolding total share
share-le-total [] i c = omega arith
share-le-total (p ∷ ps) zero c = omega arith
share-le-total (p ∷ ps) (suc i) c = omega (arith, share-le-total ps i c)

pub total-set :
    (ps : List Pc) (i : ℕ) (p : Pc) (c : Counter)
    → i < length ps
    → total (set ps i p) c + share (get_or ps i idle) c ≡ total ps c + share p c
unfolding total
total-set [] i p c h = absurd (omega arith)
total-set (q ∷ ps) zero p c h = omega arith
total-set (q ∷ ps) (suc i) p c h = omega (arith, total-set ps i p c (omega arith))

pub total-eq-zero :
    (ps : List Pc) (c : Counter) → ((i : ℕ) → share (get_or ps i idle) c ≡ 0) → total ps c ≡ 0
unfolding total
total-eq-zero [] c none_has = refl
total-eq-zero (p ∷ ps) c none_has =
    omega (arith, none_has 0, total-eq-zero ps c (λ i. none_has (suc i)))

pub total-idle : (n : ℕ) (c : Counter) → total (replicate n idle) c ≡ 0
unfolding total share
total-idle zero c = refl
total-idle (suc n) c = omega (arith, total-idle n c)

-- Who waits on a level holds it.
share-waiting-le : (p : Pc) (a : ℕ) → share p (level_waiting a) ≤ share p (level_readers a)
unfolding share
share-waiting-le (done code message) a = omega arith
share-waiting-le (renewing r) a = omega arith
share-waiting-le (asleep r) a = omega arith
share-waiting-le (cleaning r code message) a = omega arith

pub total-waiting-le :
    (ps : List Pc) (a : ℕ) → total ps (level_waiting a) ≤ total ps (level_readers a)
unfolding total
total-waiting-le [] a = omega arith
total-waiting-le (p ∷ ps) a = omega (arith, share-waiting-le p a, total-waiting-le ps a)

-- A tag and its lock count the same threads.
share-tag : (p : Pc) (d : ℕ) → share p (tag_waiting d) ≡ share p (tag_readers d)
unfolding share
share-tag (done code message) d = refl
share-tag (renewing r) d = refl
share-tag (asleep r) d = refl
share-tag (cleaning r code message) d = refl

pub total-tag : (ps : List Pc) (d : ℕ) → total ps (tag_waiting d) ≡ total ps (tag_readers d)
unfolding total
total-tag [] d = refl
total-tag (p ∷ ps) d = omega (arith, share-tag p d, total-tag ps d)
