-- ===== src/Threads/Tags.antt =====
-- `TAG_CREAT` and `TAG_DELETE` under the other threads: nobody's count changes, nobody's object is
-- touched.
use tag_aos.Base.{
  ℕ, zero, suc, ◌+◌, ◌-◌, ◌≤◌, ◌<◌, ◌==◌, ◌≡◌, ◌≢◌, sym, ap, ◌∙◌, ◌⊎◌, inl, inr, false, ltb, none,
  some, [], ◌∷◌, ℤ, if◌then◌else◌, Bool-cases, length, length-set, get_or, arith,
}
use tag_aos.Hashmap.{Hashmap}
use tag_aos.Tag.{tag_compare, levels_count}
use tag_aos.Level.{Pointers, cell, new_level}
use tag_aos.Level.Build.{pointer, get_or-past}
use tag_aos.Service.{Tag, Services, System, IsSized, tag_at}
use tag_aos.Receive.{Receiver, Pc}
use tag_aos.Get.{GetCall, new_tag}
use tag_aos.Get.Created.{Created, Same}
use tag_aos.Get.Open.{tag_at-Created}
use tag_aos.Threads.{
  Counter, tag_waiting, tag_readers, level_waiting, level_readers, stock, share, waiting_at,
  waiting_on, readers_of,
}
use tag_aos.Threads.Balance.{Balance}
use tag_aos.Threads.Receive.{get_or-lt}
use tag_aos.Threads.Others.{Quiet}
use tag_aos.Threads.Shape.{points, IsShaped, Knows, Keeps, Stays-Keeps}

-- What the threads may rely on after a call that is not a receiver's step.
pub record Sits (s s' : Services) : Type 0 where
  pub balance : (p : Pc) → Balance s p s' p
  pub shaped : IsShaped s'
  pub knows : (r : Receiver) → Knows s r → Knows s' r

pub Quiet-Sits : {s s' : Services} → IsShaped s → Quiet s s' → Sits s s'
Quiet-Sits {s} {s'} v q = record { balance = q.balance; shaped = k.shaped; knows = k.knows }
  where
    k : Keeps s s'
    k = Stays-Keeps q.stays v

pub pointed :
    (ps : Pointers) (a : ℕ)
    → ((j : ℕ) × (pointer ps j ≡ some a)) ⊎ ((j : ℕ) → pointer ps j ≢ some a)
pointed [] a = inr (λ j. cc)
pointed (none ∷ ps) a = elim (pointed ps a) [
  | inl (j, e) ↦ inl (suc j, e)
  | inr no_one ↦ inr (at_none no_one)
]
  where
    at_none : ((j : ℕ) → pointer ps j ≢ some a) → (j : ℕ) → pointer (none ∷ ps) j ≢ some a
    at_none ne zero = cc
    at_none ne (suc j) = ne j
pointed (some b ∷ ps) a = elim (Bool-cases (b == a)) [
  | inl here ↦ inl (0, ground arith)
  | inr other ↦ elim (pointed ps a) [
    | inl (j, e) ↦ inl (suc j, e)
    | inr no_one ↦ inr (at_other other no_one)
  ]
]
  where
    at_other :
        (b == a) ≡ false
        → ((j : ℕ) → pointer ps j ≢ some a)
        → (j : ℕ) → pointer (some b ∷ ps) j ≢ some a
    at_other other ne zero = λ e. absurd (ground arith)
    at_other other ne (suc j) = ne j

module _ (H : Hashmap tag_compare) where
  open H use {Table}

  module _ (c : GetCall) (s s' : System Table) (key d : ℕ) (permission : ℤ) (z : IsSized s.services)
      (vacant : tag_at s.services d ≡ none) (n : Created H c s s' key d permission) where
    abbrev t : Tag
    t = new_tag key d permission c.euid n.ps

    at_tag : (e : ℕ) → tag_at s'.services e ≡ (if d == e then some t else tag_at s.services e)
    at_tag e = tag_at-Created H c s s' key d e permission z n

    -- A new pointer leads past the old memory, an old one where it did.
    points-Created :
        (e i : ℕ)
        → points s'.services e i ≡ (
            if d == e
            then if ltb i levels_count then some (length s.services.levels + i) else none
            else points s.services e i)
    unfolding points
    points-Created e i = ground (arith, at_tag e, n.built.points i)

    -- A new level counts nobody.
    new_cells :
        (a : ℕ)
        → (cell s'.services.levels a ≡ cell s.services.levels a)
          ⊎ ((cell s.services.levels a ≡ none)
              × ((i : ℕ) × (cell s'.services.levels a ≡ some (new_level i 0))))
    new_cells a = elim (Bool-cases (ltb a (length s.services.levels))) [
      | inl old ↦ inl (n.built.kept a (ground arith))
      | inr new ↦
          let le : length s.services.levels ≤ a = ground arith in
          let was = get_or-past s.services.levels none a le in
          elim (Bool-cases (ltb a (length s'.services.levels))) [
            | inl built ↦ inr (
              was,
              (
                a - length s.services.levels,
                ap (cell s'.services.levels) (omega arith)
                    ∙ n.built.fresh (a - length s.services.levels) (ground (arith, n.built.grown)),
              ),
            )
            | inr past ↦ inl (get_or-past s'.services.levels none a (ground arith) ∙ sym was)
          ]
    ]

    created-Balance : (p : Pc) → Balance s.services p s'.services p
    unfolding stock
    created-Balance p = record {
      books = books;
      tags = ap length n.tags ∙ length-set s.services.tags d (some t);
      readers = ap length n.readers;
    }
      where
        books : (c : Counter) → stock s'.services c + share p c ≡ stock s.services c + share p c
        books (tag_waiting e) = ground (arith, at_tag e, vacant)
        books (tag_readers e) = ap (λ rs. get_or rs e 0 + share p (tag_readers e)) n.readers
        books (level_waiting a) = ground (arith, new_cells a)
        books (level_readers a) = ground (arith, new_cells a)

    pub created-Sits : IsShaped s.services → Sits s.services s'.services
    created-Sits v = record {
      balance = created-Balance;
      shaped = record {
        separate = λ e i f j a p q. ground (
          arith,
          points-Created e i,
          points-Created f j,
          v.separate e i f j a,
          below e i a,
          below f j a,
        );
        alive = λ e i a p. elim (Bool-cases (d == e)) [
          | inl new ↦ elim (Bool-cases (ltb i levels_count)) [
            | inl lt ↦ (
              new_level i 0,
              ap (cell s'.services.levels) (ground (arith, points-Created e i))
                  ∙ n.built.fresh i (ground arith),
            )
            | inr past ↦ absurd (ground (arith, points-Created e i))
          ]
          | inr other ↦
              let (l, there) = v.alive e i a (ground (arith, points-Created e i)) in
              (l, n.built.kept a (get_or-lt s.services.levels a l there) ∙ there)
        ];
      };
      knows = λ r k. record {
        below = omega (arith, k.below, n.built.grown);
        own = λ e i p. elim (Bool-cases (d == e)) [
          | inl new ↦ absurd (ground (arith, points-Created e i, k.below))
          | inr other ↦ k.own e i (ground (arith, points-Created e i))
        ];
      };
    }
      where
        below : (e i a : ℕ) → points s.services e i ≡ some a → a < length s.services.levels
        below e i a p = let (l, there) = v.alive e i a p in get_or-lt s.services.levels a l there

  -- A call that fails leaves all as it was.
  pub Same-Sits :
      (s s' : System Table) → IsShaped s.services → Same H s s' → Sits s.services s'.services
  unfolding stock points
  Same-Sits s s' v u = record {
    balance =
        λ p. record { books = books p; tags = ap length u.tags; readers = ap length u.readers };
    shaped = record {
      separate = λ d i e j a p q. v.separate d i e j a (sym (same d i) ∙ p) (sym (same e j) ∙ q);
      alive =
          λ d i a p. let (l, there) = v.alive d i a (sym (same d i) ∙ p) in (l, u.cells a ∙ there);
    };
    knows = λ r k. record { below = below r k; own = λ d i p. k.own d i (sym (same d i) ∙ p) };
  }
    where
      same : (d i : ℕ) → points s'.services d i ≡ points s.services d i
      same d i = ap (λ ts. points (record s.services { tags = ts }) d i) u.tags

      books :
          (p : Pc) (c : Counter) → stock s'.services c + share p c ≡ stock s.services c + share p c
      books p (tag_waiting e) =
          ap (λ ts. waiting_at (get_or ts e none) + share p (tag_waiting e)) u.tags
      books p (tag_readers e) = ap (λ rs. get_or rs e 0 + share p (tag_readers e)) u.readers
      books p (level_waiting a) = ap (λ o. waiting_on o + share p (level_waiting a)) (u.cells a)
      books p (level_readers a) = ap (λ o. readers_of o + share p (level_readers a)) (u.cells a)

      below : (r : Receiver) → Knows s.services r → r.address < length s'.services.levels
      below r k = omega (arith, k.below, u.longer)
