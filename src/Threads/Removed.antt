-- ===== src/Threads/Removed.antt =====
-- What the removal of a tag by `tag_ctl` does to the counters and pointers.
use tag_aos.Base.{
  ℕ, ◌+◌, ◌==◌, ◌≡◌, ◌≢◌, sym, ap, ◌∙◌, ◌⊎◌, inl, inr, none, some, if◌then◌else◌, length,
  length-set, get_or, get_or-set, arith,
}
use tag_aos.Hashmap.{Hashmap}
use tag_aos.Tag.{tag_compare}
use tag_aos.Level.{cell}
use tag_aos.Level.Build.{
  pointer, length-clear_tag_level, clear_tag_level_freed, clear_tag_level_kept,
}
use tag_aos.Service.{System, tag_at}
use tag_aos.Receive.{Pc}
use tag_aos.Ctl.{CtlCall}
use tag_aos.Ctl.Deleted.{Deleted}
use tag_aos.Threads.{
  Counter, tag_waiting, tag_readers, level_waiting, level_readers, stock, share, waiting_on,
  readers_of,
}
use tag_aos.Threads.Balance.{Balance}
use tag_aos.Threads.Receive.{get_or-lt}
use tag_aos.Threads.Shape.{points, points-some, IsShaped}
use tag_aos.Threads.Tags.{Sits, pointed}

module _ (H : Hashmap tag_compare) where
  open H use {Table}

  module _ (c : CtlCall) (s s' : System Table) (d : ℕ) (v : IsShaped s.services)
      (x : Deleted H c s s' d)
      (unused : (i a : ℕ)
        → pointer x.t.tag_level i ≡ some a
        → (stock s.services (level_waiting a) ≡ 0) × (stock s.services (level_readers a) ≡ 0)) where
    gone : (e : ℕ) → tag_at s'.services e ≡ (if d == e then none else tag_at s.services e)
    gone e =
        ap (λ ts. get_or ts e none) x.tags
        ∙ get_or-set s.services.tags d e none none (get_or-lt s.services.tags d x.t x.there)

    points-Deleted :
        (e i : ℕ) → points s'.services e i ≡ (if d == e then none else points s.services e i)
    unfolding points
    points-Deleted e i = ground (arith, gone e)

    -- What the tag led to is freed; the rest is kept.
    cells :
        (a : ℕ)
        → (cell s'.services.levels a ≡ cell s.services.levels a)
          ⊎ ((cell s'.services.levels a ≡ none) × ((i : ℕ) × (pointer x.t.tag_level i ≡ some a)))
    cells a = elim (pointed x.t.tag_level a) [
      | inl (i, p) ↦ inr (
        ap (λ h. cell h a) x.levels ∙ clear_tag_level_freed s.services.levels x.t.tag_level i a p,
        (i, p),
      )
      | inr no_one ↦ inl (
          ap (λ h. cell h a) x.levels
          ∙ clear_tag_level_kept s.services.levels x.t.tag_level a no_one)
    ]

    deleted-Balance : (p : Pc) → Balance s.services p s'.services p
    unfolding stock
    deleted-Balance p = record {
      books = books;
      tags = ap length x.tags ∙ length-set s.services.tags d none;
      readers = ap length x.readers;
    }
      where
        books : (c : Counter) → stock s'.services c + share p c ≡ stock s.services c + share p c
        books (tag_waiting e) = ground (arith, gone e, x.there, x.unused)
        books (tag_readers e) = ap (λ rs. get_or rs e 0 + share p (tag_readers e)) x.readers
        books (level_waiting a) = elim (cells a) [
          | inl kept ↦ ap (λ o. waiting_on o + share p (level_waiting a)) kept
          | inr (freed, (i, q)) ↦
              ap (λ o. waiting_on o + share p (level_waiting a)) freed
              ∙ ap (λ n. n + share p (level_waiting a)) (sym (unused i a q).0)
        ]
        books (level_readers a) = elim (cells a) [
          | inl kept ↦ ap (λ o. readers_of o + share p (level_readers a)) kept
          | inr (freed, (i, q)) ↦
              ap (λ o. readers_of o + share p (level_readers a)) freed
              ∙ ap (λ n. n + share p (level_readers a)) (sym (unused i a q).1)
        ]

    pub deleted-Sits : Sits s.services s'.services
    deleted-Sits = record {
      balance = deleted-Balance;
      shaped = record {
        separate = λ e i f j a p q. v.separate e i f j a (left e i a p).1 (left f j a q).1;
        alive = λ e i a p.
            let (ne, was) = left e i a p in
            let (l, there) = v.alive e i a was in
            elim (cells a) [
              | inl kept ↦ (l, kept ∙ there)
              | inr (freed, (j, q)) ↦
                  absurd
                    (ne (v.separate d j e i a (points-some s.services d j a x.t x.there q) was).0)
            ];
      };
      knows = λ r k. record {
        below = omega (
          arith,
          k.below,
          ap length x.levels ∙ length-clear_tag_level s.services.levels x.t.tag_level,
        );
        own = λ e i p. k.own e i (left e i r.address p).1;
      };
    }
      where
        left :
            (e i a : ℕ)
            → points s'.services e i ≡ some a
            → (d ≢ e) × (points s.services e i ≡ some a)
        left e i a p = ground (arith, points-Deleted e i)
