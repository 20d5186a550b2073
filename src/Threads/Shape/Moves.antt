-- ===== src/Threads/Shape/Moves.antt =====
-- The small changes of state again, and what they do to the pointers.
use tag_aos.Base.{
  ℕ, ◌<◌, ◌==◌, ◌≡◌, ◌≢◌, refl, sym, ap, ◌∙◌, none, some, List, [], ◌∷◌, ◌⊎◌, inl, inr,
  if◌then◌else◌, true, false, Bool-cases, Option-cases, set, length, length-set, length-append,
  arith,
}
use tag_aos.Level.{TagLevel, cell, free_level}
use tag_aos.Level.Build.{pointer, get_or-append}
use tag_aos.Service.{Tag, Services, tag_at, set_tag, set_level}
use tag_aos.Receive.{Receiver}
use tag_aos.Threads.Balance.{get_or-set_alive}
use tag_aos.Threads.Receive.{get_or-lt, moved}
use tag_aos.Threads.Shape.{points, IsShaped, named, name_of, SameNames, Keeps, Grows, Stays}

pub Grows-refl : (s s' : Services) → s'.levels ≡ s.levels → Grows s s'
Grows-refl s s' e = record {
  cells = λ a l q. (l, ap (λ h. cell h a) e ∙ q);
  longer = omega (arith, ap length e);
}

-- Writing the tag at `d` with the names it had.
pub set_tag-SameNames :
    (s : Services) (d : ℕ) (t t' : Tag)
    → tag_at s d ≡ some t
    → name_of t' ≡ name_of t
    → SameNames s (set_tag s d (some t'))
set_tag-SameNames s d t t' there same x =
    ap named (get_or-set_alive s.tags d t (some t') x there) ∙ by_test (Bool-cases (d == x))
  where
    by_test :
        ((d == x) ≡ true) ⊎ ((d == x) ≡ false)
        → named (if d == x then some t' else tag_at s x) ≡ named (tag_at s x)
    by_test (inr other) = rw other refl
    by_test (inl here) =
        let dx : d ≡ x = ground arith in
        rw here (ap some same ∙ sym (ap named (sym (ap (tag_at s) dx) ∙ there)))

pub set_tag-Stays :
    (s : Services) (d : ℕ) (t t' : Tag)
    → tag_at s d ≡ some t
    → t'.tag_level ≡ t.tag_level
    → name_of t' ≡ name_of t
    → Stays s (set_tag s d (some t'))
unfolding points
set_tag-Stays s d t t' there tag_level same_name = record {
  grows = Grows-refl s (set_tag s d (some t')) refl;
  same = λ e i. ground (arith, get_or-set_alive s.tags d t (some t') e there);
  names = set_tag-SameNames s d t t' there same_name;
}

pub set_level-Stays :
    (s : Services) (a : ℕ) (l l' : TagLevel) → cell s.levels a ≡ some l → Stays s (set_level s a l')
unfolding points
set_level-Stays s a l l' alive = record {
  grows = record {
    cells = λ x m e. elim (Option-cases (cell (set s.levels a (some l')) x)) [
      | inl dead ↦ absurd (ground (arith, get_or-set_alive s.levels a l (some l') x alive))
      | inr there ↦ there
    ];
    longer = omega (arith, length-set s.levels a (some l'));
  };
  same = λ e i. refl;
  names = λ d. refl;
}

-- Only the readers of the tags' locks.
pub readers-Stays : (s : Services) (readers : List ℕ) → Stays s (record s { readers = readers })
unfolding points
readers-Stays s readers = record {
  grows = Grows-refl s (record s { readers = readers }) refl;
  same = λ e i. refl;
  names = λ d. refl;
}

pub moved-Grows :
    (s : Services) (r : Receiver) (t : Tag) (fresh : TagLevel) → Grows s (moved s r t fresh)
moved-Grows s r t fresh = record {
  cells = λ a l e.
      (l, ground (arith, get_or-append s.levels (some fresh) none a, get_or-lt s.levels a l e));
  longer = omega (arith, length-append s.levels (some fresh ∷ []));
}

module _ (s : Services) (r : Receiver) (t : Tag) (fresh : TagLevel) (old : ℕ)
    (there : tag_at s r.tag ≡ some t) (leads : pointer t.tag_level r.level ≡ some old) where
  -- Only the receiver's own tag and level lead to another object, the new one.
  pub points-moved :
      (d i : ℕ)
      → (points (moved s r t fresh) d i ≡ points s d i)
        ⊎ ((points (moved s r t fresh) d i ≡ some (length s.levels)) × (d ≡ r.tag) × (i ≡ r.level))
  unfolding points
  points-moved d i = ground (
    arith,
    get_or-set_alive s.tags r.tag t
        (some (record t { tag_level = set t.tag_level r.level (some (length s.levels)) })) d there,
    get_or-set_alive t.tag_level r.level old (some (length s.levels)) i leads,
  )

  pub moved-Keeps : IsShaped s → Keeps s (moved s r t fresh)
  moved-Keeps v = record {
    shaped = record {
      separate = λ d i e j a p q. ground (
        arith,
        points-moved d i,
        points-moved e j,
        v.separate d i e j a,
        below d i a,
        below e j a,
      );
      alive = λ d i a p. elim (points-moved d i) [
        | inl same ↦
            let (l, e) = v.alive d i a (sym same ∙ p) in (moved-Grows s r t fresh).cells a l e
        | inr new ↦ (fresh, ground (arith, get_or-append s.levels (some fresh) none a, new))
      ];
    };
    knows = λ x k. record {
      below = omega (arith, k.below, (moved-Grows s r t fresh).longer);
      own = λ d i p. elim (points-moved d i) [
        | inl same ↦ k.own d i (sym same ∙ p)
        | inr new ↦ absurd (ground (arith, new, k.below))
      ];
    };
    names =
        set_tag-SameNames s r.tag t
          (record t { tag_level = set t.tag_level r.level (some (length s.levels)) }) there refl;
  }
    where
      below : (d i a : ℕ) → points s d i ≡ some a → a < length s.levels
      below d i a p = let (l, e) = v.alive d i a p in get_or-lt s.levels a l e

-- Freeing an object that no pointer leads to.
pub free-Keeps :
    (s : Services) (a : ℕ) (l : TagLevel)
    → cell s.levels a ≡ some l
    → ((d i : ℕ) → points s d i ≢ some a)
    → IsShaped s
    → Keeps s (record s { levels = free_level s.levels a })
unfolding points free_level
free-Keeps s a l e unused v = record {
  shaped = record {
    separate = v.separate;
    alive = λ d i x p.
        let (m, there) = v.alive d i x p in
        (m, ground (arith, get_or-set_alive s.levels a l none x e, there, unused d i));
  };
  knows = λ r k. record { below = omega (arith, k.below, length-set s.levels a none); own = k.own };
  names = λ d. refl;
}
