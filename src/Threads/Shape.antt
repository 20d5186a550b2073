-- ===== src/Threads/Shape.antt =====
-- Who points to which level object, and what a receiver may rely on for the one it has registered
-- with while it sleeps.
pub mod Moves
pub mod Renew
pub mod Turns
use tag_aos.Base.{
  ℕ, zero, suc, ◌+◌, ◌≤◌, ◌<◌, ◌==◌, ◌≡◌, refl, sym, ap, ◌∙◌, Option, none, some, List, [], ◌∷◌, ℤ,
  inl, inr, if◌then◌else◌, Option-cases, get_or, set, length, arith,
}
use tag_aos.Level.{TagLevel, cell}
use tag_aos.Level.Build.{pointer}
use tag_aos.Service.{Tag, Services, tag_at, set_tag}
use tag_aos.Receive.{Receiver, Pc, done, renewing, asleep, cleaning}
use tag_aos.Threads.Balance.{get_or-set_alive}
use tag_aos.Threads.Receive.{get_or-lt}

-- The level object that the descriptor `d` and the level `i` lead to.
unfoldable pub points : Services → (d i : ℕ) → Option ℕ
points s d i = elim (tag_at s d) [ none ↦ none | some t ↦ pointer t.tag_level i ]

-- Two pointers never lead to the same object, and none to a freed one.
pub record IsShaped (s : Services) : Type 0 where
  pub separate : (d i e j a : ℕ) → points s d i ≡ some a → points s e j ≡ some a → (d ≡ e) × (i ≡ j)
  pub alive : (d i a : ℕ) → points s d i ≡ some a → (l : TagLevel) × (cell s.levels a ≡ some l)

-- The receiver's object has existed, and only its own tag and level may lead to it.
pub record Knows (s : Services) (r : Receiver) : Type 0 where
  pub below : r.address < length s.levels
  pub own : (d i : ℕ) → points s d i ≡ some r.address → (d ≡ r.tag) × (i ≡ r.level)

abbrev pub KnowsPc : Services → Pc → Type 0
KnowsPc s (done code message) = Unit
KnowsPc s (renewing r) = Knows s r
KnowsPc s (asleep r) = Knows s r
KnowsPc s (cleaning r code message) = Knows s r

-- What a tag is, apart from what threads do to it.
pub record Name : Type 0 where
  pub key : ℕ
  pub tag_key : ℕ
  pub permission : ℤ
  pub euid : ℕ

abbrev pub name_of : Tag → Name
name_of t = record { key = t.key; tag_key = t.tag_key; permission = t.permission; euid = t.euid }

abbrev pub named : Option Tag → Option Name
named none = none
named (some t) = some (name_of t)

-- The tags of `s'` are those of `s`.
abbrev pub SameNames : Services → Services → Type 0
SameNames s s' = (d : ℕ) → named (tag_at s' d) ≡ named (tag_at s d)

-- A change of state that other receivers can bear.
pub record Keeps (s s' : Services) : Type 0 where
  pub shaped : IsShaped s'
  pub knows : (r : Receiver) → Knows s r → Knows s' r
  pub names : SameNames s s'

-- Memory only grows: what was alive is.
pub record Grows (s s' : Services) : Type 0 where
  pub cells :
      (a : ℕ) (l : TagLevel)
      → cell s.levels a ≡ some l
      → (l' : TagLevel) × (cell s'.levels a ≡ some l')
  pub longer : length s.levels ≤ length s'.levels

-- It does, and every pointer stays.
pub record Stays (s s' : Services) : Type 0 where
  pub grows : Grows s s'
  pub same : (d i : ℕ) → points s' d i ≡ points s d i
  pub names : SameNames s s'

pub Grows-trans : {s s' s'' : Services} → Grows s s' → Grows s' s'' → Grows s s''
Grows-trans g g' = record {
  cells = λ a l e. let (l', e') = g.cells a l e in g'.cells a l' e';
  longer = omega (arith, g.longer, g'.longer);
}

pub SameNames-trans : (s s' s'' : Services) → SameNames s s' → SameNames s' s'' → SameNames s s''
SameNames-trans s s' s'' n n' d = n' d ∙ n d

-- A tag that is there was there, under the same name.
pub same_name :
    (s s' : Services) (d : ℕ) (t' : Tag)
    → SameNames s s'
    → tag_at s' d ≡ some t'
    → (t : Tag) × (tag_at s d ≡ some t) × (name_of t' ≡ name_of t)
same_name s s' d t' names e = elim (Option-cases (tag_at s d)) [
  | inl absent ↦ absurd (cc (names d, e, absent))
  | inr (t, there) ↦ (t, there, same_some (sym (ap named e) ∙ names d ∙ ap named there))
]
  where
    same_some : {a b : Name} → some a ≡ some b → a ≡ b
    same_some p = cc

pub Stays-trans : {s s' s'' : Services} → Stays s s' → Stays s' s'' → Stays s s''
Stays-trans {s} {s'} {s''} g g' = record {
  grows = Grows-trans g.grows g'.grows;
  same = λ d i. g'.same d i ∙ g.same d i;
  names = SameNames-trans s s' s'' g.names g'.names;
}

pub Keeps-trans : {s s' s'' : Services} → Keeps s s' → Keeps s' s'' → Keeps s s''
Keeps-trans {s} {s'} {s''} g g' = record {
  shaped = g'.shaped;
  knows = λ r k. g'.knows r (g.knows r k);
  names = SameNames-trans s s' s'' g.names g'.names;
}

pub Stays-Keeps : {s s' : Services} → Stays s s' → IsShaped s → Keeps s s'
Stays-Keeps {s} {s'} g v = record {
  shaped = record {
    separate = λ d i e j a p q. v.separate d i e j a (sym (g.same d i) ∙ p) (sym (g.same e j) ∙ q);
    alive = λ d i a p. let (l, e) = v.alive d i a (sym (g.same d i) ∙ p) in g.grows.cells a l e;
  };
  knows = λ r k. record {
    below = omega (arith, k.below, g.grows.longer);
    own = λ d i p. k.own d i (sym (g.same d i) ∙ p);
  };
  names = g.names;
}

-- A receiver knows the object that its tag and level lead to now.
pub points-Knows :
    (s : Services) (r : Receiver) → IsShaped s → points s r.tag r.level ≡ some r.address → Knows s r
points-Knows s r v p = record {
  below = let (l, e) = v.alive r.tag r.level r.address p in get_or-lt s.levels r.address l e;
  own = λ d i q. v.separate d i r.tag r.level r.address q p;
}

pub points-some :
    (s : Services) (d i a : ℕ) (t : Tag)
    → tag_at s d ≡ some t
    → pointer t.tag_level i ≡ some a
    → points s d i ≡ some a
unfolding points
points-some s d i a t there p = rw (there, points) p

-- Replacing a tag that is there.
pub points-set_tag :
    (s : Services) (d : ℕ) (t t' : Tag) (e i : ℕ)
    → tag_at s d ≡ some t
    → points (set_tag s d (some t')) e i ≡ (if d == e then pointer t'.tag_level i else points s e i)
unfolding points
points-set_tag s d t t' e i there =
    let q = get_or-set_alive s.tags d t (some t') e there in ground (arith, q)
