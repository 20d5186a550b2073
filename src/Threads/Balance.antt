-- ===== src/Threads/Balance.antt =====
-- A step is balanced if each counter changes by what the thread's share in it changes by. Here are
-- the small changes of state that the steps are made of.
use tag_aos.Base.{
  ℕ, zero, suc, ◌+◌, ◌-◌, ◌≤◌, ◌<◌, ◌==◌, ◌≡◌, refl, Option, none, some, List, [], ◌∷◌, ℤ,
  if◌then◌else◌, get_or, set, length, length-set, get_or-set, arith,
}
use tag_aos.Level.{TagLevel, cell}
use tag_aos.Service.{Tag, Services, tag_at, set_tag, set_level}
use tag_aos.Receive.{Receiver, Pc, done, cleaning, add_waiting, drop_waiting, hold_tag, release_tag}
use tag_aos.Threads.{Counter, tag_waiting, tag_readers, level_waiting, level_readers, stock, share}

pub record Balance (s : Services) (p : Pc) (s' : Services) (p' : Pc) : Type 0 where
  pub books : (c : Counter) → stock s' c + share p c ≡ stock s c + share p' c
  pub tags : length s'.tags ≡ length s.tags
  pub readers : length s'.readers ≡ length s.readers

-- What a thread relies on before it takes back its share.
abbrev pub Backs : Services → Pc → Type 0
Backs s p = (c : Counter) → share p c ≤ stock s c

pub Balance-Backs : {s s' : Services} {p p' : Pc} → Balance s p s' p' → Backs s p → Backs s' p'
Balance-Backs b backs c = omega (arith, b.books c, backs c)

pub Balance-trans :
    {s s' s'' : Services} {p p' p'' : Pc}
    → Balance s p s' p'
    → Balance s' p' s'' p''
    → Balance s p s'' p''
Balance-trans b b' = record {
  books = λ c. omega (arith, b.books c, b'.books c);
  tags = omega (arith, b.tags, b'.tags);
  readers = omega (arith, b.readers, b'.readers);
}

pub Balance-refl : (s : Services) (p : Pc) → Balance s p s p
Balance-refl s p = record { books = λ c. refl; tags = refl; readers = refl }

module _ {ℓ} {A : Type ℓ} where
  pub get_or-set_alive :
      (xs : List (Option A)) (i : ℕ) (x : A) (v : Option A) (j : ℕ)
      → get_or xs i none ≡ some x
      → get_or (set xs i v) j none ≡ (if i == j then v else get_or xs j none)
  get_or-set_alive [] i x v j h = absurd (ground arith)
  get_or-set_alive (y ∷ ys) zero x v zero h = ground arith
  get_or-set_alive (y ∷ ys) zero x v (suc j) h = ground arith
  get_or-set_alive (y ∷ ys) (suc i) x v zero h = ground arith
  get_or-set_alive (y ∷ ys) (suc i) x v (suc j) h = ground (arith, get_or-set_alive ys i x v j h)

-- A change of the tag that leaves its count alone.
pub same_tag-Balance :
    (s : Services) (d : ℕ) (t t' : Tag) (p : Pc)
    → tag_at s d ≡ some t
    → t'.waiting ≡ t.waiting
    → Balance s p (set_tag s d (some t')) p
unfolding stock
same_tag-Balance s d t t' p e same = record {
  books = books;
  tags = length-set s.tags d (some t');
  readers = refl;
}
  where
    books : (c : Counter) → stock (set_tag s d (some t')) c + share p c ≡ stock s c + share p c
    books (tag_waiting x) = ground (arith, get_or-set_alive s.tags d t (some t') x e)
    books (tag_readers x) = refl
    books (level_waiting x) = refl
    books (level_readers x) = refl

-- A change of a level that leaves its counts alone.
pub same_level-Balance :
    (s : Services) (a : ℕ) (l l' : TagLevel) (p : Pc)
    → cell s.levels a ≡ some l
    → l'.waiting ≡ l.waiting
    → l'.readers ≡ l.readers
    → Balance s p (set_level s a l') p
unfolding stock
same_level-Balance s a l l' p e waiting readers = record {
  books = books;
  tags = refl;
  readers = refl;
}
  where
    books : (c : Counter) → stock (set_level s a l') c + share p c ≡ stock s c + share p c
    books (tag_waiting x) = refl
    books (tag_readers x) = refl
    books (level_waiting x) = ground (arith, get_or-set_alive s.levels a l (some l') x e)
    books (level_readers x) = ground (arith, get_or-set_alive s.levels a l (some l') x e)

module _ (s : Services) (r : Receiver) where
  -- Entering the tag.
  pub join-Balance :
      (t : Tag) (code code' : ℤ) (message message' : List ℕ)
      → tag_at s r.tag ≡ some t
      → r.tag < length s.readers
      → Balance s
          (done code message)
          (hold_tag (set_tag s r.tag (some (add_waiting t))) r.tag)
          (cleaning r code' message')
  unfolding stock share
  join-Balance t code code' message message' e small = record {
    books = books;
    tags = length-set s.tags r.tag (some (add_waiting t));
    readers = length-set s.readers r.tag (get_or s.readers r.tag 0 + 1);
  }
    where
      s' : Services
      s' = hold_tag (set_tag s r.tag (some (add_waiting t))) r.tag

      books :
          (c : Counter)
          → stock s' c + share (done code message) c
            ≡ stock s c + share (cleaning r code' message') c
      books (tag_waiting x) =
          ground (arith, get_or-set_alive s.tags r.tag t (some (add_waiting t)) x e)
      books (tag_readers x) =
          ground (arith, get_or-set s.readers r.tag x (get_or s.readers r.tag 0 + 1) 0 small)
      books (level_waiting x) = omega arith
      books (level_readers x) = omega arith

  -- Leaving it.
  pub part-Balance :
      (t : Tag) (code code' : ℤ) (message message' : List ℕ)
      → tag_at s r.tag ≡ some t
      → r.tag < length s.readers
      → Backs s (cleaning r code message)
      → Balance s
          (cleaning r code message)
          (release_tag (set_tag s r.tag (some (drop_waiting t))) r.tag)
          (done code' message')
  unfolding stock share drop_waiting
  part-Balance t code code' message message' e small backs = record {
    books = books;
    tags = length-set s.tags r.tag (some (drop_waiting t));
    readers = length-set s.readers r.tag (get_or s.readers r.tag 0 - 1);
  }
    where
      s' : Services
      s' = release_tag (set_tag s r.tag (some (drop_waiting t))) r.tag

      books :
          (c : Counter)
          → stock s' c + share (cleaning r code message) c
            ≡ stock s c + share (done code' message') c
      books (tag_waiting x) = ground (
        arith,
        get_or-set_alive s.tags r.tag t (some (drop_waiting t)) x e,
        backs (tag_waiting x),
      )
      books (tag_readers x) = ground (
        arith,
        get_or-set s.readers r.tag x (get_or s.readers r.tag 0 - 1) 0 small,
        backs (tag_readers x),
      )
      books (level_waiting x) = omega arith
      books (level_readers x) = omega arith
