-- ===== src/Threads/Cleaners.antt =====
-- Two receivers that both found that they were the last on a level object.
use tag_aos.Base.{
  ℕ, ◌≡◌, refl, ap, ◌∙◌, inl, inr, true, Option-cases, none, some, List, ltb, ℤ, arith,
}
use tag_aos.Level.{TagLevel, cell}
use tag_aos.Level.Build.{pointer}
use tag_aos.Service.{Tag, Services, tag_at}
use tag_aos.Receive.{Receiver, done, ◌>>=◌, receive_clean}
use tag_aos.Receive.Clean.{receive_clean_result}

clean-freed :
    (s : Services) (r : Receiver) (code : ℤ) (message : List ℕ)
    → cell s.levels r.address ≡ none
    → receive_clean s r code message ≡ none
unfolding receive_clean
clean-freed s r code message dead = elim (Option-cases (tag_at s r.tag)) [
  | inl absent ↦ rw (absent, ◌>>=◌) refl
  | inr (t, there) ↦ rw (there, ◌>>=◌) (rw (dead, ◌>>=◌) refl)
]

-- Two threads that clean up after the same level object, once its level has moved to a newer epoch:
-- the first that gets the lock frees the object and returns, and the second uses freed memory.
pub clean_twice :
    (s : Services) (r r' : Receiver) (t : Tag) (l newest : TagLevel) (b : ℕ) (code code' : ℤ)
    (message message' : List ℕ)
    → tag_at s r.tag ≡ some t
    → cell s.levels r.address ≡ some l
    → pointer t.tag_level r.level ≡ some b
    → cell s.levels b ≡ some newest
    → ltb l.epoch newest.epoch ≡ true
    → r'.address ≡ r.address
    → (s' : Services) × (receive_clean s r code message ≡ some (s', done code message))
      × (receive_clean s' r' code' message' ≡ none)
clean_twice s r r' t l newest b code code' message message' there alive leads current older same =
    let (s', runs, _, cells) =
      receive_clean_result s r t l newest b there alive leads current code message in
    (
      s',
      runs,
      clean-freed s' r' code' message'
          (ap (cell s'.levels) same ∙ cells r.address ∙ ground (arith, older)),
    )
