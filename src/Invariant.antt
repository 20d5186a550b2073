-- ===== src/Invariant.antt =====
-- The invariant that ties `tags` to the registry: a tag is filed at its own descriptor, and the
-- registry knows the descriptor as taken for its key.
use tag_aos.Base.{ℕ, ◌≡◌, some}
use tag_aos.Hashmap.{Hashmap}
use tag_aos.Tag.{tag_compare}
use tag_aos.Registry.{IsConsistent}
use tag_aos.Registry.Clear.{Owns}
use tag_aos.Service.{Tag, System, tag_at, IsSized}

module _ (H : Hashmap tag_compare) where
  pub record IsLinked (s : System H.Table) : Type 0 where
    pub consistent : IsConsistent H s.registry
    pub sized : IsSized s.services
    pub placed : (d : ℕ) (t : Tag) → tag_at s.services d ≡ some t → t.tag_key ≡ d
    pub owned : (d : ℕ) (t : Tag) → tag_at s.services d ≡ some t → Owns H s.registry t.key d
