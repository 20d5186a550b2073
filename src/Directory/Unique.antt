-- ===== src/Directory/Unique.antt =====
-- What follows for a directory that calls have led to, and so for the system.
use tag_aos.Base.{ℕ, ◌<◌, ◌≡◌, ◌≢◌, sym, ap, ◌∙◌, some, arith}
use tag_aos.Hashmap.{Hashmap}
use tag_aos.Tag.{tag_compare, max_tags, ipc_private}
use tag_aos.Service.{Tag, tag_at}
use tag_aos.Threads.{Threads, Reach, start_threads}
use tag_aos.Directory.{
  Entry, Directory, Change, stays, adds, removes, History, empty, after, entry_of, entry_at,
  directory,
}
use tag_aos.Directory.Refines.{Reach_refines}

-- Two tags with one public key are one, and descriptors are in range.
record IsProper (f : Directory) : Type 0 where
  range : (d : ℕ) (e : Entry) → f d ≡ some e → d < max_tags
  unique :
      (d m : ℕ) (e x : Entry)
      → f d ≡ some e
      → f m ≡ some x
      → e.key ≡ x.key
      → e.key ≢ ipc_private
      → d ≡ m

Change-IsProper : (f g : Directory) → Change f g → IsProper f → IsProper g
Change-IsProper f g (stays same) v = record {
  range = λ d e p. v.range d e (sym (same d) ∙ p);
  unique = λ d m e x p q. v.unique d m e x (sym (same d) ∙ p) (sym (same m) ∙ q);
}
Change-IsProper f g (adds n e lt free permitted fresh at) v = record {
  range = λ d x p. ground (arith, at d, v.range d x);
  unique = λ d m x y p q same public. ground (
    arith,
    at d,
    at m,
    v.unique d m x y,
    λ (z : e.key ≢ ipc_private). fresh z d x,
    λ (z : e.key ≢ ipc_private). fresh z m y,
  );
}
Change-IsProper f g (removes n e there at) v = record {
  range = λ d x p. ground (arith, at d, v.range d x);
  unique = λ d m x y p q same public. ground (arith, at d, at m, v.unique d m x y);
}

History-IsProper : {f : Directory} → History f → IsProper f
History-IsProper (empty none_there) = record {
  range = λ d e p. absurd (cc (p, none_there d));
  unique = λ d m e x p q. absurd (cc (p, none_there d));
}
History-IsProper (after {f} {g} h c) = Change-IsProper f g c (History-IsProper h)

module _ (H : Hashmap tag_compare) where
  open H use {Table}

  -- However the threads interleave after the module is loaded, two tags never share a key that is not
  -- private, and every tag has a descriptor below `MAX_TAGS`.
  pub keys_unique :
      (n d m : ℕ) (x : Threads Table) (t u : Tag)
      → Reach H (start_threads H n) x
      → tag_at x.system.services d ≡ some t
      → tag_at x.system.services m ≡ some u
      → (d < max_tags) × (t.key ≡ u.key → t.key ≢ ipc_private → d ≡ m)
  unfolding directory
  keys_unique n d m x t u reach there there' =
      let v = History-IsProper (Reach_refines H n reach) in
      (
        v.range d (entry_of t) (ap entry_at there),
        v.unique d m (entry_of t) (entry_of u) (ap entry_at there) (ap entry_at there'),
      )
