-- ===== src/Threads/Safety.antt =====
-- What holds in every state that the threads can reach.
use mathlib.Core.Path.{subst}
use tag_aos.Base.{
  ℕ, ◌≤◌, ◌==◌, ◌≡◌, ◌≢◌, refl, sym, ap, ◌∙◌, ◌⊎◌, inl, inr, false, not, Option-cases, Option, none,
  some, List, if-elim, get_or, ℤ, pos, ◌==ℤ◌, ==ℤ_iff, arith,
}
use tag_aos.Hashmap.{Hashmap}
use tag_aos.Tag.{tag_compare, eproto, enodata, eperm, eintr}
use tag_aos.Registry.{Registry, clear_tag_common}
use tag_aos.Level.{TagLevel, cell}
use tag_aos.Service.{Tag, Services, System, tag_at, denied}
use tag_aos.Receive.{Receiver, Pc, renewing, asleep, cleaning}
use tag_aos.Ctl.{CtlCall, delete, delete_tag}
use tag_aos.Threads.{
  Counter, tag_waiting, tag_readers, level_waiting, level_readers, stock, share, waiting_at,
  waiting_on, readers_of, idle, Threads, Reach, start_threads,
}
use tag_aos.Threads.Total.{total-tag}
use tag_aos.Threads.Sound.{IsSound, backed}
use tag_aos.Threads.Steps.{Reach-IsSound}

-- The receiver that a thread inside `tag_receive` is.
abbrev pub IsReceiver : Pc → Receiver → Type 0
IsReceiver p r =
    (p ≡ renewing r)
    ⊎ ((p ≡ asleep r) ⊎ ((code : ℤ) × (message : List ℕ) × (p ≡ cleaning r code message)))

IsReceiver-share : (p : Pc) (r : Receiver) → IsReceiver p r → share p (tag_readers r.tag) ≡ 1
unfolding share
IsReceiver-share p r (inl e) = rw e (ground arith)
IsReceiver-share p r (inr (inl e)) = rw e (ground arith)
IsReceiver-share p r (inr (inr (code, message, e))) = rw e (ground arith)

-- What a sleeping thread can rely on.
pub record Safe (s : Services) (r : Receiver) : Type 0 where
  pub t : Tag
  pub l : TagLevel
  pub there : tag_at s r.tag ≡ some t
  pub alive : cell s.levels r.address ≡ some l
  pub inside : t.waiting ≢ 0
  pub waited : l.waiting ≢ 0
  pub held : l.readers ≢ 0

tag_of : (o : Option Tag) → 1 ≤ waiting_at o → (t : Tag) × (o ≡ some t) × (t.waiting ≢ 0)
tag_of none h = absurd (omega arith)
tag_of (some t) h = (t, refl, omega arith)

level_of :
    (o : Option TagLevel)
    → 1 ≤ waiting_on o
    → 1 ≤ readers_of o
    → (l : TagLevel) × (o ≡ some l) × (l.waiting ≢ 0) × (l.readers ≢ 0)
level_of none h k = absurd (omega arith)
level_of (some l) h k = (l, refl, omega arith, omega arith)

codes_ne : (a b : ℤ) → (a ==ℤ b) ≡ false → a ≢ b
codes_ne a b f e = cc (f, (==ℤ_iff a b).1 e)

module _ (H : Hashmap tag_compare) where
  open H use {Table}

  module _ (x : Threads Table) (v : IsSound H x) (i : ℕ) where
    pub Sound-Safe : (r : Receiver) → get_or x.pcs i idle ≡ asleep r → Safe x.system.services r
    unfolding stock share
    Sound-Safe r e = record {
      t = tag.0;
      l = level.0;
      there = tag.1;
      alive = level.1;
      inside = tag.2;
      waited = level.2;
      held = level.3;
    }
      where
        claim : (c : Counter) → share (asleep r) c ≤ stock x.system.services c
        claim c = subst (λ p. share p c ≤ stock x.system.services c) e (backed H x v i c)

        tag : (t : Tag) × (tag_at x.system.services r.tag ≡ some t) × (t.waiting ≢ 0)
        tag = tag_of (tag_at x.system.services r.tag) (ground (arith, claim (tag_waiting r.tag)))

        level :
            (l : TagLevel) × (cell x.system.services.levels r.address ≡ some l)
            × (l.waiting ≢ 0)
            × (l.readers ≢ 0)
        level =
            level_of (cell x.system.services.levels r.address)
              (ground (arith, claim (level_waiting r.address)))
              (ground (arith, claim (level_readers r.address)))

    inside_reads :
        (r : Receiver)
        → IsReceiver (get_or x.pcs i idle) r
        → (get_or x.system.services.readers r.tag 0 == 0) ≡ false
    unfolding stock
    inside_reads r e =
        let one = IsReceiver-share (get_or x.pcs i idle) r e in
        let claim : share (get_or x.pcs i idle) (tag_readers r.tag)
            ≤ get_or x.system.services.readers r.tag 0 =
          backed H x v i (tag_readers r.tag) in
        ground (arith, one, claim)

  -- However the threads interleave after the module is loaded, a thread that sleeps in `tag_receive`
  -- keeps what it sleeps on: its tag is there, its level object is not freed, and the counts of
  -- waiting threads of both and of the readers of the level's lock are not 0.
  pub sleeper_is_Safe :
      (n i : ℕ) (x : Threads Table) (r : Receiver)
      → Reach H (start_threads H n) x
      → get_or x.pcs i idle ≡ asleep r
      → Safe x.system.services r
  sleeper_is_Safe n i x r reach e = Sound-Safe x (Reach-IsSound H n reach) i r e

  -- However the threads interleave after the module is loaded, `TAG_DELETE` of a tag that some thread
  -- has entered with `tag_receive` and not left answers 0 and changes nothing, whoever asks.
  pub delete_waits :
      (n i : ℕ) (x : Threads Table) (r : Receiver) (c : CtlCall)
      → Reach H (start_threads H n) x
      → IsReceiver (get_or x.pcs i idle) r
      → delete H c x.system r.tag ≡ (x.system, pos 0)
  unfolding delete
  delete_waits n i x r c reach e = rw (inside_reads x (Reach-IsSound H n reach) i r e) refl

  delete_code :
      (x : Threads Table) (v : IsSound H x) (c : CtlCall) (d : ℕ)
      → (delete H c x.system d).1 ≢ eproto
  unfolding delete delete_tag stock
  delete_code x v c d =
      if-elim P (not (get_or x.system.services.readers d 0 == 0))
        (λ _. codes_ne (pos 0) eproto refl)
        (λ idle_tag. elim (Option-cases (tag_at x.system.services d)) [
          | inl absent ↦ rw absent (codes_ne enodata eproto refl)
          | inr (t, there) ↦ rw there (
              if-elim P (denied t c.euid) (λ _. codes_ne eperm eproto refl)
                (λ _.
                  if-elim P (not (t.waiting == 0))
                    (λ waited. absurd (ground (arith, idle_tag, waited, uncounted t there)))
                    (λ _.
                      if-elim P (not ((registry_call t).1 ==ℤ pos 0))
                        (λ _. codes_ne eintr eproto refl) (λ _. codes_ne (pos 1) eproto refl))))
        ])
    where
      P : System Table × ℤ → Type 0
      P o = o.1 ≢ eproto

      registry_call : Tag → Registry Table × ℤ
      registry_call t = clear_tag_common H c.common_ok c.grow_ok x.system.registry t.key t.tag_key

      -- the tag counts the threads that hold its lock
      uncounted :
          (t : Tag)
          → tag_at x.system.services d ≡ some t
          → t.waiting ≡ get_or x.system.services.readers d 0
      uncounted t there =
          sym (ap waiting_at there)
          ∙ v.booked (tag_waiting d)
          ∙ total-tag x.pcs d
          ∙ sym (v.booked (tag_readers d))

  -- However the threads interleave after the module is loaded, `TAG_DELETE` never finds a tag that is in use behind a lock that
  -- is free: it does not answer -EPROTO.
  pub delete_never_eproto :
      (n d : ℕ) (x : Threads Table) (c : CtlCall)
      → Reach H (start_threads H n) x
      → (delete H c x.system d).1 ≢ eproto
  delete_never_eproto n d x c reach = delete_code x (Reach-IsSound H n reach) c d
