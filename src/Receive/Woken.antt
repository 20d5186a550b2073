-- ===== src/Receive/Woken.antt =====
-- What a receiver that wakes up in `tag_receive` of tag-module/tag-syscall.c returns and has copied.
use tag_aos.Base.{
  ℕ, zero, suc, ◌-◌, ◌≤◌, ◌≡◌, refl, ap, ◌∙◌, inl, inr, ◌⊎◌, arith, Bool, true, false, Option, none,
  some, List, [], ◌==◌, ◌&&◌, ℤ, pos, if◌then◌else◌, Bool-cases, ltb, take, drop, min, length,
  take-take_append,
}
use tag_aos.Level.{TagLevel, cell}
use tag_aos.Service.{Tag, Services, tag_at, set_tag, set_level}
use tag_aos.Send.Publish.{with_message}
use tag_aos.Receive.{
  Receiver, Pc, done, renewing, asleep, cleaning, drop_waiting, release_tag, release_level, leave,
  wake_code, copy_message, receive_wake,
}

-- What a thread that has woken up will return, and the message it has copied.
abbrev pub outcome : Pc → Option (ℤ × List ℕ)
outcome (done code message) = some (code, message)
outcome (renewing r) = none
outcome (asleep r) = none
outcome (cleaning r code message) = some (code, message)

pub drop_waiting-ready : (t : Tag) → t.ready ≡ false → (drop_waiting t).ready ≡ false
unfolding drop_waiting
drop_waiting-ready t h = ground (arith, h)

pub with_message-content :
    (l : TagLevel) (message : List ℕ) (size : ℕ)
    → size ≤ length message
    → take size (with_message l message size).buffer ≡ take size message
with_message-content l message zero h = refl
with_message-content l message (suc n) h =
    ap (take (suc n)) (rw positive refl)
    ∙ take-take_append (suc n) message (drop (suc n) l.buffer) h
  where
    positive : ltb 0 (suc n) ≡ true
    positive = ground arith

pub copy_message_ready :
    (r : Receiver) (l : TagLevel) (t : Tag)
    → l.ready ≡ true
    → t.ready ≡ false
    → r.has_buffer ≡ true
    → copy_message true r l (wake_code t l) ≡ (pos 1, take (min r.size l.size) l.buffer)
unfolding copy_message wake_code
copy_message_ready r l t ready sleeping buffer =
    rw (sleeping, ready, buffer) (by_size (Bool-cases (ltb 0 (min r.size l.size))))
  where
    by_size :
        (ltb 0 (min r.size l.size) ≡ true) ⊎ (ltb 0 (min r.size l.size) ≡ false)
        → ◌≡◌ {A = ℤ × List ℕ}
            (if ltb 0 (min r.size l.size) && true
              then (pos 1, take (min r.size l.size) l.buffer)
              else (pos 1, []))
            (pos 1, take (min r.size l.size) l.buffer)
    by_size (inl some_bytes) = rw some_bytes refl
    by_size (inr no_bytes) = rw (no_bytes, nothing) refl
      where
        nothing : min r.size l.size ≡ 0
        nothing = ground arith

module _ (s : Services) (r : Receiver) (t : Tag) (l : TagLevel) (there : tag_at s r.tag ≡ some t)
    (alive : cell s.levels r.address ≡ some l) where
  abbrev pub left_level : TagLevel
  left_level = record (release_level l) { waiting = l.waiting - 1 }

  module _ (copy_ok : Bool) (code : ℤ) (bytes : List ℕ)
      (copied : copy_message copy_ok r l (wake_code t l) ≡ (code, bytes)) where
    -- The last receiver on the level goes on to clean up.
    pub wake_last :
        (l.waiting == 1) ≡ true
        → receive_wake copy_ok s r ≡ some (set_level s r.address left_level, cleaning r code bytes)
    unfolding receive_wake
    wake_last last = rw (there, alive, copied, last) refl

    -- Another one leaves the tag.
    pub wake_other :
        (l.waiting == 1) ≡ false
        → receive_wake copy_ok s r
          ≡ some (
            release_tag
                (set_tag (set_level s r.address left_level) r.tag (some (drop_waiting t)))
                r.tag,
            done code bytes,
          )
    unfolding receive_wake leave
    wake_other others = rw (there, alive, copied, others) refl
