-- ===== src/Receive/Deliver.antt =====
-- `tag_send` and the receivers that sleep in `tag_receive`.
use mathlib.Core.Path.{subst}
use tag_aos.Base.{
  ℕ, ◌≤◌, ◌≡◌, refl, sym, ap, ◌∙◌, inl, inr, true, false, Option, some, List, [], ◌∷◌, ◌==◌, pos,
  Bool-cases, take, min, length, map, take-min, get_or-set_same,
}
use tag_aos.Level.{TagLevel, cell}
use tag_aos.Level.Build.{pointer}
use tag_aos.Service.{Tag, Services, Done, tag_at, set_tag, set_level}
use tag_aos.Send.{SendCall, tag_send}
use tag_aos.Send.Publish.{Reaches, with_message, Published}
use tag_aos.Send.Delivery.{tag_send_delivered}
use tag_aos.Receive.{
  Receiver, Pc, done, cleaning, drop_waiting, release_tag, wake_code, copy_message, receive_wake,
  ◌>>=◌,
}
use tag_aos.Receive.Woken.{
  outcome, drop_waiting-ready, with_message-content, copy_message_ready, left_level, wake_last,
  wake_other,
}

-- The level at `a` of tag `d` has the first `size` bytes of `message` for its receivers.
pub record Holds (s : Services) (d a : ℕ) (message : List ℕ) (size : ℕ) : Type 0 where
  pub t : Tag
  pub l : TagLevel
  pub tag : tag_at s d ≡ some t
  pub alive : cell s.levels a ≡ some l
  pub sleeping : t.ready ≡ false
  pub ready : l.ready ≡ true
  pub size_of : l.size ≡ size
  pub content : take size l.buffer ≡ take size message

-- The receivers run one after the other, in the order of the list.
abbrev pub wake_all : Services → List Receiver → Option (Services × List Pc)
wake_all s [] = some (s, [])
wake_all s (r ∷ rs) = do
  step ← receive_wake true s r
  rest ← wake_all step.0 rs
  some (rest.0, step.1 ∷ rest.1)

-- The receivers in the list sleep on the level at `a` of the tag `d`, with a buffer.
abbrev pub SleepOn : (d a : ℕ) → List Receiver → Type 0
SleepOn d a [] = Unit
SleepOn d a (r ∷ rs) = (r.tag ≡ d) × (r.address ≡ a) × (r.has_buffer ≡ true) × SleepOn d a rs

module _ (message : List ℕ) (size : ℕ) where
  -- The step of one receiver, and what the level holds behind it.
  pub wake-Holds :
      (s : Services) (r : Receiver)
      → Holds s r.tag r.address message size
      → r.has_buffer ≡ true
      → (s' : Services) × (pc : Pc) × (receive_wake true s r ≡ some (s', pc))
        × (outcome pc ≡ some (pos 1, take (min r.size size) message))
        × Holds s' r.tag r.address message size
  wake-Holds s r h rb = elim (Bool-cases (h.l.waiting == 1)) [
    | inl last ↦ (
      level_left,
      cleaning r (pos 1) (take (min r.size h.l.size) h.l.buffer),
      wake_last s r h.t h.l h.tag h.alive true (pos 1) _ copied last,
      same_bytes,
      holds level_left h.t h.tag h.sleeping refl,
    )
    | inr others ↦ (
      tag_left,
      done (pos 1) (take (min r.size h.l.size) h.l.buffer),
      wake_other s r h.t h.l h.tag h.alive true (pos 1) _ copied others,
      same_bytes,
      holds tag_left (drop_waiting h.t)
          (get_or-set_same s.tags r.tag h.t (some (drop_waiting h.t)) h.tag)
          (drop_waiting-ready h.t h.sleeping) refl,
    )
  ]
    where
      level_left : Services
      level_left = set_level s r.address (left_level s r h.t h.l h.tag h.alive)

      tag_left : Services
      tag_left = release_tag (set_tag level_left r.tag (some (drop_waiting h.t))) r.tag

      copied :
          copy_message true r h.l (wake_code h.t h.l)
          ≡ (pos 1, take (min r.size h.l.size) h.l.buffer)
      copied = copy_message_ready r h.l h.t h.ready h.sleeping rb

      same_bytes :
          outcome (done (pos 1) (take (min r.size h.l.size) h.l.buffer))
          ≡ some (pos 1, take (min r.size size) message)
      same_bytes =
          ap (λ bytes. outcome (done (pos 1) bytes))
            (take-min r.size h.l.size h.l.buffer
              ∙ ap (λ n. take r.size (take n h.l.buffer)) h.size_of
              ∙ ap (take r.size) h.content
              ∙ sym (take-min r.size size message))

      holds :
          (s' : Services) (t : Tag)
          → tag_at s' r.tag ≡ some t
          → t.ready ≡ false
          → s'.levels ≡ level_left.levels
          → Holds s' r.tag r.address message size
      holds s' t there sleeping same = record {
        t = t;
        l = left_level s r h.t h.l h.tag h.alive;
        tag = there;
        alive = ap (λ h. cell h r.address) same ∙ get_or-set_same s.levels r.address h.l _ h.alive;
        sleeping = sleeping;
        ready = h.ready;
        size_of = h.size_of;
        content = h.content;
      }

  abbrev Delivers : Services → List Receiver → Type 0
  Delivers s rs =
      (s' : Services) × (pcs : List Pc) × (wake_all s rs ≡ some (s', pcs))
      × (map outcome pcs ≡ map (λ (r : Receiver). some (pos 1, take (min r.size size) message)) rs)

  wake_all-Delivers :
      (s : Services) (d a : ℕ) (rs : List Receiver)
      → Holds s d a message size
      → SleepOn d a rs
      → Delivers s rs
  wake_all-Delivers s d a [] h sleep = (s, [], refl, refl)
  wake_all-Delivers s d a (r ∷ rs) h (rt, ra, rb, sleep) =
      let here =
        subst (λ d. Holds s d r.address message size) (sym rt)
          (subst (λ a. Holds s d a message size) (sym ra) h) in
      let (s1, pc, step, got, h1) = wake-Holds s r here rb in
      let again =
        subst (λ d. Holds s1 d a message size) rt
          (subst (λ a. Holds s1 r.tag a message size) ra h1) in
      let (s2, pcs, rest, all) = wake_all-Delivers s1 d a rs again sleep in
      (
        s2,
        pc ∷ pcs,
        rw (step, rest) refl,
        ap (λ x. x ∷ map outcome pcs) got
            ∙ ap (◌∷◌ (some (pos 1, take (min r.size size) message))) all,
      )

-- What a delivered send leaves on the level.
Published-Holds :
    (c : SendCall) (s : Services) (d i : ℕ) (message : List ℕ) (size : ℕ) (o : Done Services)
    (p : Published c s d i message size o)
    → size ≤ length message
    → p.t.ready ≡ false
    → Holds o.state d p.a message size
Published-Holds c s d i message size o p enough sleeping =
    subst (λ s'. Holds s' d p.a message size) (sym p.state)
      (record {
        t = p.t;
        l = with_message p.l message size;
        tag = p.reaches.tag;
        alive = get_or-set_same s.levels p.a p.l _ p.reaches.alive;
        sleeping = sleeping;
        ready = refl;
        size_of = refl;
        content = with_message-content p.l message size enough;
      })

-- A send that returns 1 reaches every receiver that sleeps on the level: run one after the other in
-- any order, each of them returns 1 with the first bytes of the message, as many as both it asked for
-- and the message has. The tag has no pending `TAG_AWAKE_ALL`, the receivers have buffers, and their
-- copies succeed.
pub broadcast :
    (c : SendCall) (s : Services) (d i a : ℕ) (t : Tag) (l : TagLevel) (message : List ℕ) (size : ℕ)
    (o : Done Services) (rs : List Receiver)
    → Reaches s d i a t l
    → t.ready ≡ false
    → size ≤ length message
    → tag_send c s (pos d) (pos i) (some message) size ≡ some o
    → o.code ≡ pos 1
    → SleepOn d a rs
    → (s' : Services) × (pcs : List Pc) × (wake_all o.state rs ≡ some (s', pcs))
      × (map outcome pcs ≡ map (λ (r : Receiver). some (pos 1, take (min r.size size) message)) rs)
broadcast c s d i a t l message size o rs r sleeping enough sent code sleep =
    let p = tag_send_delivered c s d i (some message) size o sent code in
    wake_all-Delivers message size o.state d a rs
      (subst (λ a. Holds o.state d a message size) (same_address p)
        (Published-Holds c s d i message size o p enough (still_asleep p)))
      sleep
  where
    same_tag : (p : Published c s d i message size o) → p.t ≡ t
    same_tag p = cc (p.reaches.tag, r.tag)

    same_address : (p : Published c s d i message size o) → p.a ≡ a
    same_address p =
        cc (p.reaches.points, r.points, ap (λ (t : Tag). pointer t.tag_level i) (same_tag p))

    still_asleep : (p : Published c s d i message size o) → p.t.ready ≡ false
    still_asleep p = ap (λ (t : Tag). t.ready) (same_tag p) ∙ sleeping
