-- ===== src/Receive.antt =====
-- `tag_receive` of tag-module/tag-syscall.c, in the steps between which other threads may run:
-- entering up to the sleep, moving to a new epoch if the level has a message already, waking, and
-- cleaning up after the last receiver. `none` stands for an access to what has been freed.
pub mod Enter
pub mod Woken
pub mod Halves
pub mod Deliver
pub mod Clean
pub mod Renewed
pub mod Epoch
mod Tests
use tag_aos.Base.{
  ℕ, ◌+◌, ◌-◌, ◌==◌, Bool, true, false, not, ◌||◌, ◌&&◌, Option, none, some, List, [], ◌∷◌, ◌++◌, ℤ,
  pos, ◌==ℤ◌, ◌≡◌, refl, ltb, min, if◌then◌else◌, take, get_or, set, length,
}
use tag_aos.Tag.{
  max_tags, levels_count, buffer_size, einval, eintr, enodata, eperm, enomem, efault, eproto,
}
use tag_aos.Level.{TagLevel, Heap, Pointers, Memory, cell, create_level, free_level}
use tag_aos.Level.Build.{pointer}
use tag_aos.Service.{Tag, Services, tag_at, set_tag, set_level, denied, index}

pub record ReceiveCall : Type 0 where
  pub lock_ok : Bool  -- the wait for `tag_lock` is not interrupted
  pub level_lock_ok : Bool  -- nor that for `level_lock`
  pub rcu_ok : Bool  -- nor that for `rcu_lock`
  pub euid : ℕ

-- A thread inside `tag_receive` that has registered with level object `address`.
pub record Receiver : Type 0 where
  pub tag : ℕ
  pub level : ℕ
  pub address : ℕ
  pub size : ℕ
  pub has_buffer : Bool

-- Where a step leaves the thread. `message` is what was copied to the user.
pub data Pc : Type 0 where
  done : (code : ℤ) (message : List ℕ) → Pc
  renewing : Receiver → Pc  -- the level had a message: before the lock of the level pointer
  asleep : Receiver → Pc  -- in `wait_event_interruptible`
  cleaning : Receiver → (code : ℤ) (message : List ℕ) → Pc  -- the last one: in the trylock loop

-- `if(atomic_dec_and_test(&(tag_entry -> waiting))) tag_entry -> ready = 0;` by a thread that is
-- counted.
unfoldable pub drop_waiting : Tag → Tag
drop_waiting t = record t {
  waiting = t.waiting - 1;
  ready = if t.waiting == 1 then false else t.ready;
}

abbrev pub add_waiting : Tag → Tag
add_waiting t = record t { waiting = t.waiting + 1 }

-- `down_read(&(tag_lock[tag]))` that stays held, and its `up_read`.
abbrev pub hold_tag : Services → ℕ → Services
hold_tag s d = record s { readers = set s.readers d (get_or s.readers d 0 + 1) }

abbrev pub release_tag : Services → ℕ → Services
release_tag s d = record s { readers = set s.readers d (get_or s.readers d 0 - 1) }

abbrev pub hold_level : TagLevel → TagLevel
hold_level l = record l { readers = l.readers + 1 }

abbrev pub release_level : TagLevel → TagLevel
release_level l = record l { readers = l.readers - 1 }

-- Registering on the level at `a`, whose `rcu_lock` the thread holds from here on.
unfoldable pub sleep_on : Services → Receiver → (a : ℕ) → TagLevel → Services × Pc
sleep_on s r a l = (
  set_level s a (record (hold_level l) { waiting = l.waiting + 1 }),
  asleep (record r { address = a }),
)

-- `tag_lock` is held. The counts that a failure would take back at once are not shown rising, but
-- taking back the last one clears `ready`.
pub enter_tag : ReceiveCall → Services → Receiver → Tag → Option (Services × Pc)
unfolding sleep_on
enter_tag c s r t =
    if denied t c.euid
    then some (s, done eperm [])
    else if not c.level_lock_ok
    then some (s, done eintr [])
    else elim (pointer t.tag_level r.level) [
      | none ↦ some (s, done einval [])
      | some a ↦ elim (cell s.levels a) [
        | none ↦ none
        | some l ↦
            let s' = hold_tag (set_tag s r.tag (some (add_waiting t))) r.tag in
            if not c.rcu_ok
            then some (set_tag s r.tag (some (drop_waiting (add_waiting t))), done eintr [])
            else if l.ready
            then some (set_level s' a (hold_level l), renewing (record r { address = a }))
            else some (sleep_on s' r a l)
      ]
    ]

pub enter_checked : ReceiveCall → Services → Receiver → Option (Services × Pc)
unfolding enter_tag
enter_checked c s r =
    if not c.lock_ok
    then some (s, done eintr [])
    else elim (tag_at s r.tag) [ none ↦ some (s, done enodata []) | some t ↦ enter_tag c s r t ]

-- A null buffer counts as size 0.
unfoldable pub tag_receive :
    ReceiveCall → Services → (tag level : ℤ) (has_buffer : Bool) (size : ℕ) → Option (Services × Pc)
unfolding enter_checked
tag_receive c s tag level has_buffer size = elim (index tag max_tags) [
  | none ↦ some (s, done einval [])
  | some d ↦ elim (index level levels_count) [
    | none ↦ some (s, done einval [])
    | some i ↦
        if ltb buffer_size size
        then some (s, done einval [])
        else enter_checked c s (record {
          tag = d;
          level = i;
          address = 0;
          size = if has_buffer then size else 0;
          has_buffer = has_buffer;
        })
  ]
]

infixl 5 ◌>>=◌
abbrev pub ◌>>=◌ {ℓ κ} : {A : Type ℓ} {B : Type κ} → Option A → (A → Option B) → Option B
none >>= f = none
some a >>= f = f a

pub bind-elim {ℓ κ μ} :
    {A : Type ℓ} {B : Type κ} (P : Option B → Type μ) (o : Option A) (f : A → Option B)
    → P none
    → ((a : A) → o ≡ some a → P (f a))
    → P (o >>= f)
bind-elim P none f stops goes = stops
bind-elim P (some a) f stops goes = goes a refl

-- The end of every path that had registered with the tag.
unfoldable pub leave : Services → Receiver → (code : ℤ) (message : List ℕ) → Option (Services × Pc)
unfolding drop_waiting
leave s r code message = do
  t ← tag_at s r.tag
  some (release_tag (set_tag s r.tag (some (drop_waiting t))) r.tag, done code message)

-- `up_read` on the level at `a`.
unfoldable pub release_at : Services → (a : ℕ) → Option Services
release_at s a = do l ← cell s.levels a; some (set_level s a (release_level l))

-- Leaving with an error before the new level is chosen.
unfoldable pub back_out : Services → Receiver → (code : ℤ) → Option (Services × Pc)
unfolding leave release_at
back_out s r code = do s1 ← release_at s r.address; leave s1 r code []

pub record RenewCall : Type 0 where
  pub write_lock_ok : Bool  -- the wait to write `level_lock` is not killed
  pub memory : Memory  -- whether a new level can be allocated
  pub rcu_ok : Bool  -- the wait for the new level's `rcu_lock` is not interrupted

-- The thread holds `level_lock` for writing, and has chosen the level at `a`, with `old` the
-- pointer that it found.
unfoldable pub settle : RenewCall → Services → Receiver → (old a : ℕ) → Tag → Option (Services × Pc)
unfolding sleep_on leave release_at
settle c s r old a t = do
  s1 ← release_at s r.address
  l ← cell s1.levels a
  let back = some (record t { tag_level = set t.tag_level r.level (some old) })
  (if c.rcu_ok then some (sleep_on s1 r a l) else leave (set_tag s1 r.tag back) r eintr [])

-- The second look at the level pointer: a level with a message is replaced by one of the next epoch.
unfoldable pub renew_level :
    RenewCall → Services → Receiver → Tag → (old : ℕ) → TagLevel → Option (Services × Pc)
unfolding settle back_out
renew_level c s r t old l =
    if l.ready
    then elim (create_level c.memory r.level (l.epoch + 1)) [
      | none ↦ back_out s r enomem
      | some fresh ↦
          let a = length s.levels in
          let t' = record t { tag_level = set t.tag_level r.level (some a) } in
          settle c
            (record s { levels = s.levels ++ some fresh ∷ []; tags = set s.tags r.tag (some t') }) r
            old a t'
    ]
    else settle c s r old old t

unfoldable pub renew_tag : RenewCall → Services → Receiver → Option (Services × Pc)
unfolding renew_level back_out
renew_tag c s r = do
  t ← tag_at s r.tag
  elim (pointer t.tag_level r.level) [
    | none ↦ back_out s r einval
    | some old ↦ do l ← cell s.levels old; renew_level c s r t old l
  ]

unfoldable pub receive_renew : RenewCall → Services → Receiver → Option (Services × Pc)
unfolding renew_tag back_out
receive_renew c s r = if not c.write_lock_ok then back_out s r eintr else renew_tag c s r

-- The code that `wait_event_interruptible` and the tests behind it settle on. The thread runs again
-- because one of the two flags is set, or else because of a signal.
unfoldable pub wake_code : Tag → TagLevel → ℤ
wake_code t l = if t.ready then pos 0 else if l.ready then pos 1 else pos 0

-- What is copied to the user, and the code after the copy.
unfoldable pub copy_message : (copy_ok : Bool) → Receiver → TagLevel → (code : ℤ) → ℤ × List ℕ
copy_message copy_ok r l code =
    let current_size = min r.size l.size in
    if code ==ℤ pos 1 && (l.ready && (ltb 0 current_size && r.has_buffer))
    then if copy_ok then (code, take current_size l.buffer) else (efault, [])
    else (code, [])

-- From the return of `wait_event_interruptible` to the release of `rcu_lock`.
unfoldable pub release_wake :
    (copy_ok : Bool) → Services → Receiver → Option (Services × (ℤ × List ℕ))
unfolding wake_code copy_message
release_wake copy_ok s r = do
  t ← tag_at s r.tag
  l ← cell s.levels r.address
  some (set_level s r.address (release_level l), copy_message copy_ok r l (wake_code t l))

-- From the decrement of `waiting` on. The level object is not locked here.
unfoldable pub count_down :
    Services → Receiver → (code : ℤ) (message : List ℕ) → Option (Services × Pc)
unfolding leave
count_down s r code message = do
  l ← cell s.levels r.address
  let s1 = set_level s r.address (record l { waiting = l.waiting - 1 })
  if l.waiting == 1 then some (s1, cleaning r code message) else leave s1 r code message

-- Both, with nothing in between: `receive_wake_lem` of `Receive.Halves`.
unfoldable pub receive_wake : (copy_ok : Bool) → Services → Receiver → Option (Services × Pc)
unfolding leave wake_code copy_message
receive_wake copy_ok s r = do
  t ← tag_at s r.tag
  l ← cell s.levels r.address
  let (code, message) = copy_message copy_ok r l (wake_code t l)
  let s1 = set_level s r.address (record (release_level l) { waiting = l.waiting - 1 })
  if l.waiting == 1 then some (s1, cleaning r code message) else leave s1 r code message

-- The trylock succeeds once no thread holds the level's `rcu_lock`. A level with a newer epoch is
-- freed. Another is made ready for the next message: `memset` runs over `size` bytes, which has just
-- been set to 0, so the buffer stays.
unfoldable pub receive_clean :
    Services → Receiver → (code : ℤ) (message : List ℕ) → Option (Services × Pc)
unfolding leave
receive_clean s r code message = do
  t ← tag_at s r.tag
  l ← cell s.levels r.address
  elim (pointer t.tag_level r.level) [
    | none ↦ leave s r eproto message
    | some b ↦ do
      newest ← cell s.levels b
      let freed = record s { levels = free_level s.levels r.address }
      let reset = set_level s r.address (record l { ready = false; size = 0 })
      leave (if ltb l.epoch newest.epoch then freed else reset) r code message
  ]
