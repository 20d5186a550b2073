-- ===== src/Send.antt =====
-- `tag_send` of tag-module/tag-syscall.c. The model has no other thread run during a call: what
-- others could do to it, a wait that is interrupted or a mutex that is taken, is an argument.
-- `none` stands for an access to a level that has been freed.
pub mod Publish
pub mod Delivery
mod Tests
use tag_aos.Base.{
  ℕ, ◌==◌, Bool, true, false, not, Option, none, some, List, [], ◌∷◌, ◌++◌, ℤ, pos, ltb,
  if◌then◌else◌, take, drop, get_or, set,
}
use tag_aos.Tag.{max_tags, levels_count, buffer_size, einval, eintr, enodata, eperm, efault}
use tag_aos.Level.{TagLevel, Heap, Pointers, cell}
use tag_aos.Level.Build.{pointer}
use tag_aos.Service.{Tag, Services, Done, returned, tag_at, set_level, denied, index}

pub record SendCall : Type 0 where
  pub lock_ok : Bool  -- the wait for `tag_lock` is not interrupted
  pub level_lock_ok : Bool  -- nor that for `level_lock`
  pub rcu_ok : Bool  -- nor that for `rcu_lock`
  pub mutex_free : Bool  -- no other sender holds `w_mutex`
  pub copy : Option (List ℕ)  -- what a failed copy leaves in the level's buffer
  pub euid : ℕ

-- The message is in the buffer: announce it, and wake the receivers of the level at `a`.
unfoldable pub publish :
    Services → (a : ℕ) → TagLevel → (buffer : List ℕ) (size : ℕ) → Done Services
publish s a l buffer size = record {
  state = set_level s a (record l { buffer = buffer; size = size; ready = true });
  code = pos 1;
  woken = a ∷ [];
}

-- The level at `a` is held by its `rcu_lock`.
unfoldable pub send_level :
    SendCall → Services → (a : ℕ) → TagLevel → (message : List ℕ) (size : ℕ) → Done Services
unfolding publish
send_level c s a l message size =
    if not c.rcu_ok
    then returned s eintr
    else if not c.mutex_free
    then returned s (pos 0)
    else if l.ready
    then returned s (pos 0)
    else if l.waiting == 0
    then returned s (pos 0)
    else if ltb 0 size
    then elim c.copy [
      | some spoiled ↦ returned (set_level s a (record l { buffer = spoiled })) efault
      | none ↦ publish s a l (take size message ++ drop size l.buffer) size
    ]
    else publish s a l l.buffer size

-- `tag_lock` is held.
unfoldable pub send_tag :
    SendCall → Services → Tag → (level : ℕ) (message : List ℕ) (size : ℕ) → Option (Done Services)
unfolding send_level
send_tag c s t level message size =
    if denied t c.euid
    then some (returned s eperm)
    else if t.waiting == 0
    then some (returned s (pos 0))
    else if not c.level_lock_ok
    then some (returned s eintr)
    else elim (pointer t.tag_level level) [
      | none ↦ some (returned s eintr)
      | some a ↦ elim (cell s.levels a) [
        | none ↦ none
        | some l ↦ some (send_level c s a l message size)
      ]
    ]

-- The arguments are in range; `size` is 0 if there is no buffer.
unfoldable pub send_checked :
    SendCall → Services → (tag level : ℕ) (message : List ℕ) (size : ℕ) → Option (Done Services)
unfolding send_tag
send_checked c s tag level message size =
    if not c.lock_ok then some (returned s eintr) else elim (tag_at s tag) [
      | none ↦ some (returned s enodata)
      | some t ↦ send_tag c s t level message size
    ]

-- The bytes behind the user's pointer, and how many of them count.
abbrev pub message_of : Option (List ℕ) → List ℕ
message_of none = []
message_of (some bytes) = bytes

abbrev pub size_of : Option (List ℕ) → ℕ → ℕ
size_of none size = 0
size_of (some bytes) size = size

-- A null `buffer` is `none`.
unfoldable pub tag_send :
    SendCall
    → Services
    → (tag level : ℤ) (buffer : Option (List ℕ)) (size : ℕ) → Option (Done Services)
unfolding send_checked
tag_send c s tag level buffer size = elim (index tag max_tags) [
  | none ↦ some (returned s einval)
  | some d ↦ elim (index level levels_count) [
    | none ↦ some (returned s einval)
    | some i ↦
        if ltb buffer_size size
        then some (returned s einval)
        else send_checked c s d i (message_of buffer) (size_of buffer size)
  ]
]
