-- ===== src/Level.antt =====
-- `tag_level_t` of tag-module/tag-struct.h, and the helpers of tag-module/tag-syscall.c that allocate
-- and free levels: `create_level`, `add_tag_level`, `clear_tag_level`, `free_level`.
pub mod Build
mod Tests
use tag_aos.Base.{
  ℕ, zero, suc, ◌+◌, Bool, true, false, ◌&&◌, Option, none, some, List, [], ◌∷◌, ◌++◌, ℤ, pos,
  if◌then◌else◌, length, get_or, set, replicate,
}
use tag_aos.Tag.{levels_count, buffer_size, enomem}

-- One epoch of one level. The wait queue and the mutex hold nothing between two steps; `readers`
-- counts the threads that hold `rcu_lock` for reading.
pub record TagLevel : Type 0 where
  pub level : ℕ
  pub size : ℕ
  pub ready : Bool
  pub epoch : ℕ
  pub waiting : ℕ
  pub readers : ℕ
  pub buffer : List ℕ

-- The levels in memory. A pointer is an index; a cell that is `none` has been freed.
abbrev pub Heap : Type 0
Heap = List (Option TagLevel)

abbrev pub cell : Heap → ℕ → Option TagLevel
cell h a = get_or h a none

-- `tag_level_t**`: the level pointers of one tag, `none` for 0.
abbrev pub Pointers : Type 0
Pointers = List (Option ℕ)

-- Which of the allocations for level `i` succeed.
pub record Memory : Type 0 where
  pub level_ok : ℕ → Bool
  pub buffer_ok : ℕ → Bool

abbrev pub new_level : (i epoch : ℕ) → TagLevel
new_level i epoch = record {
  level = i;
  size = 0;
  ready = false;
  epoch = epoch;
  waiting = 0;
  readers = 0;
  buffer = replicate buffer_size 0;
}

-- If the buffer cannot be allocated, the level is freed again.
unfoldable pub create_level : Memory → (i epoch : ℕ) → Option TagLevel
create_level m i epoch =
    if m.level_ok i then if m.buffer_ok i then some (new_level i epoch) else none else none

-- The loop of `add_tag_level` at level `i`, with `left` levels to go. The result is the heap, the
-- pointers and the return code.
unfoldable pub add_level_from : Memory → Heap → Pointers → (left i : ℕ) → Heap × Pointers × ℤ
unfolding create_level
add_level_from m h ps zero i = (h, ps, pos 0)
add_level_from m h ps (suc left) i = elim (create_level m i 0) [
  | none ↦ (h, ps, enomem)
  | some l ↦ add_level_from m (h ++ some l ∷ []) (set ps i (some (length h))) left (i + 1)
]

unfoldable pub add_tag_level : Memory → Heap → Pointers → Heap × Pointers × ℤ
unfolding add_level_from
add_tag_level m h ps = add_level_from m h ps levels_count 0

-- The buffer goes with its level.
unfoldable pub free_level : Heap → ℕ → Heap
free_level h a = set h a none

-- The array has `LEVELS` entries, and the loop runs over all of them.
unfoldable pub clear_tag_level : Heap → Pointers → Heap
unfolding free_level
clear_tag_level h [] = h
clear_tag_level h (none ∷ ps) = clear_tag_level h ps
clear_tag_level h (some a ∷ ps) = clear_tag_level (free_level h a) ps
