-- ===== src/Mount.antt =====
-- `init_module` and `cleanup_module` of syscall-table-disc/scth_module.c, built without the dummy
-- system call: the search, and what it leaves for the module in tag-module/.
mod Entries
pub mod Installs
mod Tests
use tag_aos.Base.{ℕ, zero, suc, ◌+◌, Option, none, some, List, [], ◌∷◌}
use tag_aos.Search.{Kernel, slot, find_syscall_table}
use tag_aos.Syscalls.{Discovery, syscall_clean}

-- `TABLE_ENTRIES`
abbrev pub table_entries : ℕ
table_entries = 256

-- The table's entries from `n` on, `left` of them.
unfoldable pub entries_from : Kernel → (table left n : ℕ) → List ℕ
entries_from k table zero n = []
entries_from k table (suc left) n = slot k table n ∷ entries_from k table left (n + 1)

unfoldable pub init_module : Kernel → Discovery
init_module k = elim (find_syscall_table k) [
  | none ↦ record { table = none; sys_ni = 0 }
  | some (table, ni) ↦ record { table = some (entries_from k table table_entries 0); sys_ni = ni }
]

unfoldable pub cleanup_module : Discovery → Discovery
unfolding syscall_clean
cleanup_module d = syscall_clean d
