-- ===== src/Syscalls.antt =====
-- The system call table: `syscall_insert` and `syscall_clean` of syscall-table-disc/scth_discovery.c,
-- and `install_syscalls` of tag-module/tag-syscall.c. The kernel's table is a list of addresses.
pub mod Insert
pub mod Install
mod Tests
use tag_aos.Base.{
  ℕ, ◌*◌, ◌%◌, ◌^◌, ◌==◌, Bool, Option, none, some, List, [], ◌∷◌, if◌then◌else◌, get_or, set,
}

-- The entries that the kernel leaves at `sys_ni_syscall`.
abbrev pub ni_syscall : List ℕ
ni_syscall = 134 ∷ 174 ∷ 182 ∷ 183 ∷ 214 ∷ 215 ∷ 236 ∷ []

-- What the search has found: `syscall_table_addr`, `none` for 0, and `sys_ni_address`.
pub record Discovery : Type 0 where
  pub table : Option (List ℕ)
  pub sys_ni : ℕ

-- The loop over the entries: the first that is free.
unfoldable pub free_entry : List ℕ → (table : List ℕ) (sys_ni : ℕ) → Option ℕ
free_entry [] table sys_ni = none
free_entry (n ∷ ns) table sys_ni =
    if get_or table n 0 == sys_ni then some n else free_entry ns table sys_ni

-- The number of the new system call, or 0.
unfoldable pub syscall_insert : Discovery → (function : ℕ) → Discovery × ℕ
unfolding free_entry
syscall_insert d function = elim d.table [
  | none ↦ (d, 0)
  | some table ↦ if d.sys_ni == 0 then (d, 0) else elim (free_entry ni_syscall table d.sys_ni) [
    | none ↦ (d, 0)
    | some n ↦ (record d { table = some (set table n function) }, n)
  ]
]

unfoldable pub restore : List ℕ → (table : List ℕ) (sys_ni : ℕ) → List ℕ
restore [] table sys_ni = table
restore (n ∷ ns) table sys_ni = restore ns (set table n sys_ni) sys_ni

unfoldable pub syscall_clean : Discovery → Discovery
unfolding restore
syscall_clean d = elim d.table [
  | none ↦ d
  | some table ↦
      if d.sys_ni == 0 then d else record d { table = some (restore ni_syscall table d.sys_ni) }
]

-- The four numbers, and their product as a 32-bit word, which `init_module` compares with 0.
pub record Installed : Type 0 where
  pub discovery : Discovery
  pub get_nr : ℕ
  pub send_nr : ℕ
  pub receive_nr : ℕ
  pub ctl_nr : ℕ
  pub result : ℕ

unfoldable pub install_syscalls : Discovery → (get send receive ctl : ℕ) → Installed
unfolding syscall_insert
install_syscalls d get send receive ctl =
    let (d1, get_nr) = syscall_insert d get in
    let (d2, send_nr) = syscall_insert d1 send in
    let (d3, receive_nr) = syscall_insert d2 receive in
    let (d4, ctl_nr) = syscall_insert d3 ctl in
    record {
      discovery = d4;
      get_nr = get_nr;
      send_nr = send_nr;
      receive_nr = receive_nr;
      ctl_nr = ctl_nr;
      result = get_nr * send_nr * receive_nr * ctl_nr % 2 ^ 32;
    }
