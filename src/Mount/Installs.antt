-- ===== src/Mount/Installs.antt =====
-- The two modules together: a table that the search has found has room for the four system calls.
use mathlib.Core.Path.{subst}
use tag_aos.Base.{
  ℕ, ◌*◌, ◌%◌, ◌^◌, ◌<◌, ◌==◌, ◌≡◌, ◌≢◌, refl, sym, ap, ◌∙◌, Option, none, some, List,
  if◌then◌else◌, get_or, get_or-set, set, length, length-set, arith,
}
use tag_aos.Search.{Kernel, slot, find_syscall_table}
use tag_aos.Search.Pattern.{IsTable}
use tag_aos.Search.Found.{find_syscall_table_sound}
use tag_aos.Syscalls.{ni_syscall, Discovery, free_entry, Installed, install_syscalls}
use tag_aos.Syscalls.Install.{Free, clean-install_syscalls}
use tag_aos.Mount.{table_entries, entries_from, init_module, cleanup_module}
use tag_aos.Mount.Entries.{
  length-entries_from, get_or-entries_from, insert_at, chain, first_free, next_free,
}

-- What `init_module` keeps of the search.
found_as : Kernel → Option (ℕ × ℕ) → Discovery
found_as k none = record { table = none; sys_ni = 0 }
found_as k (some o) = record { table = some (entries_from k o.0 table_entries 0); sys_ni = o.1 }

module _ (k : Kernel) (table ni : ℕ) (found : find_syscall_table k ≡ some (table, ni))
    (get send receive ctl : ℕ) (g : get ≢ ni) (s : send ≢ ni) (r : receive ≢ ni) where
  abbrev t0 : List ℕ
  t0 = entries_from k table table_entries 0

  abbrev t1 : List ℕ
  t1 = set t0 134 get

  abbrev t2 : List ℕ
  t2 = set t1 174 send

  abbrev t3 : List ℕ
  t3 = set t2 182 receive

  is_table : IsTable k table
  is_table = (find_syscall_table_sound k table ni found).0

  ni_entry : slot k table 134 ≡ ni
  ni_entry = sym (find_syscall_table_sound k table ni found).1

  known : ni ≢ 0
  known z = omega (arith, is_table.kernel, ni_entry, z)

  before : (n : ℕ) → n < 256 → slot k table n ≡ slot k table 134 → get_or t0 n 0 ≡ ni
  before n lt e =
      get_or-entries_from k table table_entries 0 n lt
      ∙ ap (slot k table) (omega arith)
      ∙ e
      ∙ ni_entry

  size0 : length t0 ≡ 256
  size0 = length-entries_from k table table_entries 0

  size1 : length t1 ≡ 256
  size1 = length-set t0 134 get ∙ size0

  size2 : length t2 ≡ 256
  size2 = length-set t1 174 send ∙ size1

  free0 : free_entry ni_syscall t0 ni ≡ some 134
  free0 = first_free ni t0 134 _ (before 134 (omega arith) refl)

  in1 : (j : ℕ) → get_or t1 j 0 ≡ (if 134 == j then get else get_or t0 j 0)
  in1 j = get_or-set t0 134 j get 0 (omega (arith, size0))

  in2 : (j : ℕ) → get_or t2 j 0 ≡ (if 174 == j then send else get_or t1 j 0)
  in2 j = get_or-set t1 174 j send 0 (omega (arith, size1))

  in3 : (j : ℕ) → get_or t3 j 0 ≡ (if 182 == j then receive else get_or t2 j 0)
  in3 j = get_or-set t2 182 j receive 0 (omega (arith, size2))

  free1 : free_entry ni_syscall t1 ni ≡ some 174
  free1 =
      next_free ni t1 134 _ (λ e. g (sym (in1 134) ∙ e))
      ∙ first_free ni t1 174 _ (in1 174 ∙ before 174 (omega arith) is_table.e174)

  free2 : free_entry ni_syscall t2 ni ≡ some 182
  free2 =
      next_free ni t2 134 _ (λ e. g (sym (in2 134 ∙ in1 134) ∙ e))
      ∙ next_free ni t2 174 _ (λ e. s (sym (in2 174) ∙ e))
      ∙ first_free ni t2 182 _ (in2 182 ∙ in1 182 ∙ before 182 (omega arith) is_table.e182)

  free3 : free_entry ni_syscall t3 ni ≡ some 183
  free3 =
      next_free ni t3 134 _ (λ e. g (sym (in3 134 ∙ in2 134 ∙ in1 134) ∙ e))
      ∙ next_free ni t3 174 _ (λ e. s (sym (in3 174 ∙ in2 174) ∙ e))
      ∙ next_free ni t3 182 _ (λ e. r (sym (in3 182) ∙ e))
      ∙ first_free ni t3 183 _
          (in3 183 ∙ in2 183 ∙ in1 183 ∙ before 183 (omega arith) is_table.e183)

  abbrev holding : List ℕ → Discovery
  holding t = record { table = some t; sys_ni = ni }

  init_found : init_module k ≡ found_as k (find_syscall_table k)
  unfolding init_module found_as
  init_found = by_search (find_syscall_table k)
    where
      by_search :
          (o : Option (ℕ × ℕ))
          → (elim o [
            | none ↦ record { table = none; sys_ni = 0 }
            | some (table, ni) ↦ record {
              table = some (entries_from k table table_entries 0);
              sys_ni = ni;
            }
          ])
            ≡ found_as k o
      by_search none = refl
      by_search (some o) = refl

  mounted : init_module k ≡ holding t0
  unfolding found_as
  mounted = init_found ∙ ap (found_as k) found

  entries_free : Free (holding t0) t0
  entries_free = (
    (omega (arith, size0), before 134 (omega arith) refl),
    (
      (omega (arith, size0), before 174 (omega arith) is_table.e174),
      (
        (omega (arith, size0), before 182 (omega arith) is_table.e182),
        (
          (omega (arith, size0), before 183 (omega arith) is_table.e183),
          (
            (omega (arith, size0), before 214 (omega arith) is_table.e214),
            (
              (omega (arith, size0), before 215 (omega arith) is_table.e215),
              ((omega (arith, size0), before 236 (omega arith) is_table.e236), tt),
            ),
          ),
        ),
      ),
    ),
  )

  result : Installed
  result = record {
    discovery = holding (set t3 183 ctl);
    get_nr = 134;
    send_nr = 174;
    receive_nr = 182;
    ctl_nr = 183;
    result = 134 * 174 * 182 * 183 % 2 ^ 32;
  }

  installed : install_syscalls (init_module k) get send receive ctl ≡ result
  unfolding result
  installed =
      ap (λ d. install_syscalls d get send receive ctl) mounted
      ∙ chain (holding t0) (holding t1) (holding t2) (holding t3) (holding (set t3 183 ctl)) get
          send receive ctl 134 174 182 183 (insert_at (holding t0) t0 get 134 refl known free0)
          (insert_at (holding t1) t1 send 174 refl known free1)
          (insert_at (holding t2) t2 receive 182 refl known free2)
          (insert_at (holding t3) t3 ctl 183 refl known free3)

  -- The table after `cleanup_module`.
  Restored : Discovery → Type 0
  Restored d =
      (t : List ℕ) × (d.table ≡ some t)
      × ((j : ℕ) → j < table_entries → get_or t j 0 ≡ slot k table j)

  cleaned :
      Restored (cleanup_module (install_syscalls (init_module k) get send receive ctl).discovery)
  unfolding cleanup_module Restored
  cleaned =
      subst (λ d. Restored (cleanup_module (install_syscalls d get send receive ctl).discovery))
        (sym mounted)
        (let (t, there, same) =
            clean-install_syscalls (holding t0) t0 get send receive ctl refl known entries_free in
          (
            t,
            there,
            λ j lt.
                same j
                ∙ get_or-entries_from k table table_entries 0 j lt
                ∙ ap (slot k table) (omega arith),
          ))

  -- Where the search finds a table, the module in `tag-module/` gets the numbers 134, 174, 182 and 183
  -- for its four system calls, if none of the first three stands at the address of `sys_ni_syscall`,
  -- and the other module's `cleanup_module` then leaves every entry of the table as the search found it.
  pub mount_installs :
      (install_syscalls (init_module k) get send receive ctl).get_nr ≡ 134
      × ((install_syscalls (init_module k) get send receive ctl).send_nr ≡ 174
          × ((install_syscalls (init_module k) get send receive ctl).receive_nr ≡ 182
              × ((install_syscalls (init_module k) get send receive ctl).ctl_nr ≡ 183
                  × ((t : List ℕ) × ((cleanup_module
                          (install_syscalls (init_module k) get send receive ctl).discovery).table
                        ≡ some t)
                      × ((j : ℕ) → j < table_entries → get_or t j 0 ≡ slot k table j)))))
  unfolding result Restored
  mount_installs = (
    ap Installed.get_nr installed,
    (
      ap Installed.send_nr installed,
      (ap Installed.receive_nr installed, (ap Installed.ctl_nr installed, cleaned)),
    ),
  )
