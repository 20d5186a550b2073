-- ===== src/Mount/Tests.antt =====
-- The two modules at the run of `Search.Runs`.
use tag_aos.Base.{ℕ, ◌<◌, ◌≡◌, ◌≢◌, some, List, get_or, arith}
use tag_aos.Search.{start_addr, slot}
use tag_aos.Search.Runs.{kernel, find_runs}
use tag_aos.Syscalls.{install_syscalls}
use tag_aos.Mount.{table_entries, init_module, cleanup_module}
use tag_aos.Mount.Installs.{mount_installs}

abbrev ni : ℕ
ni = 0xffffffff00001000

one_differs : ◌≢◌ {A = ℕ} 1 ni
one_differs e = omega (arith, e)

two_differs : ◌≢◌ {A = ℕ} 2 ni
two_differs e = omega (arith, e)

three_differs : ◌≢◌ {A = ℕ} 3 ni
three_differs e = omega (arith, e)

mount_installs_example :
    (install_syscalls (init_module kernel) 1 2 3 4).get_nr ≡ 134
    × ((install_syscalls (init_module kernel) 1 2 3 4).send_nr ≡ 174
        × ((install_syscalls (init_module kernel) 1 2 3 4).receive_nr ≡ 182
            × ((install_syscalls (init_module kernel) 1 2 3 4).ctl_nr ≡ 183
                × ((t : List ℕ) × ((cleanup_module
                        (install_syscalls (init_module kernel) 1 2 3 4).discovery).table
                      ≡ some t)
                    × ((j : ℕ) → j < table_entries → get_or t j 0 ≡ slot kernel start_addr j)))))
mount_installs_example =
    mount_installs kernel start_addr ni find_runs 1 2 3 4 one_differs two_differs three_differs
