-- ===== src/Syscalls/Tests.antt =====
-- The installation on a table of 240 entries, where the seven hold address 9.
use tag_aos.Base.{ℕ, ◌≡◌, ◌↔◌, ◌⊎◌, refl, some, List, set, replicate}
use tag_aos.Syscalls.{Discovery, syscall_insert, install_syscalls}
use tag_aos.Syscalls.Install.{install_syscalls_result}

abbrev kernel_table : List ℕ
kernel_table =
    set (set (set (set (set (set (set (replicate 240 77) 134 9) 174 9) 182 9) 183 9) 214 9) 215 9)
      236 9

abbrev discovery : Discovery
discovery = record { table = some kernel_table; sys_ni = 9 }

abbrev one_call : Discovery
one_call = record discovery { table = some (set kernel_table 134 1000) }

insert_runs : syscall_insert discovery 1000 ≡ (one_call, 134)
unfolding syscall_insert
insert_runs = refl

install_syscalls_result_example : ((install_syscalls discovery 1000 2000 3000 4000).result ≡ 0) ↔ (
    ((install_syscalls discovery 1000 2000 3000 4000).get_nr ≡ 0)
    ⊎ (((install_syscalls discovery 1000 2000 3000 4000).send_nr ≡ 0)
        ⊎ (((install_syscalls discovery 1000 2000 3000 4000).receive_nr ≡ 0)
            ⊎ ((install_syscalls discovery 1000 2000 3000 4000).ctl_nr ≡ 0))))
install_syscalls_result_example = install_syscalls_result discovery 1000 2000 3000 4000
