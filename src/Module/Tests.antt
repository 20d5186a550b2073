-- ===== src/Module/Tests.antt =====
-- Loading and unloading at concrete states.
use tag_aos.Base.{
  refl, ◌↔◌, ◌==ℤ◌, ◌&&◌, if◌then◌else◌, set, replicate, ◌≡◌, ◌≢◌, ◌⊎◌, true, none, some, pos,
  negsuc,
}
use tag_aos.Bitmask.{fresh_bitmask}
use tag_aos.Hashmap.Direct.{direct}
use tag_aos.Tag.{max_tags}
use tag_aos.Init.{InitCall, start_with}
use tag_aos.Syscalls.{Discovery, install_syscalls}
use tag_aos.Module.{init_module}
use tag_aos.Module.Load.{init_module_result}

abbrev call : InitCall
call = record { table_ok = true; mask_ok = true; struct_ok = true; tags_ok = true }

-- A table whose seven entries are free.
abbrev discovery : Discovery
discovery = record {
  table = some (
      set (set (set (set (set (set (set (replicate 240 77) 134 9) 174 9) 182 9) 183 9) 214 9) 215 9)
        236 9);
  sys_ni = 9;
}

install_runs : (install_syscalls discovery 1000 2000 3000 4000).result ≡ 776562696
unfolding install_syscalls
install_runs = refl

init_module_result_example :
    (((init_module direct call discovery 1000 2000 3000 4000).code ≡ pos 0) ↔ (
      ((call.table_ok && (call.mask_ok && (call.struct_ok && call.tags_ok))) ≡ true)
      × (((install_syscalls discovery 1000 2000 3000 4000).get_nr ≢ 0)
          × (((install_syscalls discovery 1000 2000 3000 4000).send_nr ≢ 0)
              × (((install_syscalls discovery 1000 2000 3000 4000).receive_nr ≢ 0)
                  × ((install_syscalls discovery 1000 2000 3000 4000).ctl_nr ≢ 0))))))
    × ((init_module direct call discovery 1000 2000 3000 4000).state ≡ (
        if (init_module direct call discovery 1000 2000 3000 4000).code ==ℤ pos 0
        then some (start_with direct (fresh_bitmask max_tags))
        else none))
    × ((init_module direct call discovery 1000 2000 3000 4000).discovery ≡ (
        if call.table_ok && (call.mask_ok && (call.struct_ok && call.tags_ok))
        then (install_syscalls discovery 1000 2000 3000 4000).discovery
        else discovery))
    × (((init_module direct call discovery 1000 2000 3000 4000).code ≡ pos 0)
        ⊎ ((init_module direct call discovery 1000 2000 3000 4000).code ≡ negsuc 0))
init_module_result_example = init_module_result direct call discovery 1000 2000 3000 4000
