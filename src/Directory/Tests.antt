-- ===== src/Directory/Tests.antt =====
-- The theorems on the directory, at a concrete run.
use tag_aos.Base.{ℕ, ◌<◌, ◌≡◌, ◌≢◌, [], pos, set}
use tag_aos.Hashmap.Direct.{direct}
use tag_aos.Tag.{max_tags, ipc_private}
use tag_aos.Receive.{cleaning}
use tag_aos.Threads.{with_services}
use tag_aos.Threads.Runs.{sleeping, reader, reaches, interrupted, woken_step, sleeping_tag}
use tag_aos.Directory.{Change, directory}
use tag_aos.Directory.Refines.{Step_refines}
use tag_aos.Directory.Unique.{keys_unique}

Step_refines_example :
    Change
      (directory sleeping.system)
      (directory (with_services sleeping interrupted sleeping.pcs).system)
Step_refines_example =
    Step_refines direct 3 sleeping
      (with_services sleeping interrupted (set sleeping.pcs 0 (cleaning reader (pos 0) []))) reaches
      woken_step

keys_unique_example :
    (0 < max_tags)
    × (sleeping_tag.0.key ≡ sleeping_tag.0.key → sleeping_tag.0.key ≢ ipc_private → ◌≡◌ {A = ℕ} 0 0)
keys_unique_example =
    keys_unique direct 3 0 0 sleeping sleeping_tag.0 sleeping_tag.0 reaches sleeping_tag.1
      sleeping_tag.1
