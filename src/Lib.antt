-- ===== src/Lib.antt =====
-- The tag-based message exchange of the Linux kernel module in tag-module/. A tag is a service with 32
-- levels. Threads wait on a level with tag_receive, tag_send hands its message to all the threads that
-- wait there, tag_ctl wakes all receivers of a tag or removes the tag, and tag_get creates and finds
-- tags. Keys lead to descriptors through a hash table, and a bitmask says which descriptors are free.
--
-- Files, and the code they model:
--   Base, Base/            arrays, integers and bits, shared by all modules
--   Bitmask, Bitmask/      utils/bitmask/bitmask.c: initialize_bitmask, get_avail_number, clear_number
--   Hashmap                the interface of utils/hash-struct/hashmap.c, as far as the module calls it
--   Hashmap/Direct         a table that keeps the interface's promises
--   Tag                    tag-module/include/tag.h and tag-module/tag-struct.h: constants and errors
--   Registry, Registry/    the critical sections under common_lock in tag-module/tag-syscall.c: the
--                          reservation of a descriptor in tag_get, and clear_tag_common
--   Level, Level/          create_level, add_tag_level, clear_tag_level, free_level
--   Service                tag_t, the global arrays, CHECKPERM
--   Get, Get/              tag_get
--   Send, Send/            tag_send
--   Receive, Receive/      tag_receive
--   Ctl, Ctl/              tag_ctl
--   Threads, Threads/      any number of threads inside the calls of tag-module/tag-syscall.c: the steps
--                          in any order, the invariant on what the counters stand for, and runs
--   Calls, Calls/          the wrappers of the system calls in tag-module/tag-syscall.c, which hold a
--                          reference to the module during a call, and the threads behind them
--   Directory, Directory/  what a user sees of tag_get and tag_ctl: the tags with their keys and
--                          permissions, and how a call may change that
--   Init, Init/            initialize of tag-module/tag-module.c
--   Pages, Pages/          get_phys_frame of syscall-table-disc/ptexplorer/ptexplorer.c, and get_pt_addr of
--                          syscall-table-disc/arch-common/arch-common.c
--                          (Pages/Tables says what page tables mean, apart from the code)
--   Search, Search/        find_syscall_table and syscall_table_pattern of
--                          syscall-table-disc/scth_discovery.c
--   Syscalls, Syscalls/    syscall_insert and syscall_clean of syscall-table-disc/scth_discovery.c, and
--                          install_syscalls of tag-module/tag-syscall.c
--   Mount, Mount/          init_module and cleanup_module of syscall-table-disc/scth_module.c
--   Module, Module/        init_module and cleanup_module of tag-module/tag-module.c
--   Device, Device/        dev_read, append_buffer and dev_llseek of tag-module/tag-dev-driver.c
--   Invariant              what ties the array of tags to the registry
--   Fixture, and Tests in each folder: concrete states, and the theorems at them
--
-- State. The registry is the hash table and the bitmask. The services are the array of tags (a missing
-- tag is none), the heap of levels (a pointer is an index, and a cell that is none has been freed) and
-- the number of readers that each tag_lock has. A system is both. Pointers are never reused, so that a
-- read of a freed level shows as the result none.
--
-- What the kernel decides is an argument: whether a wait for a lock is interrupted, an allocation
-- fails, a copy from or to the user fails, a mutex is free, and who the caller is. Every operation
-- takes these as a record (GetCall, SendCall, ReceiveCall, RenewCall, CtlCall, InitCall, ReadCall).
--
-- Steps. tag_get, tag_send and tag_ctl are one step each. tag_receive is four: up to the sleep, the
-- move to a new epoch of the level if it finds a message, the wake up, and what the last receiver of
-- a level does. A lock is held over several steps by a receiver only, on its tag and on its level,
-- and those are counted. Return codes are integers, negative for an error. Threads puts the steps
-- together: Step picks a thread, which goes on from where it stands, or runs another call as a
-- whole, and Reach is any sequence of steps after the module is loaded. In it the wait for the lock
-- that undoes a failed TAG_CREAT is not killed (the operation alone is modelled with that path too),
-- and a last receiver comes to its step when no thread reads its level object any more, as the
-- spinning for the lock makes sure. That step has no result where the object is freed already. Each
-- step of Threads stands for several lines of the code, with the accesses to shared memory between a
-- pair of lock calls. In two places this joins more than the locks do. The wake up (receive_wake)
-- releases rcu_lock and then counts the thread off without it: release_wake and count_down are the
-- two halves, and another thread may run between them. The move to a new epoch (settle) releases the
-- old object before it waits for the new one's lock, and puts the old pointer back if that wait is
-- interrupted.
--
-- Bounds and fuel. Loops run over a count that the code fixes (32 levels, the slots of the bitmask,
-- 64 bits, the entries and pages of the search), so no fuel is needed. Words of the bitmask are
-- numbers below 2^64. Descriptors, levels and keys are natural numbers once the range tests have let
-- them pass. Counts and sizes stay far below 2^31 and are natural numbers. The hash table is a
-- parameter: the theorems hold for every table that keeps the laws of Hashmap.
--
-- Calls adds the module's reference count to the threads. There a call whose try_module_get fails is
-- not a step, since it changes nothing.
--
-- Memory, the page tables and the register CR3 are arguments of Pages and Search, which read them only.
-- Addresses are numbers below 2^64; the search stays below that.
--
-- Not modelled: the registration of the character device and its operations that return a constant,
-- the printing functions, the processor's write protection, and the test routines, the one in
-- syscall-table-disc/scth_module.c included. The hash table is another project's code.
pub mod Base
pub mod Bitmask
pub mod Hashmap
pub mod Tag
pub mod Registry
pub mod Level
pub mod Service
pub mod Get
pub mod Invariant
pub mod Send
pub mod Receive
pub mod Ctl
pub mod Threads
pub mod Calls
pub mod Directory
pub mod Init
pub mod Pages
pub mod Search
pub mod Syscalls
pub mod Mount
pub mod Module
pub mod Device
mod Fixture
