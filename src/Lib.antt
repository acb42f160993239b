-- ===== src/Lib.antt =====
-- Filebench: the core of the workload generator (filebench/), modelled and verified.
--
-- A run has worker threads, each of which repeats a list of flowops: operations on the files of a
-- fileset, and operations that limit the rate or end the run. The processes share one region of
-- memory: the objects (ipc.c), the filesets with the state of each entry (fileset.c) and the queue
-- of events that limits the rate (eventgen.c); the statistics (flowop.c) are of each flowop and
-- thread, and in controlstats of all. A file flowop picks an entry of a fileset, which makes it
-- busy, asks the file system, and unbusies the entry; a limit flowop compares the statistics with
-- the events and waits where it is ahead.
--
-- The files, and the code that they are about:
--   Base          names, Boolean tests and integers that the others share
--   Ipc           filebench/ipc.c: ipc_malloc and ipc_free on the object maps; Ipc.Strings:
--                 ipc_stralloc, ipc_pathalloc, ipc_freepaths; Ipc.Semids: ipc_semidalloc and
--                 ipc_semidfree
--   Fileset       filebench/fileset.c: State has the entries and the invariant GroupInv, Pick
--                 fileset_pick and fileset_find_entry, Unbusy fileset_unbusy and fileset_move_entry,
--                 Populate the making of entries, Path fileset_resolvepath; Avl is the
--                 interface of the trees
--   FileOps       filebench/flowop_library.c: flowoplib_openfile_common, flowoplib_createfile,
--                 flowoplib_closefile, flowoplib_deletefile, with fileset_openfile
--                 Io: flowoplib_filesetup, _iobufsetup, _read, _write, _appendfile,
--                 _appendfilerand, _readwholefile and the loop of _writewholefile. Dirs:
--                 flowoplib_getdirpath, _makedir, _removedir, _listdir, _statfile, _fsync, _fsyncset
--   Descriptors   flowoplib_fdnum, the rotation of descriptors
--   Limits        filebench/eventgen.c, flowop_endop of filebench/flowop.c, and flowoplib_iopslimit,
--                 _opslimit, _bwlimit, _eventlimit, _finishonbytes and _finishoncount
--   Strings       fb_strlcpy and fb_strlcat of filebench/utils.c
--   Random        filebench_randomno64 and filebench_randomno32 of filebench/fb_random.c
--   Vars          filebench/vars.c and vars.h: the lists of variables, Eval var_get_int and the binary
--                 operations, Assign and Local the var_assign_ and var_lvar_ routines, Avd the
--                 attribute descriptors, Dynamic the variables filled at lookup; Inv is the
--                 well-formed state, Binop the meaning of operations as expression trees
--   Flows         filebench/flowop.c: the lists of flowops with flowop_define_common, flowop_delete,
--                 flowop_delete_all and the searches; Worker the main loop of flowop_start and
--                 flowop_composite; Runtime flowop_create_runtime_flowops; Targets flowoplib_wakeup,
--                 _sempost and _semblock of flowop_library.c; Chain is the linked list, Delete,
--                 Define, Pass and Runtime.Made the plain lists that they are compared with
--   Threads       filebench/threadflow.c: threadflow_define, _find and _delete_all on the list of a
--                 process; Init threadflow_init, up to the join
--   Procs         filebench/procflow.c: procflow_define, _find, _cleanup, _sleep and _shutdown on the
--                 list of processes, in a build with the process model
--   Tests         a concrete tree, small worlds and examples
--
-- A fileset keeps the same three trees, idle count and rotors for files and for leaf directories,
-- and fewer of them for directories: they are three records Group. An entry is named by its
-- fse_index. A function that holds fs_pick_lock or shm_eventgen_lock throughout is one step; a wait
-- on a condition variable ends the step with a result of its own, with the state at that point. The
-- AVL trees, the random numbers and what the file system answers are parameters; the trees have the
-- laws of Fileset.Avl, which the trees of Tests.Tree fill.
--
-- fbint_t and uint64_t counters of bytes and operations, and the event queue, wrap around at 2^64,
-- rotors, indices and the int fs_count at 2^32. An int that a number of instances, a rate, a count of
-- events or the size of a write is stored in is that number by its low 32 bits. The open count and
-- idle count of files and the throughput bucket (an int64_t) are integers without overflow.
--
-- filebench_shutdown, which ends the run and does not return unless the run has ended before, ends a
-- step with a result of its own.
--
-- Loops run on fuel: the scan of ipc_malloc on one round of its map, the scan of fileset_pick on two
-- rounds of the entries, and both are shown never to run out; the search of ipc_semidalloc has no
-- bound in the code, and its theorems name the fuel that suffices. fileset_resolvepath takes more fuel
-- than its entry has entries above it.
--
-- Variables live in the slots that Ipc's ipc_malloc hands out, and their texts in the string region.
-- Doubles are a type with its operations, and a random distribution is the function that its rnd_get
-- points to, both arguments. var_get_int calls itself for operands, on fuel; Vars.Binop says what
-- fuel is enough, and when none is.
--
-- Not modelled: the workload language, variables as strings, floating-point numerics (gamma
-- distributions, directory shapes, reports), fork and exec, the waits for threads and processes to
-- start and to end, system calls and what a thread that waits in one does, raw devices, times and log
-- messages; nor the flowops that only burn or wait for time.
pub mod Base
pub mod Ipc
pub mod Fileset
pub mod FileOps
pub mod Limits
pub mod Random
pub mod Descriptors
pub mod Vars
pub mod Flows
pub mod Threads
pub mod Procs
pub mod Strings
pub mod Tests
