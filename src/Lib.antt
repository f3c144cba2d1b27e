-- ===== src/Lib.antt =====
-- The repository holds a kernel (sched/), a file system for FUSE (fisopfs/), a shell (shell/) and
-- exercises (fork/). This library models the core of them.
--
-- sched/, the kernel: one CPU that holds the kernel lock, but for Sched/Lock.
--   Sched/Strings         lib/string.c, without memset and memmove; Convert has strtol, Compare theorems.
--   Sched/Format          lib/printfmt.c: Number (printnum and the loops that put characters), Directive
--                         (the flags), Errors (the texts), Print (vprintfmt, vsnprintf); Fold, Buffer,
--                         Ends and Digits hold theorems.
--   Sched/Console         kern/console.c: Tables, Keyboard, Display and Buffer; Fifo holds theorems on
--                         the input buffer.
--   Sched/Debug           kern/kdebug.c: Search (stab_binsearch) and Info (debuginfo_eip); Scan, Step and
--                         Bracket hold theorems.
--   Sched/Lock            kern/spinlock.c, and where trap, env_run, sched_halt, i386_init and mp_main take
--                         and release the kernel lock (System); Exclusion holds theorems.
--   Sched/Processors      kern/mpconfig.c; Count holds theorems.
--   Sched/Random          kern/sched.c: the Park-Miller generator on 32-bit words.
--   Sched/Memory          kern/pmap.c: the page allocator, page tables and the checks of user memory.
--     Defs, Tables, Init    the state and the operations, under their names in the source;
--     Layout, Startup       memory at boot: boot_alloc, the tables of mem_init, boot_map_region;
--     FreeList, Boot        the free list and what page_init leaves on it;
--     Ownership, Reachable, Walks  the allocator in every state that its users reach;
--     Mapping, Access       page_insert, page_remove and user_mem_check.
--   Sched/Kernel          the state of kern/env.c, sched.c and syscall.c, and how a function ends.
--   Sched/Env             kern/env.c: Table (envid2env, env_init, env_alloc), Run (env_run), Free
--                         (env_free, env_destroy) and Load (load_icode, env_create); Lookup, Alloc and
--                         Create hold theorems.
--   Sched/Yield           kern/sched.c: the lottery, sched_halt, sched_yield, round_robin; Draw and
--                         Switch hold theorems.
--   Sched/Syscall         kern/syscall.c: the dispatcher, with Base, Envs, Pages and Ipc below it;
--                         Rights and Messages hold theorems.
--   Sched/Trap            kern/trap.c: Dispatch (trap, trap_dispatch, page_fault_handler); Timer and
--                         Faults hold theorems.
--   Sched/User            lib/fork.c, pgfault.c and ipc.c over the system calls that the records of Calls
--                         and Ipc list: Fork and Ipc; Entries, Share, Cow and Send hold theorems.
-- A `struct PageInfo *` is a page's number, a `struct Env *` an index into `envs`, a `pte_t *` a page
-- with the index of a word. An operation on memory is a state monad that may panic; a kernel function
-- ends by a return, by a switch to an environment, in the halted CPU, in the monitor, by a panic or by
-- a fault (an access through a null or an unset pointer). Traps lead to system
-- calls and to the scheduler; system calls use the environments, which use memory; sched_yield ends in
-- env_run.
--
-- fisopfs/, the file system: `fs.map` is a function from a row and a column to a cell.
--   Fisopfs/Structs       structs.h, find_pos, clear_cell, get_directory.
--   Fisopfs/Query         getattr, readdir, read, open.
--   Fisopfs/Update        mknod, utimens, write, mkdir, rmdir, unlink, truncate.
--   Fisopfs/Arguments     argumentos.c.
--   Fisopfs/Backup        persistence.c; Record and Reload hold theorems.
--   Fisopfs/Lookup, Slots, Create, Room, Remove, Contents hold theorems.
-- A path is the list of its bytes before the NUL, `contenido` the list of all its bytes, and a result
-- `none` is an access outside of an array.
--
-- shell/, the command shell:
--   Shell/Text            utils.c and get_token of parsing.c.
--   Shell/Command         types.h and createcmd.c.
--   Shell/Parsing         parsing.c, with getenv and the printed status in the record `Host`.
--   Shell/Environ         get_environ_key, get_environ_value and set_environ_vars of exec.c.
--   Shell/Execute         exec_cmd and open_redir_fd of exec.c, with what the system answers in `Os`.
--   Shell/Builtin         builtin.c, with the directories of the system in `Dirs`.
--   Shell/Run             runcmd.c, readline.c, printstatus.c and the loop of sh.c; Loop holds theorems.
--   Shell/Words, Variables, Pipes, Redirect hold theorems.
--
-- fork/, the exercises:
--   Exercises/Primes      primes.c: processes and pipes, as a step relation; Sieve, Pipeline, Cost and Ends
--                         hold theorems.
--   Exercises/Xargs       xargs.c; Batches holds theorems.
--   Exercises/Find        challenges/find.c; Walk holds theorems.
--
-- Prelude holds the Boolean tests, lists, arrays and lemmas on `|` that the parts share. The modules
-- called Examples apply the theorems at concrete inputs.
--
-- Bounds. Words of 32 and 16 bits wrap around as written out (`% 2 ^ 32`, `% 65536`). Loops over a
-- fixed array count down from its size. user_mem_check looks at va_hi / 4096 pages at most, which
-- covers every page below va_hi; parse_exec takes a round for each byte, and each round takes one
-- byte or more; parse_line takes a round for each segment. vprintfmt takes a round for each character or
-- directive, and eight for the text of an error inside it; printnum a round for each digit, of the number's value and one more that it is given;
-- stab_binsearch two rounds for each entry and two more, where no entry is at the next address;
-- run_shell one for each line and one more; ipc_send one for each try; xargs
-- one for each byte of the input and one more; region_alloc and boot_map_region one for each page;
-- mpsearch1 one for each 16 bytes; get_caller_pcs has ten.
--
-- strtol gives its signed result as the 32-bit pattern, with an overflow taken as wrap-around. The sums of the
-- tickets are not wrapped, nor is size + strlen in fisopfs_write. The bytes of %s are not sign-extended.
--
-- Not modelled: devices but the console, the boot of the other CPUs, the checks that pmap.c runs at
-- boot, and the user programs of sched/; fork/challenges/cp1.c and ps0.c; the memory of the commands
-- of shell/, which freecmd.c frees, and its handler of SIGCHLD. What a function prints is left out,
-- but for the calls of printf in primes.c, whose buffer is not modelled (on a terminal each line is written
-- at once); the TLB is left out too; the kernel lock is modelled apart from what it protects.

pub mod Prelude
pub mod Sched
pub mod Fisopfs
pub mod Shell
pub mod Exercises
