-- ===== src/Lib.antt =====
-- A model of the core of an xv6 kernel for RISC-V with a reference-counting page allocator and a
-- priority scheduler, and the theorems that make it correct.
--
-- The parts and how they interact. `kernel/kalloc.c` hands out pages of physical memory, with a count
-- of the owners of each page and a counter of the free ones. `kernel/proc.c` keeps the table of
-- processes: it takes two pages from the allocator for each process, gives them back when the process
-- is reaped, and chooses the process that a CPU runs next. Processes sleep on a channel and are woken
-- by it: a parent sleeps in `kwait` on its own address until a child exits, and the readers and writers
-- of a pipe, `kernel/pipe.c`, on the addresses of its two counters. A pipe has two ends in the table of
-- open files, `kernel/file.c`. All of them take the locks of `kernel/spinlock.c`, and copy and clear
-- memory by the routines of `kernel/string.c`. What a system call writes to the disk goes through
-- the log, `kernel/log.c`, and the buffer cache, `kernel/bio.c`; `kernel/fs.c` allocates the blocks.
--
-- Which file models which part:
--   Prelude   what the parts share: Boolean tests, lists over the native numbers, predicates on
--             lists, memories and tables with the update at one place and the loop over a table,
--             results that may be a panic, integers.
--   Kalloc    kernel/kalloc.c: `Kmem` is `kmem` with `ref_counts`; `kinit`, `freerange`, `kfree`,
--             `kalloc`, `kref_inc` and `kref_dec` have their names. Inv has the invariant of the free
--             list, Free and Alloc what the operations do, Init the start, Owners the references
--             that callers hold, and Safety what holds for all callers.
--   Strings   kernel/string.c: each routine has its name, over a memory that is a function of the
--             address. Blocks has the routines on blocks, Compare the comparisons, Copy the copies
--             of strings.
--   Pipe      kernel/pipe.c: `Pipe` is `struct pipe`; `pipewrite`, `piperead` and `pipeclose` have
--             their names. Fifo has the queue that a pipe holds, Write and Read a stretch of the
--             two calls, and Stream the sequence of all calls.
--   Proc      kernel/proc.c: `Proc` is `struct proc`, and a table is a function of the index;
--             `procinit`, `allocproc`, `freeproc`, `userinit`, `kexit`, `reparent`, `kwait`,
--             `wakeup`, `kkill`, `setkilled` and `yield` have their names. `kfork` is in stretches,
--             one for each lock that it takes, and so is `sleep`. Table, Reparent, Exit, Wait, Birth
--             and Calm have what each operation does, Inv the invariant of the table, Steps the
--             steps that processes and CPUs take, Safety what holds for all of them, and Boot the
--             start.
--   Scheduler kernel/proc.c: a round of `scheduler` with the process locks that it takes. Select has
--             what it chooses.
--   Locks     kernel/spinlock.c: `Cpu` is `struct cpu`; `acquire` is in two stretches, `acquire_begin`
--             and `acquire_swap`, a round of its loop; `release`, `push_off` and `pop_off` have their
--             names. Masks has the nesting of interrupt masks, Owners the steps of the CPUs, Sound and
--             Safety what holds for all of them.
--   Files     kernel/file.c: `filealloc`, `filedup` and `fileclose` over the table of open files, and
--             `pipealloc` of kernel/pipe.c, which takes two of them. Slots has what they do to a
--             slot, Refs the references that descriptors hold, PipeEnds the ends of a pipe.
--   Log       kernel/log.c: `write_log`, `install_trans`, `commit`, `recover_from_log`, `begin_op`,
--             `end_op` and `log_write` have their names. A run of `commit` lists the writes of the
--             disk that it makes, and a crash is a number of them. Traces has those lists, Effects
--             and Phases the disk after some of them, Restart the recovery and Crash the two
--             together; Absorb has the list of blocks, and Space the operations underway.
--   Bcache    kernel/bio.c, over the next and prev links of its buffers: `binit`, `bget`, `bread`,
--             `bwrite`, `brelse`, `bpin` and `bunpin` have their names, and so have `acquiresleep` and
--             `releasesleep` of kernel/sleeplock.c. Rings, Moves and Lists have the list that the links
--             make, Search the loops of `bget`, Ops what the operations do, Refs the references that
--             processes hold, Keeps and Unique what holds for all of them.
--   Blocks    kernel/fs.c, its first part: `balloc`, `bfree` and `bzero` have their names, over the
--             bytes of each block. Bits and Bitmap have the map of free blocks as a set, and Alloc
--             what the two calls do to it.
--   Paths     kernel/fs.c: `skipelem`. Fields has the names between the slashes.
--   Vm        kernel/vm.c: `walk` and the calls on page tables have their names, the calls in Vm.Pages.
--             Bits has the bits of an entry, Trees the tree that the tables make, Grow a table that is added, Walks what `walk`
--             does, Entries the tables as a map, Mapping and Ranges `mappages`, Addresses the calls
--             that read, Unmap and UnmapRange `uvmunmap`, NewPage and UserPage a page that a process gets,
--             UserGrow, GrowPage and UserAlloc `uvmalloc`. The calls that copy are in Copies; CopyChunk
--             and CopyIn have what `copyin` reads.
--   Grep      user/grep.c: `match_re` is `match`; `matchhere` and `matchstar` have their names. Language
--             has the strings that an expression stands for, and Match what the matcher decides.
--   Numbers   user/printf.c and user/ulib.c: `printint` and `atoi` have their names. Digits has the
--             decimal digits.
--
-- Concurrency. A stretch of code that holds the locks it needs is one function, and a step relation
-- puts the stretches in any order: Kalloc.Owners, Pipe.Stream, Proc.Steps, Locks.Owners, Files.Refs,
-- Log.Space, Bcache.Refs.
--
-- Loops. A loop over a table or a given number of bytes is structural recursion on the rounds left.
-- `freerange` has fuel, and `kinit_frees_all` says that one more than the number of pages is enough;
-- `strlen` has fuel, and any that is above the string's length is enough. `printint` has 64 rounds, one
-- for each bit of its number, and in base 10 no more than 20 are taken. The loops
-- of `mappages` and `uvmalloc` have a round for each page, and those of `copyin` and `copyout` one for each
-- byte, of which a round takes one at least.
--
-- Numbers. Addresses and sizes are natural numbers that do not wrap, but for the sums of `pgroundup`;
-- the counters of a pipe wrap at 2 ^ 32, and so does `nextpid`; pids are the 32 bits of their int. The
-- reference count of a page is an int that wraps around, and that of a buffer wraps at 0 on a decrement.
-- `int` results that can be negative are integers. The counters that only count what a table of a fixed
-- size or its holders have, `free_pages_count`, `outstanding`, `ref` of a file and `refcnt` on an
-- increment, are taken not to run up to 2 ^ 31.
--
-- Parameters. The end of the kernel, which the linker sets; the address of a process; in the parts that
-- call them, what copyin, copyout, uvmcopy and proc_pagetable return; and whether a process was killed
-- meanwhile.
--
-- Not modelled: the copy of a whole address space and the release of its tables, inodes and directories,
-- system calls, devices and traps,
-- the machine (assembly code, registers, memory order), output to the console, and the other user
-- programs.
pub mod Prelude
pub mod Kalloc
pub mod Strings
pub mod Pipe
pub mod Proc
pub mod Scheduler
pub mod Locks
pub mod Files
pub mod Log
pub mod Bcache
pub mod Blocks
pub mod Paths
pub mod Vm
pub mod Grep
pub mod Numbers
