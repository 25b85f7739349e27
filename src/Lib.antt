-- ===== src/Lib.antt =====
-- The kernel of xv6 with copy-on-write fork, as it stands in xv6-public/: the parts that keep memory
-- and disk consistent.
--
-- Parts, and how they interact:
-- - Mmu.antt: the constants and address macros of xv6-public/mmu.h, memlayout.h and param.h, on
--   natural numbers below 2^32 with the wrap-around of `uint` written out.
-- - Kalloc.antt: xv6-public/kalloc.c, the allocator of physical pages with a reference count for each
--   frame. Its state `Kmem` is `kmem` and the words of physical memory, since the free list runs
--   through the free pages. incr_refc, decr_refc, get_refc, countfp, kfree, freerange, kinit1, kinit2
--   and kalloc are the functions of these names. Kalloc/ has the invariant (Inv) and a module for each
--   group of operations: Alloc, Free, Range and Share.
-- - Vm.antt: xv6-public/vm.c, over the state of Kalloc.antt, since page directories and tables are
--   pages that the allocator hands out. Vm/Walk.antt has walkpgdir and mappages, Vm/Uvm.antt has
--   allocuvm, deallocuvm, freevm and clearpteu, Vm/Kvm.antt has setupkvm, Vm/Fork.antt has copyuvm and
--   uva2ka, and Vm/Cow.antt has CoW_handler. Vm/Count.antt has countvp, countpp and countptp of
--   xv6-public/proc.c. Vm/Entry.antt has the facts on page table entries that the proofs share.
-- - Log.antt: xv6-public/log.c, the redo log of the file system: begin_op, log_write, end_op, commit
--   and recover_from_log over a disk that writes one block at a time and may lose power between two
--   writes. Log/Replay.antt says which contents a disk with a log stands for, Log/Ends.antt is the
--   logic of code that gets through or is cut off, and Recovery, Commit and Space use them.
--   `size` counts the header of the log too, so that fewer than `size` blocks fit in a transaction.
-- - Base.antt, with Base/: lists and tests on natural numbers, bit masks, and the outcomes of code
--   (Base/Run.antt): a result with the new state, a panic, an access that C leaves undefined, or a
--   loop that was given too few rounds.
-- - Pipe.antt: xv6-public/pipe.c. pipeclose, pipewrite and piperead are the functions of these names. A
--   call that sleeps is an outcome, with what is left to do, and goes on from the lock when it wakes
--   (write_on; a reader starts again). Pipe/Ring.antt has the queue of bytes that the ring stands for.
-- - File.antt: the table of open files of xv6-public/file.c: filealloc, filedup and fileclose. The calls
--   that fileclose makes into the pipe, the log and the inodes are recorded in the state, in order.
--   File/Handles.antt counts the handles that an entry should have.
-- - Bytes.antt: memmove, memcmp, strncmp, strncpy and safestrcpy of xv6-public/string.c, over a memory of
--   bytes.
-- - Proc.antt: the table of processes of xv6-public/proc.c: what wakeup1, kill and the loop of exit that
--   passes children to init (pass_children) do to it. Proc/Life.antt has allocproc, fork, exit, wait, sched,
--   yield, sleep and a round of the scheduler (dispatch), with `c->proc` of each processor. Each is one
--   step, since it holds ptable.lock, and Proc/Life/Steps.antt lets the processors take them in any order.
-- - Locks.antt: pushcli, popcli, holding, acquire and release of xv6-public/spinlock.c on several
--   processors; Locks/Sleep.antt has the sleep locks of sleeplock.c. A processor that would spin is the
--   outcome `waits`.
-- - Fs.antt: the file system of xv6-public/fs.c, over the bytes of each block as bread() returns them, the
--   blocks that log_write() has put into the transaction, and the inode cache. Fs/Bitmap.antt has balloc
--   and bfree, Fs/Dinode.antt readsb, iupdate and the layout of an inode on the disk, Fs/Bmap.antt bmap
--   and itrunc, Fs/Icache.antt ialloc, iget, idup, ilock, iunlock, iput and iunlockput, Fs/Content.antt
--   stati, readi and writei, Fs/Dir.antt namecmp, dirlookup and dirlink, Fs/FilePath.antt skipelem, namex,
--   namei and nameiparent. A name or path is the list of its characters. A call that finds a sleep lock
--   held is the outcome `waits`. Loops over the bytes of a file run at most once for each byte, which is
--   enough, since every round moves at least one; loops over a directory run once for each entry.
-- - Bcache.antt: the buffer cache of xv6-public/bio.c (binit, bget, bread, bwrite, brelse) over iderw of
--   memide.c, the disk in memory. Bcache/Transparent.antt says what each block reads as.
-- - Syscall.antt: the argument checks of xv6-public/syscall.c: fetchint, fetchstr, argint, argptr, argstr.
-- - Grep.antt: match, matchhere and matchstar of xv6-public/grep.c.
-- - Sysfile.antt: create, sys_link, sys_unlink and isdirempty of xv6-public/sysfile.c, behind the checks of
--   the arguments and without begin_op and end_op. Sysfile/Nodes.antt: mkdir, mknod, chdir, and open up to
--   the inode.
-- - Sysfile/Ends.antt and Fs/Ends.antt: that the loops of fs.c and of these calls end, whatever the state.
-- - Descr.antt: argfd, fdalloc, sys_dup and sys_close of xv6-public/sysfile.c, and the loops of fork and
--   exit in xv6-public/proc.c over the descriptors, on the table of File.antt. Descr/Pipes.antt: pipealloc of
--   xv6-public/pipe.c and sys_pipe, with the page that kalloc gives as an argument.
-- - Console.antt: xv6-public/console.c without its initialisation and panic(), and uartputc of uart.c.
--   `Typed` in Console/Keys.antt is what the ring of the input stands for. The loop that kills a line gets
--   129 rounds, which is enough, since the ring has 128 characters.
-- - Print.antt: printint and cprintf of xv6-public/console.c, printf of printf.c and atoi of ulib.c.
--   Print/Prints.antt says what a format stands for, with the numerals of Print/Numerals.antt.
-- - Shell.antt: the parser of xv6-public/sh.c, from gettoken and peek to parsecmd. A loop of it gets one
--   round more than there are characters, and the recursion four calls for each character and four more,
--   which is enough, since each round and each way round the four functions takes a character.
--
-- Bounds: the loops over pages of an address space have 2^20 or 2^20 + 1 rounds, as many as there are
-- pages in 32 bits of address and one for the test that ends the loop. The loops over a directory, a
-- table or a list go through exactly its entries.
--
-- Block numbers of the disk are natural numbers: the `int` of balloc() is one that does not wrap, since a
-- disk in memory has fewer than 2^31 blocks.
--
-- Parameters: `kernel_end` and `data_start` are the linker's symbols `end` and `data`; `start` and
-- `size` of the log are the superblock's; the faulting address that rcr2() reads, and the directory of
-- the current process, are arguments.
--
-- Not modelled: other processors, but for the locks and the states of processes (elsewhere the
-- code runs to its end on one, and a lock that it holds and takes again is a panic); the address
-- translation cache and lcr3(); the messages that are printed; the bytes that copyout(), loaduvm() and
-- inituvm() move; the buffer cache below the log and the file system, which see the contents of
-- blocks; the devices, the interrupts and the other system calls of the kernel; and the user
-- programs, but for the matcher of grep.
pub mod Base
pub mod Bcache
pub mod Bytes
pub mod Console
pub mod Descr
pub mod File
pub mod Fs
pub mod Grep
pub mod Kalloc
pub mod Locks
pub mod Log
pub mod Mmu
pub mod Pipe
pub mod Print
pub mod Proc
pub mod Shell
pub mod Syscall
pub mod Sysfile
pub mod Vm
