-- ===== src/Lib.antt =====
-- A model of xv6, a small Unix kernel for RISC-V in C, and of some of its user programs, with the
-- theorems that make its parts correct.
--
-- The parts and their files:
--
-- - Base: what the other modules share. Tests on numbers, lists and updates of functions, and `Run`,
--   the result of a kernel routine that returns or calls `panic`.
-- - Str: kernel/string.c and `memmove` of user/ulib.c over a memory of bytes. A pointer is a number,
--   a memory a function from addresses to bytes.
-- - Grep: the matcher of user/grep.c over NUL-terminated strings as lists. Grep/Lang says what a
--   pattern means, without a matcher.
-- - Buffers: what the log sees of kernel/bio.c. The contents of the disk, of the cached buffers and
--   the pins on them, and the number of disk writes until the power fails (`power`), so that a crash
--   can fall after any write. `reboot` forgets the cache. The log calls it where log.c calls
--   `bread`, `bwrite`, `bpin` and `bunpin`.
-- - Log: kernel/log.c. `begin_op` returns nothing where the source sleeps; `end_op` is its part
--   under the lock and `end_op_commit` the rest; all else has the source's name. Log/Stages, Recover,
--   Crash and Atomic are about a crash, Space about the reservation of blocks, Absorb about
--   `log_write`, Short about the size of the log on the disk.
-- - Pipe: kernel/pipe.c. A call is the runs between its sleeps: each run returns or goes to sleep.
--   The counters are 32 bits wide and wrap. Pipe/Window says what a pipe holds; Write, Read and Fifo
--   are about `pipewrite`, `piperead` and all interleavings.
-- - Kalloc: kernel/kalloc.c with constants of kernel/riscv.h and kernel/memlayout.h. The free list
--   runs through the memory, as in the source. Kalloc/Chain relates it to a list of pages, Boot is
--   about `kinit`, Owner about pages in use.
-- - Spinlock: kernel/spinlock.c. `acquire` and `release` are split at the atomic operations, so that
--   steps of other cpus come between. Spinlock/Nesting is about interrupts, Exclusion about the lock.
-- - Proc: the process table of kernel/proc.c. Each function is one step from where it takes its locks
--   to where it gives up the processor. Proc/Scan, Life and Wakeups have the lemmas on the loops,
--   Reach is about lost wakeups, Reap about `exit` and `wait`, Signals about `kill`.
-- - Printf: `printint` of user/printf.c and of kernel/printf.c, and `atoi` of user/ulib.c, over
--   lists of characters. Printf/Digits is about the loops, Numbers about both together.
-- - Xargs: user/xargs.c over lists of characters. Xargs/Words is about the splitting of a line,
--   Lines about the whole input.
-- - Fs: the block allocator, the map of a file and the inode table of kernel/fs.c, with kernel/fs.h
--   and `struct inode` of kernel/file.h, inside a transaction. Fs/Alloc has `balloc` and `bfree`,
--   Fs/Map has `bmap` and `itrunc`, Fs/Table has `iget`, `idup`, `ialloc`, `ilock`, `iunlock` and
--   `iput`. The modules below each have its lemmas and theorems. Blocks are what `bread` would give:
--   bits of the map, words of a block, inodes by number; `logged` records the calls of `log_write`.
-- - Shell: the parser of user/sh.c from a line, a list of characters, to a command. Shell/Tokens
--   is about the tokens, Ends about any line; Print writes a command as a line, and Words, Read, Execs
--   and Commands read it back.
-- - Vm: the page tables of kernel/vm.c in the memory of Kalloc. Vm/Tables says what a page table in
--   memory is and what it translates; Grow is about a new table page, Slots about a write to an
--   entry, Walk and Map about `walk` and `mappages`, Lookup about `walkaddr` and `uvmcreate`. Space
--   says what the user pages of a table are; Unmap, Round and Alloc are about `uvmunmap`,
--   `uvmdealloc` and `uvmalloc` on them.
-- - Path: `skipelem` of kernel/fs.c over lists of characters.
-- - Bcache: the buffers and the doubly linked list of kernel/bio.c, with the source's assignments to
--   `next` and `prev`. Bcache/Ring relates the pointers to a list of buffers, Relink is about moving
--   one, Recent about the loops of `bget`, Lru and Recycle about the order of last use.
-- - Console: kernel/console.c. A run of `consoleread` returns or sleeps. Console/Window says what the
--   buffer holds, Keys what the editing keys mean; Erase, Enter and Edit are about `consoleintr`,
--   Taken and Read about `consoleread`, Lines about both in any order.
-- - Uart: the transmit ring and the interrupt handler of kernel/uart.c, which hands the characters
--   that arrive to the console.
-- - Sleeplock: kernel/sleeplock.c over the process table of Proc.
-- - File: the table of open files of kernel/file.c and the descriptors of kernel/sysfile.c.
--   File/Sums counts descriptors; Effects, Counts, Closing and Opening are about one call, Calls about
--   any calls.
--
-- How they interact: Log runs on Buffers; Pipe and Proc are joined in the source by `sleep` and
-- `wakeup`, which the runs of Pipe end and report and which are functions of Proc; Vm takes its pages
-- from Kalloc; Uart calls `consoleintr` of Console and Sleeplock the `wakeup` of Proc. The locks of
-- Spinlock are what makes each step of the others atomic, and that is assumed there.
--
-- Loops over a fixed range are recursion on the rounds that are left (NPROC, which is 64 in this
-- configuration, and the length of the log).
-- The loop of `freerange` has as fuel the number of pages below its end, and each round advances by
-- a page. The digit loop has fuel 64, and each round at least halves a 64-bit number. The loop over
-- the words of a line has as fuel the length of the line, and each round takes a character. The
-- loops of the strings and of grep are structural.
-- The loop of `balloc` has as fuel the number of blocks of the map, and each round is one of them.
-- The loops of `bget` have NBUF + 1 rounds, and reach the head of the list after NBUF buffers. The
-- loop of C('U') has 128 rounds and that of `uartstart` 33, one more than the ring holds.
-- `walk` has two rounds, and the loops of `mappages`, `uvmunmap` and `uvmalloc` as many
-- as there are pages in the range.
-- `parsecmd` has as fuel four times the length of the line and four more, and the parser calls itself
-- at most four times between two characters; its loops have the length of what is left as fuel.
--
-- What is outside is a parameter: what the user's memory holds (`copyin`, `copyout`), whether a
-- process is killed, what the allocator of page tables returns, the end of the kernel image,
-- when the serial line is idle, and the bytes that arrive on it.
--
-- Not modelled: the contents of files, directories and `namex` in kernel/fs.c, reading and writing of
-- open files, the system calls on paths and pipes, the copying and the final removal of address
-- spaces and the copies between kernel and user in kernel/vm.c, `exec`, the set-up of devices, the disk
-- driver, traps and context switches, the format strings of `printf`, the part of the shell that runs
-- commands, and the user programs other than xargs and grep's matcher. Fs does not run on Bcache and
-- Log: it takes the contents of blocks as they are inside a transaction. Memory ordering is
-- sequentially consistent.
mod Base
pub mod Buffers
pub mod Str
pub mod Grep
pub mod Log
pub mod Pipe
pub mod Kalloc
pub mod Spinlock
pub mod Proc
pub mod Printf
pub mod Xargs
pub mod Fs
pub mod Bcache
pub mod Console
pub mod Uart
pub mod Sleeplock
pub mod File
pub mod Path
pub mod Shell
pub mod Vm
