-- ===== src/Lib.antt =====
-- BeeOS: the core of the kernel and of its C library, modelled and verified.
--
-- The parts and how they interact. The buddy allocator (kernel/src/mm/buddy.c) keeps the free
-- frames of one zone; zones (kernel/src/mm/zone.c) count the references to frames and call it,
-- and the frame allocator (kernel/src/mm/frame.c) picks a zone. Pipes (kernel/src/ipc/pipe.c)
-- are a ring buffer with a condition variable; processes reach them, as all files, through
-- descriptors (kernel/src/sys/sys_close.c and the calls beside it), and files by paths
-- (kernel/src/fs/vfs.c). The scheduler (kernel/src/proc/scheduler.c) gives the processor to the
-- tasks of a ring in turn; conditions (kernel/src/sync/cond.c), timers (kernel/src/timer.c,
-- with alarm and nanosleep) and signals (scheduler.c and task.c) wake those that sleep. Queues
-- everywhere are the lists of kernel/src/list.h. A terminal (kernel/src/driver/tty.c) edits
-- lines and echoes them to a screen (screen.c beside it). Files are inodes, which a hash table
-- (kernel/src/htable.h) finds by their number; an ext2 volume (kernel/src/fs/ext2/ext2.c) reads
-- theirs from a device, which the nodes of the device file system (kernel/src/fs/devfs/devfs.c)
-- lead to, such as the disk in memory (kernel/src/driver/ramdisk.c) or the random numbers
-- (random.c beside it). The C library (libc/src) copies memory, compares and splits texts,
-- formats output and parses numbers.
--
-- The files. `Prelude` holds the tests, lists and integers that the others share. `Buddy` and
-- `Zone` model memory, `Util` the logarithm of kernel/src/util.h, `Pipe` the pipes, `Fds` the
-- descriptors with the positions of files in `Fds/Offsets`, `Vfs` entries, mounts and paths,
-- `Tasks` the scheduler, conditions and users, `Signals` the signals, `Timers` the queue of
-- events with the calls in `Timers/Calls`, `Links` the lists, `Strings` the copies of the C
-- library, with its texts in `Strings/Texts` and strtok in `Strings/Tokens`, `Htable` the hash
-- tables, `Ramdisk` the disk, `Ext2` the reads of its files with the directories in
-- `Ext2/Directories`, `Devfs` the devices with the path from a file to the disk in
-- `Devfs/Volumes`, `Random` the random numbers, `Printf` its vsnprintf.c with `Numerals` for
-- atoi and atol, `Tty` the terminals and `Screen` the screen. In each of them the file with the
-- component's name has the state and the operations, under the source's names without the
-- component's prefix, and the files below it have the proofs; concrete runs are in `Tests`.
-- Some operations have a file of their own: `Vfs/Names`, `Vfs/Inodes` (the table of inodes),
-- `Timers/Calls`, `Printf/Formats`, `Fds/Offsets`.
--
-- How it corresponds. A function that changes a structure takes the old one and returns the new
-- one. A pointer is an index or an address. An error number is a constructor or `none`. A call
-- that sleeps returns a constructor that holds its state, and another function goes on from
-- there. A loop is a recursion on the rounds that are left, on a list, or on fuel, and the
-- result then says when the fuel did not suffice. The transfers of a pipe take one round more
-- than there are bytes to move, the walks along a list one more than it has nodes, a path one
-- more than it has characters, vsnprintf five for every character of the format and one more,
-- and a number 32 digits; a text of the C library one more than its characters; that these are
-- enough is part of the theorems where they matter. Integers that the source reduces to 32 bits
-- are reduced in `Fds/Offsets`, `Signals`, `Printf` and `Timers`; bit sets are functions to
-- Bool. The characters of a terminal are below 128.
--
-- Not modelled: hardware state, assembly and start-up, with the serial line and the copy to
-- video memory; the event that refreshes the screen, which puts itself back on the queue of
-- timers; and so far fork, exit and waitpid, the creation of super blocks, the listing of the
-- device file system, the heap, the keyboard, and malloc and the streams of the C library.
-- Whether an allocation succeeds, and what a file system finds or returns from a transfer, are
-- parameters.
pub mod Prelude
pub mod Pipe
pub mod Util
pub mod Buddy
pub mod Zone
pub mod Fds
pub mod Signals
pub mod Links
pub mod Strings
pub mod Numerals
pub mod Printf
pub mod Screen
pub mod Tty
pub mod Timers
pub mod Vfs
pub mod Tasks
pub mod Htable
pub mod Ramdisk
pub mod Ext2
pub mod Devfs
pub mod Random
