-- ===== src/Lib.antt =====
-- nos, a small 32-bit x86 kernel: models of its core parts, and what has been proved of them.
--
-- The parts and how they interact. Tasks (kernel/task.c) make system calls
-- (kernel/syscall.c) on descriptors of their open files; pipes (kernel/pipe.c), console channels
-- (kernel/console.c) and TCP sockets (kernel/tcp.c) are the byte streams between them, each a ring of
-- bytes that one side fills and the other drains. Window surfaces (kernel/wsurf.c) show pages of one
-- kernel pool to a client and to the display server. The network stack (kernel/net.c) feeds arriving
-- segments to TCP and answers to the resolver. Paths lead through kernel/vfs.c to the archive in
-- memory (kernel/initrd.c), from which the loader (kernel/elf.c) reads programs, and to the disk
-- (kernel/ext2.c), whose blocks go through kernel/block.c. Buffers and page tables come from the
-- kernel heap (kernel/kmalloc.c), pages from the frame bitmap (kernel/paging.c).
--
-- Which file models which part.
--   Prelude: shared names, tests on numbers, lists, machine integers, chains of fallible steps.
--   Ring: the two loops that pipe.c, console.c and tcp.c share (fill and drain a ring); Ring/Fifo
--     relates a ring to the queue of its bytes.
--   Pipe: kernel/pipe.c, one definition for each function. A pass is what a call does between
--     masking interrupts and unmasking them; Pipe/Interleave runs passes in any order.
--   Console: kernel/console.c, one definition for each function.
--   Heap: kernel/kmalloc.c: heap_init, kmalloc, kfree and kmalloc_a. Heap/FirstFit and Heap/Blocks
--     relate the headers in memory to a list of blocks, Heap/Aligned is about kmalloc_a, and
--     Heap/Overlap about a defect of it.
--   Net: the checksum of kernel/net.c; Net/Dns: its resolver.
--   Tcp: the socket of kernel/tcp.c and what a segment does to it; Tcp/Table: the table of sockets,
--     references, release and the choice of a slot; Tcp/Stream and Tcp/Delivery: what arrives;
--     Tcp/Window and Tcp/Close: what is acknowledged, and the end of a connection.
--   Rtc: drivers/rtc.c: the date arithmetic and the formats of the clock. Rtc/Calendar has a calendar
--     of its own, Rtc/Days and Rtc/Decode relate the code to it.
--   Strings: kernel/string.c but strcpy; Strings/Parse: strtol and strtoul, Strings/Compare and
--     Strings/Copy: the rest.
--   Frames: the frame bitmap of kernel/paging.c; Frames/Bitmap: single bits, Frames/Owners: which
--     pages have which frames.
--   Wsurf: kernel/wsurf.c, one definition for each function; Wsurf/Range: map_range and unmap_range.
--     Wsurf/Mapping, Sound, Keeps, Calls and Unmapped follow the pages that show the pool, Wsurf/Events
--     the queue of a surface, Wsurf/Overlap a defect of the pool.
--   Elf: kernel/elf.c: Elf/Headers: which files are accepted; Elf/Segments: the copy of the segments;
--     Elf/Stack and Elf/Arguments: the arguments and the first stack.
--   Initrd: kernel/initrd.c: Initrd/Listing and Initrd/Archive: the archive and its files,
--     Initrd/Names: the listing and the lookup.
--   UserMem: the page lookup and the checks of user pointers in kernel/paging.c; UserMem/Checks: a
--     range, UserMem/Strings: a string.
--   Tasks: the ready queue, the scheduler, exit, task_kill, reap_tasks and the exit records of
--     kernel/task.c. Tasks/Queue reads the links of the tasks as a list, Tasks/Turns is about
--     switches, Tasks/Deaths about task_kill and Tasks/Records about exit codes.
--   Vfs: path resolution in kernel/vfs.c. Vfs/Paths splits a path into names, Vfs/Resolve relates
--     vfs_resolve to a walk along them.
--   Files: the open files of kernel/task.c and the calls on descriptors of kernel/syscall.c.
--     Files/Counts and Files/Hand count the descriptors of a pipe's ends; Files/Closing, Installing,
--     Inheriting and Calls follow the counts through the calls. Files/Open: the calls of kernel/vfs.c
--     and kernel/syscall.c that open, make, cut, read and write files; Files/Open/Access and
--     Files/Open/Sequence are about descriptors that were opened.
--   Ext2: kernel/ext2.c: the blocks of the filesystem, its inodes and reads of files, over the calls of
--     Block; Ext2/Contents: the bytes of a file as its block map gives them, Ext2/Reading: reads
--     against them. Ext2/Alloc: the bitmap of blocks; Ext2/Alloc/Takes, Outcome and Frees: which
--     block is taken or given back and what stays as it was, on a device where transfers may fail;
--     Ext2/Alloc/Bitmap: single bits, Ext2/Alloc/Counts: the free counts,
--     Ext2/Alloc/Places, Marks and Faults: where the blocks lie, the writes, failing transfers.
--     Ext2/Inodes: an inode that is written.
--   Mutex: kernel/mutex.c, one definition for each function; Mutex/Exclusion: any tasks on one lock.
--   Block: kernel/block.c, one definition for each function but block_count; Block/Ranges: what
--     reaches a driver.
--
-- Conventions. A uint32_t is a number below 2 ^ 32 with its wrap-around written out; an int that a
-- function returns is an integer of Prelude/Ints; counts kept in an int are bit patterns. Arrays and
-- memory are functions of an index. The callbacks of a filesystem are a record of functions. What the
-- other tasks do during a task_switch is an argument. A system call is one step where nothing else is
-- said, also where the code runs with interrupts enabled, as wsurf_map does.
--
-- Fuel. The walks of the heap take heap_end + 1 rounds: a round moves up by 8 bytes at least. The
-- DNS name loop takes as many rounds as the packet has bytes: a round moves up by 1 at least. The
-- folding of a checksum takes 3 rounds, which is enough for 32 bits. user_ok takes three rounds more
-- than the range has whole pages, and user_str_ok as many rounds as bytes.
-- ext2_read_data takes one round more than it reads bytes. The loops of wsurf.c, of first_frame and of
-- the block bitmap have bounds of their own. The clock's loop reads a list of pairs of readings, and
-- ends with it. mutex_lock runs along a list of what the other tasks do.
-- parse of initrd.c has a number of rounds as an argument; one more than there are files is enough.
-- vfs_resolve takes one round more than the path has bytes. The walks along the ready queue and the
-- zombies have a number of rounds as an argument, since nothing bounds these lists.
--
-- Not modelled: vfs_open, vfs_close and vfs_readdir, which only pass arguments on; the system calls
-- that pass on to one driver, and sbrk; of ext2 the mount, directories, inode allocation,
-- writing and truncating of files; the pages that the loader maps, the copying and freeing of page
-- directories, the stack of a new task, the other drivers and the user programs; the waiting loops of
-- tcp_connect and tcp_send; the assembly, port input and output, and the log.
pub mod Prelude
pub mod Ring
pub mod Pipe
pub mod Console
pub mod Heap
pub mod Net
pub mod Tcp
pub mod UserMem
pub mod Tasks
pub mod Vfs
pub mod Block
pub mod Mutex
pub mod Rtc
pub mod Strings
pub mod Elf
pub mod Ext2
pub mod Files
pub mod Initrd
pub mod Frames
pub mod Wsurf
