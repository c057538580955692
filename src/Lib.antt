-- ===== src/Lib.antt =====
-- The core of the operating system: the buffer cache, the bitmaps, the map of free sectors, the
-- inodes, the open files, the directories and the paths of the file system, and the threads,
-- semaphores, locks, timer, pages, lists and hash tables below everything else.
--
-- The program is a kernel for one processor, written in C. A path is walked along the directories
-- (src/filesys/filesys.c, src/filesys/directory.c). A directory and an open file
-- (src/filesys/file.c) are read and written through its inode (src/filesys/inode.c), whose sectors
-- the buffer cache (src/filesys/cache.c) keeps in memory over a block device (src/devices/block.c).
-- The free map (src/filesys/free-map.c) says which sectors are in use, as a bitmap
-- (src/lib/kernel/bitmap.c). Threads (src/threads/thread.c) share the processor and wait for one
-- another on semaphores and locks (src/threads/synch.c), or sleep until the timer
-- (src/devices/timer.c) wakes them. The page allocator (src/threads/palloc.c) gives out memory by
-- the bitmaps, and a circular buffer (src/devices/intq.c) takes bytes from interrupt handlers to
-- threads. The C library of the kernel (src/lib) has its own string functions, linked lists and
-- hash tables.
--
-- The files, each with child modules for its proofs:
--   Prelude    library names, lists, tests and bits on native numbers, and the outcome of a call
--   Block      devices/block.c: reading and writing a sector
--   Cache      filesys/cache.c, filesys/cache.h: finding, evicting, reading, writing, closing
--   Bitmap     lib/kernel/bitmap.c: the words of a bitmap and the operations on ranges
--   FreeMap    filesys/free-map.c: allocating and releasing sectors
--   Thread     threads/thread.c, threads/synch.c: the scheduler and the semaphores
--   InodeDisk  filesys/inode.c: the structure of an inode on disk, and its bytes
--   Inode      filesys/inode.c: reading (Inode), and allocating, writing and closing (Inode.Space)
--   File       filesys/file.c: open files
--   Lock       threads/synch.c: locks
--   Strings    lib/string.c: comparison, searches, tokens and bounded copies
--   Random     lib/random.c: the generator of random bytes
--   Timer      devices/timer.c, threads/thread.c: sleeping threads and the tick
--   Links      lib/kernel/list.c, lib/kernel/list.h: doubly linked lists
--   Directory  filesys/directory.c: looking names up, adding, removing and listing
--   Paths      filesys/filesys.c: splitting and walking paths, creating, opening and removing files
--   Hash       lib/kernel/hash.c, lib/kernel/hash.h: hash tables
--   Palloc     threads/palloc.c: the pages of the two pools
--   Intq       devices/intq.c, devices/intq.h: the queue between threads and interrupt handlers
--   Tests      runs at concrete inputs
--
-- Functions and fields have the names of the source. Code that changes state takes the state and
-- returns the new one. A call ends in an `Outcome`: `ok` with a result, `panic` where an assertion
-- fails, the source panics or memory outside an object would be touched, or `out_of_fuel` where a
-- loop has not ended in the rounds that the definition allows. The eviction has one round more than
-- the list is long; reading and writing a file have one more than the bytes asked for, and a round
-- takes a byte or ends the loop; a directory has a round for each entry and one more, and a path
-- one for each character and one more; a walk along a linked list takes the number of its rounds as
-- an argument, and one more than there are elements is enough; the number of buckets of a hash
-- table is found in at most as many rounds as it starts from; the other loops are counted by the
-- source itself.
--
-- `size_t` and `block_sector_t` have 32 bits, as on the machine that the kernel is built for. The
-- results of `malloc` are arguments. A function that runs with interrupts off, or under the lock of
-- the buffer cache, is one step; Thread.Reach puts the steps of the threads in any order. The calls
-- of locks and of `thread_create` are also given as they run where nothing preempts them.
--
-- The free map writes itself to its file: FreeMap and Inode.Space take that write, `bitmap_write`,
-- as an argument, and their theorems hold for every function in its place. FreeMap.Written has the
-- one of src/lib/kernel/bitmap.c.
--
-- Not modelled: the device drivers and the code that talks to the processor; system calls and the
-- loading of programs; the sorting of linked lists; and virtual memory, whose files are empty.
-- Outside Links, a linked list stands as the sequence of its elements.
pub mod Prelude
pub mod Block
pub mod Cache
pub mod Bitmap
pub mod FreeMap
pub mod InodeDisk
pub mod Inode
pub mod File
pub mod Directory
pub mod Paths
pub mod Thread
pub mod Lock
pub mod Timer
pub mod Palloc
pub mod Intq
pub mod Links
pub mod Hash
pub mod Strings
pub mod Random
pub mod Tests
