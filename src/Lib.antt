-- ===== src/Lib.antt =====
-- The kernel of MINTOS (02.Kernel64): its data structures, its scheduler, its allocators and its
-- file system.
--
-- The kernel is C, with the ring queue in Rust. Tasks are TCBs in a pool; the scheduler keeps them in
-- five ready lists and a wait list, which are the kernel's linked lists, and switches from timer
-- interrupts and from calls. Drivers hand data on through ring queues, guard their state with the
-- recursive mutex, and take memory from the buddy allocator. The file system has a table that links
-- clusters to chains, a directory in cluster 0 and files that are chains; it reads and writes sectors
-- of the table and clusters through the tables of the cache manager, and the handles of open files
-- and directories are in a pool. The keyboard driver turns scan codes into keys, the console prints.
--
-- Files, with the code that they model:
--   Base          shared names, words of 32 bits, lists by native numbers; Base/Bytes is data in bytes
--   LinkList      02.Kernel64/List.c: LinkList is LIST, Link is LISTLINK; a function has the name of the C
--                 function without its `k`, in snake case, as in all files
--     LinkList/Invariant, Add, Unlink, Remove   lists as the addresses that their links lead through
--   Mutex         02.Kernel64/Syncronization.c: kLock and kUnlock, one step for each access
--     Mutex/Invariant, Exclusion                what every interleaving keeps
--   Queue         02.Kernel64/queue.rs
--     Queue/Holds, Refine                       the ring against a list
--   Keyboard      02.Kernel64/Keyboard.c, with the key table in Keyboard/Table
--     Keyboard/Codes, Sequences, Typing         single codes, sequences of codes, and the key queue
--   Task          02.Kernel64/Task.c: state; Task/Pool, Task/Scheduler and Task/Ending are its functions
--     Task/Lists, Choice, Switch, Schedule, Priorities   the lists of the scheduler and its moves
--   DynamicMemory 02.Kernel64/DynamicMemory.c
--     DynamicMemory/Find, Count, Counted, Preserve, Start  the bitmaps of the buddy allocator
--   Cache         02.Kernel64/CacheManager.c; Cache/Lookup is what a table holds,
--                 Cache/Victim the choice of an entry to reuse, Cache/Tables the set-up of two tables
--   FileSystem    02.Kernel64/FileSystem.c: blocks through the cache
--     FileSystem/Entries, Known, Coherence, Outlet, Slot, Branches, Outcome, Blocks   what a block shows
--   Volume        02.Kernel64/FileSystem.h: entries, handles, constants, and the interface of blocks
--                 (BlockOps) between the cached reads and writes and the functions above them
--     Volume/View, Sample                       its laws, and a device in memory that has them
--   ClusterLink   02.Kernel64/FileSystem.c: the cluster link table
--     ClusterLink/Links, Free, Complete, Chain  one link, the search, and the end of a file's chain
--   Directory     02.Kernel64/FileSystem.c: the root directory; Directory/Find
--   Handle        02.Kernel64/FileSystem.c: the pool of handles, directories; Handle/Pool, Listing
--   FileAccess    02.Kernel64/FileSystem.c: kReadFile and kWriteFile; FileAccess/Position has kSeekFile
--                 and kWriteZero, FileAccess/Names has kOpenFile and kRemoveFile
--     FileAccess/Frame, Extent, Round, Read, WriteSteps, WriteLoop, Write, Seek, Remove
--   Mount         02.Kernel64/FileSystem.c: kMount, kFormat and the flush, on a disk with the caches
--     Mount/Geometry, Format, Flush, Discard; Mount/Uncached is the laws of blocks without the cache,
--                 Mount/Sample a disk in memory for them
--   Memory        02.Kernel64/Utility.c: kMemSet, kMemCpy, kMemCmp; Memory/Words, Copy, Compare
--   RamDisk       02.Kernel64/RAMDisk.c: sectors in memory; RamDisk/Sectors
--   Console       02.Kernel64/Console.c; Console/Bounds
--   Shell         02.Kernel64/ConsoleShell.c: the parser of parameters; Shell/Words
--   Text          02.Kernel64/Utility.c: strings and numbers; Text/Reverse, RoundTrip
-- A module Tests beside the proofs applies each theorem at a concrete input.
--
-- Memory is a total function from addresses, as every address can be read in the kernel. State that C
-- changes in place is passed on: a function returns the new state. What runs between
-- kLockForSystemData and kUnlockForSystemData is one step, since interrupts are off and there is one
-- processor. Words keep their wrap-around (inc32, dec32, % 2 ^ 64); comparisons of `int`s are signed
-- (slt32).
--
-- Loops over lists run on fuel, which stands for the steps of the walk; `none` means that it ran out.
-- The theorems name a fuel above the number of items passed and show that the call then returns.
-- Loops that count are structural. The scan of a bitmap has as much fuel as the level has blocks and
-- moves on in each round; the levels of a block count are at most 64, the bits of a `long`, or
-- 32, those of an `int`. The loops of kReadFile and kWriteFile have more fuel than bytes are asked for
-- and each round moves on by one byte at least; kFreeClusterUntilEnd takes a unit of fuel for each cluster of the chain and one
-- for its end, and the theorem asks for more fuel than the chain has clusters.
--
-- Parameters: what lies behind the key table (`beyond`) and behind a queue's buffer, since the code
-- reads there or could; and the driver of a disk, of which the theorems on blocks assume that a block
-- that was written is read back and that no other block of the area changes. The theorems on files
-- assume the same of the interface of blocks (BlockLaws), for which Mount/Uncached has the instance of
-- a mounted disk with the cache off, and Volume/Sample a smaller one. What a directory entry on the
-- stack held before it was filled is the parameter `stale`, and what the memory held before the
-- allocator's initialisation is `before`.
--
-- The file system takes its mutex for every call. One task runs in it at a time, so the mutex there
-- is the number of locks that this task holds; Mutex has the interleavings.
--
-- Not modelled: the boot loader and the protected mode kernel, the device registers, the assembly
-- helpers and interrupt entries, the multiprocessor start, the hard disk driver, the commands of the
-- shell, the printing of formats, and the build utilities. Of the file system, the two functions that
-- report its numbers.
pub mod Base
pub mod LinkList
pub mod Mutex
pub mod Queue
pub mod Keyboard
pub mod Task
pub mod DynamicMemory
pub mod Cache
pub mod FileSystem
pub mod Volume
pub mod ClusterLink
pub mod Directory
pub mod Handle
pub mod FileAccess
pub mod Mount
pub mod Memory
pub mod RamDisk
pub mod Console
pub mod Shell
pub mod Text
