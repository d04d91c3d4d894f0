-- ===== src/Lib.antt =====
-- MemPerf-Pro, a profiler for memory allocators (src_light/ of the repository).
--
-- The profiler is loaded before a program and stands between it and its allocator. Each allocation
-- function notes its call: an object enters a table by its address, and the shadow memory counts its
-- bytes on its pages and cache lines. When the object is freed, the table gives its size back and the
-- shadow memory takes the bytes out. Samples of the hardware look up page and line of an access: how
-- full they are, whether a cache set takes many of the misses, whether threads share a line. The
-- predictor adds up the cycles of the threads to the critical path of the program, as it ran and with
-- the costs of another allocator.
--
-- Parts and files, with the source below src_light/:
--   EntryPoints (libmallocprof.cpp)
--     Allocation      yymalloc to yymemalign: the guards, the notes, the real function between
--                     them; Finished, Reentrant, Tracked, Freed are proofs
--     Inner           the calls that a real function makes in turn, which come back to the profiler
--     LockCalls       the lock functions; SystemCalls the memory system calls
--   Main (libmallocprof.cpp, programstatus.h)  the start of the program; Started the life of its threads
--   AllocatingStatus (allocatingstatus.h, allocatingstatus.cpp)
--     Memory          the hooks around the real functions, over ObjTable and ShadowMemory
--     Calls           the sums of a call into the thread data, the lock table and the predictor
--     Types           the numbers of the allocation types, and the size classes of
--                     programstatus.cpp and predictor.cpp
--     Locks           the queue of lock data, and what a lock or a system call adds
--   ShadowMemory (shadowmemory.hh, shadowmemory.cpp)
--     Initialize      initialize
--     PageIndex       the address ranges and getPageIndex
--     PageMapEntry    the byte count of a page; CacheMapEntry that of a line, and its marks
--     Pages           mallocUpdatePages and freeUpdatePages, a page a round
--     CacheMap        the state of the shadow memory and the rows that it hands out
--     Lines           mallocUpdateCacheLines and freeUpdateCacheLines, a line a round
--     Objects         mallocUpdateObject, freeUpdateObject, cleanupPages
--     ConflictData    struct ConflictData; Coherency the table coherencyCaches
--     Access          doMemoryAccess
--   Sampling (memsample.h, memsample.c)        the ring buffer of perf events, its records, the handler
--                     of the signal; Encoding writes records as the kernel does, for the theorems
--   ObjTable (objTable.h, objTable.cpp)        the table of objects, a HashMap by address
--   HashMap (hashmap.hh)                       buckets of lists, with entries out of the hash memory of
--                     the thread; Iterator goes over the entries; Shared is about maps that
--                     share the memory, Change about what a change leaves of a map
--   HashList (hashlist.hh)                     circular lists on a store of addresses
--   HashFuncs (hashfuncs.hh)                   the functions that the maps are given
--   MyMalloc (mymalloc.h, mymalloc.cpp)        the memory of the profiler itself
--   Callsite (callsite.h, callsite.cpp)        the keys of call sites
--   Structs (structs.h, structs.cpp)           the counters and their sums
--   InfoFile (programstatus.cpp, predictor.cpp) the lines of the info files
--   Xthreadx (xthreadx.hh, xthreadx.cpp)       how threads are created, start, exit and are joined
--   ThreadLocalStatus (threadlocalstatus.h, threadlocalstatus.cpp)  thread counts, thread data
--   Predictor (predictor.h, predictor.cpp)     the stages of threads and the critical path
--   GlobalStatus (globalstatus.cpp)            the sums over the threads; LockTable the locks and the
--                     whole of globalize; Totals, Leaks, LockTable/Summed are proofs
--   Spinlock (spinlock.hh)                     the spin lock, and threads that contend for it
--   Base, Tests                                shared helpers; concrete runs and inputs
--
-- Conventions. A function of the source is a function on its state that gives the new state, named as
-- in the source in lower case with underscores; a pointer is an index or an address; an array is a
-- function of its index. Words wrap as in the source: the sums are written modulo 2 ^ 8, 2 ^ 16, 2 ^ 32
-- or 2 ^ 64, and a signed word is its bit pattern. `abort()`, and a division by 0, is the value `abort`
-- of the type Run of Base/Run.antt. Xthreadx and Main have the sums of globalize in their state, not its
-- table of locks. A function that takes a spin lock is one step: Spinlock models the
-- lock by itself, and the interleavings of threads inside other functions are not modelled. A call of
-- an allocation function is one step too, with the calls that it makes in turn as a list. The steps of
-- threads interleave in Main and Spinlock, those of the kernel and the handler in Sampling.
--
-- Bounds. The loops of Pages and Lines have the size of the object as fuel, one round for each whole
-- page or line, and each round takes 4096 or 64 bytes off; cleanupPages has the length. The search
-- loops have the number of cells as fuel, the loop over the entries of a map has their number and one
-- more, and the loop over the records of a sample buffer has a round
-- for each byte and one more. The cache map has 2 ^ 35 entries: an update of an object of
-- n bytes takes at most n / 64 + 2 rows of 64, and the theorems ask for that room. The arrays of
-- xthreadx.cpp have 1024 cells, and the theorem on the life of the threads is about programs that
-- create fewer threads; cleanupPages and the updates are stated for addresses that a range covers.
--
-- Hash memory. createNewEntry takes every entry from the hash memory of the running thread, whatever
-- map it is for. A map is modelled with the memory that its operations take from; a function that
-- changes several maps hands the memory on with with_memory: the locks that a real function takes and
-- the call site that getCallKey enters use up the room of the table of objects.
--
-- Parameters. What mmap, rdtscp and the random draw give is an argument, and of Callsite::getCallKey
-- the key with the bytes that its entry takes; so are
-- the running thread's index, the size of a map entry, the results of the real functions and the calls
-- that they make in turn, and the control page and bytes that the kernel gives perf_mmap_read.
--
-- Not modelled: pthread_exit and the C++ operators of libmallocprof.cpp, the call of
-- perf_event_open, the table of call sites, the random engine, which files are opened, and all that
-- writes the report. libc-2.24/ is a copy of another project; src/, src_temp/ and prerun/ are older
-- variants and tools.
pub mod Base
pub mod ShadowMemory
pub mod Structs
pub mod HashList
pub mod MyMalloc
pub mod HashMap
pub mod HashFuncs
pub mod ObjTable
pub mod AllocatingStatus
pub mod Predictor
pub mod ThreadLocalStatus
pub mod GlobalStatus
pub mod Sampling
pub mod EntryPoints
pub mod Xthreadx
pub mod Main
pub mod Callsite
pub mod Spinlock
pub mod InfoFile
mod Tests
