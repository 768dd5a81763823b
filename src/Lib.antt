-- ===== src/Lib.antt =====
-- A verification library for small, a collection of specialized memory allocators.
--
-- The program is built in layers. A quota (include/small/quota.h) limits the memory of a process,
-- and is shared by threads; a lessor (include/small/quota_lessor.h) takes large parts of a quota
-- and leases them in small ones. An arena maps slabs against the quota, and a slab cache
-- (small/slab_cache.c) splits these into slabs of smaller sizes. Regions (small/region.c) and
-- buffers (small/ibuf.c) take slabs from a cache, and so does a pool of objects of one size
-- (small/mempool.c). The allocator of small objects chooses a pool by the class of a size
-- (include/small/small_class.h). Sizes are rounded by the functions of include/small/util.h. A
-- table of blocks (small/matras.c) stands by itself: it takes extents from functions of its user,
-- and finds a block by its number.
--
-- The modules:
--   Base          numbers, lists, tests, words of 32 and 64 bits, laws of the bit operations
--   Util          include/small/util.h
--   Quota         include/small/quota.h: the packed value and the atomic loops. Quota/Spec is what a
--                 quota promises, Quota/Single what one caller sees, Quota/Threads the interleavings
--                 of several
--   QuotaLessor   include/small/quota_lessor.h, over Quota
--   SmallClass    include/small/small_class.h and small/small_class.c
--   SlabCache     include/small/slab_cache.h, include/small/slab_list.h and small/slab_cache.c, over an
--                 interface for the arena, its quota and malloc. SlabCache/Get, Put and Check hold
--                 more of the code
--   SlabSource    the part of include/small/slab_cache.h that the buffers and regions use, as an
--                 interface
--   Ibuf          include/small/ibuf.h and small/ibuf.c, over SlabSource
--   Static        include/small/static.h and small/static.c
--   Lifo          include/small/lifo.h
--   Mempool       include/small/mempool.h and small/mempool.c, over SlabCache. Mempool/Tree is what is
--                 asked of the tree of slabs
--   Matras        include/small/matras.h and small/matras.c, over the functions that a user gives for
--                 extents. Matras/Views and Destroy hold more of the code
--   Region        include/small/region.h and small/region.c, over SlabSource
-- A definition has the name of the C function, structure or constant that it translates. A function
-- that changes a structure takes the structure and returns the changed one, with its result before
-- it. NULL is `none`. A module and its children hold first the code, then what is proved of it.
--
-- Numbers are those of a 64-bit machine: `size_t` and pointers have 64 bits, `unsigned` has 32, and
-- the wrap-around is written out where the code can reach it. Memory is a list of bytes, and a
-- pointer into it an address or an offset.
--
-- A loop has fuel where its end is not plain from its data. `lease_loop` has 64 rounds: each
-- halves an amount below 2^64, and the loop ends when it is 0. `grow` has 64 rounds: each doubles
-- a capacity of at least 1, which reaches every capacity up to 2^63, and the theorems on buffers
-- show that what is needed is reached. In a slab cache the search has one round for each list, the
-- splitting as many rounds as the order of the slab, and the merging one more than the highest
-- order, since each round passes on to the next order. The loops of a region follow its list of
-- slabs. The loops that destroy a table of blocks have a round for each block and one more. The
-- atomic loops of a quota are steps of a relation, since how often they fail depends on other
-- threads.
--
-- What is not modelled: the arena (small/slab_arena.c) and the allocator of small objects
-- (small/small.c); the output buffer (small/obuf.c) and the log-structured region
-- (small/lsregion.c); the lock-free stack and the doubly linked list in include/small; the tree of
-- macros (include/small/rb.h), which belongs to another project; `region_join`; the builds for the
-- address sanitizer, which replace the allocators; the poisoning of memory, which does nothing in
-- other builds; assertions, which appear as hypotheses; the memory order of the atomic operations,
-- each of which is one step; and system calls.
pub mod Base
pub mod Util
pub mod Quota
pub mod QuotaLessor
pub mod SmallClass
pub mod SlabSource
pub mod Ibuf
pub mod Region
pub mod SlabCache
pub mod Static
pub mod Lifo
pub mod Matras
pub mod Mempool
