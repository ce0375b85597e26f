-- ===== src/Lib.antt =====
-- yalloc, a memory allocator for C programs: malloc, free, calloc, realloc and aligned_alloc on heaps
-- that threads own for the time of a call.
--
-- The program. A request is given a size class by its length (alloc.h, configure.c). A class that is
-- not yet popular is served by a bump allocator (bump.h) or, if large, by mmap(); the others by slab
-- regions of cells of one size (slab.h). A region keeps for each cell a state byte, and a bin of free
-- cells. A directory of pages (region.h) leads from an address to its region, so that free() finds
-- what it is given. A block that another heap's thread frees is marked at once, buffered by the
-- heap that frees it, and moved in a batch to the remote bin of its region, from where the region
-- takes cells when it has no other. The state bytes are what detects a double free.
--
-- The files. Paths are from the root of the repository.
--   * Base: numbers, tests, arrays; Word: yalloc.h and util.h, the helpers on machine words. `ub4` is
--     a number below 2 ^ 32, `size_t` one below 2 ^ 64, each sum reduced where the C type wraps.
--   * Slab.Region, Slab.Marks, Slab.Cells, Slab.Blocks: slab.h on one region, function by function
--     under its name: markfree, slab_markused, slab_cel, slab_remalloc, slab_newcel, slab_newalcel,
--     slab_frecel, slab_malloc, slab_alloc, slab_free. A function takes the region and returns its
--     result, the region after it and what it reported; Nocel and nil are `none`.
--   * Slab.Remote: slab.h cels2rbin and slab_free_rheap; Slab.Layout: slab.h newslab.
--   * Slab.Valid is the invariant of a region, Slab.Count counts cells by state. Slab.Free, Slab.New,
--     Slab.Cycle, Slab.Address, Slab.Malloc, Slab.Release, Slab.Gap, Slab.Aligned, Slab.Calloc,
--     Slab.Remote.Move, Slab.Remote.Give and Slab.Layout.Room hold the proofs. Slab.Trace is the step
--     relation of a region.
--   * Directory: region.h newdir, newleafdir, setregion, findregion, as a tree of three tables; its
--     meaning is a map from pages to regions (Directory.Pages, Directory.Range, Directory.Memory, Directory.Laws).
--   * Bump: bump.h newbump, bumpalloc, bump_free; Bump.Valid is the invariant of a region. To ask for
--     the length of a block is one of two ways to call bump_free(), as in the code.
--   * SizeClass: configure.c genclasses and the first part of alloc.h alloc_heap.
--   * ClassRegions: the last part of alloc.h alloc_heap, from `// regular slab` on, which looks for a
--     slab region with space in a class and makes a new one by newslab(). ClassRegions.Valid is the
--     invariant of the slab regions of a heap.
--   * Boot: boot.h bootalloc.
--   * Heap.Pool: heap.h getrbinmem.
--   * FreeList: the doubly linked free lists of regions, with what region.h and free.h do on them;
--     FreeList.Chain says what a list is.
--   * Mmap: large blocks, each a region of its own: alloc.h yal_mmap (Mmap.Use), region.h newmpregion
--     (Mmap.Choose, Mmap.New), free.h free_mmap (Mmap.Free), the second half of free_trim (Mmap.Trim) and
--     realloc.h real_mmap for a block of the heap at hand (Mmap.Resize).
--     Mmap.Valid is the invariant of the regions of a heap.
--   * Dispatch: size.h size_heap and free.h free_heap, which lead an address to the part its block belongs
--     to, over all heaps (Dispatch.State), with region.h findgregion. Slab, Bump, Mmap and Directory are
--     put together here.
--   * Text: util.h atox, atoul, atou, and printf.c ucnv, ulcnv, hexlcnv, which write a number backwards.
--
-- Conventions. A block of memory that is an array is a function from indices; that an index lies in
-- the block is part of the invariant (`room`, `bin_list`). The configuration is that of config.h:
-- pages of 4096 bytes, 48 bits of address, checks on (Yal_enable_check 1), no tags per cell. Calls
-- for logging, tracing and valgrind leave no trace here, except that error(), error2(), free2() and a
-- failed ycheck() are kept as values, and the code goes on as it does without an exit on errors. A test
-- that a part repeats unchanged is done once, and a region names its heap by `hid` alone, so that the id of
-- the heap it points to is not tested against it. A
-- compare-and-swap is a test and a write in one step: the model is of one thread at a time.
--
-- Arguments that stand for what is not modelled: osmem(), osmmap() and osmremap(), which answer an
-- address by the length asked for, and newregion(); in Slab also getrbinmem(), which answers memory,
-- and in Dispatch the heap that heap_new() answers, and what do_ylog() answers to an
-- error. They may fail, except where a theorem asks for
-- memory.
--
-- In Mmap a region is named by its place in the order of creation, and its link fields are tables.
-- osunmap() has no effect here: the memory to unmap is the result of the trim.
--
-- Loops. A walk along a free list has as many rounds as regions were ever made, which is enough as no
-- region is twice on a list (FreeList.Counted); free_trim() looks at 64 regions. Loops over an array
-- have a count of the rounds left. The loop of setregion() has one round for each page and one more,
-- that of newslab() one for each order up to the largest and one more; each has a theorem that it ends
-- within them. The search of a class has the 66 rounds of the code (ClassRegions.Alloc). The loops
-- that write numbers have a round for each digit, or each two digits, that a word can have.
--
-- Not modelled: alloc_heap() as a whole, realloc() as a whole, the ageing and reuse of slab regions,
-- the making of heaps and of the global directory, statistics, and the format strings of printf.c.
pub mod Slab
pub mod Directory
pub mod Bump
pub mod SizeClass
pub mod Boot
pub mod Heap
pub mod FreeList
pub mod Mmap
pub mod Dispatch
pub mod ClassRegions
pub mod Text
pub mod Word
pub mod Base
