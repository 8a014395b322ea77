-- ===== src/Lib.antt =====
-- libimmixcons: the data structures and decisions of a mark-region garbage collector in Rust.
--
-- The heap is a mapping that is cut into blocks of 32 KiB, each of 256 lines of 128 bytes. The block
-- allocator hands blocks out and takes them back. Allocators bump a pointer through a block, or
-- through the holes of a block that a collection left: runs of lines without a mark. A collection
-- marks the lines of the objects it reaches; the sweep then sorts the blocks into free, recyclable
-- and full ones. Large objects live outside the blocks, one allocation of the system each.
--
-- The parts, each with its files:
--   * Constants (src/constants.rs) and Align (`align_usize` of src/object.rs).
--   * LineMap (src/util/bitmap_const.rs): the bitmap of line marks, a list of words. LineMap/Words
--     and LineMap/Laws treat it as a set of line numbers.
--   * TaggedPointer (src/util.rs) and Object (`RawGc` of src/object.rs): the header word of an
--     object. Object/Header views it as a pointer and three flags.
--   * Block (src/block.rs): the header of a block and all that reads or writes line marks; `scan_block`,
--     `count_holes`, `modify_line` and the rest keep their names. Block/Find, Block/Holes,
--     Block/Scan, Block/Remarked, Block/Marking, Block/Counts and Block/Totals hold the proofs about
--     its loops.
--   * BlockAllocator (src/block_allocator.rs): `BlockAllocator` and the headers in memory, a function
--     from addresses. BlockAllocator/Inv has its invariant, BlockAllocator/Lossless
--     what it says of a client's calls, BlockAllocator/Building the
--     threads that run `build_block` at once.
--   * Allocation (src/allocation.rs): Allocation/Scan has the provided methods of the trait `Allocator`,
--     Allocation/Allocator the record of its required methods and `allocate`, Allocation/Allocators the
--     three implementations over the state `Space` that they share. Allocation/Hole, Allocation/Recycle and
--     Allocation/Fresh are about the places where a tuple comes from; Allocation/Place says what an
--     allocator promises of its steps and what `allocate` then does, and Allocation/Normal,
--     Allocation/Overflow and Allocation/Evac keep that promise.
--   * Collector (src/collector.rs): the decision before a collection and the sweep after it, with the
--     proofs in Collector/Stepped, Collector/Swept, Collector/Sweep, Collector/Threshold and Collector/Prepare.
--   * Tracing (`ImmixCollector::collect` and `Visitor::trace` of src/collector.rs): the queue, the marks of
--     headers, lines and bitmap, and evacuation. Tracing/Graph is the marking of a graph by a worklist,
--     Tracing/Headers and Tracing/Marks relate the headers and the space to the nodes visited, Tracing/Refines the
--     loop to the worklist; Tracing/Whole and Tracing/Safety state what a collection that moves nothing does.
--   * Collection (`Collector::collect` of src/collector.rs): a whole collection, which clears the marks, traces,
--     sweeps blocks and large objects and gives free blocks back. Collection/Clear is about its start,
--     Collection/Survive about the objects that live on.
--   * Heap (`Immix` of src/lib.rs, without the feature `threaded`): roots from the stack, whole collections,
--     finalizers and allocation. Heap/Roots and Heap/Finalize hold loops of `collect_internal`; Heap/Pinned and
--     Heap/Scan are about the roots, Heap/Install and Heap/Allocate about
--     `allocate`. Heap/Init is `immix_init`, with Heap/Sizes and Heap/Init/Ready about it.
--   * LargeObjectSpace (src/large_object_space.rs): the list of allocations and, in
--     LargeObjectSpace/PreciseAllocation, the header of one; the proofs are in
--     LargeObjectSpace/Order, LargeObjectSpace/Alloc and LargeObjectSpace/Sweep.
--   * SpaceBitmap (src/space_bitmap.rs): one bit for each 16 bytes of the heap, as a set of granules in
--     SpaceBitmap/Granules; SpaceBitmap/Cleared and SpaceBitmap/Range are about `clear_range`,
--     and SpaceBitmap/Size about the size for a heap. SpaceBitmap/Walk has the walks of the module `sync`, with the proofs in Walk/Words,
--     Walk/Buffer, Walk/Sweeping, Walk/Edges and Walk/Copying, and SpaceBitmap/Atomic the threads that run
--     `atomic_test_and_set` at once, with the proofs in Atomic/Once and Atomic/Progress.
--   * ImmixSpace (`ImmixSpace` of src/allocation.rs): the state of Allocation with the bitmap of objects.
--     ImmixSpace/Filter and ImmixSpace/Known are about the objects that the bitmap knows, ImmixSpace/Drain about
--     `get_all_blocks`, ImmixSpace/Allocated and ImmixSpace/Evacuate about `allocate` and
--     `maybe_evacuate`, and ImmixSpace/Fresh about `new`.
--   * Region (`Address` and `Region` of src/util.rs), with Region/Overlap.
--   * SpinLock (`GCSpinLock` of src/util/locks.rs): the steps of several threads on one lock.
--     SpinLock/Exclusion shows who is in it.
--   * ReentrantMutex (`ReentrantMutex` of src/util/locks.rs): the steps of several threads over a mutex that
--     is a parameter and may hand itself over. ReentrantMutex/Fine holds what each step keeps, ReentrantMutex/Nesting what follows.
--   * Safepoint (src/safepoint.rs and src/threading.rs, with the features `threaded` and `willdebug`): the steps
--     of threads that enter and leave managed code, stop for a collection, or collect. Safepoint/Invariant and
--     Safepoint/Steps hold what each step keeps, Safepoint/Stopped what follows while a thread collects, and Safepoint/Progress
--     that a collection ends.
--
-- State is passed explicitly: an operation takes a record and returns the new one beside its result.
-- The outer `Option` of a result is a panic: an index out of bounds, an overflow of a checked
-- subtraction, a shift or the count of a lock, a failed assertion. `usize` and `u64` are natural numbers; casts to `u16` and `u32`
-- and the complement of a word are written out modulo the width. A pointer is its address.
--
-- Recursion that is not on a list has fuel. `scan_block` and `scan_for_hole` start with 257 rounds:
-- each round is at least one line further, and a block has 256. `handle_no_hole` of the normal
-- allocator has one round more than there are recyclable blocks, since each round takes one out.
-- The loops of `clear_range` have 65 rounds, and a word has 64 bits. The loop over the queue of a
-- collection needs a round for each root and each reference of an object; a heap takes its number of rounds
-- as a parameter.
-- A proof that a function ends shows that the fuel suffices.
--
-- Outside are the operating system (`mmap`, the allocator of large objects), the embedder's runtime
-- types (the size, the references and the finalizer of an object), the callbacks that report roots,
-- and the sort and search of slices: these are parameters, with hypotheses where a proof relies on
-- them. All models but SpaceBitmap/Atomic, BlockAllocator/Building, SpinLock, ReentrantMutex and
-- Safepoint run on one thread.
--
-- Not modelled: the timers and statistics of src/lib.rs, the mutex and the condition variable of
-- src/util/locks.rs, which are adapted from the crate parking_lot, signals and stack bounds.
pub mod Base
pub mod Constants
pub mod Align
pub mod LineMap
pub mod TaggedPointer
pub mod Object
pub mod Block
pub mod BlockAllocator
pub mod Allocation
pub mod Collector
pub mod LargeObjectSpace
pub mod SpaceBitmap
pub mod ImmixSpace
pub mod Region
pub mod SpinLock
pub mod ReentrantMutex
pub mod Safepoint
pub mod Tracing
pub mod Collection
pub mod Heap
