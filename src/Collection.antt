-- ===== src/Collection.antt =====
-- `Collector::collect` of src/collector.rs: a whole collection, from the marks of the last one to the blocks
-- that are given back. The arguments of the sweep of large objects are those of LargeObjectSpace.
mod Clear
pub mod Survive
mod Tests
use libimmixcons.Base.{
  ℕ, ◌+◌, Bool, Option, some, List, [], ◌∷◌, if◌then◌else◌, ◌>>=◌, checked_sub, take, drop,
}
use libimmixcons.Constants.{block_size, evac_headroom}
use libimmixcons.LineMap
use libimmixcons.BlockAllocator
use libimmixcons.BlockAllocator.{Memory, write}
use libimmixcons.Allocation.Allocators
use libimmixcons.Allocation.Allocators.{Space}
use libimmixcons.SpaceBitmap
use libimmixcons.ImmixSpace
use libimmixcons.ImmixSpace.{ImmixSpace}
use libimmixcons.LargeObjectSpace
use libimmixcons.LargeObjectSpace.{Slice, Headers, LargeObjectSpace, Retaining}
use libimmixcons.Collector.{Collector, CollectionType, empty_map, sweep_all_blocks, use_evacuation}
use libimmixcons.Tracing
use libimmixcons.Tracing.{Objects, Slots}

-- The bitmap and the lines of the blocks are cleared.
unfoldable pub clear_blocks : List ℕ → ImmixSpace → Option ImmixSpace
clear_blocks [] s = some s
clear_blocks (block ∷ blocks) s = do
  bitmap ← SpaceBitmap.clear_range s.bitmap block (block + block_size)
  let header = s.space.memory block
  let cleared = record header { line_map = LineMap.clear_all header.line_map }
  let memory : Memory = write s.space.memory block cleared
  clear_blocks blocks (record s { bitmap = bitmap; space = record (s.space) { memory = memory } })

-- The free blocks: some become headroom for evacuation, the others go back to the block allocator.
unfoldable pub give_back : ImmixSpace → List ℕ → Option ImmixSpace
give_back s free_blocks = do
  headroom ←
      if use_evacuation
      then checked_sub evac_headroom (Allocators.evac_headroom s.space)
      else some 0
  let space : Space = Allocators.extend_evac_headroom s.space (take headroom free_blocks)
  let (block_allocator, memory) =
      BlockAllocator.return_blocks space.block_allocator space.memory (drop headroom free_blocks)
  some (record s { space = record space { block_allocator = block_allocator; memory = memory } })

-- What a collection changes, and the bytes visited.
pub record Collected : Type 0 where
  pub collector : Collector
  pub immix_space : ImmixSpace
  pub large_object_space : LargeObjectSpace
  pub large_objects : Retaining
  pub objects : Objects
  pub slots : Slots
  pub visited : ℕ

module _ (fuel : ℕ) (slice : Slice) (finalizer : ℕ → Bool) (stale : ℕ → ℕ) where
  pub collect :
      Collector
      → CollectionType
      → List ℕ
      → List ℕ
      → ImmixSpace
      → LargeObjectSpace
      → Headers
      → Objects
      → Slots
      → Bool
      → Option Collected
  collect c collection_type roots precise s large headers objects slots next_live_mark = do
    cleared ← clear_blocks c.all_blocks s
    (w, slots', visited) ←
        Tracing.collect fuel collection_type roots precise cleared objects slots next_live_mark
    let traced = w.immix_space
    (c', memory, recyclable, free) ←
        sweep_all_blocks (record c { mark_histogram = empty_map }) traced.space.memory
    let swept : ImmixSpace = record traced { space = record (traced.space) { memory = memory } }
    s' ← give_back (ImmixSpace.set_recyclable_blocks swept recyclable) free
    (large', r) ← LargeObjectSpace.sweep slice finalizer stale large headers
    some (record {
      collector = c';
      immix_space = s';
      large_object_space = large';
      large_objects = r;
      objects = w.objects;
      slots = slots';
      visited = visited;
    })
