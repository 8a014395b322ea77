-- ===== src/Heap.antt =====
-- `Immix` of src/lib.rs without the feature `threaded`: a heap, its collections and its allocation. The
-- registers, the timer and the statistics are left out.
pub mod Roots
pub mod Finalize
pub mod Pinned
pub mod Sizes
pub mod Install
pub mod Allocate
pub mod Init
mod Tests
pub mod Scan
use libimmixcons.Base.{
  ℕ, ◌+◌, ◌-◌, ◌*◌, ◌/◌, Bool, true, false, not, ◌&&◌, ◌||◌, Option, none, some, List, [], ◌∷◌,
  ◌++◌, ◌==◌, ltb, leb, if◌then◌else◌, ◌>>=◌, push, count,
}
use libimmixcons.Constants.{block_size, large_object}
use libimmixcons.Align.{align_usize}
use libimmixcons.Object
use libimmixcons.Object.{RawGc}
use libimmixcons.Block
use libimmixcons.BlockAllocator
use libimmixcons.Allocation.Allocators
use libimmixcons.ImmixSpace
use libimmixcons.ImmixSpace.{ImmixSpace}
use libimmixcons.LargeObjectSpace
use libimmixcons.LargeObjectSpace.{Slice, Headers, LargeObjectSpace}
use libimmixcons.Collector
use libimmixcons.Collector.{Collector}
use libimmixcons.Tracing.{HeapObject, Objects, Slots, write_object}
use libimmixcons.Collection

-- What a callback reports: slots with precise roots, and ranges to scan.
pub record Reported : Type 0 where
  pub precise : List ℕ
  pub ranges : List (ℕ × ℕ)

-- The code outside the crate's own: slices, malloc, the finalizers and headers as LargeObjectSpace has
-- them, the callbacks, the stack pointer, and what a runtime type says of a fresh object but for its header.
pub record Outside : Type 0 where
  pub slice : Slice
  pub malloc : ℕ × ℕ → Option ℕ
  pub finalizer : ℕ → Bool
  pub stale : ℕ → ℕ
  pub callback : ℕ → Reported
  pub get_sp : ℕ
  pub fresh : ℕ → HeapObject
  pub rounds : ℕ

-- `headers`, `objects`, `slots` and `words` are the memory.
pub record Immix : Type 0 where
  pub los : LargeObjectSpace
  pub headers : Headers
  pub immix : ImmixSpace
  pub objects : Objects
  pub slots : Slots
  pub words : Roots.Words
  pub stack_bottom : ℕ
  pub stack_end : ℕ
  pub allocated : ℕ
  pub threshold : ℕ
  pub current_live_mark : Bool
  pub collect_roots_callback : List ℕ
  pub collector : Collector
  pub to_finalize : List ℕ

unfoldable pub register_ongc_callback : Immix → ℕ → Immix
register_ongc_callback m callback = record m {
  collect_roots_callback = push m.collect_roots_callback callback;
}

-- The sizes that `immix_init` settles on. In `f64` the product is exact below 2 ^ 53.
unfoldable pub init_sizes : ℕ → ℕ → ℕ × ℕ
init_sizes heap_size threshold =
    if heap_size == 0 || leb heap_size (512 * 1024)
    then (16 * block_size, 100 * 1024)
    else if threshold == 0
    then (heap_size, 30 * heap_size / 100)
    else (heap_size, threshold)

module _ (outside : Outside) where
  -- The reports of all callbacks.
  unfoldable pub run_callbacks : List ℕ → List ℕ × List (ℕ × ℕ)
  run_callbacks [] = ([], [])
  run_callbacks (callback ∷ callbacks) =
      let (precise, ranges) = run_callbacks callbacks in
      let reported = outside.callback callback in
      (reported.precise ++ precise, reported.ranges ++ ranges)

  -- The ranges of the callbacks are scanned first, then the stack.
  unfoldable pub collect_ranges :
      Immix → ImmixSpace → List (ℕ × ℕ) → Objects × List ℕ → Option (Objects × List ℕ)
  collect_ranges m s [] found =
      Roots.collect_roots outside.slice s m.los m.headers m.words m.stack_bottom m.stack_end found
  collect_ranges m s ((bottom, end) ∷ ranges) found = do
    found' ← Roots.collect_roots outside.slice s m.los m.headers m.words bottom end found
    collect_ranges m s ranges found'

  -- The pages of the blocks that were given back read as zeros, the headers of objects among them.
  unfoldable pub zero_returned : ImmixSpace → Objects → Objects
  zero_returned s objects a =
      if ltb 0 (count (Block.get_block_ptr a) s.space.block_allocator.free_blocks)
      then record (objects a) { header = record { vtable = record { raw = 0 } } }
      else objects a

  -- What changes when the collection is over. `visited as f64 * 1.75` is exact below 2 ^ 51.
  unfoldable pub finish_collection : Immix → List ℕ → Collection.Collected → Option Immix
  unfolding zero_returned
  finish_collection m roots r = do
    objects ← Finalize.unpin_roots (zero_returned r.immix_space r.objects) roots
    (to_finalize, finalized) ← Finalize.run_finalizers objects m.current_live_mark m.to_finalize
    let live_mark = not m.current_live_mark
    some (record m {
      los = record (r.large_object_space) { current_live_mark = live_mark };
      headers = r.large_objects.headers;
      immix = ImmixSpace.set_current_live_mark r.immix_space live_mark;
      objects = objects;
      slots = r.slots;
      allocated = r.visited;
      threshold = if leb m.threshold r.visited then r.visited * 7 / 4 else m.threshold;
      current_live_mark = live_mark;
      collector = r.collector;
      to_finalize = to_finalize;
    })

  unfoldable pub collect_internal : Bool → Bool → Immix → Option Immix
  unfolding run_callbacks collect_ranges finish_collection
  collect_internal evacuation emergency m = do
    let (precise, ranges) = run_callbacks m.collect_roots_callback
    let (s, all_blocks) = ImmixSpace.get_all_blocks m.immix
    (objects, roots) ← collect_ranges m s ranges (m.objects, [])
    let collector = Collector.extend_all_blocks m.collector all_blocks
    available_blocks ← BlockAllocator.available_blocks s.space.block_allocator
    total_blocks ← BlockAllocator.total_blocks s.space.block_allocator
    (memory, collection_type) ←
        Collector.prepare_collection collector s.space.memory evacuation available_blocks
          (Allocators.evac_headroom s.space) total_blocks emergency
    let prepared : ImmixSpace = record s { space = record (s.space) { memory = memory } }
    r ←
        Collection.collect outside.rounds outside.slice outside.finalizer outside.stale collector
          collection_type roots precise prepared m.los m.headers objects m.slots
          (not m.current_live_mark)
    finish_collection m roots r

  -- The two tries to get room for a small object.
  unfoldable pub allocate_small : Immix → ℕ → Option (Immix × ℕ)
  allocate_small m size = do
    (s, addr) ← ImmixSpace.allocate m.immix size
    let m₁ : Immix = record m { immix = s }
    if addr == 0
        then (collect_internal true true m₁ >>= λ m₂.
            ImmixSpace.allocate m₂.immix size >>= λ (s', addr').
            some (record m₂ { immix = s' }, addr'))
        else some (m₁, addr)

  unfoldable pub allocate_large : Immix → ℕ → ℕ → Option (Immix × ℕ)
  allocate_large m size rtti = do
    (los, headers, addr, header) ←
        LargeObjectSpace.alloc outside.slice outside.malloc m.los m.headers size rtti
    some (record m { los = los; headers = headers }, addr)

  -- The object's header, and what counts it.
  unfoldable pub install : Immix → ℕ → ℕ → ℕ → Option (Immix × ℕ)
  install m size rtti ptr = do
    (header, same) ← Object.mark (Object.new rtti) m.current_live_mark
    let object : HeapObject = record (outside.fresh rtti) { header = header }
    some (
      record m {
        allocated = m.allocated + size;
        objects = write_object m.objects ptr object;
        to_finalize =
            if object.needs_finalization && ltb size large_object
            then push m.to_finalize ptr
            else m.to_finalize;
      },
      ptr,
    )

  -- The address is 0 if there is no room.
  unfoldable pub allocate : Immix → ℕ → ℕ → Option (Immix × ℕ)
  unfolding allocate_small allocate_large install
  allocate m size rtti = do
    let m₁ : Immix = record m { stack_end = outside.get_sp }
    m₂ ← if leb m.threshold m.allocated then collect_internal false true m₁ else some m₁
    let size' = align_usize size 16
    if leb large_object size'
        then (allocate_large m₂ size' rtti >>= λ (m₃, ptr). install m₃ size' rtti ptr)
        else (allocate_small m₂ size' >>= λ (m₃, ptr).
            if ptr == 0 then some (m₃, 0) else install m₃ size' rtti ptr)
