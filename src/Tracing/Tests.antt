-- ===== src/Tracing/Tests.antt =====
-- Collections of the objects of Tracing/Examples.
use libimmixcons.Base.{ℕ, ◌≡◌, ◌<◌, ◌↔◌, true, some, [], ◌∷◌, count, arith}
use libimmixcons.Object
use libimmixcons.Block
use libimmixcons.Block.Marking.{Apart}
use libimmixcons.SpaceBitmap.Granules.{marked}
use libimmixcons.ImmixSpace
use libimmixcons.ImmixSpace.{ImmixSpace}
use libimmixcons.Collector.{immix_collection}
use libimmixcons.Tracing.{World, collect}
use libimmixcons.Tracing.Graph.{Reach}
use libimmixcons.Tracing.Marks.{granule}
use libimmixcons.Tracing.Refines.{children_of, sizes_of}
use libimmixcons.Tracing.Whole.{collect-Reach}
use libimmixcons.Tracing.Safety.{collect-Apart, collect-marked}
use libimmixcons.Tracing.Examples.{
  space, references, objects, nodes, slots, all_roots, nodes-IsClosed, objects-IsTraceable,
  unmarked_bitmap,
}

-- The witnesses.
collect-Reach_example :
    (w : World) × (bytes : ℕ) × (collect 10 immix_collection
        (65664 ∷ [])
        (8 ∷ [])
        space
        objects
        slots
        true
      ≡ some (w, slots, bytes))
    × ((o : ℕ)
        → 0 < count o nodes
        → (Object.get_mark (w.objects o).header ≡ some true)
          ↔ Reach (children_of objects) all_roots o)
    × ((o : ℕ) → (w.objects o).references ≡ references o)
    × ((o : ℕ) → (w.objects o).heap_size ≡ 100)
collect-Reach_example =
    collect-Reach nodes space objects true slots (65664 ∷ []) (8 ∷ []) 10 objects-IsTraceable
      nodes-IsClosed (omega arith)

collect-Apart_example :
    (w : World) × (bytes : ℕ) × (collect 10 immix_collection
        (65664 ∷ [])
        (8 ∷ [])
        space
        objects
        slots
        true
      ≡ some (w, slots, bytes))
    × ((o : ℕ)
        → Reach (children_of objects) all_roots o
        → ImmixSpace.filter_fast space o ≡ true
        → (ImmixSpace.filter w.immix_space o ≡ some (some o))
          × ((last low high : ℕ)
              → last < 32768
              → Block.scan_block (w.immix_space.space.memory (Block.get_block_ptr o)) last
                ≡ some (some (low, high))
              → Apart (sizes_of objects) (Block.get_block_ptr o) low high o))
collect-Apart_example =
    collect-Apart nodes space objects true slots (65664 ∷ []) (8 ∷ []) 10 objects-IsTraceable
      nodes-IsClosed (omega arith)

collect-marked_example :
    (w : World) × (bytes : ℕ) × (collect 10 immix_collection
        (65664 ∷ [])
        (8 ∷ [])
        space
        objects
        slots
        true
      ≡ some (w, slots, bytes))
    × ((g : ℕ)
        → (marked w.immix_space.bitmap g ≡ true) ↔ (
            (o : ℕ) × Reach (children_of objects) all_roots o
            × (ImmixSpace.filter_fast space o ≡ true)
            × (granule space o ≡ g)))
collect-marked_example =
    collect-marked nodes space objects true slots (65664 ∷ []) (8 ∷ []) 10 objects-IsTraceable
      nodes-IsClosed (omega arith) unmarked_bitmap
