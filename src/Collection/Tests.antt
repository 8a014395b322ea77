-- ===== src/Collection/Tests.antt =====
-- A whole collection of the objects of Tracing/Examples, whose block is the collector's only one.
use libimmixcons.Base.{ℕ, ◌≡◌, refl, ◌⊎◌, true, none, some, [], ◌∷◌, arith}
use libimmixcons.Block
use libimmixcons.Block.Examples.{clean_block-IsBlock}
use libimmixcons.ImmixSpace
use libimmixcons.LargeObjectSpace.{LargeObjectSpace, Headers}
use libimmixcons.LargeObjectSpace.Slices.{list_slice, list_slice-IsSlice}
use libimmixcons.Collector.{Collector, immix_collection, empty_map}
use libimmixcons.Tracing.Graph.{Reach}
use libimmixcons.Tracing.Refines.{children_of, sizes_of}
use libimmixcons.Tracing.Examples.{
  space, objects, nodes, slots, all_roots, nodes-IsClosed, in_block, objects-IsTraceable,
}
use libimmixcons.Collection.{Collected, collect}
use libimmixcons.Collection.Survive.{IsCollectable, Survives, collect-Survives}

abbrev one_block : Collector
one_block = record { all_blocks = 65536 ∷ []; mark_histogram = empty_map }

abbrev no_large : LargeObjectSpace
no_large = record { allocations = []; current_live_mark = true }

abbrev no_headers : Headers
no_headers b = none

block_of_object :
    (o : ℕ) → (o ≡ 65664) ⊎ ((o ≡ 65920) ⊎ (o ≡ 66176)) → Block.get_block_ptr o ≡ 65536
unfolding Block.get_block_ptr
block_of_object o h = ground arith

one_block-IsCollectable :
    IsCollectable nodes space objects true one_block list_slice no_large no_headers
one_block-IsCollectable = record {
  traceable = objects-IsTraceable;
  has_blocks = λ o i. rw (block_of_object o (in_block o i)) (omega arith);
  distinct = (refl, tt);
  blocks = λ b h. clean_block-IsBlock;
  in_bitmap = λ b h.
      let at : b ≡ 65536 = ground arith in
      record {
        above = omega (arith, at);
        at_granule = omega (arith, at);
        below = omega (arith, at);
      };
  headroom = omega arith;
  slices = list_slice-IsSlice;
  large_distinct = tt;
  large_held = λ b h. absurd (omega arith);
}

-- The witness.
collect-Survives_example :
    (r : Collected) × (collect 10 list_slice
        (λ o. true)
        (λ b. 0)
        one_block
        immix_collection
        (65664 ∷ [])
        (8 ∷ [])
        space
        no_large
        no_headers
        objects
        slots
        true
      ≡ some r)
    × ((o : ℕ)
        → Reach (children_of objects) all_roots o
        → ImmixSpace.filter_fast space o ≡ true
        → Survives (sizes_of objects) space r.immix_space o)
collect-Survives_example =
    collect-Survives 10 list_slice (λ o. true) (λ b. 0) nodes one_block (65664 ∷ []) (8 ∷ []) space
      no_large no_headers objects slots true one_block-IsCollectable nodes-IsClosed (omega arith)
