-- ===== src/Tracing/Safety.antt =====
-- What `ImmixCollector::collect` of src/collector.rs leaves in the bitmap and in the blocks: the objects that
-- the roots reach stay objects, and no allocation finds room in them.
use libimmixcons.Base.{
  ℕ, ◌+◌, ◌-◌, ◌/◌, ◌<◌, ◌≡◌, sym, subst, ◌↔◌, Bool, true, false, some, List, arith, inl, inr,
}
use libimmixcons.Block
use libimmixcons.Block.Marking.{Apart, Covered-Apart}
use libimmixcons.SpaceBitmap.Granules.{marked}
use libimmixcons.ImmixSpace
use libimmixcons.ImmixSpace.{ImmixSpace}
use libimmixcons.ImmixSpace.Filter.{IsPlace, filter-marked}
use libimmixcons.Collector.{immix_collection}
use libimmixcons.Tracing.{World, Objects, Slots, collect}
use libimmixcons.Tracing.Graph.{Reach, IsClosed, Reach-IsClosed}
use libimmixcons.Tracing.Marks.{InSpace, granule}
use libimmixcons.Tracing.Refines.{Agrees, children_of, sizes_of}
use libimmixcons.Tracing.Whole.{IsTraceable, roots_of, rounds, collect-Agrees}

module _ {nodes : List ℕ} {s : ImmixSpace} {objects : Objects} {next : Bool} {black : ℕ → Bool}
    {w : World} (v : IsTraceable nodes s objects next)
    (a : Agrees nodes s objects next black w) where
  -- The filter lets a black object of the space through.
  filter-black :
      (o : ℕ)
      → InSpace nodes s o
      → black o ≡ true
      → ImmixSpace.filter w.immix_space o ≡ some (some o)
  unfolding ImmixSpace.filter_fast
  filter-black o i b =
      let p = a.space.placed o i in
      let off = o - w.immix_space.bitmap.heap_begin in
      let at : w.immix_space.bitmap.heap_begin + off ≡ o = omega (arith, p.above) in
      let place : IsPlace w.immix_space off = record {
        aligned = rw at (v.aligned o i);
        in_space = rw (at, a.space.same_allocator) i.1;
        covered = p.covered;
      } in
      let f = filter-marked w.immix_space off a.space.bitmap place in
      let m : marked w.immix_space.bitmap (off / 16) ≡ true =
        subst (λ n. marked w.immix_space.bitmap ((o - n) / 16) ≡ true) (sym a.space.same_begin)
          (a.space.granules o i b) in
      rw (at, m) at f

  -- No hole of its block meets a black object.
  black-Apart :
      (o last low high : ℕ)
      → InSpace nodes s o
      → black o ≡ true
      → last < 32768
      → Block.scan_block (w.immix_space.space.memory (Block.get_block_ptr o)) last
        ≡ some (some (low, high))
      → Apart (sizes_of objects) (Block.get_block_ptr o) low high o
  black-Apart o last low high i b lt found =
      Covered-Apart (sizes_of objects) (Block.get_block_ptr o) o last low high
        (a.space.placed o i).block (a.space.lines o i b) lt found

-- After a collection that moves nothing, every reachable object of the space passes the filter, and no
-- hole that `scan_block` then finds in its block, from any offset, has a byte in common with it. The conditions are those under which the collection ends.
pub collect-Apart :
    (nodes : List ℕ) (s : ImmixSpace) (objects : Objects) (next : Bool) (slots : Slots)
    (roots precise : List ℕ) (fuel : ℕ)
    → IsTraceable nodes s objects next
    → IsClosed (children_of objects) (roots_of slots roots precise) nodes
    → rounds objects nodes (roots_of slots roots precise) < fuel
    → (w : World) × (bytes : ℕ) × (collect fuel immix_collection roots precise s objects slots next
        ≡ some (w, slots, bytes))
      × ((o : ℕ)
          → Reach (children_of objects) (roots_of slots roots precise) o
          → ImmixSpace.filter_fast s o ≡ true
          → (ImmixSpace.filter w.immix_space o ≡ some (some o))
            × ((last low high : ℕ)
                → last < 32768
                → Block.scan_block (w.immix_space.space.memory (Block.get_block_ptr o)) last
                  ≡ some (some (low, high))
                → Apart (sizes_of objects) (Block.get_block_ptr o) low high o))
collect-Apart nodes s objects next slots roots precise fuel v closed enough =
    let (w, bytes, black, e, a, reach) =
      collect-Agrees nodes s objects next slots roots precise fuel v closed enough in
    (
      w,
      bytes,
      e,
      λ o r f.
          let i : InSpace nodes s o = (Reach-IsClosed (children_of objects) closed r, f) in
          (
            filter-black v a o i ((reach o).1 r),
            λ last low high lt found. black-Apart v a o last low high i ((reach o).1 r) lt found,
          ),
    )

-- A collection that moves nothing and starts with an empty bitmap leaves in it the granules of the
-- reachable objects of the space and no other.
pub collect-marked :
    (nodes : List ℕ) (s : ImmixSpace) (objects : Objects) (next : Bool) (slots : Slots)
    (roots precise : List ℕ) (fuel : ℕ)
    → IsTraceable nodes s objects next
    → IsClosed (children_of objects) (roots_of slots roots precise) nodes
    → rounds objects nodes (roots_of slots roots precise) < fuel
    → ((g : ℕ) → marked s.bitmap g ≡ false)
    → (w : World) × (bytes : ℕ) × (collect fuel immix_collection roots precise s objects slots next
        ≡ some (w, slots, bytes))
      × ((g : ℕ)
          → (marked w.immix_space.bitmap g ≡ true) ↔ (
              (o : ℕ) × Reach (children_of objects) (roots_of slots roots precise) o
              × (ImmixSpace.filter_fast s o ≡ true)
              × (granule s o ≡ g)))
collect-marked nodes s objects next slots roots precise fuel v closed enough empty =
    let (w, bytes, black, e, a, reach) =
      collect-Agrees nodes s objects next slots roots precise fuel v closed enough in
    (
      w,
      bytes,
      e,
      λ g. (
        λ m. elim (a.space.others g m) [
          | inl was ↦ absurd (clash g was)
          | inr (o, i, b, at) ↦ (o, (reach o).0 b, i.1, at)
        ],
        λ (o, r, f, at).
            subst (λ n. marked w.immix_space.bitmap n ≡ true) at
              (a.space.granules o (Reach-IsClosed (children_of objects) closed r, f)
                ((reach o).1 r)),
      ),
    )
  where
    clash : (g : ℕ) → marked s.bitmap g ≡ true → ⊥
    clash g was = cc (was, empty g)
