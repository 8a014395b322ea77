-- ===== src/Collection/Survive.antt =====
-- The objects that the roots reach survive `Collector::collect` of src/collector.rs, when it moves nothing.
use libimmixcons.Base.{
  ℕ, ◌-◌, ◌/◌, ◌%◌, ◌≤◌, ◌<◌, ◌≡◌, refl, sym, ap, subst, ◌∙◌, Bool, true, false, some, List, [],
  ◌∷◌, length, dec_lt, push, count, count-append, count-take-drop, take, drop, Distinct,
  checked_sub-some, arith,
}
use libimmixcons.LineMap.Words.{IsLineMap, marked}
use libimmixcons.Block
use libimmixcons.Block.{ImmixBlock}
use libimmixcons.Block.Find.{IsBlock, line}
use libimmixcons.Block.Marking.{Lies, Covered, Apart, Covered-Apart}
use libimmixcons.BlockAllocator
use libimmixcons.BlockAllocator.{Memory, BlockAllocator, write, return_blocks}
use libimmixcons.Allocation.Allocators
use libimmixcons.Allocation.Allocators.{Space}
use libimmixcons.SpaceBitmap.{SpaceBitmap}
use libimmixcons.ImmixSpace
use libimmixcons.ImmixSpace.{ImmixSpace}
use libimmixcons.LargeObjectSpace.{Slice, Headers, LargeObjectSpace}
use libimmixcons.LargeObjectSpace.Order.{IsSlice}
use libimmixcons.LargeObjectSpace.Sweep.{Held, sweep_lem}
use libimmixcons.Collector.{Collector, immix_collection, empty_map}
use libimmixcons.Collector.Swept.{Swept}
use libimmixcons.Collector.Sweep.{sweep_all_blocks_lem}
use libimmixcons.Tracing.{World, Objects, Slots}
use libimmixcons.Tracing.Graph.{Reach, IsClosed, Reach-IsClosed}
use libimmixcons.Tracing.Marks.{InSpace}
use libimmixcons.Tracing.Refines.{Agrees, children_of, sizes_of}
use libimmixcons.Tracing.Whole.{IsTraceable, roots_of, rounds, collect-Agrees}
use libimmixcons.Collection.{Collected, give_back, collect}
use libimmixcons.Collection.Clear.{InBitmap, with_marks, Unmarked, clear_blocks_lem}

-- What a collection starts from: objects that can be traced, each object of the space in a block that the
-- collector has, the blocks distinct, well formed and in the range of the bitmap, no more headroom than
-- the collector wants, and large objects with their headers.
pub record IsCollectable (nodes : List ℕ) (s : ImmixSpace) (objects : Objects) (next : Bool)
    (c : Collector) (slice : Slice) (large : LargeObjectSpace) (headers : Headers) : Type 0 where
  pub traceable : IsTraceable nodes s objects next
  pub has_blocks : (o : ℕ) → InSpace nodes s o → 0 < count (Block.get_block_ptr o) c.all_blocks
  pub distinct : Distinct c.all_blocks
  pub blocks : (b : ℕ) → 0 < count b c.all_blocks → IsBlock (s.space.memory b)
  pub in_bitmap : (b : ℕ) → 0 < count b c.all_blocks → InBitmap s.bitmap b
  pub headroom : length s.space.evac.evac_headroom ≤ 5
  pub slices : IsSlice slice
  pub large_distinct : Distinct large.allocations
  pub large_held : Held headers large.allocations

-- Giving back blocks does not touch the others.
return_blocks-other :
    (blocks : List ℕ) (s : BlockAllocator) (memory : Memory) (b : ℕ)
    → count b blocks ≡ 0
    → let (s', memory') = return_blocks s memory blocks in
      (memory' b ≡ memory b) × (count b s'.free_blocks ≡ count b s.free_blocks)
unfolding return_blocks BlockAllocator.dontneed
return_blocks-other [] s memory b h = (refl, refl)
return_blocks-other (x ∷ xs) s memory b h =
    let s₁ : BlockAllocator = record s { free_blocks = push s.free_blocks x } in
    let ih = return_blocks-other xs s₁ (write memory x (Block.new x)) b (omega arith) in
    (ih.0 ∙ ground arith, ih.1 ∙ ground (arith, count-append b s.free_blocks (x ∷ [])))

give_back-other :
    (s : ImmixSpace) (free_blocks : List ℕ)
    → length s.space.evac.evac_headroom ≤ 5
    → (s' : ImmixSpace) × (give_back s free_blocks ≡ some s')
      × ((b : ℕ)
          → count b free_blocks ≡ 0
          → (s'.space.memory b ≡ s.space.memory b)
            × (count b s'.space.block_allocator.free_blocks
                ≡ count b s.space.block_allocator.free_blocks)
            × (count b s'.space.evac.evac_headroom ≡ count b s.space.evac.evac_headroom))
unfolding give_back Allocators.evac_headroom Allocators.extend_evac_headroom
give_back-other s free_blocks h =
    let n = 5 - length s.space.evac.evac_headroom in
    let space : Space = Allocators.extend_evac_headroom s.space (take n free_blocks) in
    let r = return_blocks space.block_allocator space.memory (drop n free_blocks) in
    (
      record s { space = record space { block_allocator = r.0; memory = r.1 } },
      rw (checked_sub-some 5 (length s.space.evac.evac_headroom) h) refl,
      λ b none_free.
          let parts = count-take-drop b n free_blocks in
          let o =
            return_blocks-other (drop n free_blocks) space.block_allocator space.memory b
              (omega arith) in
          (o.0, o.1, omega (arith, count-append b s.space.evac.evac_headroom (take n free_blocks))),
    )

module _ {nodes : List ℕ} {objects : Objects} {next : Bool} where
  IsTraceable-Unmarked :
      {s : ImmixSpace} {m' : SpaceBitmap} {memory' : Memory}
      → IsTraceable nodes s objects next
      → Unmarked s m' memory'
      → IsTraceable nodes (with_marks s m' memory') objects next
  unfolding ImmixSpace.filter_fast
  IsTraceable-Unmarked v u = record {
    valid = v.valid;
    not_forwarded = v.not_forwarded;
    unmarked = v.unmarked;
    bitmap = u.bitmap;
    placed = λ o i.
        let p = v.placed o i in
        let b = u.blocks (Block.get_block_ptr o) p.block in
        record {
          above = rw u.same_begin p.above;
          covered = rw (u.same_begin, u.same_length) p.covered;
          block = b.0;
          begins = b.1 ∙ p.begins;
          lies = p.lies;
        };
    aligned = v.aligned;
  }

-- A header of a block that the sweep keeps.
pub record Kept (old now : ImmixBlock) : Type 0 where
  pub same_begin : now.begin ≡ old.begin
  pub same_lines : now.line_map ≡ old.line_map

-- The block of an object whose lines are covered is not freed, and keeps its lines.
Swept-Kept :
    {memory memory' : Memory} {blocks f u r : List ℕ} {heap_size : ℕ → ℕ} (b o : ℕ)
    → Swept memory memory' blocks f u r
    → 0 < count b blocks
    → Lies heap_size b o
    → Covered heap_size (line (memory b)) b o
    → (count b f ≡ 0) × Kept (memory b) (memory' b)
Swept-Kept {memory} {memory'} {f = f} {u} {r} {heap_size} b o w h lies covered =
    let not_free : count b f ≡ 0 = elim (dec_lt 0 (count b f)) [
      | yes p ↦ absurd (clash ((w.each_free b p).0 ((o - b) / 128) (omega (arith, lies.below))))
      | no n ↦ omega arith
    ] in
    (
      not_free,
      elim (dec_lt 0 (count b u)) [
        | yes p ↦
            let e = (w.each_full b p).1 in
            record { same_begin = ap (λ k. k.begin) e; same_lines = ap (λ k. k.line_map) e }
        | no n ↦
            let e = (w.each_holed b (omega (arith, w.parts b))).3 in
            record { same_begin = ap (λ k. k.begin) e; same_lines = ap (λ k. k.line_map) e }
      ],
    )
  where
    clash : line (memory b) ((o - b) / 128) ≡ false → ⊥
    clash e = cc (e, covered ((o - b) / 128) (omega arith) (omega arith))

-- An object that survives: its block is neither headroom nor free unless it was so before, and no hole
-- that is found in the block later has a byte in common with the object.
pub record Survives (heap_size : ℕ → ℕ) (s s' : ImmixSpace) (o : ℕ) : Type 0 where
  pub not_freed :
      count (Block.get_block_ptr o) s'.space.block_allocator.free_blocks
      ≡ count (Block.get_block_ptr o) s.space.block_allocator.free_blocks
  pub not_headroom :
      count (Block.get_block_ptr o) s'.space.evac.evac_headroom
      ≡ count (Block.get_block_ptr o) s.space.evac.evac_headroom
  pub apart :
      (last low high : ℕ)
      → last < 32768
      → Block.scan_block (s'.space.memory (Block.get_block_ptr o)) last ≡ some (some (low, high))
      → Apart heap_size (Block.get_block_ptr o) low high o

module _ {nodes : List ℕ} {objects : Objects} {next : Bool} {black : ℕ → Bool} (s : ImmixSpace)
    (m' : SpaceBitmap) (memory' : Memory) {w : World}
    (a : Agrees nodes (with_marks s m' memory') objects next black w) where
  same_headroom : w.immix_space.space.evac.evac_headroom ≡ s.space.evac.evac_headroom
  same_headroom = ap (λ (space : Space). space.evac.evac_headroom) a.space.same_space

  Swept-Survives :
      {blocks f u r : List ℕ} {swept : Memory} (s' : ImmixSpace) (o : ℕ)
      → InSpace nodes (with_marks s m' memory') o
      → black o ≡ true
      → Swept w.immix_space.space.memory swept blocks f u r
      → 0 < count (Block.get_block_ptr o) blocks
      → ((b : ℕ)
          → count b f ≡ 0
          → (s'.space.memory b ≡ swept b)
            × (count b s'.space.block_allocator.free_blocks
                ≡ count b w.immix_space.space.block_allocator.free_blocks)
            × (count b s'.space.evac.evac_headroom
                ≡ count b w.immix_space.space.evac.evac_headroom))
      → Survives (sizes_of objects) s s' o
  Swept-Survives s' o i b parts member others =
      let at = Block.get_block_ptr o in
      let p = a.space.placed o i in
      let covered = a.space.lines o i b in
      let (not_free, kept) = Swept-Kept at o parts member p.lies covered in
      let (same, same_free, same_room) = others at not_free in
      let same_map = ap (λ k. k.line_map) same ∙ kept.same_lines in
      record {
        not_freed = same_free ∙ ap (count at) (ap (λ k. k.free_blocks) a.space.same_allocator);
        not_headroom = same_room ∙ ap (count at) same_headroom;
        apart = λ last low high lt found.
            Covered-Apart (sizes_of objects) at o last low high
              (record {
                lines = subst IsLineMap (sym same_map) p.block.lines;
                aligned =
                    subst (λ n. n % 32768 ≡ 0) (sym (ap (λ k. k.begin) same ∙ kept.same_begin))
                      p.block.aligned;
              })
              (λ j lo hi. ap (λ k. marked k j) same_map ∙ covered j lo hi) lt found;
      }

-- `Collector::collect`, when it moves nothing, ends without a panic, and every reachable object of the space
-- survives: its block is not given back, and no hole that `scan_block` finds in the block afterwards, from any
-- offset, has a byte in common with it. The conditions are on the state before: objects that can be
-- traced, in the blocks of the collector, and well-formed large objects.
pub collect-Survives :
    (fuel : ℕ) (slice : Slice) (finalizer : ℕ → Bool) (stale : ℕ → ℕ) (nodes : List ℕ)
    (c : Collector) (roots precise : List ℕ) (s : ImmixSpace) (large : LargeObjectSpace)
    (headers : Headers) (objects : Objects) (slots : Slots) (next : Bool)
    → IsCollectable nodes s objects next c slice large headers
    → IsClosed (children_of objects) (roots_of slots roots precise) nodes
    → rounds objects nodes (roots_of slots roots precise) < fuel
    → (r : Collected) × (collect fuel slice finalizer stale c immix_collection roots precise s large
          headers objects slots next
        ≡ some r)
      × ((o : ℕ)
          → Reach (children_of objects) (roots_of slots roots precise) o
          → ImmixSpace.filter_fast s o ≡ true
          → Survives (sizes_of objects) s r.immix_space o)
unfolding collect ImmixSpace.set_recyclable_blocks ImmixSpace.filter_fast
collect-Survives fuel slice finalizer stale nodes c roots precise s large headers objects slots next
      v closed enough =
    let (m', memory', e₁, u) =
      clear_blocks_lem c.all_blocks s v.traceable.bitmap v.in_bitmap v.blocks in
    let cleared = with_marks s m' memory' in
    let (w, bytes, black, e₂, a, reach) =
      collect-Agrees nodes cleared objects next slots roots precise fuel
        (IsTraceable-Unmarked v.traceable u) closed enough in
    let (c', swept, recyclable, free, e₃, parts) =
      sweep_all_blocks_lem (record c { mark_histogram = empty_map }) w.immix_space.space.memory
        v.distinct (λ b h. a.space.still_blocks b (u.blocks b (v.blocks b h)).0) in
    let before : ImmixSpace =
      ImmixSpace.set_recyclable_blocks (with_marks w.immix_space w.immix_space.bitmap swept)
        recyclable in
    let (s', e₄, others) =
      give_back-other before free (rw (same_headroom s m' memory' a) v.headroom) in
    let large_run =
      sweep_lem slice finalizer stale large headers v.slices v.large_distinct v.large_held in
    (
      record {
        collector = c';
        immix_space = s';
        large_object_space = large_run.0;
        large_objects = large_run.1;
        objects = w.objects;
        slots = slots;
        visited = bytes;
      },
      rw (e₁, e₂, e₃, e₄, large_run.2) refl,
      λ o r f.
          let i : InSpace nodes s o = (Reach-IsClosed (children_of objects) closed r, f) in
          Swept-Survives s m' memory' a s' o i ((reach o).1 r) parts (v.has_blocks o i) others,
    )
