-- ===== src/Heap/Allocate.antt =====
-- `Immix::allocate` of src/lib.rs: what a request for a small object gets.
mod Tests
use libimmixcons.Base.{
  ℕ, ◌+◌, ◌-◌, ◌/◌, ◌%◌, ◌≤◌, ◌<◌, ◌≡◌, refl, Bool, true, false, Option, none, some, List, [], ◌==◌,
  ltb, leb, if◌then◌else◌, ◌>>=◌, arith, lt→not_leb, length, ◌⊎◌, inl, inr, ap, sym, subst,
}
use libimmixcons.Align.{align_usize, align_usize_bounds}
use libimmixcons.Object
use libimmixcons.Object.{RawGc}
use libimmixcons.Object.Header.{IsHeader}
use libimmixcons.SpaceBitmap.Granules.{Changed}
use libimmixcons.Allocation.Scan.{BlockTuple}
use libimmixcons.Allocation.Hole.{Usable, advance}
use libimmixcons.Allocation.Allocators.{Space}
use libimmixcons.Allocation.Fresh.{NoBlockLeft}
use libimmixcons.ImmixSpace
use libimmixcons.ImmixSpace.{ImmixSpace}
use libimmixcons.ImmixSpace.Allocated.{
  IsImmixSpace, InMapping, Allocated, allocated, null, allocate_lem,
}
use libimmixcons.Heap.{Outside, Immix, collect_internal, allocate, allocate_small, install}
use libimmixcons.Heap.Install.{Installed, install_lem}

-- `m'` is `m` but for the stack pointer and the space.
abbrev pub with_space : Outside → Immix → ImmixSpace → Immix
with_space outside m s = record m { stack_end = outside.get_sp; immix = s }

-- A block is free, or the mapping has room for one more.
abbrev pub HasBlock : ImmixSpace → Type 0
HasBlock s =
    (0 < length s.space.block_allocator.free_blocks)
    ⊎ (s.space.block_allocator.data_next + 32768 ≤ s.space.block_allocator.data_bound)

-- The result of `allocate` for `size` bytes, rounded up: the heap, the space in it, the place and the header.
pub record SmallAllocated (outside : Outside) (m : Immix) (size rtti : ℕ) (r : Option (Immix × ℕ))
    : Type 0 where
  pub heap : Immix
  pub place : BlockTuple
  pub header : RawGc
  pub returned : r ≡ some (heap, place.block + place.low)
  pub usable : Usable heap.immix.space.memory place
  pub fits : place.low + size ≤ place.high
  pub in_mapping : InMapping m.immix place.block
  pub changed :
      Changed m.immix.bitmap heap.immix.bitmap
        ((place.block + place.low - m.immix.bitmap.heap_begin) / 16)
        true
  pub installed :
      Installed outside
        (with_space outside m heap.immix)
        heap
        size
        rtti
        (place.block + place.low)
        header

-- The part of `allocate` after the collection that it may begin with.
abbrev get_small : Outside → ℕ → ℕ → Immix → Option (Immix × ℕ)
get_small outside size rtti m = allocate_small outside m size >>= λ (m₃, ptr).
    if ptr == 0 then some (m₃, 0) else install outside m₃ size rtti ptr

no_block_left : (s : ImmixSpace) (t : Space) → HasBlock s → ¬ NoBlockLeft s.space t
no_block_left s t (inl h) left = absurd (omega (arith, ap length left.0))
no_block_left s t (inr h) left = absurd (omega (arith, left.1))

module _ (outside : Outside) (m : Immix) (size rtti : ℕ) (v : IsHeader (Object.new rtti))
    (has : HasBlock m.immix) where
  get_small_lem :
      (r : Option (ImmixSpace × ℕ))
      → ImmixSpace.allocate m.immix size ≡ r
      → Allocated size m.immix r
      → SmallAllocated outside m size rtti
          (get_small outside size rtti (record m { stack_end = outside.get_sp }))
  unfolding allocate_small
  get_small_lem r same (allocated s tp e u room place u' c changed evac) =
      let (m', header, run, installed) =
        install_lem outside (with_space outside m s) size rtti (tp.block + tp.low) v in
      let not_null : (tp.block + tp.low == 0) ≡ false = ground (arith, u.past_header) in
      let at : s ≡ m'.immix = sym installed.same_immix in
      record {
        heap = m';
        place = tp;
        header = header;
        returned = rw (same, e, not_null, not_null) run;
        usable = subst (λ x. Usable x.space.memory tp) at u;
        fits = room;
        in_mapping = place;
        changed =
            subst
              (λ x.
                Changed m.immix.bitmap x.bitmap
                  ((tp.block + tp.low - m.immix.bitmap.heap_begin) / 16) true)
              at changed;
        installed =
            subst
              (λ x.
                Installed outside (with_space outside m x) m' size rtti (tp.block + tp.low) header)
              at installed;
      }
  get_small_lem r same (null s e left same_bits) = absurd (no_block_left m.immix s.space has left)

-- `allocate` of a small object, below the threshold and with a block at hand, does not collect. The object
-- lies in free lines past the header line of a well-formed block of the mapping, with room for its size
-- rounded up to 16; its bit is set and no other bit is changed; its header is that of its type with
-- the live mark, and no other object is touched; it counts towards the threshold, and waits for its
-- finalizer if its type needs one.
pub allocate_small_lem :
    (outside : Outside) (m : Immix) (size rtti : ℕ) (used : List ℕ)
    → IsHeader (Object.new rtti)
    → m.allocated < m.threshold
    → size ≤ 8176
    → IsImmixSpace m.immix used
    → HasBlock m.immix
    → SmallAllocated outside m (align_usize size 16) rtti (allocate outside m size rtti)
unfolding allocate
allocate_small_lem outside m size rtti used header below small v has =
    let size' = align_usize size 16 in
    let b = align_usize_bounds size 16 (omega arith) in
    let fits : size' < 8192 = omega (arith, b.1, b.2) in
    rw (lt→not_leb m.allocated m.threshold below, lt→not_leb size' 8192 fits)
      (get_small_lem outside m size' rtti header has (ImmixSpace.allocate m.immix size') refl
        (allocate_lem size' m.immix used (b.2) (omega (arith, fits)) v))
