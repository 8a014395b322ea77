-- ===== src/ImmixSpace/Allocated.antt =====
-- `ImmixSpace::allocate`: the object that a request gets, and its bit.
use libimmixcons.Base.{
  ℕ, ◌+◌, ◌-◌, ◌*◌, ◌/◌, ◌%◌, ◌≤◌, ◌<◌, ◌≡◌, refl, ◌∙◌, subst, true, false, inl, inr, Option, some,
  List, ◌==◌, ltb, if◌then◌else◌, ◌>>=◌, arith, count, length, Bool-cases,
}
use libimmixcons.BlockAllocator.Mmap
use libimmixcons.BlockAllocator.Inv.{IsValid, built}
use libimmixcons.SpaceBitmap.{SpaceBitmap}
use libimmixcons.SpaceBitmap.Granules.{IsBitmap, Changed, Covers}
use libimmixcons.Allocation.Scan.{BlockTuple}
use libimmixcons.Allocation.Allocator.{allocate as allocate_with}
use libimmixcons.Allocation.Allocators.{Space, block_of, normal_ops, overflow_ops}
use libimmixcons.Allocation.Hole.{Usable, advance}
use libimmixcons.Allocation.Place.{Placed, placed, no_room}
use libimmixcons.Allocation.Fresh.{NoBlockLeft, IsUnused}
use libimmixcons.Allocation.Normal
use libimmixcons.Allocation.Normal.{IsSpace, held, current_normal, OnlyNormal, allocate_normal}
use libimmixcons.Allocation.Overflow
use libimmixcons.Allocation.Overflow.{
  IsOverflowSpace, current_overflow, OnlyOverflow, allocate_overflow,
}
use libimmixcons.ImmixSpace.{ImmixSpace, allocate, set_gc_object}
use libimmixcons.ImmixSpace.Filter.{set_gc_object-Changed}

-- The two allocators of mutators are in order, what they hold is in use, and the bitmap has a bit for
-- every 16 bytes of the mapping.
pub record IsImmixSpace (s : ImmixSpace) (used : List ℕ) : Type 0 where
  pub normal : IsSpace s.space used
  pub overflow : IsOverflowSpace s.space used
  pub holds_used :
      (b : ℕ)
      → 0
        < held s.space b
          + count b (block_of s.space.normal.current_block)
          + count b (block_of s.space.overflow.current_block)
      → 0 < count b used
  pub bitmap : IsBitmap s.bitmap
  pub same_begin : s.bitmap.heap_begin ≡ s.space.block_allocator.mmap.start
  pub covers_all :
      s.space.block_allocator.mmap.finish ≤ s.bitmap.heap_begin + length s.bitmap.words * 1024

-- A block of the mapping that is handed to nobody but the allocators of the space.
abbrev pub InMapping : ImmixSpace → ℕ → Type 0
InMapping s b =
    (b % 32768 ≡ 0)
    × (s.space.block_allocator.mmap.start ≤ b)
    × (b + 32768 ≤ s.space.block_allocator.mmap.finish)

module _ {s : ImmixSpace} {used : List ℕ} (v : IsImmixSpace s used) where
  abbrev ba_valid : IsValid s.space.block_allocator s.space.memory used
  ba_valid = v.normal.allocator

  used-InMapping : (b : ℕ) → 0 < count b used → InMapping s b
  unfolding Mmap.aligned
  used-InMapping b h =
      let ba = s.space.block_allocator in
      elim (Bool-cases (built (Mmap.aligned ba.mmap) ba.data_next b)) [
        | inl is ↦ (
          ground (arith, is),
          ground (arith, is),
          ground (arith, is, ba_valid.next_aligned, ba_valid.in_bound, ba_valid.bound_is_end),
        )
        | inr isnt ↦ absurd (ground (arith, isnt, ba_valid.once b))
      ]

  unused-InMapping : (b : ℕ) → IsUnused s.space used b → InMapping s b
  unfolding Mmap.aligned
  unused-InMapping b h = (h.1, omega (arith, h.2), omega (arith, h.3, ba_valid.bound_is_end))

  normal-InMapping : (b : ℕ) → Normal.MayTake s.space used b → InMapping s b
  normal-InMapping b (inl h) = used-InMapping b (v.holds_used b (omega arith))
  normal-InMapping b (inr h) = unused-InMapping b h

  overflow-InMapping : (b : ℕ) → Overflow.MayTake s.space used b → InMapping s b
  overflow-InMapping b (inl h) = used-InMapping b (v.holds_used b (omega arith))
  overflow-InMapping b (inr h) = unused-InMapping b h

-- An object in a block of the mapping gets its bit.
pub set_new_object :
    (s : ImmixSpace) (t : Space) (b low : ℕ)
    → IsBitmap s.bitmap
    → s.bitmap.heap_begin ≡ s.space.block_allocator.mmap.start
    → s.space.block_allocator.mmap.finish ≤ s.bitmap.heap_begin + length s.bitmap.words * 1024
    → InMapping s b
    → low < 32768
    → (m : SpaceBitmap) × (set_gc_object (record s { space = t }) (b + low)
        ≡ some (record s { space = t; bitmap = m }))
      × Changed s.bitmap m ((b + low - s.bitmap.heap_begin) / 16) true
set_new_object s t b low v begin covers inside h =
    let off = b + low - s.bitmap.heap_begin in
    let covered : Covers s.bitmap off = omega (arith, inside.1, inside.2) in
    let place : s.bitmap.heap_begin + off ≡ b + low = omega (arith, inside.1) in
    let (m, e, c) = set_gc_object-Changed (record s { space = t }) off v covered in
    (
      m,
      subst
          (λ a.
            set_gc_object (record s { space = t }) a ≡ some (record s { space = t; bitmap = m }))
          place e,
      c,
    )

-- The result of `allocate`.
pub data Allocated (size : ℕ) (s : ImmixSpace) (r : Option (ImmixSpace × ℕ)) : Type 0 where
  allocated :
      (s' : ImmixSpace) (tp : BlockTuple)
      → r ≡ some (s', tp.block + tp.low)
      → Usable s'.space.memory tp
      → tp.low + size ≤ tp.high
      → InMapping s tp.block
      → Usable s'.space.memory (advance tp size)
      → (if ltb size 128 then current_normal s'.space else current_overflow s'.space)
        ≡ some (advance tp size)
      → Changed s.bitmap s'.bitmap ((tp.block + tp.low - s.bitmap.heap_begin) / 16) true
      → s'.space.evac ≡ s.space.evac
      → Allocated size s r
  null :
      (s' : ImmixSpace)
      → r ≡ some (s', 0)
      → NoBlockLeft s.space s'.space
      → s'.bitmap ≡ s.bitmap
      → Allocated size s r

module _ (size : ℕ) (s : ImmixSpace) (used : List ℕ) (v : IsImmixSpace s used) where
  -- What `allocate` does with the address of an allocator.
  abbrev mark_object : Space × ℕ → Option (ImmixSpace × ℕ)
  mark_object (space, ptr) =
      let s' : ImmixSpace = record s { space = space } in
      if ptr == 0 then some (s', 0) else (set_gc_object s' ptr >>= λ s''. some (s'', ptr))

  mark_object_lem :
      {From : ℕ → Type 0} {Frame : Space → Type 0} (current : Space → Option BlockTuple)
      (r : Option (Space × ℕ))
      → ((t : Space) → (if ltb size 128 then current_normal t else current_overflow t) ≡ current t)
      → ((b : ℕ) → From b → InMapping s b)
      → ((t : Space) → Frame t → t.evac ≡ s.space.evac)
      → Placed current size From Frame (NoBlockLeft s.space) r
      → Allocated size s (r >>= mark_object)
  mark_object_lem current r which inside frame (placed t tp e u room c u' from f) =
      let place = inside tp.block from in
      let (m, set, changed) =
        set_new_object s t tp.block tp.low v.bitmap v.same_begin v.covers_all place
          (omega (arith, u.ordered, u.inside)) in
      let not_null : (tp.block + tp.low == 0) ≡ false = ground (arith, u.past_header) in
      allocated (record s { space = t; bitmap = m }) tp (rw (e, not_null, set) refl) u room place u'
        (which t ∙ c) changed (frame t f)
  mark_object_lem current r which inside frame (no_room t e left) =
      null (record s { space = t }) (rw e refl) left refl

pub allocate_lem :
    (size : ℕ) (s : ImmixSpace) (used : List ℕ)
    → size % 16 ≡ 0
    → size ≤ 32639
    → IsImmixSpace s used
    → Allocated size s (allocate s size)
unfolding allocate
allocate_lem size s used whole small v = elim (Bool-cases (ltb size 128)) [
  | inl less ↦ rw less (
      mark_object_lem size s used v current_normal (allocate_with normal_ops size s.space)
        (λ t. rw less) (normal-InMapping v) (λ t f. f.1)
        (allocate_normal size s.space used whole small v.normal))
  | inr more ↦ rw more (
      mark_object_lem size s used v current_overflow (allocate_with overflow_ops size s.space)
        (λ t. rw more) (overflow-InMapping v) (λ t f. f.1)
        (allocate_overflow size s.space used whole small v.overflow))
]
