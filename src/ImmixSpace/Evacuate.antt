-- ===== src/ImmixSpace/Evacuate.antt =====
-- `maybe_evacuate`: when an object moves, and where to.
use libimmixcons.Base.{
  ℕ, ◌+◌, ◌-◌, ◌*◌, ◌/◌, ◌≤◌, ◌<◌, ◌≡◌, Bool, true, false, not, ◌&&◌, Option, none, some, ◌==◌,
  if◌then◌else◌, ◌>>=◌, length,
}
use libimmixcons.Align.{align_usize}
use libimmixcons.Object
use libimmixcons.Block
use libimmixcons.SpaceBitmap.Granules.{IsBitmap, Changed}
use libimmixcons.Allocation.Scan.{BlockTuple}
use libimmixcons.Allocation.Allocator.{allocate as allocate_with}
use libimmixcons.Allocation.Allocators.{Space}
use libimmixcons.Allocation.Hole.{Usable, advance}
use libimmixcons.Allocation.Evac.{IsEvacSpace, MayTake, OnlyEvac, NoHeadroom}
use libimmixcons.ImmixSpace.{ImmixSpace, copy_bytes, set_gc_object}
use libimmixcons.ImmixSpace.Allocated.{InMapping}

-- The blocks for evacuation are in order and in the mapping, every 16 bytes of which have a bit.
pub record CanEvacuate (s : ImmixSpace) : Type 0 where
  pub evac : IsEvacSpace s.space
  pub inside : (b : ℕ) → MayTake s.space b → InMapping s b
  pub bitmap : IsBitmap s.bitmap
  pub same_begin : s.bitmap.heap_begin ≡ s.space.block_allocator.mmap.start
  pub covers_all :
      s.space.block_allocator.mmap.finish ≤ s.bitmap.heap_begin + length s.bitmap.words * 1024

-- The object at the address may move: it is not pinned, and its block is a candidate.
abbrev pub may_move : ImmixSpace → ℕ → Bool → Bool
may_move s addr pinned =
    not pinned && (s.space.memory (Block.get_block_ptr addr)).evacuation_candidate

-- `size` bytes at `dst` are those that were at `src`, and no other byte is changed.
pub record Copied (bytes bytes' : ℕ → ℕ) (src dst size : ℕ) : Type 0 where
  pub same_bytes : (i : ℕ) → i < size → bytes' (dst + i) ≡ bytes (src + i)
  pub below : (a : ℕ) → a < dst → bytes' a ≡ bytes a
  pub behind : (a : ℕ) → dst + size ≤ a → bytes' a ≡ bytes a

-- The result of `maybe_evacuate` for an object of `size` bytes at `addr` that may move or not.
pub data Evacuated (may : Bool) (size addr : ℕ) (bytes : ℕ → ℕ) (s : ImmixSpace)
    (r : Option (ImmixSpace × (ℕ → ℕ) × Option ℕ)) : Type 0 where
  stays : may ≡ false → r ≡ some (s, bytes, none) → Evacuated may size addr bytes s r
  moves :
      may ≡ true
      → (s' : ImmixSpace) (bytes' : ℕ → ℕ) (tp : BlockTuple)
      → r ≡ some (s', bytes', some (tp.block + tp.low))
      → Copied bytes bytes' addr (tp.block + tp.low) size
      → Usable s'.space.memory tp
      → tp.low + align_usize size 16 ≤ tp.high
      → MayTake s.space tp.block
      → s'.space.evac.current_block ≡ some (advance tp (align_usize size 16))
      → Usable s'.space.memory (advance tp (align_usize size 16))
      → Changed s.bitmap s'.bitmap ((tp.block + tp.low - s.bitmap.heap_begin) / 16) true
      → OnlyEvac s.space s'.space
      → Evacuated may size addr bytes s r
  no_headroom :
      may ≡ true
      → (s' : ImmixSpace) → r ≡ some (s', bytes, none)
      → NoHeadroom s.space s'.space
      → s'.bitmap ≡ s.bitmap
      → Evacuated may size addr bytes s r

module _ (s : ImmixSpace) (size addr : ℕ) (bytes : ℕ → ℕ) (v : CanEvacuate s) where
  abbrev copy_object : Space × ℕ → Option (ImmixSpace × (ℕ → ℕ) × Option ℕ)
  copy_object (space, new_object) =
      let s' : ImmixSpace = record s { space = space } in
      if new_object == 0
      then some (s', bytes, none)
      else (set_gc_object s' new_object >>= λ s''.
          some (s'', copy_bytes addr new_object size bytes, some new_object))
