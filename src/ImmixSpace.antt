-- ===== src/ImmixSpace.antt =====
-- `ImmixSpace` of src/allocation.rs: the allocators of Allocation, with the bitmap of objects.
pub mod Filter
pub mod Known
pub mod Drain
pub mod Allocated
pub mod Evacuate
pub mod Fresh
mod Tests
use libimmixcons.Base.{
  ℕ, ◌%◌, Bool, true, false, not, ◌||◌, Option, none, some, List, ◌++◌, ◌==◌, ltb, if◌then◌else◌,
  ◌>>=◌, leb, ◌&&◌, ◌+◌, ◌-◌,
}
use libimmixcons.Constants.{medium_object}
use libimmixcons.Align.{align_usize}
use libimmixcons.Object
use libimmixcons.Object.{RawGc}
use libimmixcons.Block
use libimmixcons.BlockAllocator
use libimmixcons.SpaceBitmap
use libimmixcons.SpaceBitmap.{SpaceBitmap}
use libimmixcons.Allocation.Allocator.{allocate as allocate_with}
use libimmixcons.Allocation.Allocators.{
  Space, new_normal, new_overflow, new_evac, normal_ops, overflow_ops, evac_ops,
}

pub record ImmixSpace : Type 0 where
  pub space : Space
  pub bitmap : SpaceBitmap
  pub current_live_mark : Bool

-- `new`: the headers in the fresh mapping read as zeros.
unfoldable pub new : (ℕ → Option ℕ) → ℕ → Option ImmixSpace
unfolding new_normal new_overflow new_evac
new mmap heap_size = do
  block_allocator ← BlockAllocator.new mmap heap_size
  some (record {
    space = record {
      block_allocator = block_allocator;
      memory = Block.new;
      normal = new_normal;
      overflow = new_overflow;
      evac = new_evac;
    };
    bitmap = SpaceBitmap.create block_allocator.mmap.start heap_size;
    current_live_mark = false;
  })

unfoldable pub filter_fast : ImmixSpace → ℕ → Bool
filter_fast s addr = BlockAllocator.is_in_space s.space.block_allocator addr

-- The inner `Option` is the code's.
unfoldable pub filter : ImmixSpace → ℕ → Option (Option ℕ)
filter s addr =
    if not (addr % 16 == 0)
    then some none
    else if BlockAllocator.is_in_space s.space.block_allocator addr
    then (SpaceBitmap.test s.bitmap addr >>= λ is_object.
        some (if is_object then some addr else none))
    else some none

pub set_gc_object : ImmixSpace → ℕ → Option ImmixSpace
set_gc_object s object = do
  bitmap ← SpaceBitmap.set s.bitmap object
  some (record s { bitmap = bitmap })

pub unset_gc_object : ImmixSpace → ℕ → Option ImmixSpace
unset_gc_object s object = do
  bitmap ← SpaceBitmap.clear s.bitmap object
  some (record s { bitmap = bitmap })

pub set_current_live_mark : ImmixSpace → Bool → ImmixSpace
set_current_live_mark s mark = record s { current_live_mark = mark }

unfoldable pub set_recyclable_blocks : ImmixSpace → List ℕ → ImmixSpace
set_recyclable_blocks s blocks = record s {
  space = record (s.space) { normal = record (s.space.normal) { recyclable_blocks = blocks } };
}

pub get_all_blocks : ImmixSpace → ImmixSpace × List ℕ
get_all_blocks s =
    let (s₁, normal_blocks) = normal_ops.get_all_blocks s.space in
    let (s₂, overflow_blocks) = overflow_ops.get_all_blocks s₁ in
    let (s₃, evac_blocks) = evac_ops.get_all_blocks s₂ in
    (record s { space = s₃ }, normal_blocks ++ (overflow_blocks ++ evac_blocks))

-- The address is 0 if there is no room.
pub allocate : ImmixSpace → ℕ → Option (ImmixSpace × ℕ)
allocate s size = do
  (space, ptr) ←
      if ltb size medium_object
      then allocate_with normal_ops size s.space
      else allocate_with overflow_ops size s.space
  let s' : ImmixSpace = record s { space = space }
  if ptr == 0 then some (s', 0) else (set_gc_object s' ptr >>= λ s''. some (s'', ptr))

-- `copy_nonoverlapping` on bytes.
unfoldable pub copy_bytes : ℕ → ℕ → ℕ → (ℕ → ℕ) → ℕ → ℕ
copy_bytes src dst count bytes a =
    if leb dst a && ltb a (dst + count) then bytes (src + (a - dst)) else bytes a

-- The object's header and size are arguments, and the memory with its `copy_nonoverlapping`, from an
-- address to another for a number of bytes.
unfoldable pub maybe_evacuate {ℓ} :
    {X : Type ℓ}
    → (ℕ → ℕ → ℕ → X → X)
    → ImmixSpace
    → X
    → ℕ
    → RawGc
    → ℕ
    → Option (ImmixSpace × X × Option ℕ)
maybe_evacuate copy s memory addr object object_size = do
  is_pinned ← Object.is_pinned object
  let is_candidate = (s.space.memory (Block.get_block_ptr addr)).evacuation_candidate
  if is_pinned || not is_candidate
      then some (s, memory, none)
      else (allocate_with evac_ops (align_usize object_size 16) s.space >>= λ (space, new_object).
          let s' : ImmixSpace = record s { space = space } in
          if new_object == 0
          then some (s', memory, none)
          else (set_gc_object s' new_object >>= λ s''.
              some (s'', copy addr new_object object_size memory, some new_object)))
