-- ===== src/LargeObjectSpace/PreciseAllocation.antt =====
-- `PreciseAllocation` of src/large_object_space.rs: the header in front of each large object. A
-- pointer is its address; an operation on `&self` takes the address and the header there. `malloc`
-- is the crate's `LibcAlloc`, from size and alignment to the address of the memory or a failure.
pub mod Cell
mod Tests
use libimmixcons.Base.{
  ℕ, ◌+◌, ◌-◌, ◌*◌, ◌/◌, ◌^◌, Bool, true, false, not, ◌&&◌, Option, none, some, ◌==◌, ltb, leb,
  if◌then◌else◌, ◌>>=◌, bit_and, bit_or, bit_not, checked_sub, push, List,
}
use libimmixcons.Object.{debug_assert}

pub record PreciseAllocation : Type 0 where
  pub cell_size : ℕ
  pub is_marked : Bool
  pub index_in_space : ℕ
  pub adjusted_alignment : Bool
  pub has_valid_cell : Bool

-- 8 + 1 + 3 (padding) + 4 + 1 + 1 + 6 (padding) bytes.
abbrev pub size_of_PreciseAllocation : ℕ
size_of_PreciseAllocation = 24

abbrev pub alignment : ℕ
alignment = 16

abbrev pub half_alignment : ℕ
half_alignment = alignment / 2

pub header_size : ℕ
header_size =
    bit_or (bit_and (size_of_PreciseAllocation + half_alignment - 1) (bit_not (half_alignment - 1)))
      half_alignment

pub is_precise : ℕ → Bool
is_precise raw_ptr = not (bit_and raw_ptr half_alignment == 0)

pub from_cell : ℕ → Option ℕ
from_cell ptr = checked_sub ptr header_size

pub base_pointer : ℕ → PreciseAllocation → ℕ
base_pointer at p = if p.adjusted_alignment then at - half_alignment else at

pub clear_marked : PreciseAllocation → PreciseAllocation
clear_marked p = record p { is_marked = false }

-- The header, and whether it was marked.
pub test_and_set_marked : PreciseAllocation → PreciseAllocation × Bool
test_and_set_marked p = if p.is_marked then (p, true) else (record p { is_marked = true }, false)

pub cell : ℕ → ℕ
cell at = at + header_size

pub above_lower_bound : ℕ → ℕ → Bool
above_lower_bound at raw_ptr = leb (cell at) raw_ptr

pub below_upper_bound : ℕ → PreciseAllocation → ℕ → Bool
below_upper_bound at p raw_ptr = let end = cell at + p.cell_size in leb raw_ptr (end + 8)

pub contains : ℕ → PreciseAllocation → ℕ → Bool
contains at p raw_ptr = above_lower_bound at raw_ptr && below_upper_bound at p raw_ptr

pub is_live : PreciseAllocation → Bool
is_live p = p.is_marked

pub flip : PreciseAllocation → PreciseAllocation
unfolding clear_marked
flip p = clear_marked p

pub is_empty : PreciseAllocation → Bool
is_empty p = not p.is_marked

-- The header, the cells whose finalizers have run, and whether the allocation stays. The second
-- argument says which objects have a finalizer in their run-time type.
pub sweep : ℕ → (ℕ → Bool) → PreciseAllocation → List ℕ → PreciseAllocation × List ℕ × Bool
sweep at finalizer p finalized =
    if p.has_valid_cell && not (is_live p)
    then (
      record p { has_valid_cell = false },
      if finalizer (cell at) then push finalized (cell at) else finalized,
      false,
    )
    else (p, finalized, true)

-- `Layout::from_size_align`, which refuses a size above `isize::MAX` after padding.
abbrev pub layout : ℕ → ℕ → Option (ℕ × ℕ)
layout size align = if leb (size + align - 1) (2 ^ 63 - 1) then some (size, align) else none

pub is_aligned_for_precise_allocation : ℕ → Bool
is_aligned_for_precise_allocation mem = bit_and mem (alignment - 1) == 0

pub try_create : (ℕ × ℕ → Option ℕ) → ℕ → ℕ → Option (ℕ × PreciseAllocation)
try_create malloc size index_in_space = do
  l ← layout (header_size + size + half_alignment) half_alignment
  space ← malloc l
  let adjusted_alignment = not (is_aligned_for_precise_allocation space)
  let space' = if adjusted_alignment then space + half_alignment else space
  aligned ← debug_assert (is_aligned_for_precise_allocation space')
  sized ← debug_assert (not (size == 0))
  precise ← debug_assert (is_precise (cell space'))
  some (
    space',
    record {
      cell_size = size;
      is_marked = false;
      index_in_space = index_in_space;
      adjusted_alignment = adjusted_alignment;
      has_valid_cell = true;
    },
  )

-- The memory given back: its address, and the layout.
pub destroy : ℕ → PreciseAllocation → Option (ℕ × ℕ × ℕ)
destroy at p = do
  (size, align) ← layout (header_size + p.cell_size + half_alignment) alignment
  some (base_pointer at p, size, align)
