-- ===== src/Allocation/Allocators.antt =====
-- The three implementations of `Allocator`, over the state of one `ImmixSpace`.
use libimmixcons.Base.{
  ℕ, zero, suc, ◌-◌, true, Option, none, some, List, [], ◌∷◌, ◌++◌, leb, if◌then◌else◌, ◌>>=◌,
  length, push, pop,
}
use libimmixcons.Constants.{line_size, block_size}
use libimmixcons.Block
use libimmixcons.Block.{ImmixBlock, u16, size_of_ImmixBlock}
use libimmixcons.BlockAllocator
use libimmixcons.BlockAllocator.{Memory, write, BlockAllocator}
use libimmixcons.Allocation.Scan.{BlockTuple, scan_for_hole}
use libimmixcons.Allocation.Allocator.{AllocatorOps, or_else}

pub record NormalAllocator : Type 0 where
  pub unavailable_blocks : List ℕ
  pub recyclable_blocks : List ℕ
  pub current_block : Option BlockTuple

pub record OverflowAllocator : Type 0 where
  pub unavailable_blocks : List ℕ
  pub current_block : Option BlockTuple

pub record EvacAllocator : Type 0 where
  pub unavailable_blocks : List ℕ
  pub evac_headroom : List ℕ
  pub current_block : Option BlockTuple

-- `ImmixSpace` without its bitmap and live mark, with the memory that its pointers lead to.
pub record Space : Type 0 where
  pub block_allocator : BlockAllocator
  pub memory : Memory
  pub normal : NormalAllocator
  pub overflow : OverflowAllocator
  pub evac : EvacAllocator

-- `new` of the three allocators.
unfoldable pub new_normal : NormalAllocator
new_normal = record { unavailable_blocks = []; recyclable_blocks = []; current_block = none }

unfoldable pub new_overflow : OverflowAllocator
new_overflow = record { unavailable_blocks = []; current_block = none }

unfoldable pub new_evac : EvacAllocator
new_evac = record { unavailable_blocks = []; evac_headroom = []; current_block = none }

abbrev pub block_of : Option BlockTuple → List ℕ
block_of none = []
block_of (some tp) = tp.block ∷ []

-- `(*block).allocated = true`.
abbrev pub set_allocated : Memory → ℕ → Memory
set_allocated memory block = write memory block (record (memory block) { allocated = true })

abbrev pub whole_block : ℕ → BlockTuple
whole_block block = record { block = block; low = u16 line_size; high = u16 (block_size - 1) }

-- `get_new_block` of the normal and the overflow allocator.
unfoldable pub get_new_block : Space → Option (Space × Option BlockTuple)
get_new_block s = do
  (ba, memory, found) ← BlockAllocator.get_block s.block_allocator s.memory
  elim found [
    | none ↦ some (record s { block_allocator = ba; memory = memory }, none)
    | some block ↦ some (
      record s { block_allocator = ba; memory = set_allocated memory block },
      some (whole_block block),
    )
  ]

-- The methods of `NormalAllocator`.
unfoldable pub normal_full : Space → ℕ → Space
normal_full s block = record s {
  normal = record (s.normal) { unavailable_blocks = push s.normal.unavailable_blocks block };
}

-- `handle_no_hole` calls itself once for each recyclable block; the first argument is fuel.
unfoldable pub normal_no_hole_from : ℕ → Space → ℕ → Option (Space × Option BlockTuple)
normal_no_hole_from zero s size = none
normal_no_hole_from (suc fuel) s size =
    if leb line_size size then some (s, none) else elim (pop s.normal.recyclable_blocks) [
      | none ↦ some (s, none)
      | some (rest, block) ↦
          let s₁ : Space = record s { normal = record (s.normal) { recyclable_blocks = rest } } in
          Block.scan_block (s₁.memory block) (u16 (size_of_ImmixBlock - 1)) >>= λ found.
          elim found [
            | none ↦ normal_no_hole_from fuel (normal_full s₁ block) size
            | some (low, high) ↦
                if leb size_of_ImmixBlock low
                then (scan_for_hole (λ t. t.memory) normal_full size
                      (record { block = block; low = low; high = high }) s₁
                    >>= λ r. or_else r (λ s₂. normal_no_hole_from fuel s₂ size))
                else none
          ]
    ]

unfoldable pub normal_no_hole : Space → ℕ → Option (Space × Option BlockTuple)
normal_no_hole s size = normal_no_hole_from (suc (length s.normal.recyclable_blocks)) s size

abbrev pub normal_ops : AllocatorOps Space
normal_ops = record {
  memory = λ s. s.memory;
  get_all_blocks = λ s. (
    record s {
      normal = record { unavailable_blocks = []; recyclable_blocks = []; current_block = none };
    },
    s.normal.unavailable_blocks ++ (s.normal.recyclable_blocks ++ block_of s.normal.current_block),
  );
  take_current_block = λ s.
      (record s { normal = record (s.normal) { current_block = none } }, s.normal.current_block);
  put_current_block = λ s tp. record s { normal = record (s.normal) { current_block = some tp } };
  get_new_block = get_new_block;
  handle_no_hole = normal_no_hole;
  handle_full_block = normal_full;
}

-- The methods of `OverflowAllocator`.
unfoldable pub overflow_full : Space → ℕ → Space
overflow_full s block = record s {
  overflow = record (s.overflow) { unavailable_blocks = push s.overflow.unavailable_blocks block };
}

abbrev pub overflow_ops : AllocatorOps Space
overflow_ops = record {
  memory = λ s. s.memory;
  get_all_blocks = λ s. (
    record s { overflow = record { unavailable_blocks = []; current_block = none } },
    s.overflow.unavailable_blocks ++ block_of s.overflow.current_block,
  );
  take_current_block = λ s. (
    record s { overflow = record (s.overflow) { current_block = none } },
    s.overflow.current_block,
  );
  put_current_block =
      λ s tp. record s { overflow = record (s.overflow) { current_block = some tp } };
  get_new_block = get_new_block;
  handle_no_hole = λ s size. some (s, none);
  handle_full_block = overflow_full;
}

-- The methods of `EvacAllocator`.
unfoldable pub evac_new_block : Space → Option (Space × Option BlockTuple)
evac_new_block s = elim (pop s.evac.evac_headroom) [
  | none ↦ some (s, none)
  | some (rest, block) ↦ some (
    record s {
      evac = record (s.evac) { evac_headroom = rest };
      memory = set_allocated s.memory block;
    },
    some (whole_block block),
  )
]

unfoldable pub evac_full : Space → ℕ → Space
evac_full s block = record s {
  evac = record (s.evac) { unavailable_blocks = push s.evac.unavailable_blocks block };
}

abbrev pub evac_ops : AllocatorOps Space
evac_ops = record {
  memory = λ s. s.memory;
  get_all_blocks = λ s. (
    record s { evac = record (s.evac) { unavailable_blocks = []; current_block = none } },
    s.evac.unavailable_blocks ++ block_of s.evac.current_block,
  );
  take_current_block =
      λ s. (record s { evac = record (s.evac) { current_block = none } }, s.evac.current_block);
  put_current_block = λ s tp. record s { evac = record (s.evac) { current_block = some tp } };
  get_new_block = evac_new_block;
  handle_no_hole = λ s size. some (s, none);
  handle_full_block = evac_full;
}

unfoldable pub extend_evac_headroom : Space → List ℕ → Space
extend_evac_headroom s blocks = record s {
  evac = record (s.evac) { evac_headroom = s.evac.evac_headroom ++ blocks };
}

unfoldable pub evac_headroom : Space → ℕ
evac_headroom s = length s.evac.evac_headroom
