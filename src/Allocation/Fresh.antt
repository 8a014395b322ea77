-- ===== src/Allocation/Fresh.antt =====
-- The blocks that `get_new_block` of the normal and the overflow allocator brings.
use libimmixcons.Base.{ℕ, ◌+◌, ◌%◌, ◌≤◌, ◌<◌, ◌≡◌, refl, ap, List, [], ◌==◌, arith, true, count}
use libimmixcons.LineMap.Laws.{new-IsLineMap, marked-new}
use libimmixcons.Block
use libimmixcons.BlockAllocator.Mmap
use libimmixcons.BlockAllocator.{Memory, BlockAllocator}
use libimmixcons.BlockAllocator.Inv.{IsValid, exhausted, block, get_block-Got}
use libimmixcons.Allocation.Allocators.{Space, get_new_block, whole_block, set_allocated}
use libimmixcons.Allocation.Hole.{Usable}
use libimmixcons.Allocation.Place.{Sought, has, lacks}

-- A block that the block allocator hands out is free from its second line to its end.
whole_block-Usable :
    (memory : Memory) (b : ℕ)
    → memory b ≡ Block.new b
    → b % 32768 ≡ 0
    → Usable (set_allocated memory b) (whole_block b)
unfolding Block.new
whole_block-Usable memory b e aligned =
    let self : (b == b) ≡ true = ground arith in
    let h : set_allocated memory b b ≡ record (Block.new b) { allocated = true } =
      rw (self, e) refl in
    record {
      valid = rw h (record { lines = new-IsLineMap; aligned = aligned });
      begins = ap (λ k. k.begin) h;
      low_aligned = refl;
      past_header = omega arith;
      ordered = omega arith;
      inside = omega arith;
      edge = refl;
      free = λ j p q. rw h (marked-new j);
    }

-- Neither the free list nor the mapping has a block.
abbrev pub NoBlockLeft : Space → Space → Type 0
NoBlockLeft s t =
    (s.block_allocator.free_blocks ≡ [])
    × (s.block_allocator.data_bound < s.block_allocator.data_next + 32768)

-- A block of the mapping that is not in use.
abbrev pub IsUnused : Space → List ℕ → ℕ → Type 0
IsUnused s used b =
    (count b used ≡ 0)
    × (b % 32768 ≡ 0)
    × (Mmap.aligned s.block_allocator.mmap ≤ b)
    × (b + 32768 ≤ s.block_allocator.data_bound)

pub get_new_block_lem :
    {size : ℕ} (s : Space) (used : List ℕ) (From : ℕ → Type 0) (Frame : Space → Type 0) (t : Space)
    → size ≤ 32639
    → IsValid s.block_allocator s.memory used
    → t.memory ≡ s.memory
    → t.block_allocator ≡ s.block_allocator
    → ((b : ℕ) → IsUnused s used b → From b)
    → ((ba : BlockAllocator) (memory : Memory)
        → Frame (record t { block_allocator = ba; memory = memory }))
    → Sought size From Frame (NoBlockLeft s) (get_new_block t)
unfolding get_new_block
get_new_block_lem s used From Frame t small v m a from frame =
    let v' : IsValid t.block_allocator t.memory used = rw (m, a) v in
    elim (get_block-Got v') [
      | exhausted e free full ↦
          lacks (record t { block_allocator = t.block_allocator; memory = t.memory }) (rw e refl)
            (rw a at free, rw a at full)
      | block ba memory b e v'' mmap unused aligned above room others header ↦
          has (record t { block_allocator = ba; memory = set_allocated memory b }) (whole_block b)
            (rw e refl) (whole_block-Usable memory b header aligned) (omega arith)
            (from b (unused, aligned, rw (← a) above, rw (← a) room))
            (frame ba (set_allocated memory b))
    ]
