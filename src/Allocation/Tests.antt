-- ===== src/Allocation/Tests.antt =====
-- Runs from a hole of a block at 65536 whose lines 1, 2 and 3 are marked.
use libimmixcons.Base.{ℕ, refl, none, List, [], ◌∷◌, arith}
use libimmixcons.Allocation.Allocators.{Space}
use libimmixcons.Allocation.Normal.{IsSpace}
use libimmixcons.Block
use libimmixcons.LineMap.Laws.{new-IsLineMap}
use libimmixcons.BlockAllocator.Mmap
use libimmixcons.BlockAllocator.Inv.{IsValid}
use libimmixcons.Block.Examples.{clean_block, clean_block-IsBlock, clean_line}
use libimmixcons.BlockAllocator.{Memory, BlockAllocator}
use libimmixcons.Allocation.Scan.{BlockTuple, scan_for_hole}
use libimmixcons.Allocation.Hole.{Usable, HoleFound, scan_for_hole_lem}

abbrev one_block : Memory
one_block b = clean_block

abbrev lines_5_to_8 : BlockTuple
lines_5_to_8 = record { block = 65536; low = 640; high = 1151 }

lines_5_to_8-Usable : Usable one_block lines_5_to_8
lines_5_to_8-Usable = record {
  valid = clean_block-IsBlock;
  begins = refl;
  low_aligned = refl;
  past_header = omega arith;
  ordered = omega arith;
  inside = omega arith;
  edge = refl;
  free = λ j p q. clean_line j;
}

-- The witnesses.
scan_for_hole_lem_example :
    HoleFound
      (λ (full : List ℕ). one_block)
      (λ full b. b ∷ full)
      1024
      lines_5_to_8
      []
      (scan_for_hole (λ (full : List ℕ). one_block) (λ full b. b ∷ full) 1024 lines_5_to_8 [])
scan_for_hole_lem_example =
    scan_for_hole_lem (λ full. one_block) (λ full b. b ∷ full) 1024 [] lines_5_to_8
      lines_5_to_8-Usable

-- A space with one block to recycle.
abbrev recycling : Space
recycling = record {
  block_allocator = record {
    free_blocks = [];
    data_bound = 131072;
    data_next = 98304;
    mmap = record { start = 61440; finish = 131072; size = 65536 };
  };
  memory = one_block;
  normal = record {
    unavailable_blocks = 98304 ∷ [];
    recyclable_blocks = 65536 ∷ [];
    current_block = none;
  };
  overflow = record { unavailable_blocks = []; current_block = none };
  evac = record { unavailable_blocks = []; evac_headroom = []; current_block = none };
}

-- A space with one block in use, which is to be recycled.
abbrev one_used : BlockAllocator
one_used = record {
  free_blocks = [];
  data_bound = 196072;
  data_next = 98304;
  mmap = record { start = 65000; finish = 196072; size = 131072 };
}

abbrev fresh_space : Space
fresh_space = record {
  block_allocator = one_used;
  memory = Block.new;
  normal = record { unavailable_blocks = []; recyclable_blocks = 65536 ∷ []; current_block = none };
  overflow = record { unavailable_blocks = []; current_block = none };
  evac = record { unavailable_blocks = []; evac_headroom = []; current_block = none };
}

one_used-IsValid : IsValid one_used Block.new (65536 ∷ [])
unfolding Mmap.aligned
one_used-IsValid = record {
  base_aligned = refl;
  next_aligned = refl;
  above_base = omega arith;
  in_bound = omega arith;
  bound_is_end = refl;
  once = λ b. ground arith;
  all_counted = refl;
  untouched = λ b h. refl;
}

fresh_space-IsSpace : IsSpace fresh_space (65536 ∷ [])
unfolding Block.new
fresh_space-IsSpace = record {
  allocator = one_used-IsValid;
  headers = λ b h. (record { lines = new-IsLineMap; aligned = ground arith }, refl);
  current = λ tp e. cc;
}
