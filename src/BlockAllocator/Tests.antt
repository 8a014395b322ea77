-- ===== src/BlockAllocator/Tests.antt =====
-- Runs of the block allocator over a mapping of 128 KiB at 65000, with one block in use.
use libimmixcons.Base.{ℕ, ◌+◌, ◌<◌, ◌≡◌, refl, List, [], ◌∷◌, arith, count}
use libimmixcons.Block
use libimmixcons.BlockAllocator.{new, BlockAllocator, get_block, return_blocks}
use libimmixcons.BlockAllocator.Mmap
use libimmixcons.BlockAllocator.Inv.{IsValid, Got, get_block-Got, return_blocks-IsValid}

abbrev one_used : BlockAllocator
one_used = record {
  free_blocks = [];
  data_bound = 196072;
  data_next = 98304;
  mmap = record { start = 65000; finish = 196072; size = 131072 };
}

abbrev used_blocks : List ℕ
used_blocks = 65536 ∷ []

one_used-IsValid : IsValid one_used Block.new used_blocks
unfolding Mmap.aligned
one_used-IsValid = record {
  base_aligned = refl;
  next_aligned = refl;
  above_base = omega arith;
  in_bound = omega arith;
  bound_is_end = refl;
  once = λ b. ground arith;
  all_counted = refl;
  untouched = λ b h. refl;
}

-- The witnesses.
get_block-Got_example : Got one_used Block.new used_blocks (get_block one_used Block.new)
get_block-Got_example = get_block-Got one_used-IsValid

return_blocks-IsValid_example :
    let (s', memory') = return_blocks one_used Block.new used_blocks in
    IsValid s' memory' []
    × (s'.mmap ≡ one_used.mmap)
    × (s'.data_next ≡ 98304)
    × ((b : ℕ) → count b s'.free_blocks ≡ 0 + count b used_blocks)
    × ((b : ℕ) → count b used_blocks ≡ 0 → memory' b ≡ Block.new b)
    × ((b : ℕ) → 0 < count b used_blocks → memory' b ≡ Block.new b)
return_blocks-IsValid_example = return_blocks-IsValid used_blocks [] one_used-IsValid
