-- ===== src/ImmixSpace/Tests.antt =====
-- Runs of a space at 61440 whose first 8 KiB have a bitmap.
use libimmixcons.Base.{
  ℕ, ◌≡◌, true, refl, false, none, some, [], ◌∷◌, arith, count, replicate, get_or-replicate,
}
use libimmixcons.Block
use libimmixcons.BlockAllocator
use libimmixcons.SpaceBitmap.Granules.{IsBitmap, marked}
use libimmixcons.ImmixSpace.{ImmixSpace, get_all_blocks, new}
use libimmixcons.ImmixSpace.Allocated.{IsImmixSpace, Allocated}
use libimmixcons.ImmixSpace.Evacuate.{CanEvacuate}
use libimmixcons.ImmixSpace.Fresh.{new-IsImmixSpace}
use libimmixcons.Allocation.Allocators.{new_normal, new_overflow}
use libimmixcons.Object
use libimmixcons.TaggedPointer
use libimmixcons.Object.{RawGc}
use libimmixcons.Block.{ImmixBlock}
use libimmixcons.BlockAllocator.{write}
use libimmixcons.ImmixSpace.Filter.{IsPlace}
use libimmixcons.ImmixSpace.Drain.{held, get_all_blocks_lem}

abbrev small_space : ImmixSpace
small_space = record {
  space = record {
    block_allocator = record {
      free_blocks = [];
      data_bound = 192512;
      data_next = 131072;
      mmap = record { start = 61440; finish = 192512; size = 131072 };
    };
    memory = Block.new;
    normal = record {
      unavailable_blocks = 65536 ∷ [];
      recyclable_blocks = [];
      current_block = some (record { block = 98304; low = 128; high = 32767 });
    };
    overflow = record { unavailable_blocks = []; current_block = none };
    evac = record { unavailable_blocks = []; evac_headroom = []; current_block = none };
  };
  bitmap = record {
    words = replicate 8 0;
    bitmap_size = 64;
    heap_begin = 61440;
    heap_limit = 69632;
  };
  current_live_mark = false;
}

bitmap-IsBitmap : IsBitmap (small_space.bitmap)
bitmap-IsBitmap = record { in_word = λ i. omega (arith, get_or-replicate {A = ℕ} 8 i 0) }

first-IsPlace : IsPlace small_space 4224
unfolding BlockAllocator.is_in_space
first-IsPlace = record { aligned = refl; in_space = refl; covered = omega arith }

second-IsPlace : IsPlace small_space 4480
unfolding BlockAllocator.is_in_space
second-IsPlace = record { aligned = refl; in_space = refl; covered = omega arith }

-- A space over 128 KiB at 61440, whose second block is kept for evacuation and whose first is a candidate.
abbrev candidate : ImmixBlock
candidate = record (Block.new 65536) { evacuation_candidate = true }

abbrev evacuating : ImmixSpace
evacuating = record {
  space = record {
    block_allocator = small_space.space.block_allocator;
    memory = write Block.new 65536 candidate;
    normal = new_normal;
    overflow = new_overflow;
    evac = record { unavailable_blocks = []; evac_headroom = 98304 ∷ []; current_block = none };
  };
  bitmap = record {
    words = replicate 128 0;
    bitmap_size = 1024;
    heap_begin = 61440;
    heap_limit = 192512;
  };
  current_live_mark = false;
}

abbrev unpinned : RawGc
unpinned = record { vtable = record { raw = 4096 } }

-- A new space over the same mapping.
abbrev new_space :
    (s : ImmixSpace) × (new (λ size. some 61440) 131072 ≡ some s)
    × IsImmixSpace s []
    × CanEvacuate s
    × ((g : ℕ) → marked s.bitmap g ≡ false)
new_space = new-IsImmixSpace (λ size. some 61440) 131072 61440 refl (omega arith) refl (omega arith)

get_all_blocks_lem_example :
    let (s', blocks) = get_all_blocks small_space in
    ((b : ℕ) → count b blocks ≡ held (small_space.space) b)
    × ((b : ℕ) → held s'.space b ≡ 0)
    × (s'.space.evac.evac_headroom ≡ [])
    × (s'.space.block_allocator ≡ small_space.space.block_allocator)
    × (s'.space.memory ≡ Block.new)
    × (s'.bitmap ≡ small_space.bitmap)
get_all_blocks_lem_example = get_all_blocks_lem small_space
