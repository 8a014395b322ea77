-- ===== src/BlockAllocator/Mmap.antt =====
-- `Mmap` of src/block_allocator.rs, on Unix. The operating system's `mmap` is a parameter, from the
-- size asked for to the address of the mapping; `none` is MAP_FAILED, on which the code panics.
use libimmixcons.Base.{ℕ, ◌+◌, ◌-◌, ◌%◌, Option, some, ◌>>=◌}
use libimmixcons.Constants.{block_size}

pub record Mmap : Type 0 where
  pub start : ℕ
  pub finish : ℕ
  pub size : ℕ

unfoldable pub new : (ℕ → Option ℕ) → ℕ → Option Mmap
new mmap size = do map ← mmap size; some (record { start = map; finish = map + size; size = size })

-- The first block boundary past the start of the mapping.
unfoldable pub aligned : Mmap → ℕ
aligned m = let offset = block_size - m.start % block_size in m.start + offset
