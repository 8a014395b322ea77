-- ===== src/Heap/Sizes.antt =====
-- The sizes of a heap that `immix_init` of src/lib.rs accepts.
use libimmixcons.Base.{ℕ, ◌*◌, ◌≤◌, ◌<◌, arith}
use libimmixcons.Heap.{init_sizes}

-- Whatever sizes it is called with, `immix_init` makes a heap of at least 16 blocks and no smaller than asked
-- for, with a threshold that is not zero; a threshold within the heap asked for stays within the heap.
pub init_sizes_lem :
    (heap_size threshold : ℕ)
    → let (size, limit) = init_sizes heap_size threshold in
      (16 * 32768 ≤ size)
      × (heap_size ≤ size)
      × (0 < limit)
      × (threshold ≤ heap_size → limit ≤ size)
unfolding init_sizes
init_sizes_lem heap_size threshold = (ground arith, ground arith, ground arith, λ h. ground arith)
