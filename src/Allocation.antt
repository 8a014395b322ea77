-- ===== src/Allocation.antt =====
-- src/allocation.rs, without the feature `threaded`: bump allocation into the holes of blocks.
-- `Scan` has the trait's `scan_for_hole` and `allocate_from_block`, `Allocator` its `allocate` over
-- any implementation, `Allocators` the three implementations over the state of one space.
pub mod Scan
pub mod Allocator
pub mod Allocators
pub mod Hole
pub mod Recycle
pub mod Place
pub mod Fresh
pub mod Normal
pub mod Overflow
pub mod Evac
mod Tests
