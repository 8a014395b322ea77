-- ===== src/BlockAllocator.antt =====
-- src/block_allocator.rs, on Unix: the mapped region and the blocks that are cut from it.
-- The operating system is outside: `mmap` is a parameter, from the size asked for to the address
-- of the mapping or a failure. Fresh pages and pages after MADV_DONTNEED read as zeros, and the
-- all-zero header is that of `ImmixBlock::new`. One thread runs here; a lock has no effect on
-- it, and the compare-and-exchange of `build_block` succeeds at once. BlockAllocator/Building has the
-- threads.
pub mod Mmap
pub mod Building
pub mod Inv
pub mod Lossless
mod Tests
use libimmixcons.Base.{
  ℕ, zero, suc, ◌+◌, ◌-◌, ◌*◌, ◌/◌, ◌%◌, ◌^◌, Bool, true, false, not, ◌&&◌, Option, none, some,
  ◌==◌, ltb, leb, if◌then◌else◌, ◌>>=◌, checked_sub, List, [], ◌∷◌, length, push, pop,
}
use libimmixcons.Constants.{block_size}
use libimmixcons.Block
use libimmixcons.Block.{ImmixBlock}

-- What the blocks' headers hold, by address.
abbrev pub Memory : Type 0
Memory = ℕ → ImmixBlock

abbrev pub write : Memory → ℕ → ImmixBlock → Memory
write memory at blk a = if a == at then blk else memory a

unfoldable pub dontneed : Memory → ℕ → Memory
dontneed memory page = write memory page (Block.new page)

pub record BlockAllocator : Type 0 where
  pub free_blocks : List ℕ
  pub data_bound : ℕ
  pub data_next : ℕ
  pub mmap : Mmap.Mmap

pub total_blocks : BlockAllocator → Option ℕ
unfolding Mmap.aligned
total_blocks s = do
  bytes ← checked_sub s.mmap.finish (Mmap.aligned s.mmap)
  some (bytes / block_size)

unfoldable pub new : (ℕ → Option ℕ) → ℕ → Option BlockAllocator
unfolding Mmap.new Mmap.aligned
new mmap size = do
  map ← Mmap.new mmap size
  if Mmap.aligned map % block_size == 0
      then some (record {
        free_blocks = [];
        data_bound = map.finish;
        data_next = Mmap.aligned map;
        mmap = map;
      })
      else none

pub build_block : BlockAllocator → Option (BlockAllocator × Option ℕ)
build_block s =
    let old = s.data_next in
    let next = old + block_size in
    if ltb s.data_bound next
    then some (s, none)
    else if old % block_size == 0
    then some (record s { data_next = next }, some old)
    else none

pub get_block : BlockAllocator → Memory → Option (BlockAllocator × Memory × Option ℕ)
get_block s memory = elim (pop s.free_blocks) [
  | none ↦ build_block s >>= λ (s', block). some (s', memory, block)
  | some (rest, x) ↦ some (record s { free_blocks = rest }, write memory x (Block.new x), some x)
]

unfoldable pub is_in_space : BlockAllocator → ℕ → Bool
is_in_space s object = ltb s.mmap.start object && leb object s.data_bound

unfoldable pub return_blocks : BlockAllocator → Memory → List ℕ → BlockAllocator × Memory
unfolding dontneed
return_blocks s memory [] = (s, memory)
return_blocks s memory (block ∷ blocks) =
    return_blocks (record s { free_blocks = push s.free_blocks block }) (dontneed memory block)
      blocks

pub available_blocks : BlockAllocator → Option ℕ
available_blocks s = do
  bytes ← checked_sub s.data_bound s.data_next
  some (bytes / block_size + length s.free_blocks)
