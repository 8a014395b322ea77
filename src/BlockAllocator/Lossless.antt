-- ===== src/BlockAllocator/Lossless.antt =====
-- No block is lost between a new allocator and any later state.
use libimmixcons.Base.{ℕ, ◌≡◌, none, some, List, [], ◌∷◌, ◌++◌}
use libimmixcons.Block
use libimmixcons.BlockAllocator.{Memory, BlockAllocator, get_block, return_blocks}
use libimmixcons.BlockAllocator.Mmap

-- A client's calls from `s`: blocks that it gets, which it then holds, and blocks that it holds
-- and returns. The list is what it holds.
pub data History (s : BlockAllocator) (memory : Memory)
    : BlockAllocator → Memory → List ℕ → Type 0 where
  at_start : History s memory s memory []
  gets :
      {t t' : BlockAllocator} {m m' : Memory} {held : List ℕ} (b : ℕ)
      → History s memory t m held
      → get_block t m ≡ some (t', m', some b)
      → History s memory t' m' (b ∷ held)
  fails :
      {t t' : BlockAllocator} {m m' : Memory} {held : List ℕ}
      → History s memory t m held
      → get_block t m ≡ some (t', m', none)
      → History s memory t' m' held
  returns :
      {t : BlockAllocator} {m : Memory} (blocks kept : List ℕ)
      → History s memory t m (blocks ++ kept)
      → History s memory (return_blocks t m blocks).0 (return_blocks t m blocks).1 kept
