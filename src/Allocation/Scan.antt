-- ===== src/Allocation/Scan.antt =====
-- `BlockTuple`, `scan_for_hole` and `allocate_from_block` of the trait `Allocator`.
-- The offsets are `u16`: an addition or a subtraction that leaves the range is a panic, `none`.
use libimmixcons.Base.{
  ℕ, zero, suc, ◌+◌, ◌^◌, Option, none, some, ltb, leb, if◌then◌else◌, ◌>>=◌, checked_sub,
}
use libimmixcons.Align.{align_usize}
use libimmixcons.Block
use libimmixcons.Block.{ImmixBlock, u16}
use libimmixcons.BlockAllocator.{Memory}

-- A block's address, and the lowest and highest offset that are left of its hole.
pub record BlockTuple : Type 0 where
  pub block : ℕ
  pub low : ℕ
  pub high : ℕ

abbrev pub u16_add : ℕ → ℕ → Option ℕ
u16_add a b = if ltb (a + b) (2 ^ 16) then some (a + b) else none

-- The tuple with its low offset past the object, and the object's address.
unfoldable pub allocate_from_block : Memory → ℕ → BlockTuple → Option (BlockTuple × ℕ)
allocate_from_block memory size tp = do
  let low = u16 (align_usize tp.low 16)
  let object = Block.offset (memory tp.block) low
  next ← u16_add low (u16 size)
  some (record { block = tp.block; low = next; high = tp.high }, object)

-- `S` is the state of the implementation, which has the callback `handle_full_block`.
module _ {S : Type 0} (memory : S → Memory) (handle_full_block : S → ℕ → S) where
  -- The function calls itself; the first argument is fuel.
  unfoldable pub scan_for_hole_from : ℕ → ℕ → BlockTuple → S → Option (S × Option BlockTuple)
  scan_for_hole_from zero size tp s = none
  scan_for_hole_from (suc fuel) size tp s = do
    room ← checked_sub tp.high tp.low
    let scanned = Block.scan_block (memory s tp.block) tp.high
    let again = λ (low high : ℕ).
        scan_for_hole_from fuel size (record { block = tp.block; low = low; high = high }) s
    if leb size room
        then some (s, some tp)
        else (scanned >>= λ found. elim found [
          | none ↦ some (handle_full_block s tp.block, none)
          | some (low, high) ↦ again low high
        ])

  unfoldable pub scan_for_hole : ℕ → BlockTuple → S → Option (S × Option BlockTuple)
  scan_for_hole size tp s = scan_for_hole_from 257 size tp s
