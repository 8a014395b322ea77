-- ===== src/Allocation/Allocator.antt =====
-- The trait `Allocator`: what an implementation provides, and `allocate`, which is built from it.
use libimmixcons.Base.{ℕ, List, Option, none, some, ◌>>=◌}
use libimmixcons.BlockAllocator.{Memory}
use libimmixcons.Allocation.Scan.{BlockTuple, scan_for_hole, allocate_from_block}

-- The required methods, over the state `S` that they read and change. `none` is a panic.
pub record AllocatorOps (S : Type 0) : Type 0 where
  pub memory : S → Memory
  pub get_all_blocks : S → S × List ℕ
  pub take_current_block : S → S × Option BlockTuple
  pub put_current_block : S → BlockTuple → S
  pub get_new_block : S → Option (S × Option BlockTuple)
  pub handle_no_hole : S → ℕ → Option (S × Option BlockTuple)
  pub handle_full_block : S → ℕ → S

-- `or_else` on a result that comes with the state.
abbrev pub or_else {ℓ} :
    {S : Type 0} {A : Type ℓ} → S × Option A → (S → Option (S × Option A)) → Option (S × Option A)
or_else (s, none) k = k s
or_else (s, some a) k = some (s, some a)

module _ {S : Type 0} (ops : AllocatorOps S) where
  -- The new state and the object's address, 0 if there is no room.
  unfoldable pub allocate : ℕ → S → Option (S × ℕ)
  allocate size s = do
    let (s₁, current) = ops.take_current_block s
    in_current ← elim current [
      | none ↦ some (s₁, none)
      | some tp ↦ scan_for_hole ops.memory ops.handle_full_block size tp s₁
    ]
    in_recycled ← or_else in_current (λ s. ops.handle_no_hole s size)
    in_new ← or_else in_recycled ops.get_new_block
    let (s₂, found) = in_new
    elim found [
      | none ↦ some (s₂, 0)
      | some tp ↦ allocate_from_block (ops.memory s₂) size tp >>= λ (tp', object).
          some (ops.put_current_block s₂ tp', object)
    ]
