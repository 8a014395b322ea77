-- ===== src/Allocation/Overflow.antt =====
-- `allocate` of the overflow allocator.
use libimmixcons.Base.{
  ℕ, ◌%◌, ◌≤◌, ◌<◌, ◌≡◌, refl, ◌⊎◌, inl, inr, Option, none, some, List, count, arith,
}
use libimmixcons.BlockAllocator.Inv.{IsValid}
use libimmixcons.Allocation.Scan.{BlockTuple}
use libimmixcons.Allocation.Allocator.{allocate}
use libimmixcons.Allocation.Allocators.{Space, block_of, overflow_ops, overflow_full}
use libimmixcons.Allocation.Hole.{Usable, fits, none_fits, scan_for_hole_lem}
use libimmixcons.Allocation.Fresh.{NoBlockLeft, IsUnused, get_new_block_lem}
use libimmixcons.Allocation.Place.{
  Sought, has, lacks, Placed, seek_current, IsAllocator, allocate-Placed,
}

-- A space whose allocator is valid and whose current tuple for larger objects is usable.
pub record IsOverflowSpace (s : Space) (used : List ℕ) : Type 0 where
  pub allocator : IsValid s.block_allocator s.memory used
  pub current : (tp : BlockTuple) → s.overflow.current_block ≡ some tp → Usable s.memory tp

abbrev pub current_overflow : Space → Option BlockTuple
current_overflow s = s.overflow.current_block

-- The other two allocators stay as they are.
abbrev pub OnlyOverflow : Space → Space → Type 0
OnlyOverflow s t = (t.normal ≡ s.normal) × (t.evac ≡ s.evac)

-- A block that the allocator holds, or one that nobody uses.
abbrev pub MayTake : Space → List ℕ → ℕ → Type 0
MayTake s used b = (0 < count b (block_of s.overflow.current_block)) ⊎ IsUnused s used b

abbrev Searched : Space → Space → Type 0
Searched s t = (t.memory ≡ s.memory) × (t.block_allocator ≡ s.block_allocator) × OnlyOverflow s t

module _ (size : ℕ) (s : Space) (used : List ℕ) (small : size ≤ 32639)
    (v : IsOverflowSpace s used) where
  current_lem :
      (current : Option BlockTuple)
      → ((b : ℕ) → 0 < count b (block_of current) → MayTake s used b)
      → ((tp : BlockTuple) → current ≡ some tp → Usable s.memory tp)
      → Sought size
          (MayTake s used)
          (OnlyOverflow s)
          (Searched s)
          (seek_current overflow_ops size ((overflow_ops.take_current_block s).0) current)
  unfolding overflow_full
  current_lem none f u =
      lacks ((overflow_ops.take_current_block s).0) refl (refl, refl, (refl, refl))
  current_lem (some tp) f u =
      let t = (overflow_ops.take_current_block s).0 in
      elim (scan_for_hole_lem overflow_ops.memory overflow_ops.handle_full_block size t tp
        (u tp refl)) [
          | fits tp' e v' same lo room ↦
              has t tp' e v' room (f tp'.block (ground (arith, same))) (refl, refl)
          | none_fits e ↦ lacks (overflow_full t tp.block) e (refl, refl, (refl, refl))
        ]

  overflow-IsAllocator :
      IsAllocator overflow_ops current_overflow size s
        (MayTake s used)
        (OnlyOverflow s)
        (Searched s)
        (Searched s)
        (NoBlockLeft s)
  overflow-IsAllocator = record {
    sees = λ t. refl;
    puts_current = λ t tp. refl;
    puts_memory = λ t tp. refl;
    puts_Frame = λ t tp f. f;
    in_current = current_lem s.overflow.current_block (λ b h. inl h) v.current;
    in_recycled = λ t k. lacks t refl k;
    in_new = λ t k.
        get_new_block_lem s used (MayTake s used) (OnlyOverflow s) t small v.allocator (k.0) (k.1)
          (λ b h. inr h) (λ ba memory. k.2);
  }

-- `allocate` of the overflow allocator never panics, and ends. Either the object lies at the start of what
-- was left of a usable tuple, in free lines past the header line of a well-formed block, with room for all
-- of `size` bytes, in the block of the current tuple or in one that nobody uses, and the current tuple goes
-- on just after it; or it returns null, and then no block is
-- free and less than a block is left of the mapping. The other allocators stay as they are. `size` is a
-- multiple of 16 and fits into a block.
pub allocate_overflow :
    (size : ℕ) (s : Space) (used : List ℕ)
    → size % 16 ≡ 0
    → size ≤ 32639
    → IsOverflowSpace s used
    → Placed current_overflow size
        (MayTake s used)
        (OnlyOverflow s)
        (NoBlockLeft s)
        (allocate overflow_ops size s)
allocate_overflow size s used whole small v =
    allocate-Placed (overflow-IsAllocator size s used small v) whole
