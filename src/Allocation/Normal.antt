-- ===== src/Allocation/Normal.antt =====
-- `allocate` of the normal allocator.
use libimmixcons.Base.{
  ℕ, ◌+◌, ◌%◌, ◌≤◌, ◌<◌, ◌≡◌, refl, sym, ◌⊎◌, inl, inr, Option, none, some, List, [], ◌∷◌, count,
  count-append, arith,
}
use libimmixcons.BlockAllocator.Inv.{IsValid}
use libimmixcons.Allocation.Scan.{BlockTuple}
use libimmixcons.Allocation.Allocator.{allocate}
use libimmixcons.Allocation.Allocators.{Space, block_of, normal_ops, normal_full, normal_no_hole}
use libimmixcons.Allocation.Hole.{Usable, fits, none_fits, scan_for_hole_lem}
use libimmixcons.Allocation.Recycle.{
  too_large, found, drained, HasHeaders, with_lists, normal_no_hole_lem,
}
use libimmixcons.Allocation.Fresh.{NoBlockLeft, IsUnused, get_new_block_lem}
use libimmixcons.Allocation.Place.{
  Sought, has, lacks, Placed, seek_current, IsAllocator, allocate-Placed,
}

-- A space whose allocator is valid, whose current tuple is usable, and whose recyclable blocks have headers.
pub record IsSpace (s : Space) (used : List ℕ) : Type 0 where
  pub allocator : IsValid s.block_allocator s.memory used
  pub headers : HasHeaders s.memory s.normal.recyclable_blocks
  pub current : (tp : BlockTuple) → s.normal.current_block ≡ some tp → Usable s.memory tp

abbrev pub current_normal : Space → Option BlockTuple
current_normal s = s.normal.current_block

-- The other two allocators stay as they are.
abbrev pub OnlyNormal : Space → Space → Type 0
OnlyNormal s t = (t.overflow ≡ s.overflow) × (t.evac ≡ s.evac)

-- A block that the allocator holds, or one that nobody uses.
abbrev pub held : Space → ℕ → ℕ
held s b = count b s.normal.unavailable_blocks + count b s.normal.recyclable_blocks

abbrev pub MayTake : Space → List ℕ → ℕ → Type 0
MayTake s used b = (0 < held s b + count b (block_of s.normal.current_block)) ⊎ IsUnused s used b

abbrev Recycled : Space → Space → Type 0
Recycled s t = (t.memory ≡ s.memory) × (t.block_allocator ≡ s.block_allocator) × OnlyNormal s t

abbrev Searched : Space → Space → Type 0
Searched s t =
    (t.normal.recyclable_blocks ≡ s.normal.recyclable_blocks)
    × ((b : ℕ) → held t b ≤ held s b + count b (block_of s.normal.current_block))
    × Recycled s t

module _ (size : ℕ) (s : Space) (used : List ℕ) (small : size ≤ 32639) (v : IsSpace s used) where
  current_lem :
      (current : Option BlockTuple)
      → current ≡ s.normal.current_block
      → Sought size
          (MayTake s used)
          (OnlyNormal s)
          (Searched s)
          (seek_current normal_ops size ((normal_ops.take_current_block s).0) current)
  unfolding normal_full
  current_lem none e =
      lacks ((normal_ops.take_current_block s).0) refl
        (refl, (λ b. omega arith), (refl, refl, (refl, refl)))
  current_lem (some tp) same_current =
      let t = (normal_ops.take_current_block s).0 in
      elim (scan_for_hole_lem normal_ops.memory normal_ops.handle_full_block size t tp
        (v.current tp (sym same_current))) [
          | fits tp' e v' same lo room ↦
              has t tp' e v' room (inl (rw (← same_current) (ground (arith, same)))) (refl, refl)
          | none_fits e ↦ lacks (normal_full t tp.block) e (
            refl,
            (λ b.
                rw (← same_current)
                  (omega (arith, count-append b s.normal.unavailable_blocks (tp.block ∷ [])))),
            (refl, refl, (refl, refl)),
          )
        ]

  recyclable_lem :
      (t : Space)
      → Searched s t
      → Sought size (MayTake s used) (OnlyNormal s) (Recycled s) (normal_no_hole t size)
  recyclable_lem t k =
      let headers : HasHeaders t.memory t.normal.recyclable_blocks = rw (k.2.0, k.0) v.headers in
      elim (normal_no_hole_lem size t headers) [
        | too_large h u l e c ↦ lacks (with_lists t u l) e (k.2)
        | found u l tp e v' room c ↦
            has (with_lists t u l) tp e v' room (inl (ground (arith, k.1 tp.block, c tp.block)))
              (k.2.2)
        | drained u e c ↦ lacks (with_lists t u []) e (k.2)
      ]

  normal-IsAllocator :
      IsAllocator normal_ops current_normal size s
        (MayTake s used)
        (OnlyNormal s)
        (Searched s)
        (Recycled s)
        (NoBlockLeft s)
  normal-IsAllocator = record {
    sees = λ t. refl;
    puts_current = λ t tp. refl;
    puts_memory = λ t tp. refl;
    puts_Frame = λ t tp f. f;
    in_current = current_lem s.normal.current_block refl;
    in_recycled = recyclable_lem;
    in_new = λ t k.
        get_new_block_lem s used (MayTake s used) (OnlyNormal s) t small v.allocator (k.0) (k.1)
          (λ b h. inr h) (λ ba memory. k.2);
  }

-- `allocate` of the normal allocator never panics, and ends. Either the object lies at the start of what was
-- left of a usable tuple, in free lines past the header line of a well-formed block, with room for all of
-- `size` bytes, and the current tuple goes on just after it; or it returns null, and then no block is free
-- and less than a block is left of the mapping. The other allocators stay as they are. `size` is a multiple
-- of 16 and fits into a block.
pub allocate_normal :
    (size : ℕ) (s : Space) (used : List ℕ)
    → size % 16 ≡ 0
    → size ≤ 32639
    → IsSpace s used
    → Placed current_normal size
        (MayTake s used)
        (OnlyNormal s)
        (NoBlockLeft s)
        (allocate normal_ops size s)
allocate_normal size s used whole small v =
    allocate-Placed (normal-IsAllocator size s used small v) whole
