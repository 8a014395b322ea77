-- ===== src/Allocation/Evac.antt =====
-- `allocate` of the evacuation allocator.
use libimmixcons.Base.{
  ℕ, ◌%◌, ◌≤◌, ◌<◌, ◌≡◌, refl, true, false, Option, none, some, List, [], ◌==◌, arith, count,
  count-pop_from, pop_from, ◌∷◌, ◌⊎◌, inl, inr,
}
use libimmixcons.Block.Find.{IsBlock, line}
use libimmixcons.BlockAllocator.{Memory}
use libimmixcons.Allocation.Scan.{BlockTuple}
use libimmixcons.Allocation.Allocator.{allocate}
use libimmixcons.Allocation.Allocators.{
  Space, block_of, evac_ops, evac_full, evac_new_block, whole_block, set_allocated,
}
use libimmixcons.Allocation.Hole.{Usable, fits, none_fits, scan_for_hole_lem}
use libimmixcons.Allocation.Place.{
  Sought, has, lacks, Placed, seek_current, IsAllocator, allocate-Placed,
}

-- The blocks of a list are well formed and have no line marked.
abbrev pub AreFree : Memory → List ℕ → Type 0
AreFree memory l =
    (b : ℕ)
    → 0 < count b l
    → IsBlock (memory b) × ((memory b).begin ≡ b) × ((j : ℕ) → line (memory b) j ≡ false)

-- A space whose blocks for evacuation are free and whose current tuple for evacuation is usable.
pub record IsEvacSpace (s : Space) : Type 0 where
  pub headroom : AreFree s.memory s.evac.evac_headroom
  pub current : (tp : BlockTuple) → s.evac.current_block ≡ some tp → Usable s.memory tp

abbrev pub current_evac : Space → Option BlockTuple
current_evac s = s.evac.current_block

-- The block allocator and the other two allocators stay as they are.
abbrev pub OnlyEvac : Space → Space → Type 0
OnlyEvac s t =
    (t.block_allocator ≡ s.block_allocator) × (t.normal ≡ s.normal) × (t.overflow ≡ s.overflow)

-- A block that the allocator holds for evacuation.
abbrev pub MayTake : Space → ℕ → Type 0
MayTake s b = (0 < count b (block_of s.evac.current_block)) ⊎ (0 < count b s.evac.evac_headroom)

abbrev Searched : Space → Space → Type 0
Searched s t = (t.memory ≡ s.memory) × (t.evac.evac_headroom ≡ s.evac.evac_headroom) × OnlyEvac s t

-- No block is left for evacuation, and nothing but the list of the full ones has changed.
abbrev pub NoHeadroom : Space → Space → Type 0
NoHeadroom s t = (s.evac.evac_headroom ≡ []) × (t.memory ≡ s.memory) × OnlyEvac s t

whole_block-Usable :
    (memory : Memory) (b : ℕ)
    → IsBlock (memory b)
    → (memory b).begin ≡ b
    → ((j : ℕ) → line (memory b) j ≡ false)
    → Usable (set_allocated memory b) (whole_block b)
whole_block-Usable memory b valid begins free =
    let self : (b == b) ≡ true = ground arith in
    let h : set_allocated memory b b ≡ record (memory b) { allocated = true } = rw (self) refl in
    record {
      valid = rw h (record { lines = valid.lines; aligned = valid.aligned });
      begins = rw h begins;
      low_aligned = refl;
      past_header = omega arith;
      ordered = omega arith;
      inside = omega arith;
      edge = refl;
      free = λ j p q. rw h (free j);
    }

module _ (size : ℕ) (s : Space) (small : size ≤ 32639) (v : IsEvacSpace s) where
  current_lem :
      (current : Option BlockTuple)
      → ((b : ℕ) → 0 < count b (block_of current) → MayTake s b)
      → ((tp : BlockTuple) → current ≡ some tp → Usable s.memory tp)
      → Sought size
          (MayTake s)
          (OnlyEvac s)
          (Searched s)
          (seek_current evac_ops size ((evac_ops.take_current_block s).0) current)
  unfolding evac_full
  current_lem none f u =
      lacks ((evac_ops.take_current_block s).0) refl (refl, refl, (refl, refl, refl))
  current_lem (some tp) f u =
      let t = (evac_ops.take_current_block s).0 in
      elim (scan_for_hole_lem evac_ops.memory evac_ops.handle_full_block size t tp (u tp refl)) [
        | fits tp' e v' same lo room ↦
            has t tp' e v' room (f tp'.block (ground (arith, same))) (refl, refl, refl)
        | none_fits e ↦ lacks (evac_full t tp.block) e (refl, refl, (refl, refl, refl))
      ]

  headroom_lem :
      (t : Space) (l : List ℕ)
      → t.evac.evac_headroom ≡ l
      → s.evac.evac_headroom ≡ l
      → Searched s t
      → Sought size (MayTake s) (OnlyEvac s) (NoHeadroom s) (evac_new_block t)
  unfolding evac_new_block
  headroom_lem t [] e f k = lacks t (rw e refl) (f, k.0, k.2)
  headroom_lem t (x ∷ xs) e f k =
      let rest = (pop_from x xs).0 in
      let b = (pop_from x xs).1 in
      let there : 0 < count b s.evac.evac_headroom = rw f (ground (arith, count-pop_from b x xs)) in
      let free = v.headroom b there in
      has
        (record t {
          evac = record (t.evac) { evac_headroom = rest };
          memory = set_allocated t.memory b;
        })
        (whole_block b) (rw e refl)
        (rw (k.0) (whole_block-Usable s.memory b (free.0) (free.1) (free.2))) (omega arith)
        (inr there) (k.2)

  evac-IsAllocator :
      IsAllocator evac_ops current_evac size s
        (MayTake s)
        (OnlyEvac s)
        (Searched s)
        (Searched s)
        (NoHeadroom s)
  evac-IsAllocator = record {
    sees = λ t. refl;
    puts_current = λ t tp. refl;
    puts_memory = λ t tp. refl;
    puts_Frame = λ t tp f. f;
    in_current = current_lem s.evac.current_block (λ b h. inl h) v.current;
    in_recycled = λ t k. lacks t refl k;
    in_new = λ t k. headroom_lem t s.evac.evac_headroom (k.1) refl k;
  }

-- `allocate` of the evacuation allocator never panics, and ends. Either the object lies at the start of
-- what was left of a usable tuple, in free lines past the header line of a well-formed block, with room for
-- all of `size` bytes, in the block of the current tuple or in one of the blocks for evacuation, and the
-- current tuple goes on just after it; or it returns null, and then no block for evacuation is left. The
-- block allocator and the other allocators stay as they are. `size` is a multiple of 16 and fits into a
-- block.
pub allocate_evac :
    (size : ℕ) (s : Space)
    → size % 16 ≡ 0
    → size ≤ 32639
    → IsEvacSpace s
    → Placed current_evac size (MayTake s) (OnlyEvac s) (NoHeadroom s) (allocate evac_ops size s)
allocate_evac size s whole small v = allocate-Placed (evac-IsAllocator size s small v) whole
