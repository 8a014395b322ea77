-- ===== src/BlockAllocator/Inv.antt =====
-- Every block that was ever built is either in use or free, and is so once.
use libimmixcons.Base.{
  ℕ, ◌+◌, ◌-◌, ◌*◌, ◌%◌, ◌≤◌, ◌<◌, ◌≡◌, refl, ◌≢◌, Bool, true, Option, none, some, List, [], ◌∷◌,
  ◌++◌, arith, ◌==◌, ltb, leb, ◌&&◌, if◌then◌else◌, inl, inr, ◌⊎◌, dec_lt, subst, length,
  length-append, push, pop_from, count, count-append, count-pop_from, length-pop_from,
}
use libimmixcons.Block
use libimmixcons.Block.{ImmixBlock}
use libimmixcons.BlockAllocator.{
  Memory, write, BlockAllocator, new, build_block, get_block, return_blocks, is_in_space, dontneed,
}
use libimmixcons.BlockAllocator.Mmap
use libimmixcons.BlockAllocator.Mmap.{Mmap}

-- The blocks cut so far: those at the multiples of the block size from `base` up to `next`.
abbrev pub built : ℕ → ℕ → ℕ → Bool
built base next b = leb base b && ltb b next && b % 32768 == 0

pub record IsValid (s : BlockAllocator) (memory : Memory) (used : List ℕ) : Type 0 where
  pub base_aligned : Mmap.aligned s.mmap % 32768 ≡ 0
  pub next_aligned : s.data_next % 32768 ≡ 0
  pub above_base : Mmap.aligned s.mmap ≤ s.data_next
  pub in_bound : s.data_next ≤ s.data_bound
  pub bound_is_end : s.data_bound ≡ s.mmap.finish
  pub once :
      (b : ℕ)
      → count b s.free_blocks + count b used
        ≡ (if built (Mmap.aligned s.mmap) s.data_next b then 1 else 0)
  pub all_counted : (length s.free_blocks + length used) * 32768 + Mmap.aligned s.mmap ≡ s.data_next
  pub untouched : (b : ℕ) → s.data_next ≤ b → memory b ≡ Block.new b

-- A new allocator over a mapping of at least a block is valid, with no block in use, and its bounds are
-- those of the mapping.
pub new-IsValid :
    (mmap : ℕ → Option ℕ) (size start : ℕ)
    → mmap size ≡ some start
    → 32768 ≤ size
    → (s : BlockAllocator) × (new mmap size ≡ some s)
      × IsValid s Block.new []
      × (s.mmap.start ≡ start)
      × (s.mmap.finish ≡ start + size)
unfolding new Mmap.new Mmap.aligned
new-IsValid mmap size start e h =
    let m : Mmap = record { start = start; finish = start + size; size = size } in
    let s : BlockAllocator = record {
      free_blocks = [];
      data_bound = start + size;
      data_next = start + (32768 - start % 32768);
      mmap = m;
    } in
    (
      s,
      rw e (ground arith),
      record {
        base_aligned = omega arith;
        next_aligned = omega arith;
        above_base = omega arith;
        in_bound = omega arith;
        bound_is_end = refl;
        once = λ b. ground arith;
        all_counted = omega arith;
        untouched = λ b h. refl;
      },
      refl,
      refl,
    )

build_block_lem :
    {s : BlockAllocator} {memory : Memory} {used : List ℕ}
    → IsValid s memory used
    → s.free_blocks ≡ []
    → ((build_block s ≡ some (s, none)) × (s.data_bound < s.data_next + 32768))
      ⊎ ((s' : BlockAllocator) × (build_block s ≡ some (s', some s.data_next))
          × (s'.mmap ≡ s.mmap)
          × IsValid s' memory (s.data_next ∷ used)
          × (s.data_next + 32768 ≤ s.data_bound))
unfolding build_block
build_block_lem {s} {memory} {used} v e = elim (dec_lt s.data_bound (s.data_next + 32768)) [
  | yes full ↦ inl (ground arith, full)
  | no room ↦ inr (
    record s { data_next = s.data_next + 32768 },
    ground (arith, v.next_aligned),
    refl,
    record {
      base_aligned = v.base_aligned;
      next_aligned = omega (arith, v.next_aligned);
      above_base = omega (arith, v.above_base);
      in_bound = omega arith;
      bound_is_end = v.bound_is_end;
      once = λ b. ground (arith, v.once b, v.next_aligned, v.above_base, v.base_aligned);
      all_counted = omega (arith, v.all_counted);
      untouched = λ b h. v.untouched b (omega arith);
    },
    omega arith,
  )
]

-- What a call of `get_block` can do.
pub data Got (s : BlockAllocator) (memory : Memory) (used : List ℕ)
    (r : Option (BlockAllocator × Memory × Option ℕ)) : Type 0 where
  exhausted :
      r ≡ some (s, memory, none)
      → s.free_blocks ≡ []
      → s.data_bound < s.data_next + 32768
      → Got s memory used r
  block :
      (s' : BlockAllocator) (memory' : Memory) (b : ℕ)
      → r ≡ some (s', memory', some b)
      → IsValid s' memory' (b ∷ used)
      → s'.mmap ≡ s.mmap
      → count b used ≡ 0
      → b % 32768 ≡ 0
      → Mmap.aligned s.mmap ≤ b
      → b + 32768 ≤ s.data_bound
      → ((a : ℕ) → a ≢ b → memory' a ≡ memory a)
      → memory' b ≡ Block.new b
      → Got s memory used r

-- A block that is built is at least as often in `used` or free as the one occurrence.
pop_lem :
    {s : BlockAllocator} {memory : Memory} {used : List ℕ} (x : ℕ) (xs : List ℕ)
    → IsValid s memory used
    → s.free_blocks ≡ x ∷ xs
    → Got s memory used (
        some (
          record s { free_blocks = (pop_from x xs).0 },
          write memory (pop_from x xs).1 (Block.new (pop_from x xs).1),
          some (pop_from x xs).1,
        ))
pop_lem {s} {memory} {used} x xs v e =
    let b = (pop_from x xs).1 in
    let free = (pop_from x xs).0 in
    let split : (a : ℕ) → count a free + (if b == a then 1 else 0) ≡ count a s.free_blocks =
      λ a. rw e (count-pop_from a x xs) in
    let n : length s.free_blocks ≡ length free + 1 = rw e (omega (arith, length-pop_from x xs)) in
    let at_b : count b free + 1 + count b used
        ≡ (if built (Mmap.aligned s.mmap) s.data_next b then 1 else 0) =
      ground (arith, split b, v.once b) in
    let in_range : (Mmap.aligned s.mmap ≤ b) × (b < s.data_next) × (b % 32768 ≡ 0) = ground arith in
    let none_used : count b used ≡ 0 = ground arith in
    block (record s { free_blocks = free }) (write memory b (Block.new b)) b refl
      (record {
        base_aligned = v.base_aligned;
        next_aligned = v.next_aligned;
        above_base = v.above_base;
        in_bound = v.in_bound;
        bound_is_end = v.bound_is_end;
        once = λ a. omega (arith, v.once a, split a);
        all_counted = omega (arith, v.all_counted);
        untouched = λ a h. ground (arith, v.untouched a);
      })
      refl none_used in_range.2 in_range.0 (omega (arith, v.in_bound, v.next_aligned))
      (λ a ne. ground arith) (ground arith)

-- `get_block` never panics on a valid allocator. It fails only when no block is free and less than a
-- block is left of the mapping; otherwise it returns a block that is not in use, on a block boundary
-- inside the mapping, with a new header, and touches no other block's header.
pub get_block-Got :
    {s : BlockAllocator} {memory : Memory} {used : List ℕ}
    → IsValid s memory used
    → Got s memory used (get_block s memory)
unfolding get_block
get_block-Got {s} {memory} {used} v = go s.free_blocks refl
  where
    fresh_count : count s.data_next used ≡ 0
    fresh_count = ground (arith, v.once s.data_next)

    go : (l : List ℕ) → s.free_blocks ≡ l → Got s memory used (get_block s memory)
    go (x ∷ xs) e = subst (λ r. Got s memory used r) (rw e) (pop_lem x xs v e)
    go [] e = elim (build_block_lem v e) [
      | inl (p, q) ↦ exhausted (ground (arith, p)) e q
      | inr (s', p, q, v', room) ↦
          block s' memory s.data_next (ground (arith, p)) v' q fresh_count v.next_aligned
            v.above_base room (λ a ne. refl) (v.untouched s.data_next (omega arith))
    ]

-- `return_blocks` takes blocks out of use: the allocator stays valid without them, they are free
-- again, and their headers read as new. It changes no other block's header.
pub return_blocks-IsValid :
    (blocks used : List ℕ) {s : BlockAllocator} {memory : Memory}
    → IsValid s memory (blocks ++ used)
    → let (s', memory') = return_blocks s memory blocks in
      IsValid s' memory' used
      × (s'.mmap ≡ s.mmap)
      × (s'.data_next ≡ s.data_next)
      × ((b : ℕ) → count b s'.free_blocks ≡ count b s.free_blocks + count b blocks)
      × ((b : ℕ) → count b blocks ≡ 0 → memory' b ≡ memory b)
      × ((b : ℕ) → 0 < count b blocks → memory' b ≡ Block.new b)
unfolding return_blocks dontneed
return_blocks-IsValid [] used v =
    (v, refl, refl, λ b. omega arith, λ b h. refl, λ b h. absurd (omega arith))
return_blocks-IsValid (x ∷ xs) used {s} {memory} v =
    let at_x : built (Mmap.aligned s.mmap) s.data_next x ≡ true = ground (arith, v.once x) in
    let s₁ : BlockAllocator = record s { free_blocks = push s.free_blocks x } in
    let v₁ : IsValid s₁ (write memory x (Block.new x)) (xs ++ used) = record {
      base_aligned = v.base_aligned;
      next_aligned = v.next_aligned;
      above_base = v.above_base;
      in_bound = v.in_bound;
      bound_is_end = v.bound_is_end;
      once = λ b. omega (arith, v.once b, count-append b s.free_blocks (x ∷ []));
      all_counted = omega (arith, v.all_counted, length-append {0} s.free_blocks (x ∷ []));
      untouched = λ b h. ground (arith, v.untouched b);
    } in
    let ih = return_blocks-IsValid xs used {s = s₁} {memory = write memory x (Block.new x)} v₁ in
    (
      ih.0,
      ih.1,
      ih.2,
      λ b. omega (arith, ih.3 b, count-append b s.free_blocks (x ∷ [])),
      λ b h. ground (arith, ih.4 b),
      λ b h. elim (dec_lt 0 (count b xs)) [
        | yes more ↦ ih.5 b more
        | no last ↦ ground (arith, ih.4 b)
      ],
    )

-- A block in use lies in the space, the address just past its start and its end included.
pub is_in_space_lem :
    {s : BlockAllocator} {memory : Memory} {used : List ℕ} (b p : ℕ)
    → IsValid s memory used
    → 0 < count b used
    → b ≤ p
    → p ≤ b + 32768
    → is_in_space s p ≡ true
unfolding is_in_space Mmap.aligned
is_in_space_lem {s} b p v h lo hi =
    let at_b : built (Mmap.aligned s.mmap) s.data_next b ≡ true = ground (arith, v.once b) in
    ground (arith, v.in_bound, v.next_aligned)
