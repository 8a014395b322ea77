-- ===== src/ImmixSpace/Known.antt =====
-- What `filter` answers in a space whose bitmap is that of the mapping.
use libimmixcons.Base.{
  ℕ, ◌+◌, ◌-◌, ◌*◌, ◌/◌, ◌%◌, ◌≤◌, ◌≡◌, ◌≢◌, refl, Bool, true, ◌&&◌, none, some, ◌==◌,
  if◌then◌else◌, arith, length, Bool-cases, inl, inr,
}
use libimmixcons.BlockAllocator
use libimmixcons.SpaceBitmap.Granules.{IsBitmap, marked}
use libimmixcons.ImmixSpace.{ImmixSpace, filter}
use libimmixcons.ImmixSpace.Filter.{IsPlace, filter-marked}

-- The bitmap begins where the mapping does, and has a bit for every 16 bytes of it.
pub record HasBitmap (s : ImmixSpace) : Type 0 where
  pub bitmap : IsBitmap s.bitmap
  pub same_begin : s.bitmap.heap_begin ≡ s.space.block_allocator.mmap.start
  pub covers_all :
      s.space.block_allocator.mmap.finish ≤ s.bitmap.heap_begin + length s.bitmap.words * 1024
  pub bound_is_end : s.space.block_allocator.data_bound ≡ s.space.block_allocator.mmap.finish

-- A multiple of 16 in the space, whose granule is in the bitmap.
abbrev pub is_known : ImmixSpace → ℕ → Bool
is_known s p =
    p % 16 == 0
    && (BlockAllocator.is_in_space s.space.block_allocator p
        && marked s.bitmap ((p - s.bitmap.heap_begin) / 16))

in_range :
    (s : ImmixSpace) (p : ℕ)
    → BlockAllocator.is_in_space s.space.block_allocator p ≡ true
    → (s.space.block_allocator.mmap.start ≤ p) × (p ≤ s.space.block_allocator.data_bound)
unfolding BlockAllocator.is_in_space
in_range s p h = ground arith

-- The filter answers for every address but the first behind the mapping.
pub filter_lem :
    (s : ImmixSpace) (p : ℕ)
    → HasBitmap s
    → p ≢ s.space.block_allocator.data_bound
    → filter s p ≡ some (if is_known s p then some p else none)
unfolding filter
filter_lem s p v ne = elim (Bool-cases (p % 16 == 0)) [
  | inr e ↦ rw e refl
  | inl e ↦ elim (Bool-cases (BlockAllocator.is_in_space s.space.block_allocator p)) [
    | inr o ↦ rw (e, o) refl
    | inl i ↦
        let near = in_range s p i in
        let at : s.bitmap.heap_begin + (p - s.bitmap.heap_begin) ≡ p =
          omega (arith, near.0, v.same_begin) in
        let place : IsPlace s (p - s.bitmap.heap_begin) = record {
          aligned = rw at (ground (arith, e));
          in_space = rw at i;
          covered = omega (arith, near.0, near.1, ne, v.same_begin, v.covers_all, v.bound_is_end);
        } in
        let f = filter-marked s (p - s.bitmap.heap_begin) v.bitmap place in
        rw (e, i) (rw (at, e, i) at f)
  ]
]
