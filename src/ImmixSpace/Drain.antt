-- ===== src/ImmixSpace/Drain.antt =====
-- `get_all_blocks`: before a collection the allocators give up all their blocks.
use libimmixcons.Base.{ℕ, ◌+◌, ◌≡◌, refl, ◌++◌, count, count-append, arith}
use libimmixcons.Allocation.Allocators.{Space, block_of}
use libimmixcons.ImmixSpace.{ImmixSpace, get_all_blocks}

-- The exhausted and recyclable blocks of the allocators, and their current ones.
abbrev pub held : Space → ℕ → ℕ
held s b =
    count b s.normal.unavailable_blocks
    + count b s.normal.recyclable_blocks
    + count b (block_of s.normal.current_block)
    + count b s.overflow.unavailable_blocks
    + count b (block_of s.overflow.current_block)
    + count b s.evac.unavailable_blocks
    + count b (block_of s.evac.current_block)

-- `get_all_blocks` returns each block of the three allocators as often as they hold it, and they hold
-- none afterwards. The headroom for evacuation, the block allocator, the headers and the bitmap stay.
pub get_all_blocks_lem :
    (s : ImmixSpace)
    → let (s', blocks) = get_all_blocks s in
      ((b : ℕ) → count b blocks ≡ held s.space b)
      × ((b : ℕ) → held s'.space b ≡ 0)
      × (s'.space.evac.evac_headroom ≡ s.space.evac.evac_headroom)
      × (s'.space.block_allocator ≡ s.space.block_allocator)
      × (s'.space.memory ≡ s.space.memory)
      × (s'.bitmap ≡ s.bitmap)
unfolding get_all_blocks
get_all_blocks_lem s = (λ b. total b, λ b. refl, refl, refl, refl, refl)
  where
    total : (b : ℕ) → count b (get_all_blocks s).1 ≡ held s.space b
    total b =
        let n = s.space.normal in
        let o = s.space.overflow in
        let e = s.space.evac in
        let normal = n.unavailable_blocks ++ (n.recyclable_blocks ++ block_of n.current_block) in
        let overflow = o.unavailable_blocks ++ block_of o.current_block in
        let evac = e.unavailable_blocks ++ block_of e.current_block in
        omega (
          arith,
          count-append b normal (overflow ++ evac),
          count-append b n.unavailable_blocks (n.recyclable_blocks ++ block_of n.current_block),
          count-append b n.recyclable_blocks (block_of n.current_block),
          count-append b overflow evac,
          count-append b o.unavailable_blocks (block_of o.current_block),
          count-append b e.unavailable_blocks (block_of e.current_block),
        )
