-- ===== src/Collector/Swept.antt =====
-- What a sweep of blocks leaves, and how one more block in front adds to it.
use libimmixcons.Base.{
  ℕ, ◌+◌, ◌≤◌, ◌<◌, ◌≡◌, ◌≢◌, arith, List, ◌∷◌, count, ℕ_discrete, ◌∙◌, sym, subst,
}
use libimmixcons.Block
use libimmixcons.Block.{ImmixBlock}
use libimmixcons.Block.Counts.{hole_starts}
use libimmixcons.BlockAllocator.{Memory, write}
use libimmixcons.Collector.Stepped.{AllFree, AllMarked}

-- What becomes of a free, a full and any other block's header. The last gets a new hole
-- count, in which a free line counts unless the line before it does.
abbrev pub Freed : ImmixBlock → ImmixBlock → Type 0
Freed old now = AllFree old × (now ≡ Block.reset old)

abbrev pub Filled : ImmixBlock → ImmixBlock → Type 0
Filled old now = AllMarked old × (now ≡ record old { hole_count = 0 })

abbrev pub Holed : ImmixBlock → ImmixBlock → Type 0
Holed old now =
    (¬ AllFree old)
    × (¬ AllMarked old)
    × (now.hole_count ≢ 0)
    × (now ≡ record old { hole_count = hole_starts old })

abbrev pub Each : (ImmixBlock → ImmixBlock → Type 0) → Memory → Memory → List ℕ → Type 0
Each P memory memory' l = (b : ℕ) → 0 < count b l → P (memory b) (memory' b)

-- What sweeping `blocks` does, from the headers `memory`: `f`, `u` and `r` are the blocks that it puts
-- into the free, the unavailable and the recyclable ones, and `memory'` the headers afterwards.
pub record Swept (memory memory' : Memory) (blocks f u r : List ℕ) : Type 0 where
  pub parts : (b : ℕ) → count b f + count b u + count b r ≡ count b blocks
  pub each_free : Each Freed memory memory' f
  pub each_full : Each Filled memory memory' u
  pub each_holed : Each Holed memory memory' r
  pub kept : (b : ℕ) → count b blocks ≡ 0 → memory' b ≡ memory b

-- One more block in front, `x`, whose header becomes `blk`.
module _ (memory memory' : Memory) (x : ℕ) (blk : ImmixBlock) (blocks : List ℕ)
    (fresh : count x blocks ≡ 0)
    (kept : (b : ℕ) → count b blocks ≡ 0 → memory' b ≡ write memory x blk b) where
  swept_at : memory' x ≡ blk
  swept_at = kept x fresh ∙ ground arith

  pub kept-cons : (b : ℕ) → count b (x ∷ blocks) ≡ 0 → memory' b ≡ memory b
  kept-cons b h = ground (arith, kept b)

  pub Each-other :
      (P : ImmixBlock → ImmixBlock → Type 0) (l : List ℕ)
      → ((b : ℕ) → count b l ≤ count b blocks)
      → Each P (write memory x blk) memory' l
      → Each P memory memory' l
  Each-other P l le all b h =
      let e : write memory x blk b ≡ memory b = ground (arith, le b) in
      subst (λ o. P o (memory' b)) e (all b h)

  pub Each-cons :
      (P : ImmixBlock → ImmixBlock → Type 0) (l : List ℕ)
      → ((b : ℕ) → count b l ≤ count b blocks)
      → P (memory x) blk
      → Each P (write memory x blk) memory' l
      → Each P memory memory' (x ∷ l)
  Each-cons P l le at all b h = elim (ℕ_discrete x b) [
    | yes same ↦
        subst (λ t. P (memory t) (memory' t)) same (subst (λ o. P (memory x) o) (sym swept_at) at)
    | no ne ↦ Each-other P l le all b (ground arith)
  ]
