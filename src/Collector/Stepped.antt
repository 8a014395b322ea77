-- ===== src/Collector/Stepped.antt =====
-- What one step of `sweep_all_blocks` does with a block.
use libimmixcons.Base.{
  ℕ, zero, suc, ◌<◌, ◌≡◌, refl, ◌≢◌, Bool, true, false, Option, some, arith, push,
}
use libimmixcons.Block
use libimmixcons.Block.{ImmixBlock}
use libimmixcons.Block.Find.{IsBlock, line}
use libimmixcons.Block.Counts.{hole_starts, is_empty_lem, count_holes_lem}
use libimmixcons.Block.Totals.{count_lines_lem}
use libimmixcons.BlockAllocator.{Memory, write}
use libimmixcons.Collector.{Sweeping, sweep_block, add_lines, VecMap}

abbrev pub AllFree : ImmixBlock → Type 0
AllFree blk = (j : ℕ) → j < 256 → line blk j ≡ false

abbrev pub AllMarked : ImmixBlock → Type 0
AllMarked blk = (j : ℕ) → j < 256 → line blk j ≡ true

abbrev with_header : Sweeping → ℕ → ImmixBlock → Memory
with_header s b blk = write s.memory b blk

abbrev counted : Sweeping → ℕ → ℕ → ImmixBlock
counted s b n = record (s.memory b) { hole_count = n }

abbrev pub to_free : Sweeping → ℕ → Sweeping
to_free s b = record s { memory = with_header s b (Block.reset (s.memory b)); free = push s.free b }

abbrev pub to_unavailable : Sweeping → ℕ → VecMap → Sweeping
to_unavailable s b h = record s {
  memory = with_header s b (counted s b 0);
  histogram = h;
  unavailable = push s.unavailable b;
}

abbrev pub to_recyclable : Sweeping → ℕ → VecMap → ℕ → Sweeping
to_recyclable s b h n = record s {
  memory = with_header s b (counted s b n);
  histogram = h;
  recyclable = push s.recyclable b;
}

-- The three ways of one step.
pub data Stepped (s : Sweeping) (b : ℕ) (r : Option Sweeping) : Type 0 where
  freed : r ≡ some (to_free s b) → AllFree (s.memory b) → Stepped s b r
  filled : (h : VecMap) → r ≡ some (to_unavailable s b h) → AllMarked (s.memory b) → Stepped s b r
  holed :
      (h : VecMap) (n : ℕ)
      → r ≡ some (to_recyclable s b h n)
      → ¬ AllFree (s.memory b)
      → ¬ AllMarked (s.memory b)
      → n ≢ 0
      → n ≡ hole_starts (s.memory b)
      → Stepped s b r

pub sweep_block_lem : (s : Sweeping) (b : ℕ) → IsBlock (s.memory b) → Stepped s b (sweep_block s b)
unfolding sweep_block
sweep_block_lem s b v =
    let e = is_empty_lem v in
    let c = count_holes_lem v in
    let counted : ImmixBlock = record (s.memory b) { hole_count = c.0 } in
    let v' : IsBlock counted = record { lines = v.lines; aligned = v.aligned } in
    let l = count_lines_lem v' in go e.0 e.1 e.2 c.0 c.1 c.3 c.4 l.0 l.2
  where
    go :
        (empty : Bool)
        → Block.is_empty (s.memory b) ≡ some empty
        → ((empty ≡ true) → AllFree (s.memory b)) × (AllFree (s.memory b) → empty ≡ true)
        → (n : ℕ)
        → Block.count_holes (s.memory b) ≡ some (record (s.memory b) { hole_count = n }, n)
        → ((n ≡ 0) → AllMarked (s.memory b)) × (AllMarked (s.memory b) → n ≡ 0)
        → n ≡ hole_starts (s.memory b)
        → (m : ℕ)
        → Block.count_holes_and_marked_lines (record (s.memory b) { hole_count = n }) ≡ some (n, m)
        → Stepped s b (sweep_block s b)
    go true e i n c z q m l = freed (rw e) (i.0 refl)
    go false e i zero c z q m l = filled (add_lines s.histogram 0 m) (rw (e, c, l)) (z.0 refl)
    go false e i (suc n) c z q m l =
        holed (add_lines s.histogram (suc n) m) (suc n) (rw (e, c, l) (ground arith))
          (λ all. cc (i.1 all)) (λ all. absurd (omega (arith, z.1 all))) (omega arith) q
