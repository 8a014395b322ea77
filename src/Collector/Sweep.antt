-- ===== src/Collector/Sweep.antt =====
-- `sweep_all_blocks`: where each block goes, by its marks.
use libimmixcons.Base.{
  ap, Distinct, ℕ, ◌<◌, ◌≡◌, refl, ◌≢◌, some, arith, List, [], ◌∷◌, ◌++◌, count, ◌∙◌, sym,
}
use mathlib.Core.List.{append-nil, append_assoc}
use libimmixcons.Block.{ImmixBlock}
use libimmixcons.Block.Find.{IsBlock}
use libimmixcons.Block.Counts.{hole_starts}
use libimmixcons.BlockAllocator.{Memory, write}
use libimmixcons.Collector.{
  Collector, Sweeping, sweep_block, sweep_blocks, sweep_all_blocks, VecMap,
}
use libimmixcons.Collector.Swept.{Freed, Filled, Holed, Swept, kept-cons, Each-other, Each-cons}
use libimmixcons.Collector.Stepped.{
  AllFree, AllMarked, to_free, to_unavailable, to_recyclable, freed, filled, holed, sweep_block_lem,
}

abbrev Result : List ℕ → Sweeping → Type 0
Result blocks s =
    (s' : Sweeping) × (f : List ℕ) × (u : List ℕ) × (r : List ℕ) × (sweep_blocks blocks s ≡ some s')
    × (s'.free ≡ s.free ++ f)
    × (s'.unavailable ≡ s.unavailable ++ u)
    × (s'.recyclable ≡ s.recyclable ++ r)
    × Swept s.memory s'.memory blocks f u r

-- The rest of the loop, after one step.
module _ (x : ℕ) (xs : List ℕ) (s : Sweeping) (fresh : count x xs ≡ 0) where
  after_free :
      sweep_block s x ≡ some (to_free s x)
      → AllFree (s.memory x)
      → Result xs (to_free s x)
      → Result (x ∷ xs) s
  unfolding sweep_blocks
  after_free e all (s', f, u, r, run, ef, eu, er, w) = (
    s',
    x ∷ f,
    u,
    r,
    rw e run,
    ef ∙ append_assoc s.free (x ∷ []) f,
    eu,
    er,
    record {
      parts = λ b. omega (arith, w.parts b);
      each_free =
          Each-cons s.memory s'.memory x _ xs fresh w.kept Freed f (λ b. omega (arith, w.parts b))
            (all, refl) w.each_free;
      each_full =
          Each-other s.memory s'.memory x _ xs fresh w.kept Filled u (λ b. omega (arith, w.parts b))
            w.each_full;
      each_holed =
          Each-other s.memory s'.memory x _ xs fresh w.kept Holed r (λ b. omega (arith, w.parts b))
            w.each_holed;
      kept = kept-cons s.memory s'.memory x _ xs fresh w.kept;
    },
  )

  after_full :
      (h : VecMap)
      → sweep_block s x ≡ some (to_unavailable s x h)
      → AllMarked (s.memory x)
      → Result xs (to_unavailable s x h)
      → Result (x ∷ xs) s
  unfolding sweep_blocks
  after_full h e all (s', f, u, r, run, ef, eu, er, w) = (
    s',
    f,
    x ∷ u,
    r,
    rw e run,
    ef,
    eu ∙ append_assoc s.unavailable (x ∷ []) u,
    er,
    record {
      parts = λ b. omega (arith, w.parts b);
      each_free =
          Each-other s.memory s'.memory x _ xs fresh w.kept Freed f (λ b. omega (arith, w.parts b))
            w.each_free;
      each_full =
          Each-cons s.memory s'.memory x _ xs fresh w.kept Filled u (λ b. omega (arith, w.parts b))
            (all, refl) w.each_full;
      each_holed =
          Each-other s.memory s'.memory x _ xs fresh w.kept Holed r (λ b. omega (arith, w.parts b))
            w.each_holed;
      kept = kept-cons s.memory s'.memory x _ xs fresh w.kept;
    },
  )

  after_holed :
      (h : VecMap) (n : ℕ)
      → sweep_block s x ≡ some (to_recyclable s x h n)
      → ¬ AllFree (s.memory x)
      → ¬ AllMarked (s.memory x)
      → n ≢ 0
      → n ≡ hole_starts (s.memory x)
      → Result xs (to_recyclable s x h n)
      → Result (x ∷ xs) s
  unfolding sweep_blocks
  after_holed h n e nf nm ne q (s', f, u, r, run, ef, eu, er, w) = (
    s',
    f,
    u,
    x ∷ r,
    rw e run,
    ef,
    eu,
    er ∙ append_assoc s.recyclable (x ∷ []) r,
    record {
      parts = λ b. omega (arith, w.parts b);
      each_free =
          Each-other s.memory s'.memory x _ xs fresh w.kept Freed f (λ b. omega (arith, w.parts b))
            w.each_free;
      each_full =
          Each-other s.memory s'.memory x _ xs fresh w.kept Filled u (λ b. omega (arith, w.parts b))
            w.each_full;
      each_holed =
          Each-cons s.memory s'.memory x _ xs fresh w.kept Holed r (λ b. omega (arith, w.parts b))
            (nf, nm, ne, ap (λ k. record (s.memory x) { hole_count = k }) q) w.each_holed;
      kept = kept-cons s.memory s'.memory x _ xs fresh w.kept;
    },
  )

  still_blocks :
      (blk : ImmixBlock)
      → ((b : ℕ) → 0 < count b (x ∷ xs) → IsBlock (s.memory b))
      → (b : ℕ) → 0 < count b xs
      → IsBlock (write s.memory x blk b)
  still_blocks blk v b h =
      let e : write s.memory x blk b ≡ s.memory b = ground arith in rw e (v b (omega arith))

sweep_blocks_lem :
    (blocks : List ℕ) (s : Sweeping)
    → Distinct blocks
    → ((b : ℕ) → 0 < count b blocks → IsBlock (s.memory b))
    → Result blocks s
unfolding sweep_blocks
sweep_blocks_lem [] s d v = (
  s,
  [],
  [],
  [],
  refl,
  sym (append-nil _),
  sym (append-nil _),
  sym (append-nil _),
  record {
    parts = λ b. omega arith;
    each_free = λ b h. absurd (omega arith);
    each_full = λ b h. absurd (omega arith);
    each_holed = λ b h. absurd (omega arith);
    kept = λ b h. refl;
  },
)
sweep_blocks_lem (x ∷ xs) s d v = elim (sweep_block_lem s x (v x (ground arith))) [
  | freed e all ↦
      after_free x xs s d.0 e all
        (sweep_blocks_lem xs (to_free s x) d.1 (still_blocks x xs s d.0 _ v))
  | filled h e all ↦
      after_full x xs s d.0 h e all
        (sweep_blocks_lem xs (to_unavailable s x h) d.1 (still_blocks x xs s d.0 _ v))
  | holed h n e nf nm ne q ↦
      after_holed x xs s d.0 h n e nf nm ne q
        (sweep_blocks_lem xs (to_recyclable s x h n) d.1 (still_blocks x xs s d.0 _ v))
]

-- `sweep_all_blocks` on distinct valid blocks does not panic, keeps every block exactly once, frees
-- exactly those with no marked line and resets their headers, keeps exactly those with every line
-- marked, makes the others recyclable, and touches no other header. The hole count stored in a recyclable
-- block is that of its free lines, a line not counted if the line before it is.
pub sweep_all_blocks_lem :
    (c : Collector) (memory : Memory)
    → Distinct c.all_blocks
    → ((b : ℕ) → 0 < count b c.all_blocks → IsBlock (memory b))
    → (c' : Collector) × (memory' : Memory) × (recyclable : List ℕ) × (free : List ℕ)
      × (sweep_all_blocks c memory ≡ some (c', memory', recyclable, free))
      × Swept memory memory' c.all_blocks free c'.all_blocks recyclable
unfolding sweep_all_blocks
sweep_all_blocks_lem c memory d v =
    let r =
      sweep_blocks_lem c.all_blocks
        (record {
          memory = memory;
          histogram = c.mark_histogram;
          unavailable = [];
          recyclable = [];
          free = [];
        })
        d v in
    (
      record { all_blocks = r.0.unavailable; mark_histogram = r.0.histogram },
      r.0.memory,
      r.0.recyclable,
      r.0.free,
      rw r.4,
      rw (r.5, r.6, r.7) r.8,
    )
