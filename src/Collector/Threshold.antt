-- ===== src/Collector/Threshold.antt =====
-- `establish_hole_threshhold` of src/collector.rs: how many holes make a block a candidate.
use libimmixcons.Base.{
  ℕ, zero, suc, ◌+◌, ◌-◌, ◌*◌, ◌≤◌, ◌<◌, ◌≡◌, refl, some, arith, count, List, [], ◌∷◌, dec_lt, ◌∙◌,
  Bool, Option, none, true, false, ◌==◌, if◌then◌else◌, ℕ_discrete,
}
use libimmixcons.Block.Find.{IsBlock}
use libimmixcons.Block.Totals.{free_lines, available_lines_lem}
use libimmixcons.BlockAllocator.{Memory}
use libimmixcons.Collector.{
  Collector, VecMap, get_or_zero, empty_map, add_lines, threshold_from, available_histogram,
  establish_hole_threshhold,
}

-- The lines recorded for the hole counts `from` and the `n` after it.
abbrev pub sum_from : VecMap → ℕ → ℕ → ℕ
sum_from map from zero = get_or_zero map from
sum_from map from (suc n) = get_or_zero map from + sum_from map (from + 1) n

-- `r` is the first of the thresholds from `t` whose marked lines, with those required before, reach
-- the lines available; it is 256 when none does.
pub record First (marks free : VecMap) (t required available r : ℕ) : Type 0 where
  pub above : t ≤ r
  pub within : r ≤ 256
  pub before : (k : ℕ) → t + k < r → required + sum_from marks t k + sum_from free t k < available
  pub reached :
      (k : ℕ) → t + k ≡ r → r < 256 → available ≤ required + sum_from marks t k + sum_from free t k

module _ (marks free : VecMap) (t required available : ℕ) (room : t < 256) where
  First-now :
      available - get_or_zero free t ≤ required + get_or_zero marks t
      → First marks free t required available t
  First-now le = record {
    above = omega arith;
    within = omega arith;
    before = λ k h. absurd (omega arith);
    reached = λ k e h. let e0 : k ≡ 0 = omega arith in rw e0 (omega arith);
  }

  First-later :
      (r : ℕ)
      → required + get_or_zero marks t < available - get_or_zero free t
      → First marks free (t + 1) (required + get_or_zero marks t) (available - get_or_zero free t) r
      → First marks free t required available r
  First-later r lt f = record {
    above = omega (arith, f.above);
    within = f.within;
    before = before;
    reached = reached;
  }
    where
      before : (k : ℕ) → t + k < r → required + sum_from marks t k + sum_from free t k < available
      before zero h = omega arith
      before (suc k) h = omega (arith, f.before k (omega arith))

      reached :
          (k : ℕ)
          → t + k ≡ r
          → r < 256
          → available ≤ required + sum_from marks t k + sum_from free t k
      reached zero e h = absurd (omega (arith, f.above))
      reached (suc k) e h = omega (arith, f.reached k (omega arith) h)

threshold_from-First :
    (marks free : VecMap) (rounds t required available : ℕ)
    → t + rounds ≡ 256
    → First marks free t required available (threshold_from marks free rounds t required available)
unfolding threshold_from
threshold_from-First marks free zero t required available e = record {
  above = omega arith;
  within = omega arith;
  before = λ k h. absurd (omega arith);
  reached = λ k e h. absurd (omega arith);
}
threshold_from-First marks free (suc rounds) t required available e =
    let required' : ℕ = required + get_or_zero marks t in
    let available' : ℕ = available - get_or_zero free t in
    let ih = threshold_from-First marks free rounds (t + 1) required' available' (omega arith) in
    elim (dec_lt required' available') [
      | yes lt ↦ ground (arith, First-later marks free t required available (omega arith) _ lt ih)
      | no ge ↦
          ground (arith, First-now marks free t required available (omega arith) (omega arith))
    ]

-- The lines that are not marked in those of the blocks whose hole count is `k`.
abbrev pub free_with : Memory → List ℕ → ℕ → ℕ
free_with memory [] k = 0
free_with memory (b ∷ blocks) k =
    (if (memory b).hole_count == k then free_lines (memory b) else 0) + free_with memory blocks k

-- An entry after the branches of `add_lines`, `was` the entry of `holes`.
entry_after : Option ℕ → Option ℕ → Bool → ℕ → ℕ
entry_after was at_k here n =
    get_or_zero
      (λ k. elim was [
        | some val ↦ if here then some (val + n) else at_k
        | none ↦ if here then some n else at_k
      ])
      0

entry_after-here :
    (was : Option ℕ) (n : ℕ) → entry_after was was true n ≡ get_or_zero (λ k. was) 0 + n
unfolding entry_after
entry_after-here none n = omega arith
entry_after-here (some val) n = refl

entry_after-away :
    (was at_k : Option ℕ) (n : ℕ) → entry_after was at_k false n ≡ get_or_zero (λ k. at_k) 0
unfolding entry_after
entry_after-away none at_k n = refl
entry_after-away (some val) at_k n = refl

add_lines-entry_after :
    (map : VecMap) (holes n k : ℕ)
    → get_or_zero (add_lines map holes n) k ≡ entry_after (map holes) (map k) (k == holes) n
unfolding add_lines entry_after
add_lines-entry_after map holes n k = refl

add_lines-get_or_zero :
    (map : VecMap) (holes n k : ℕ)
    → get_or_zero (add_lines map holes n) k ≡ get_or_zero map k + (if holes == k then n else 0)
add_lines-get_or_zero map holes n k = elim (ℕ_discrete holes k) [
  | yes e ↦
      let self : (holes == holes) ≡ true = ground arith in
      rw (← e, add_lines-entry_after map holes n holes, self) (entry_after-here (map holes) n)
  | no ne ↦
      let other : (k == holes) ≡ false = ground arith in
      let other' : (holes == k) ≡ false = ground arith in
      rw (add_lines-entry_after map holes n k, other, other')
        (entry_after-away (map holes) (map k) n ∙ omega arith)
]

available_histogram-free :
    (memory : Memory) (blocks : List ℕ) (map : VecMap)
    → ((b : ℕ) → 0 < count b blocks → IsBlock (memory b))
    → (free : VecMap) × (available_histogram memory blocks map ≡ some free)
      × ((k : ℕ) → get_or_zero free k ≡ get_or_zero map k + free_with memory blocks k)
unfolding available_histogram
available_histogram-free memory [] map v = (map, refl, λ k. omega arith)
available_histogram-free memory (x ∷ xs) map v =
    let ea = available_lines_lem (v x (ground arith)) in
    let (free, run, at) =
      available_histogram-free memory xs
        (add_lines map (memory x).hole_count (free_lines (memory x))) (λ b h. v b (ground arith)) in
    (
      free,
      rw ea run,
      λ k.
          omega (
            arith,
            at k,
            add_lines-get_or_zero map (memory x).hole_count (free_lines (memory x)) k,
          ),
    )

-- `r` is the threshold for the blocks: the first hole count at which the lines that are marked in the
-- blocks with no more holes, by the histogram of the last collection, reach what the free lines of
-- these blocks leave of the headroom's lines; 256 if there is none.
pub record IsThreshold (c : Collector) (memory : Memory) (evac_headroom r : ℕ) : Type 0 where
  pub free : VecMap
  pub counts : (k : ℕ) → get_or_zero free k ≡ free_with memory c.all_blocks k
  pub first : First c.mark_histogram free 0 0 (evac_headroom * 255) r

-- The call succeeds. It gives the first hole count at which the marked lines of the histogram up to it,
-- together with the free lines of the blocks with at most so many holes, reach 255 lines for each
-- block of the headroom, and 256 if no hole count does. The headers of the blocks are well formed.
pub establish_hole_threshhold_lem :
    (c : Collector) (memory : Memory) (evac_headroom : ℕ)
    → ((b : ℕ) → 0 < count b c.all_blocks → IsBlock (memory b))
    → (r : ℕ) × (establish_hole_threshhold c memory evac_headroom ≡ some r)
      × IsThreshold c memory evac_headroom r
unfolding establish_hole_threshhold
establish_hole_threshhold_lem c memory evac_headroom v =
    let (free, e, at) = available_histogram-free memory c.all_blocks empty_map v in
    (
      _,
      rw e refl,
      record {
        free = free;
        counts = λ k. omega (arith, at k);
        first = threshold_from-First c.mark_histogram free 256 0 0 (evac_headroom * 255) refl;
      },
    )
