-- ===== src/Collector.antt =====
-- `Collector` of src/collector.rs: the decision before a collection, and the sweep of the blocks
-- after it. The tracing between the two is not here. A `VecMap` (of the crate vec_map) is a partial
-- function. `none` is a panic.
pub mod Stepped
pub mod Swept
pub mod Sweep
pub mod Threshold
pub mod Prepare
mod Tests
use libimmixcons.Base.{
  ℕ, zero, suc, ◌+◌, ◌-◌, ◌*◌, ◌/◌, Bool, true, false, not, ◌&&◌, ◌||◌, Option, none, some, List,
  [], ◌∷◌, ◌++◌, ◌==◌, ltb, leb, if◌then◌else◌, ◌>>=◌, push,
}
use libimmixcons.Constants.{num_lines_per_block}
use libimmixcons.Block
use libimmixcons.Block.{ImmixBlock}
use libimmixcons.BlockAllocator.{Memory, write}

-- `CollectionType` of src/lib.rs.
pub data CollectionType : Type 0 where
  immix_collection immix_evac_collection : CollectionType

abbrev pub VecMap : Type 0
VecMap = ℕ → Option ℕ

abbrev pub empty_map : VecMap
empty_map k = none

-- The branches on `contains_key`: add to the value, or insert.
pub add_lines : VecMap → ℕ → ℕ → VecMap
add_lines map holes lines k = elim (map holes) [
  | some val ↦ if k == holes then some (val + lines) else map k
  | none ↦ if k == holes then some lines else map k
]

-- `*map.get(k).unwrap_or(&0)`.
abbrev pub get_or_zero : VecMap → ℕ → ℕ
get_or_zero map k = elim (map k) [ none ↦ 0 | some val ↦ val ]

pub record Collector : Type 0 where
  pub all_blocks : List ℕ
  pub mark_histogram : VecMap

pub new : Collector
new = record { all_blocks = []; mark_histogram = empty_map }

pub extend_all_blocks : Collector → List ℕ → Collector
extend_all_blocks c blocks = record c { all_blocks = c.all_blocks ++ blocks }

-- The variables of the loop of `sweep_all_blocks`, with the blocks' headers.
pub record Sweeping : Type 0 where
  pub memory : Memory
  pub histogram : VecMap
  pub unavailable : List ℕ
  pub recyclable : List ℕ
  pub free : List ℕ

pub sweep_block : Sweeping → ℕ → Option Sweeping
unfolding add_lines
sweep_block s block = do
  empty ← Block.is_empty (s.memory block)
  if empty
      then some (record s {
        memory = write s.memory block (Block.reset (s.memory block));
        free = push s.free block;
      })
      else (Block.count_holes (s.memory block) >>= λ (counted, n).
          Block.count_holes_and_marked_lines counted >>= λ (holes, marked_lines).
          let memory : Memory = write s.memory block counted in
          let histogram : VecMap = add_lines s.histogram holes marked_lines in
          if holes == 0
          then some (record s {
            memory = memory;
            histogram = histogram;
            unavailable = push s.unavailable block;
          })
          else some (record s {
            memory = memory;
            histogram = histogram;
            recyclable = push s.recyclable block;
          }))

pub sweep_blocks : List ℕ → Sweeping → Option Sweeping
sweep_blocks [] s = some s
sweep_blocks (block ∷ blocks) s = do s' ← sweep_block s block; sweep_blocks blocks s'

-- The collector and the headers afterwards, the recyclable and the free blocks.
pub sweep_all_blocks : Collector → Memory → Option (Collector × Memory × List ℕ × List ℕ)
unfolding sweep_blocks
sweep_all_blocks c memory = do
  s ← sweep_blocks c.all_blocks (record {
    memory = memory;
    histogram = c.mark_histogram;
    unavailable = [];
    recyclable = [];
    free = [];
  })
  some (
    record { all_blocks = s.unavailable; mark_histogram = s.histogram },
    s.memory,
    s.recyclable,
    s.free,
  )

-- The lines free in the blocks, by the blocks' hole counts.
pub available_histogram : Memory → List ℕ → VecMap → Option VecMap
unfolding add_lines
available_histogram memory [] map = some map
available_histogram memory (block ∷ blocks) map = do
  (holes, free_lines) ← Block.count_holes_and_available_lines (memory block)
  available_histogram memory blocks (add_lines map holes free_lines)

-- The loop over the thresholds; `rounds` are left.
pub threshold_from : VecMap → VecMap → ℕ → ℕ → ℕ → ℕ → ℕ
threshold_from marks free zero threshold required available = num_lines_per_block
threshold_from marks free (suc rounds) threshold required available =
    let required' = required + get_or_zero marks threshold in
    let available' = available - get_or_zero free threshold in
    let rest = threshold_from marks free rounds (threshold + 1) required' available' in
    if leb available' required' then threshold else rest

pub establish_hole_threshhold : Collector → Memory → ℕ → Option ℕ
unfolding threshold_from
establish_hole_threshhold c memory evac_headroom = do
  free ← available_histogram memory c.all_blocks empty_map
  some (
      threshold_from c.mark_histogram free num_lines_per_block 0 0
        (evac_headroom * (num_lines_per_block - 1)))

-- The two loops that choose the evacuation candidates.
pub set_candidates : (ImmixBlock → Bool) → List ℕ → Memory → Memory
set_candidates test [] memory = memory
set_candidates test (block ∷ blocks) memory =
    set_candidates test blocks
      (write memory block (record (memory block) { evacuation_candidate = test (memory block) }))

abbrev pub use_evacuation : Bool
use_evacuation = true

-- `total_blocks as f64 * 0.25` is exact below 2 ^ 53, and the cast rounds down.
abbrev pub evac_threshold : ℕ → ℕ
evac_threshold total_blocks = total_blocks / 4

pub prepare_collection :
    Collector → Memory → Bool → ℕ → ℕ → ℕ → Bool → Option (Memory × CollectionType)
unfolding set_candidates
prepare_collection c memory evacuation available_blocks evac_headroom total_blocks emergency =
    if emergency && use_evacuation
    then some (set_candidates (λ b. true) c.all_blocks memory, immix_evac_collection)
    else if evacuation || ltb (available_blocks + evac_headroom) (evac_threshold total_blocks)
    then (establish_hole_threshhold c memory evac_headroom >>= λ hole_threshhold.
        if use_evacuation && ltb 0 hole_threshhold
        then some (
          set_candidates (λ b. leb hole_threshhold b.hole_count) c.all_blocks memory,
          immix_evac_collection,
        )
        else some (memory, immix_collection))
    else some (memory, if evacuation then immix_evac_collection else immix_collection)
