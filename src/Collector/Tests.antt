-- ===== src/Collector/Tests.antt =====
-- Runs of the collector with a block with holes and a block with no marks.
use libimmixcons.Base.{
  ℕ, ◌<◌, ◌≡◌, refl, Bool, true, false, some, List, [], ◌∷◌, count, ◌==◌, if◌then◌else◌,
}
use libimmixcons.Block.Find.{IsBlock}
use libimmixcons.Block.Examples.{clean_block, holed_block, clean_block-IsBlock, holed_block-IsBlock}
use libimmixcons.BlockAllocator.{Memory}
use libimmixcons.Collector.{
  Collector, empty_map, sweep_all_blocks, establish_hole_threshhold, prepare_collection,
}
use libimmixcons.Collector.Swept.{Swept}
use libimmixcons.Collector.Sweep.{sweep_all_blocks_lem}
use libimmixcons.Collector.Threshold.{IsThreshold, establish_hole_threshhold_lem}
use libimmixcons.Collector.Prepare.{Prepared, Wanted, prepare_collection_lem}

abbrev two_blocks : Collector
two_blocks = record { all_blocks = 65536 ∷ 98304 ∷ []; mark_histogram = empty_map }

abbrev headers : Memory
headers b = if b == 65536 then holed_block else clean_block

headers-IsBlock : (b : ℕ) → 0 < count b (65536 ∷ 98304 ∷ []) → IsBlock (headers b)
headers-IsBlock b h = choose (b == 65536)
  where
    choose : (c : Bool) → IsBlock (if c then holed_block else clean_block)
    choose true = holed_block-IsBlock
    choose false = clean_block-IsBlock

-- The witnesses.
sweep_all_blocks_lem_example :
    (c' : Collector) × (memory' : Memory) × (recyclable : List ℕ) × (free : List ℕ)
    × (sweep_all_blocks two_blocks headers ≡ some (c', memory', recyclable, free))
    × Swept headers memory' (65536 ∷ 98304 ∷ []) free c'.all_blocks recyclable
sweep_all_blocks_lem_example =
    sweep_all_blocks_lem two_blocks headers (refl, (refl, tt)) headers-IsBlock

establish_hole_threshhold_lem_example :
    (r : ℕ) × (establish_hole_threshhold two_blocks headers 3 ≡ some r)
    × IsThreshold two_blocks headers 3 r
establish_hole_threshhold_lem_example =
    establish_hole_threshhold_lem two_blocks headers 3 headers-IsBlock

prepare_collection_lem_example :
    Prepared two_blocks headers false 3
      (Wanted false 1 3 100)
      (prepare_collection two_blocks headers false 1 3 100 false)
prepare_collection_lem_example =
    prepare_collection_lem two_blocks headers false 1 3 100 false headers-IsBlock
