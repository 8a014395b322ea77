-- ===== src/Block/Tests.antt =====
-- Runs on a block at 65536 in which an object of 250 bytes marks the lines 1, 2 and 3.
use libimmixcons.Base.{ℕ, ◌≡◌, refl, Option, some, List, [], ◌∷◌, arith, All}
use libimmixcons.Align.{align_usize}
use libimmixcons.LineMap
use libimmixcons.LineMap.{LineMap}
use libimmixcons.Block.{
  scan_block, scan_block_from, find_line, count_holes, count_holes_from, line_object_mark,
  modify_line, modify_lines, object_size,
}
use libimmixcons.Block.Examples.{
  clean_block, marked_block, holed_block, clean_block-IsBlock, marked_block-IsBlock, clean_line,
}
use libimmixcons.Block.Find.{line}
use libimmixcons.Block.Holes.{Scanned}
use libimmixcons.Block.Scan.{scan_block_lem}
use libimmixcons.Block.Marking.{Apart, Lies, mark_all, hole-Apart-marked}
use libimmixcons.Block.Counts.{count_holes-one_run}

abbrev one_object : List ℕ
one_object = 65664 ∷ []

abbrev sizes : ℕ → ℕ
sizes object = 250

one_object-Lies : Lies sizes 65536 65664
unfolding object_size align_usize
one_object-Lies = record { above = omega arith; below = omega arith }

mark_run : mark_all sizes clean_block one_object ≡ some marked_block
unfolding mark_all line_object_mark modify_line modify_lines object_size align_usize LineMap.set
mark_run = refl

scan_run : scan_block marked_block 0 ≡ some (some (640, 32767))
unfolding scan_block scan_block_from find_line LineMap.test align_usize
scan_run = refl

count_run : count_holes holed_block ≡ some (record holed_block { hole_count = 32 }, 32)
unfolding count_holes count_holes_from LineMap.test
count_run = refl

-- The witnesses.
hole-Apart-marked_example : All (Apart sizes 65536 640 32767) one_object
hole-Apart-marked_example =
    hole-Apart-marked sizes clean_block marked_block one_object 0 640 32767 clean_block-IsBlock
      (one_object-Lies, tt) mark_run (omega arith) scan_run

scan_block_lem_example :
    (r : Option (ℕ × ℕ)) × (scan_block marked_block 300 ≡ some r) × Scanned (line marked_block) 2 r
scan_block_lem_example = scan_block_lem marked_block-IsBlock 300 (omega arith)

count_holes-one_run_example :
    count_holes clean_block ≡ some (record clean_block { hole_count = 128 }, 128)
count_holes-one_run_example =
    count_holes-one_run 0 256 clean_block-IsBlock (omega arith) (λ j h. absurd (omega arith))
      (λ j p q. clean_line j) (λ j p q. absurd (omega arith))
