-- ===== src/Block.antt =====
-- src/block.rs: a block of 32 KiB and its lines. A block is known by its address, `begin`, which
-- is a multiple of the block size; its header lies in line 0. `none` in the outer `Option` is a panic.
-- The size of an object comes from its runtime type (`GCRTTI.heap_size`, a function of the
-- embedder's), hence the argument `heap_size`, from an object's address to its size.
pub mod Totals
pub mod Remarked
pub mod Holes
pub mod Find
pub mod Scan
pub mod Marking
pub mod Counts
pub mod Examples
mod Tests
use libimmixcons.Base.{
  ℕ, zero, suc, ◌+◌, ◌-◌, ◌*◌, ◌/◌, ◌%◌, ◌^◌, Bool, true, false, not, ◌&&◌, Option, none, some,
  ◌==◌, ltb, leb, if◌then◌else◌, ◌>>=◌, checked_sub,
}
use libimmixcons.Constants.{line_size, block_size, num_lines_per_block}
use libimmixcons.Align.{align_usize}
use libimmixcons.LineMap
use libimmixcons.LineMap.{LineMap}

pub record ImmixBlock : Type 0 where
  pub begin : ℕ
  pub line_map : LineMap
  pub allocated : Bool
  pub hole_count : ℕ
  pub evacuation_candidate : Bool

-- The fields, and padding to a multiple of 8.
abbrev pub size_of_ImmixBlock : ℕ
size_of_ImmixBlock = 48

unfoldable pub get_block_ptr : ℕ → ℕ
get_block_ptr object = let off = object % block_size in object - off

unfoldable pub new : ℕ → ImmixBlock
new at = record {
  begin = at;
  line_map = LineMap.new;
  allocated = false;
  hole_count = 0;
  evacuation_candidate = false;
}

pub is_in_block : ImmixBlock → ℕ → Bool
is_in_block blk p =
    if blk.allocated
    then (let b = blk.begin in let e = b + block_size in ltb b p && leb p e)
    else false

-- The two loops of `scan_block`: the first index, of `rounds` many from `index` on, whose line is
-- marked or not as `want` says.
pub find_line : Bool → ImmixBlock → ℕ → ℕ → Option (Option ℕ)
find_line want blk zero index = some none
find_line want blk (suc rounds) index = do
  marked ← LineMap.test blk.line_map (blk.begin + index * line_size) blk.begin
  let rest = find_line want blk rounds (index + 1)
  elim want [
    | true ↦ if marked then some (some index) else rest
    | false ↦ if not marked then some (some index) else rest
  ]

-- `low_index` and `high_index` after their loops.
abbrev pub low_index_of : Option ℕ → ℕ
low_index_of none = num_lines_per_block - 1
low_index_of (some index) = index + 1

abbrev pub high_index_of : Option ℕ → ℕ
high_index_of none = num_lines_per_block
high_index_of (some index) = index

abbrev pub u16 : ℕ → ℕ
u16 n = n % 2 ^ 16

-- `scan_block` calls itself; the first argument is fuel.
pub scan_block_from : ℕ → ImmixBlock → ℕ → Option (Option (ℕ × ℕ))
scan_block_from zero blk last_high_offset = none
scan_block_from (suc fuel) blk last_high_offset = do
  let last_high_index = last_high_offset / line_size
  unmarked ← find_line false blk (num_lines_per_block - (last_high_index + 1)) (last_high_index + 1)
  let low_index = low_index_of unmarked
  marked ← find_line true blk (num_lines_per_block - low_index) low_index
  let high_index = high_index_of marked
  let again = scan_block_from fuel blk (u16 (high_index * line_size - 1))
  if low_index == high_index && not (high_index == num_lines_per_block - 1)
      then again
      else if ltb low_index (num_lines_per_block - 1)
      then some
          (some (u16 (align_usize (low_index * line_size) 16), u16 (high_index * line_size - 1)))
      else some none

pub scan_block : ImmixBlock → ℕ → Option (Option (ℕ × ℕ))
unfolding scan_block_from
scan_block blk last_high_offset = scan_block_from 257 blk last_high_offset

-- The loop of `count_holes`, with its two variables.
pub count_holes_from : ImmixBlock → ℕ → ℕ → ℕ → Bool → Option ℕ
count_holes_from blk zero i holes in_hole = some holes
count_holes_from blk (suc rounds) i holes in_hole = do
  marked ← LineMap.test blk.line_map (blk.begin + line_size * i) blk.begin
  let starts = not in_hole && not marked
  count_holes_from blk rounds (i + 1) (if starts then holes + 1 else holes) starts

pub count_holes : ImmixBlock → Option (ImmixBlock × ℕ)
unfolding count_holes_from
count_holes blk = do
  holes ← count_holes_from blk num_lines_per_block 0 0 false
  some (record blk { hole_count = holes % 2 ^ 32 }, holes)

unfoldable pub offset : ImmixBlock → ℕ → ℕ
offset blk off = blk.begin + off

pub is_empty : ImmixBlock → Option Bool
unfolding find_line
is_empty blk = do
  marked ← find_line true blk num_lines_per_block 0
  elim marked [ none ↦ some true | some line ↦ some false ]

pub object_to_line_num : ℕ → ℕ
object_to_line_num object = object % block_size / line_size

-- The loop of `modify_line`.
pub modify_lines : ImmixBlock → Bool → ℕ → ℕ → Option ImmixBlock
modify_lines blk mark zero line = some blk
modify_lines blk mark (suc rounds) line = do
  (line_map, changed) ← elim mark [
    | true ↦ LineMap.set blk.line_map (blk.begin + line * line_size) blk.begin
    | false ↦ LineMap.clear blk.line_map (blk.begin + line * line_size) blk.begin
  ]
  modify_lines (record blk { line_map = line_map }) mark rounds (line + 1)

module _ (heap_size : ℕ → ℕ) where
  -- `RawGc::object_size`.
  unfoldable pub object_size : ℕ → ℕ
  object_size object = align_usize (heap_size object) 16

  pub modify_line : ImmixBlock → ℕ → Bool → Option ImmixBlock
  unfolding modify_lines object_to_line_num object_size
  modify_line blk object mark =
      modify_lines blk mark (object_size object / line_size + 1) (object_to_line_num object)

  pub line_object_mark : ImmixBlock → ℕ → Option ImmixBlock
  unfolding modify_line
  line_object_mark blk object = modify_line blk object true

  pub line_object_unmark : ImmixBlock → ℕ → Option ImmixBlock
  unfolding modify_line
  line_object_unmark blk object = modify_line blk object false

-- The loop of the two counts, over the lines from `line` on.
pub count_lines : Bool → ImmixBlock → ℕ → ℕ → ℕ → Option ℕ
count_lines want blk zero line count = some count
count_lines want blk (suc rounds) line count = do
  marked ← LineMap.test blk.line_map (line * line_size + blk.begin) blk.begin
  let counted = elim want as (λ x. Bool) [ true ↦ marked | false ↦ not marked ]
  count_lines want blk rounds (line + 1) (if counted then count + 1 else count)

pub count_holes_and_marked_lines : ImmixBlock → Option (ℕ × ℕ)
unfolding count_lines
count_holes_and_marked_lines blk = do
  count ← count_lines true blk num_lines_per_block 0 0
  some (blk.hole_count, count)

pub count_holes_and_available_lines : ImmixBlock → Option (ℕ × ℕ)
unfolding count_lines
count_holes_and_available_lines blk = do
  count ← count_lines false blk num_lines_per_block 0 0
  some (blk.hole_count, count)

pub reset : ImmixBlock → ImmixBlock
reset blk = record blk {
  line_map = LineMap.clear_all blk.line_map;
  allocated = false;
  hole_count = 0;
  evacuation_candidate = false;
}

pub line_is_marked : ImmixBlock → ℕ → Option Bool
line_is_marked blk line = LineMap.test blk.line_map (blk.begin + line * line_size) blk.begin
