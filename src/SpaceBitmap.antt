-- ===== src/SpaceBitmap.antt =====
-- `SpaceBitmap<16>` of src/space_bitmap.rs without the feature `threaded`: one bit for each 16 bytes of
-- the heap. `words` is the mapped bitmap. `none` is a panic, or an access outside of the bitmap: an
-- address below the heap has an index far past it.
pub mod Cleared
pub mod Granules
pub mod Range
pub mod Size
pub mod Walk
pub mod Atomic
mod Tests
use libimmixcons.Base.{
  ℕ, zero, suc, ◌+◌, ◌-◌, ◌*◌, ◌/◌, ◌%◌, ◌^◌, Bool, true, false, not, ◌&&◌, Option, none, some,
  List, [], ◌∷◌, ◌==◌, ltb, if◌then◌else◌, ◌>>=◌, bit_and, bit_or, bit_not, checked_sub, get_elem?,
  replicate, length,
}
use libimmixcons.Base.{set as set_elem}
use libimmixcons.Constants.{size_of_usize}
use libimmixcons.LineMap.{round_up}

abbrev pub granule : ℕ
granule = 16

pub record SpaceBitmap : Type 0 where
  pub words : List ℕ
  pub bitmap_size : ℕ
  pub heap_begin : ℕ
  pub heap_limit : ℕ

unfoldable pub offset_bit_index : ℕ → ℕ
offset_bit_index offset = offset / granule % (size_of_usize * 8)

unfoldable pub offset_to_index : ℕ → ℕ
offset_to_index offset = offset / granule / (size_of_usize * 8)

unfoldable pub index_to_offset : ℕ → ℕ
index_to_offset index = index * granule * (size_of_usize * 8)

unfoldable pub offset_to_mask : ℕ → ℕ
unfolding offset_bit_index
offset_to_mask offset = 2 ^ offset_bit_index offset

unfoldable pub compute_bitmap_size : ℕ → ℕ
compute_bitmap_size capacity =
    let bytes_covered_per_word = granule * (size_of_usize * 8) in
    round_up capacity bytes_covered_per_word / bytes_covered_per_word * size_of_usize

unfoldable pub compute_heap_size : ℕ → ℕ
compute_heap_size bitmap_bytes = bitmap_bytes * 8 * granule

-- `create`: the mapping of that many bytes reads as zeros.
unfoldable pub create : ℕ → ℕ → SpaceBitmap
create heap_begin heap_capacity =
    let bitmap_size = compute_bitmap_size heap_capacity in
    record {
      words = replicate (bitmap_size / size_of_usize) 0;
      bitmap_size = bitmap_size;
      heap_begin = heap_begin;
      heap_limit = heap_begin + heap_capacity;
    }

pub test : SpaceBitmap → ℕ → Option Bool
unfolding offset_to_index offset_to_mask
test m object = do
  offset ← checked_sub object m.heap_begin
  entry ← get_elem? m.words (offset_to_index offset)
  some (not (bit_and entry (offset_to_mask offset) == 0))

-- The new bitmap, and whether the bit was set before.
pub modify : Bool → SpaceBitmap → ℕ → Option (SpaceBitmap × Bool)
unfolding offset_to_index offset_to_mask
modify set_bit m obj = do
  offset ← checked_sub obj m.heap_begin
  old_word ← get_elem? m.words (offset_to_index offset)
  let mask = offset_to_mask offset
  let was_set = not (bit_and old_word mask == 0)
  let new_word = elim set_bit as (λ b. ℕ) [
    | true ↦ if bit_and old_word mask == 0 then bit_or old_word mask else old_word
    | false ↦ bit_and old_word (bit_not mask)
  ]
  some (record m { words = set_elem m.words (offset_to_index offset) new_word }, was_set)

unfoldable pub set : SpaceBitmap → ℕ → Option SpaceBitmap
unfolding modify
set m obj = do (m', was_set) ← modify true m obj; some m'

unfoldable pub clear : SpaceBitmap → ℕ → Option SpaceBitmap
unfolding modify
clear m obj = do (m', was_set) ← modify false m obj; some m'

pub set_heap_limit : SpaceBitmap → ℕ → Option SpaceBitmap
unfolding offset_to_index
set_heap_limit m new_end = do
  offset ← checked_sub new_end m.heap_begin
  let new_size = offset_to_index offset * size_of_usize
  some (record m {
    bitmap_size = if ltb new_size m.bitmap_size then new_size else m.bitmap_size;
    heap_limit = new_end;
  })

pub set_heap_size : SpaceBitmap → ℕ → SpaceBitmap
unfolding offset_to_index
set_heap_size m bytes = record m {
  heap_limit = m.heap_begin + bytes;
  bitmap_size = offset_to_index bytes * size_of_usize;
}

zeros : List ℕ → List ℕ
zeros [] = []
zeros (word ∷ words) = 0 ∷ zeros words

pub clear_to_zeros : SpaceBitmap → SpaceBitmap
unfolding zeros
clear_to_zeros m = record m { words = zeros m.words }

-- The two loops of `clear_range`, up and down to a word's boundary. A word has 64 bits, so 64 rounds
-- are enough.
pub clear_up : ℕ → SpaceBitmap → ℕ → ℕ → Option (SpaceBitmap × ℕ)
clear_up zero m begin_offset end_offset = none
clear_up (suc rounds) m begin_offset end_offset =
    let more = clear m (m.heap_begin + begin_offset) >>= λ m'.
    clear_up rounds m' (begin_offset + granule) end_offset in
    if ltb begin_offset end_offset && not (offset_bit_index begin_offset == 0)
    then more
    else some (m, begin_offset)

pub clear_down : ℕ → SpaceBitmap → ℕ → ℕ → Option (SpaceBitmap × ℕ)
clear_down zero m begin_offset end_offset = none
clear_down (suc rounds) m begin_offset end_offset =
    let more = checked_sub end_offset granule >>= λ end_offset'.
    clear m (m.heap_begin + end_offset') >>= λ m'. clear_down rounds m' begin_offset end_offset' in
    if ltb begin_offset end_offset && not (offset_bit_index end_offset == 0)
    then more
    else some (m, end_offset)

-- `write_bytes` of zeros over `count` words from `start` on.
pub zero_range : List ℕ → ℕ → ℕ → Option (List ℕ)
zero_range words zero zero = some words
zero_range [] start count = none
zero_range (word ∷ words) zero (suc count) = do rest ← zero_range words zero count; some (0 ∷ rest)
zero_range (word ∷ words) (suc start) count = do
  rest ← zero_range words start count
  some (word ∷ rest)

pub clear_range : SpaceBitmap → ℕ → ℕ → Option SpaceBitmap
unfolding offset_to_index
clear_range m begin end = do
  begin_offset ← checked_sub begin m.heap_begin
  end_offset ← checked_sub end m.heap_begin
  (m₁, begin_offset') ← clear_up 65 m begin_offset end_offset
  (m₂, end_offset') ← clear_down 65 m₁ begin_offset' end_offset
  let start_index = offset_to_index begin_offset'
  let end_index = offset_to_index end_offset'
  count ← checked_sub end_index start_index
  words ← zero_range m₂.words start_index count
  some (record m₂ { words = words })
