-- ===== src/LineMap.antt =====
-- src/util/bitmap_const.rs: the bitmap that the macro `space_bitmap_gen!` generates, at the one
-- place where the crate uses it: `LineMap` of src/block.rs, one bit for each line of a block.
-- An index out of the array is a panic, and so is a subtraction that overflows.
pub mod Words
pub mod Laws
mod Tests
use Prim.Native.Nat.{bit_and, bit_or}
use libimmixcons.Base.{
  ℕ, zero, suc, ◌+◌, ◌-◌, ◌*◌, ◌/◌, ◌%◌, ◌^◌, Bool, true, false, not, Option, none, some, List, [],
  ◌∷◌, ◌==◌, if◌then◌else◌, ◌>>=◌, checked_sub, bit_not, get_elem?, set as set_elem, length,
  replicate,
}
use libimmixcons.Constants.{line_size, block_size, size_of_usize}

-- `round_down` and `round_up` of src/util.rs.
unfoldable pub round_down : ℕ → ℕ → ℕ
round_down x n = bit_and x (bit_not n)

unfoldable pub round_up : ℕ → ℕ → ℕ
round_up x n = round_down (x + n - 1) n

-- In bytes.
pub bitmap_size : ℕ
unfolding round_up round_down
bitmap_size =
    let bytes_covered_per_word = line_size * (size_of_usize * 8) in
    round_up block_size bytes_covered_per_word / bytes_covered_per_word * size_of_usize

pub record LineMap : Type 0 where
  pub bitmap : List ℕ

pub offset_bit_index : ℕ → ℕ
offset_bit_index offset = offset / line_size % (size_of_usize * 8)

pub offset_to_index : ℕ → ℕ
offset_to_index offset = offset / line_size / (size_of_usize * 8)

pub index_to_offset : ℕ → ℕ
index_to_offset index = index * line_size * (size_of_usize * 8)

pub offset_to_mask : ℕ → ℕ
offset_to_mask offset = 2 ^ (offset / line_size % (size_of_usize * 8))

pub new : LineMap
unfolding bitmap_size
new = record { bitmap = replicate (bitmap_size / size_of_usize) 0 }

zero_words : List ℕ → List ℕ
zero_words [] = []
zero_words (word ∷ words) = 0 ∷ zero_words words

pub clear_all : LineMap → LineMap
unfolding zero_words
clear_all m = record { bitmap = zero_words m.bitmap }

no_word_set : List ℕ → Bool
no_word_set [] = true
no_word_set (word ∷ words) = if not (word == 0) then false else no_word_set words

pub is_empty : LineMap → Bool
unfolding no_word_set
is_empty m = no_word_set m.bitmap

unfoldable pub test : LineMap → ℕ → ℕ → Option Bool
unfolding offset_to_index offset_to_mask
test m object heap_begin = do
  offset ← checked_sub object heap_begin
  entry ← get_elem? m.bitmap (offset_to_index offset)
  some (not (bit_and entry (offset_to_mask offset) == 0))

-- The new bitmap, and whether the bit was changed.
unfoldable pub set : LineMap → ℕ → ℕ → Option (LineMap × Bool)
unfolding offset_to_index offset_to_mask
set m object heap_begin = do
  offset ← checked_sub object heap_begin
  entry ← get_elem? m.bitmap (offset_to_index offset)
  let mask = offset_to_mask offset
  if bit_and entry mask == 0
      then some
          (record { bitmap = set_elem m.bitmap (offset_to_index offset) (bit_or entry mask) }, true)
      else some (m, false)

pub clear : LineMap → ℕ → ℕ → Option (LineMap × Bool)
unfolding offset_to_index offset_to_mask
clear m object heap_begin = do
  offset ← checked_sub object heap_begin
  entry ← get_elem? m.bitmap (offset_to_index offset)
  let mask = offset_to_mask offset
  if not (bit_and entry mask == 0)
      then some (
        record {
          bitmap = set_elem m.bitmap (offset_to_index offset) (bit_and entry (bit_not mask));
        },
        true,
      )
      else some (m, false)
