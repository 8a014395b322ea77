-- ===== src/SpaceBitmap/Atomic.antt =====
-- `atomic_test_and_set` of the feature `threaded` (src/space_bitmap.rs), run by any number of threads
-- on the same bitmap, each for its own object: a thread loads the word of its object and returns if
-- the bit is there, or else tries to exchange the word for one with the bit. The exchange is weak: it
-- may fail for no reason. An object is the offset of its address from the beginning of the heap.
pub mod Once
pub mod Progress
mod Tests
use libimmixcons.Base.{
  ℕ, Bool, true, false, not, List, ◌≡◌, ◌<◌, ◌^◌, ◌==◌, if◌then◌else◌, bit_and, bit_or, get_or,
  length,
}
use libimmixcons.Base.{set as set_elem}
use libimmixcons.SpaceBitmap.{SpaceBitmap, offset_to_index, offset_to_mask}

-- Where a thread is: at the load, with a word loaded whose bit is 0, or returned.
pub data Point : Type 0 where
  at_load : Point
  loaded : ℕ → Point
  returned : Bool → Point

pub record Marking : Type 0 where
  pub bitmap : SpaceBitmap
  pub point : ℕ → Point

abbrev pub put_point : (ℕ → Point) → ℕ → Point → ℕ → Point
put_point f i p j = if i == j then p else f j

-- Every thread is about to load.
abbrev pub start : SpaceBitmap → Marking
start m = record { bitmap = m; point = λ i. at_load }

-- The word of an object.
pub entry : SpaceBitmap → ℕ → ℕ
unfolding offset_to_index
entry m off = get_or m.words (offset_to_index off) 0

pub with_entry : SpaceBitmap → ℕ → ℕ → SpaceBitmap
unfolding offset_to_index
with_entry m off word = record m { words = set_elem m.words (offset_to_index off) word }

-- The load and the test after it.
pub after_load : ℕ → ℕ → Point
unfolding offset_to_mask
after_load off old_word =
    if not (bit_and old_word (offset_to_mask off) == 0) then returned true else loaded old_word

-- The word of a successful exchange.
pub marked_word : ℕ → ℕ → ℕ
unfolding offset_to_mask
marked_word off old_word = bit_or old_word (offset_to_mask off)

-- Thread `i` marks the object at `object i`.
pub data Step (object : ℕ → ℕ) (s : Marking) : Marking → Type 0 where
  load :
      (i : ℕ)
      → s.point i ≡ at_load
      → Step object s (record s {
        point = put_point s.point i (after_load (object i) (entry s.bitmap (object i)));
      })
  exchange :
      (i old_word : ℕ)
      → s.point i ≡ loaded old_word
      → entry s.bitmap (object i) ≡ old_word
      → Step object s (record {
        bitmap = with_entry s.bitmap (object i) (marked_word (object i) old_word);
        point = put_point s.point i (returned false);
      })
  fail :
      (i old_word : ℕ)
      → s.point i ≡ loaded old_word
      → Step object s (record s { point = put_point s.point i at_load })

pub data Reach (object : ℕ → ℕ) (s : Marking) : Marking → Type 0 where
  here : Reach object s s
  next : {t u : Marking} → Reach object s t → Step object t u → Reach object s u
