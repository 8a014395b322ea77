-- ===== src/SpaceBitmap/Atomic/Tests.antt =====
-- Two threads mark the same object of a bitmap with one word, and the second is too late.
use libimmixcons.Base.{
  ℕ, zero, suc, ◌<◌, ◌^◌, ◌≡◌, refl, Bool, true, false, ◌↔◌, ◌⊎◌, [], ◌∷◌, arith, get_or,
}
use libimmixcons.SpaceBitmap.{SpaceBitmap, offset_to_index, offset_to_mask}
use libimmixcons.SpaceBitmap.Granules.{IsBitmap, marked}
use libimmixcons.SpaceBitmap.Atomic.{
  Marking, start, returned, load, exchange, fail, Reach, here, next, entry, after_load, with_entry,
  marked_word,
}
use libimmixcons.SpaceBitmap.Atomic.Once.{
  granule_of, Winner, atomic_test_and_set-one, atomic_test_and_set-marked,
}
use libimmixcons.SpaceBitmap.Atomic.Progress.{Alone, atomic_test_and_set-Returns}

abbrev one_word : SpaceBitmap
one_word = record { words = 2 ∷ []; bitmap_size = 8; heap_begin = 4096; heap_limit = 5120 }

one_word-IsBitmap : IsBitmap one_word
one_word-IsBitmap = record { in_word = in_word }
  where
    in_word : (i : ℕ) → get_or (2 ∷ []) i 0 < 2 ^ 64
    in_word zero = omega arith
    in_word (suc i) = omega arith

abbrev object_48 : ℕ → ℕ
object_48 i = 48

-- Both load, thread 0 exchanges, thread 1 fails and loads again.
abbrev raced : (s : Marking) × Reach object_48 (start one_word) s
unfolding entry after_load with_entry marked_word offset_to_index offset_to_mask
raced = (
  _,
  next
      (next (next (next (next here (load 0 refl)) (load 1 refl)) (exchange 0 2 refl refl))
        (fail 1 2 refl))
      (load 1 refl),
)

raced_end : (raced.0.point 0 ≡ returned false) × (raced.0.point 1 ≡ returned true)
unfolding entry after_load with_entry marked_word offset_to_index offset_to_mask
raced_end = (refl, refl)

-- The witnesses.
atomic_test_and_set-one_example : (◌≡◌ {A = ℕ} 0 0) × (marked one_word 3 ≡ false)
unfolding entry after_load with_entry marked_word offset_to_index offset_to_mask
atomic_test_and_set-one_example =
    atomic_test_and_set-one 0 0 one_word-IsBitmap (λ k. omega arith) raced.1 refl refl refl

atomic_test_and_set-marked_example :
    ((marked raced.0.bitmap 3 ≡ true) ↔ ((marked one_word 3 ≡ true) ⊎ Winner object_48 raced.0 3))
    × ((i : ℕ) (b : Bool)
        → raced.0.point i ≡ returned b
        → marked raced.0.bitmap (granule_of 48) ≡ true)
unfolding entry after_load with_entry marked_word offset_to_index offset_to_mask
atomic_test_and_set-marked_example =
    atomic_test_and_set-marked 3 one_word-IsBitmap (λ k. omega arith) raced.1

atomic_test_and_set-Returns_example :
    (t : Marking) × (b : Bool) × Alone object_48 1 3 (start one_word) t × (t.point 1 ≡ returned b)
atomic_test_and_set-Returns_example = atomic_test_and_set-Returns object_48 1 (start one_word)
