-- ===== src/TaggedPointer/Tests.antt =====
-- Runs on the word 4097.
use libimmixcons.Base.{◌≡◌, refl, true, false}
use libimmixcons.TaggedPointer.{
  TaggedPointer, new, bit_is_set, compare_and_swap, atomic_store, atomic_bit_is_set,
}

abbrev word_pointer : TaggedPointer
word_pointer = record { raw = 4097 }

swapped_lem : compare_and_swap word_pointer false 4097 4098 ≡ (record { raw = 4098 }, true)
unfolding compare_and_swap new
swapped_lem = refl

changed_lem : compare_and_swap word_pointer false 4096 4098 ≡ (word_pointer, false)
unfolding compare_and_swap
changed_lem = refl

stored_lem : atomic_bit_is_set (atomic_store word_pointer 4098) 1 ≡ true
unfolding atomic_bit_is_set atomic_store new bit_is_set
stored_lem = refl
