-- ===== src/SpaceBitmap/Walk/Tests.antt =====
-- Walks over a bitmap of one word.
use libimmixcons.Base.{
  ℕ, zero, suc, ◌+◌, ◌*◌, ◌<◌, ◌^◌, ◌≡◌, refl, none, some, List, [], ◌∷◌, ◌++◌, arith, get_or,
  length, All, select, for_each, trailing_zeros,
}
use mathlib.Core.List.{map}
use libimmixcons.SpaceBitmap.{SpaceBitmap, offset_to_index, index_to_offset}
use libimmixcons.SpaceBitmap.Granules.{IsBitmap, marked}
use libimmixcons.SpaceBitmap.Walk.{
  walk, visit_words, visit_word, visit_marked_range, sweep_walk, sweep_words, buffer_word,
}
use libimmixcons.SpaceBitmap.Walk.Words.{walk_lem}
use libimmixcons.SpaceBitmap.Walk.Sweeping.{
  garbage, garbage_address, deliver, concat, IsFull, sweep_walk_lem,
}
use libimmixcons.SpaceBitmap.Walk.Edges.{visit_marked_range_lem}

abbrev three_set : SpaceBitmap
three_set = record { words = 0x8005 ∷ []; bitmap_size = 8; heap_begin = 4096; heap_limit = 5120 }

abbrev one_set : SpaceBitmap
one_set = record { words = 4 ∷ []; bitmap_size = 8; heap_begin = 4096; heap_limit = 5120 }

one_word-IsBitmap : (w : ℕ) → w < 2 ^ 64 → (i : ℕ) → get_or (w ∷ []) i 0 < 2 ^ 64
one_word-IsBitmap w h zero = h
one_word-IsBitmap w h (suc i) = omega arith

three_set-IsBitmap : IsBitmap three_set
three_set-IsBitmap = record { in_word = one_word-IsBitmap 0x8005 (omega arith) }

one_set-IsBitmap : IsBitmap one_set
one_set-IsBitmap = record { in_word = one_word-IsBitmap 4 (omega arith) }

-- A visitor that keeps the addresses, the last one first.
abbrev keep : ℕ → List ℕ → List ℕ
keep a l = a ∷ l

walk_test : walk three_set keep [] ≡ some (4336 ∷ 4128 ∷ 4096 ∷ [])
unfolding walk visit_words visit_word trailing_zeros offset_to_index index_to_offset
walk_test = refl

-- Fewer than 448 items: the callback is not called.
sweep_walk_test :
    sweep_walk three_set one_set 4096 5120 (λ bytes items (l : List ℕ). bytes ∷ l) [] ≡ some []
unfolding sweep_walk sweep_words buffer_word trailing_zeros offset_to_index index_to_offset
sweep_walk_test = refl

-- The witnesses.
walk_lem_example :
    walk three_set keep []
    ≡ some (for_each (λ g. keep (4096 + g * 16)) (select (marked three_set) 0 64) [])
walk_lem_example = walk_lem three_set keep 1023 [] three_set-IsBitmap (omega arith) (omega arith)

sweep_walk_lem_example :
    (buffers : List (List ℕ)) × (lost : List ℕ) × (sweep_walk three_set one_set 4096 5120
        (λ bytes items (l : List ℕ). bytes ∷ l)
        []
      ≡ some (deliver (λ bytes items (l : List ℕ). bytes ∷ l) buffers []))
    × (concat buffers ++ lost
        ≡ map (garbage_address three_set) (select (garbage three_set one_set) 0 64))
    × All IsFull buffers
    × (length lost < 448)
sweep_walk_lem_example =
    sweep_walk_lem three_set one_set (λ bytes items (l : List ℕ). bytes ∷ l) 0 1023 []
      three_set-IsBitmap one_set-IsBitmap (omega arith) (omega arith) (omega arith)

visit_marked_range_lem_example : visit_marked_range three_set 4096 5120 keep [] ≡ none
visit_marked_range_lem_example =
    visit_marked_range_lem three_set keep [] 0 1024 (omega arith) (omega arith) (omega arith)
