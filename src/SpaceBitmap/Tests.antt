-- ===== src/SpaceBitmap/Tests.antt =====
-- Runs of a bitmap of two words over 2 KiB of heap at 4096, with every granule set.
use libimmixcons.Base.{ℕ, zero, suc, ◌+◌, ◌*◌, ◌^◌, ◌<◌, ◌≡◌, some, [], ◌∷◌, arith, get_or}
use libimmixcons.SpaceBitmap.{SpaceBitmap, clear_range}
use libimmixcons.SpaceBitmap.Granules.{IsBitmap}
use libimmixcons.SpaceBitmap.Cleared.{Cleared}
use libimmixcons.SpaceBitmap.Range.{clear_range_lem}

abbrev full_bitmap : SpaceBitmap
full_bitmap = record {
  words = 0xffffffffffffffff ∷ 0xffffffffffffffff ∷ [];
  bitmap_size = 16;
  heap_begin = 4096;
  heap_limit = 6144;
}

full_bitmap-IsBitmap : IsBitmap full_bitmap
full_bitmap-IsBitmap = record { in_word = in_word }
  where
    in_word : (i : ℕ) → get_or (0xffffffffffffffff ∷ 0xffffffffffffffff ∷ []) i 0 < 2 ^ 64
    in_word zero = omega arith
    in_word (suc zero) = omega arith
    in_word (suc (suc i)) = omega arith

-- The witnesses.
clear_range_lem_example :
    (m' : SpaceBitmap) × (clear_range full_bitmap (4096 + 5 * 16) (4096 + 90 * 16) ≡ some m')
    × Cleared full_bitmap m' 5 90
clear_range_lem_example =
    clear_range_lem full_bitmap 5 90 full_bitmap-IsBitmap (omega arith) (omega arith)
