-- ===== src/Region/Tests.antt =====
-- Two regions with one block in common.
use libimmixcons.Base.{ℕ, ◌≡◌, ◌↔◌, true, arith}
use libimmixcons.Region.{Region, contains, overlaps, fully_contains}
use libimmixcons.Region.Overlap.{overlaps_lem}

abbrev low_region : Region
low_region = record { start = 65536; end = 131072 }

abbrev high_region : Region
high_region = record { start = 98304; end = 163840 }

overlaps_lem_example :
    ((overlaps low_region high_region ≡ true)
      ↔ ((a : ℕ) × (contains low_region a ≡ true) × (contains high_region a ≡ true)))
    × ((fully_contains low_region high_region ≡ true)
        ↔ ((a : ℕ) → contains high_region a ≡ true → contains low_region a ≡ true))
overlaps_lem_example = overlaps_lem low_region high_region (omega arith) (omega arith)
