-- ===== src/Region/Overlap.antt =====
-- What the comparisons of regions say about their addresses.
use libimmixcons.Base.{ℕ, ◌-◌, ◌<◌, ◌≡◌, ◌↔◌, true, arith, dec_lt}
use libimmixcons.Region.{Region, contains, overlaps, disjunct, fully_contains, valid_top}

-- Regions that are not empty overlap exactly if they have an address in common, and one contains the
-- other fully exactly if it contains each of its addresses.
pub overlaps_lem :
    (r other : Region)
    → r.start < r.end
    → other.start < other.end
    → ((overlaps r other ≡ true) ↔ ((a : ℕ) × (contains r a ≡ true) × (contains other a ≡ true)))
      × ((fully_contains r other ≡ true)
          ↔ ((a : ℕ) → contains other a ≡ true → contains r a ≡ true))
unfolding overlaps contains fully_contains disjunct valid_top
overlaps_lem r other p q = (
  (
    λ e. elim (dec_lt r.start other.start) [
      | yes lt ↦ (other.start, ground arith, ground arith)
      | no ge ↦ (r.start, ground arith, ground arith)
    ],
    λ h. ground (arith, h.1, h.2),
  ),
  (λ e a h. ground arith, λ all. ground (arith, all other.start, all (other.end - 1))),
)
