-- ===== src/LargeObjectSpace/Tests.antt =====
-- Runs of the large object space, with the slice methods of LargeObjectSpace/Slices.
use libimmixcons.Base.{
  ℕ, ◌+◌, ◌<◌, ◌≡◌, ◌↔◌, ◌⊎◌, refl, Bool, true, false, none, some, [], ◌∷◌, ◌==◌, if◌then◌else◌,
  arith, count, ℕ_discrete,
}
use libimmixcons.Object
use libimmixcons.TaggedPointer
use libimmixcons.LargeObjectSpace.{LargeObjectSpace, Headers, Retaining, contains, sweep}
use libimmixcons.LargeObjectSpace.PreciseAllocation.{PreciseAllocation}
use libimmixcons.LargeObjectSpace.PreciseAllocation.Cell.{created}
use libimmixcons.LargeObjectSpace.Order.{Sorted, contains-Sorted}
use libimmixcons.LargeObjectSpace.Slices.{list_slice, list_slice-IsSlice}
use libimmixcons.LargeObjectSpace.Sweep.{Held, dead_at, sweep_lem}

abbrev two_objects : LargeObjectSpace
two_objects = record { allocations = 4112 ∷ 20016 ∷ []; current_live_mark = true }

-- The first is marked, the second is not.
abbrev two_headers : Headers
two_headers b =
    if b == 4112
    then some (record (created 5000 0 true) { is_marked = true })
    else if b == 20016
    then some (created 6000 1 false)
    else none

two_objects-Sorted : Sorted two_objects.allocations
two_objects-Sorted = (λ b h. ground arith, (λ b h. absurd (omega arith), tt))

two_objects-Held : Held two_headers two_objects.allocations
two_objects-Held b h = elim (ℕ_discrete b 4112) [
  | yes e ↦ (record (created 5000 0 true) { is_marked = true }, ground arith, omega arith)
  | no ne ↦ (created 6000 1 false, ground arith, omega arith)
]

-- The witnesses.
contains-Sorted_example :
    (r : Bool) × (contains list_slice two_objects two_headers 20040 ≡ some r)
    × ((r ≡ true) ↔ ((at : ℕ) × (0 < count at two_objects.allocations) × (20040 ≡ at + 24)))
contains-Sorted_example =
    contains-Sorted list_slice two_objects two_headers 20040 list_slice-IsSlice two_objects-Sorted
      (λ b h. let (p, e, fits) = two_objects-Held b h in (p, e))

sweep_lem_example :
    (s' : LargeObjectSpace) × (r : Retaining) × (sweep list_slice
        (λ o. true)
        (λ b. 0)
        two_objects
        two_headers
      ≡ some (s', r))
    × Sorted s'.allocations
    × ((b : ℕ)
        → count b s'.allocations
          ≡ (if dead_at two_headers b then 0 else count b two_objects.allocations))
    × ((b : ℕ)
        → 0 < count b two_objects.allocations
        → dead_at two_headers b ≡ true
        → r.headers b ≡ none)
    × ((b : ℕ)
        → count b two_objects.allocations ≡ 0 ⊎ (dead_at two_headers b ≡ false)
        → r.headers b ≡ two_headers b)
sweep_lem_example =
    sweep_lem list_slice (λ o. true) (λ b. 0) two_objects two_headers list_slice-IsSlice
      (refl, (refl, tt)) two_objects-Held
