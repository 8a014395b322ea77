-- ===== src/LargeObjectSpace/PreciseAllocation/Tests.antt =====
-- Runs with memory at 4104, 8 past a multiple of 16.
use libimmixcons.Base.{ℕ, ◌≡◌, refl, some, arith}
use libimmixcons.LargeObjectSpace.PreciseAllocation.{PreciseAllocation, try_create}
use libimmixcons.LargeObjectSpace.PreciseAllocation.Cell.{Placed, try_create_lem}

try_create_lem_example :
    (at : ℕ) × (p : PreciseAllocation) × (try_create (λ l. some 4104) 5000 7 ≡ some (at, p))
    × Placed 4104 5000 7 at p
try_create_lem_example =
    try_create_lem (λ l. some 4104) 5000 7 4104 (omega arith) (omega arith) refl refl
