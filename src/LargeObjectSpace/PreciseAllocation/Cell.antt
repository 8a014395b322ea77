-- ===== src/LargeObjectSpace/PreciseAllocation/Cell.antt =====
-- Where the cell of a large object stands in its memory, and how it is told from other objects.
use libimmixcons.Base.{
  ℕ, ◌+◌, ◌-◌, ◌/◌, ◌%◌, ◌^◌, ◌≤◌, ◌<◌, ◌≡◌, ◌≢◌, ◌↔◌, refl, Bool, true, false, not, ◌&&◌, Option,
  some, ◌==◌, if◌then◌else◌, arith, bit_test, bit_and-fifteen, bit-three, ◌∙◌, ℕ_discrete, List,
  push,
}
use libimmixcons.LargeObjectSpace.PreciseAllocation.{
  PreciseAllocation, try_create, destroy, cell, contains, is_precise, from_cell,
  is_aligned_for_precise_allocation, header_size, base_pointer, above_lower_bound,
  below_upper_bound, layout, sweep, is_live,
}

is_precise-eq : (p : ℕ) → is_precise p ≡ (p / 8 % 2 == 1)
unfolding is_precise
is_precise-eq p = bit_test p 3 ∙ rw (bit-three p) refl

-- An address of the blocks, a multiple of 16, is not that of a large object; one that is 8 past such
-- a multiple is.
pub is_precise_lem :
    (p : ℕ) → ((p % 16 ≡ 0) → is_precise p ≡ false) × ((p % 16 ≡ 8) → is_precise p ≡ true)
is_precise_lem p = (λ h. is_precise-eq p ∙ ground arith, λ h. is_precise-eq p ∙ ground arith)

is_aligned-eq : (p : ℕ) → is_aligned_for_precise_allocation p ≡ (p % 16 == 0)
unfolding is_aligned_for_precise_allocation
is_aligned-eq p = rw (bit_and-fifteen p) refl

-- A cell contains the addresses from its own to 8 past its end.
pub contains_lem :
    (at : ℕ) (p : PreciseAllocation) (q : ℕ)
    → (contains at p q ≡ true) ↔ ((cell at ≤ q) × (q ≤ cell at + p.cell_size + 8))
unfolding contains above_lower_bound below_upper_bound
contains_lem at p q = (λ e. (ground arith, ground arith), λ h. ground (arith, h.0, h.1))

-- The header of a fresh allocation; the flag says whether its address was moved on by 8.
abbrev pub created : ℕ → ℕ → Bool → PreciseAllocation
created size ix adjusted = record {
  cell_size = size;
  is_marked = false;
  index_in_space = ix;
  adjusted_alignment = adjusted;
  has_valid_cell = true;
}

-- What `try_create` places in `a`, the memory for `size` bytes that `malloc` gave: at `at`, the header
-- `p`. Header and cell lie in the memory, the cell is known as that of a large object, and both the
-- header's address and the memory are found again from it.
pub record Placed (a size ix at : ℕ) (p : PreciseAllocation) : Type 0 where
  pub above : a ≤ at
  pub below : cell at + size ≤ a + (header_size + size + 8)
  pub cell_aligned : cell at % 16 ≡ 8
  pub precise : is_precise (cell at) ≡ true
  pub found : from_cell (cell at) ≡ some at
  pub given_back : destroy at p ≡ some (a, header_size + size + 8, 16)
  pub fields : p ≡ created size ix (not (a % 16 == 0))

header_size-eq : header_size ≡ 24
unfolding header_size
header_size-eq = refl

cell-eq : (at : ℕ) → cell at ≡ at + 24
unfolding cell
cell-eq at = rw header_size-eq refl

layout-some : (size align : ℕ) → size + align ≤ 2 ^ 63 → layout size align ≡ some (size, align)
layout-some size align h = ground arith

pub from_cell-eq : (q : ℕ) → 24 ≤ q → from_cell q ≡ some (q - 24)
unfolding from_cell
from_cell-eq q h = ground (arith, header_size-eq)

-- The bounds of the first and of the last cell.
pub between :
    (x y : ℕ) (h : PreciseAllocation) (q : ℕ)
    → ((above_lower_bound x q && below_upper_bound y h q) ≡ true → 24 ≤ q)
      × ((b : ℕ)
          → x ≤ b
          → b ≤ y
          → q ≡ b + 24
          → (above_lower_bound x q && below_upper_bound y h q) ≡ true)
unfolding above_lower_bound below_upper_bound
between x y h q = (λ e. ground (arith, cell-eq x), λ b p r e. ground (arith, cell-eq x, cell-eq y))

module _ (size ix : ℕ) (fits : size < 2 ^ 63 - 64) where
  placed :
      (a at : ℕ) (adjusted : Bool)
      → a ≤ at
      → at % 16 ≡ 0
      → at ≤ a + 8
      → not (a % 16 == 0) ≡ adjusted
      → (if adjusted then at - 8 else at) ≡ a
      → Placed a size ix at (created size ix adjusted)
  unfolding destroy base_pointer from_cell
  placed a at adjusted above aligned near flag base = record {
    above = above;
    below = omega (arith, cell-eq at, header_size-eq);
    cell_aligned = omega (arith, cell-eq at);
    precise = (is_precise_lem (cell at)).1 (omega (arith, cell-eq at));
    found = ground (arith, cell-eq at, header_size-eq);
    given_back =
        rw (layout-some (header_size + size + 8) 16 (omega (arith, header_size-eq)), base) refl;
    fields = rw flag refl;
  }

-- Memory at a multiple of 8 is enough: from an allocator that gives such memory for the layout asked
-- for, a size that is not 0 and that fits a layout is placed.
pub try_create_lem :
    (malloc : ℕ × ℕ → Option ℕ) (size ix a : ℕ)
    → size ≢ 0
    → size < 2 ^ 63 - 64
    → malloc (header_size + size + 8, 8) ≡ some a
    → a % 8 ≡ 0
    → (at : ℕ) × (p : PreciseAllocation) × (try_create malloc size ix ≡ some (at, p))
      × Placed a size ix at p
unfolding try_create
try_create_lem malloc size ix a nz fits got aligned = elim (ℕ_discrete (a % 16) 0) [
  | yes e ↦ (
    a,
    created size ix false,
    rw (layout-some (header_size + size + 8) 8 (omega (arith, header_size-eq)), got)
        (ground (arith, is_aligned-eq a, is_precise_lem (cell a), cell-eq a)),
    placed size ix fits a a false (omega arith) e (omega arith) (ground arith) refl,
  )
  | no ne ↦ (
    a + 8,
    created size ix true,
    rw (layout-some (header_size + size + 8) 8 (omega (arith, header_size-eq)), got)
        (ground (
          arith,
          is_aligned-eq a,
          is_aligned-eq (a + 8),
          is_precise_lem (cell (a + 8)),
          cell-eq (a + 8),
        )),
    placed size ix fits a (a + 8) true (omega arith) (omega arith) (omega arith) (ground arith)
        (omega arith),
  )
]

-- What a sweep destroys: a valid cell without a mark.
abbrev pub dead : PreciseAllocation → Bool
dead p = p.has_valid_cell && not p.is_marked

module _ (at : ℕ) (finalizer : ℕ → Bool) (p : PreciseAllocation) (finalized : List ℕ) where
  pub sweep-dead :
      dead p ≡ true
      → sweep at finalizer p finalized ≡ (
        record p { has_valid_cell = false },
        if finalizer (cell at) then push finalized (cell at) else finalized,
        false,
      )
  unfolding sweep is_live
  sweep-dead e = rw e refl

  pub sweep-alive : dead p ≡ false → sweep at finalizer p finalized ≡ (p, finalized, true)
  unfolding sweep is_live
  sweep-alive e = rw e refl

pub destroy-some :
    (at : ℕ) (p : PreciseAllocation)
    → p.cell_size < 2 ^ 63 - 64
    → (m : ℕ × ℕ × ℕ) × (destroy at p ≡ some m)
unfolding destroy
destroy-some at p fits = (
  (base_pointer at p, header_size + p.cell_size + 8, 16),
  rw (layout-some (header_size + p.cell_size + 8) 16 (omega (arith, header_size-eq))) refl,
)
