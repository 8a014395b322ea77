-- ===== src/LargeObjectSpace.antt =====
-- `LargeObjectSpace` of src/large_object_space.rs. The sort and the binary search of slices are the
-- standard library's, parameters here. The headers are a partial map on addresses: freed memory is
-- not in it, and `stale` is what a read of a freed header yields.
pub mod PreciseAllocation
pub mod Order
pub mod Alloc
pub mod Sweep
pub mod Slices
mod Tests
use libimmixcons.Base.{
  ℕ, zero, suc, ◌+◌, ◌%◌, ◌^◌, Bool, true, false, not, ◌&&◌, ◌||◌, Option, none, some, List, [],
  ◌∷◌, length, get_elem?, ◌==◌, ltb, leb, if◌then◌else◌, ◌>>=◌, push, pop,
}
use libimmixcons.Object
use libimmixcons.Object.{RawGc}

abbrev pub Headers : Type 0
Headers = ℕ → Option PreciseAllocation.PreciseAllocation

abbrev pub write_header : Headers → ℕ → Option PreciseAllocation.PreciseAllocation → Headers
write_header headers at h a = if a == at then h else headers a

-- The methods of slices that the space calls.
pub record Slice : Type 0 where
  pub sort_unstable : List ℕ → List ℕ
  pub binary_search : List ℕ → ℕ → Bool

pub record LargeObjectSpace : Type 0 where
  pub allocations : List ℕ
  pub current_live_mark : Bool

unfoldable pub new : LargeObjectSpace
new = record { allocations = []; current_live_mark = false }

-- What the loop of `retain` holds: the headers, the kept ones, the finalized cells, the freed memory
-- and `sweeped`.
pub record Retaining : Type 0 where
  pub headers : Headers
  pub retained : List ℕ
  pub finalized : List ℕ
  pub freed : List (ℕ × ℕ × ℕ)
  pub sweeped : ℕ

pub sweep_one : (ℕ → Bool) → (ℕ → ℕ) → Retaining → ℕ → Option Retaining
sweep_one finalizer stale s ptr = do
  p ← s.headers ptr
  let (p', finalized, retain) = PreciseAllocation.sweep ptr finalizer p s.finalized
  if retain
      then some (record s {
        headers = write_header s.headers ptr (some p');
        retained = push s.retained ptr;
        finalized = finalized;
      })
      else (PreciseAllocation.destroy ptr p' >>= λ memory. some (record s {
        headers = write_header s.headers ptr none;
        finalized = finalized;
        freed = push s.freed memory;
        sweeped = s.sweeped + stale ptr;
      }))

pub sweep_all : (ℕ → Bool) → (ℕ → ℕ) → List ℕ → Retaining → Option Retaining
sweep_all finalizer stale [] s = some s
sweep_all finalizer stale (ptr ∷ ptrs) s = do
  s' ← sweep_one finalizer stale s ptr
  sweep_all finalizer stale ptrs s'

pub sweep :
    Slice
    → (ℕ → Bool)
    → (ℕ → ℕ)
    → LargeObjectSpace
    → Headers
    → Option (LargeObjectSpace × Retaining)
unfolding sweep_all
sweep slice finalizer stale s headers = do
  r ←
      sweep_all finalizer stale s.allocations
        (record { headers = headers; retained = []; finalized = []; freed = []; sweeped = 0 })
  some (record s { allocations = slice.sort_unstable r.retained }, r)

pub last : ℕ → List ℕ → ℕ
last x [] = x
last x (y ∷ ys) = last y ys

unfoldable pub contains : Slice → LargeObjectSpace → Headers → ℕ → Option Bool
unfolding last
contains slice s headers p = elim s.allocations [
  | [] ↦ some false
  | x ∷ xs ↦ headers (last x xs) >>= λ h.
      if PreciseAllocation.above_lower_bound x p
        && PreciseAllocation.below_upper_bound (last x xs) h p
      then (PreciseAllocation.from_cell p >>= λ at. some (slice.binary_search (x ∷ xs) at))
      else some false
]

-- The condition for the sort after the push.
pub out_of_order : List ℕ → ℕ → Bool
unfolding last
out_of_order [] cell = false
out_of_order (x ∷ xs) cell = ltb cell (last x xs) || ltb cell x

-- The space, the headers, the address of the object and its header.
pub alloc :
    Slice
    → (ℕ × ℕ → Option ℕ)
    → LargeObjectSpace
    → Headers
    → ℕ
    → ℕ
    → Option (LargeObjectSpace × Headers × ℕ × RawGc)
unfolding out_of_order
alloc slice malloc s headers size vtable = do
  let ix = length s.allocations % 2 ^ 32
  (cell, p) ← PreciseAllocation.try_create malloc size ix
  let allocations = push s.allocations cell
  let sorted =
      if out_of_order allocations cell then slice.sort_unstable allocations else allocations
  let raw = PreciseAllocation.cell cell
  (object, same) ← Object.mark (Object.new vtable) s.current_live_mark
  some (record s { allocations = sorted }, write_header headers cell (some p), raw, object)
