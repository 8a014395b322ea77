-- ===== src/LargeObjectSpace/Alloc.antt =====
-- What `alloc` of the large object space does.
use libimmixcons.Base.{ℕ, ◌≡◌, ◌≢◌, ◌↔◌, some, ◌∷◌, count}
use libimmixcons.Object
use libimmixcons.Object.{RawGc, same}
use libimmixcons.Object.Header.{view}
use libimmixcons.LargeObjectSpace.{LargeObjectSpace, Headers}
use libimmixcons.LargeObjectSpace.Order.{Sorted, InOrder}
use libimmixcons.LargeObjectSpace.PreciseAllocation

-- From `s` and `headers`: what is returned, and the object's header.
pub record Allocated (s s' : LargeObjectSpace) (headers headers' : Headers) (vtable : ℕ) (at : ℕ)
    (p : PreciseAllocation.PreciseAllocation) (object : RawGc) : Type 0 where
  pub one_more : (b : ℕ) → count b s'.allocations ≡ count b (at ∷ s.allocations)
  pub order : Sorted s'.allocations ↔ InOrder s.allocations at
  pub live_mark : s'.current_live_mark ≡ s.current_live_mark
  pub header : headers' at ≡ some p
  pub other_headers : (b : ℕ) → b ≢ at → headers' b ≡ headers b
  pub object_marked :
      view object ≡ record (view (Object.new vtable)) { marked = s.current_live_mark }
