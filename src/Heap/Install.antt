-- ===== src/Heap/Install.antt =====
-- The end of `Immix::allocate` of src/lib.rs: the header of the new object, and what counts it.
use libimmixcons.Base.{
  ℕ, ◌+◌, ◌≡◌, ◌≢◌, refl, Bool, true, false, ◌&&◌, some, List, [], ◌∷◌, ◌++◌, ◌==◌, ltb,
  if◌then◌else◌, arith, count, count-append,
}
use libimmixcons.Object
use libimmixcons.Object.{RawGc}
use libimmixcons.Object.Header.{IsHeader, view, mark_lem}
use libimmixcons.Tracing.{HeapObject, Objects, write_object}
use libimmixcons.Heap.{Outside, Immix, install}

-- `m'` is `m` with an object of `size` bytes at `ptr`.
pub record Installed (outside : Outside) (m m' : Immix) (size rtti ptr : ℕ) (header : RawGc)
    : Type 0 where
  pub marked : view header ≡ record (view (Object.new rtti)) { marked = m.current_live_mark }
  pub IsHeader_header : IsHeader header
  pub at_ptr : m'.objects ptr ≡ record (outside.fresh rtti) { header = header }
  pub other_objects : (a : ℕ) → ptr ≢ a → m'.objects a ≡ m.objects a
  pub counts : m'.allocated ≡ m.allocated + size
  pub finalizable :
      (o : ℕ)
      → count o m'.to_finalize
        ≡ count o m.to_finalize
          + (if ((outside.fresh rtti).needs_finalization && ltb size 8192) && ptr == o
              then 1
              else 0)
  pub same_immix : m'.immix ≡ m.immix
  pub same_large : m'.los ≡ m.los
  pub same_threshold : m'.threshold ≡ m.threshold
  pub same_mark : m'.current_live_mark ≡ m.current_live_mark

write_self : (f : Objects) (at : ℕ) (x : HeapObject) → write_object f at x at ≡ x
write_self f at x = ground arith

write_other : (f : Objects) (at a : ℕ) (x : HeapObject) → at ≢ a → write_object f at x a ≡ f a
write_other f at a x ne = ground arith

count_pushed :
    (b : Bool) (l : List ℕ) (ptr o : ℕ)
    → count o (if b then l ++ ptr ∷ [] else l) ≡ count o l + (if b && ptr == o then 1 else 0)
count_pushed true l ptr o = ground (arith, count-append o l (ptr ∷ []))
count_pushed false l ptr o = ground arith

-- The header gets the live mark, the object counts towards the threshold, and if its type says so and it
-- is small it waits for its finalizer.
pub install_lem :
    (outside : Outside) (m : Immix) (size rtti ptr : ℕ)
    → IsHeader (Object.new rtti)
    → (m' : Immix) × (header : RawGc) × (install outside m size rtti ptr ≡ some (m', ptr))
      × Installed outside m m' size rtti ptr header
unfolding install
install_lem outside m size rtti ptr v =
    let (header, e, marked, valid) = mark_lem (Object.new rtti) m.current_live_mark v in
    let object : HeapObject = record (outside.fresh rtti) { header = header } in
    (
      record m {
        allocated = m.allocated + size;
        objects = write_object m.objects ptr object;
        to_finalize =
            if object.needs_finalization && ltb size 8192
            then m.to_finalize ++ ptr ∷ []
            else m.to_finalize;
      },
      header,
      rw e refl,
      record {
        marked = marked;
        IsHeader_header = valid;
        at_ptr = write_self m.objects ptr object;
        other_objects = λ a ne. write_other m.objects ptr a object ne;
        counts = refl;
        finalizable =
            λ o. count_pushed (object.needs_finalization && ltb size 8192) m.to_finalize ptr o;
        same_immix = refl;
        same_large = refl;
        same_threshold = refl;
        same_mark = refl;
      },
    )
