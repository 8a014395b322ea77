-- ===== src/Heap/Finalize.antt =====
-- What `collect_internal` of src/lib.rs does after the collection: it unpins the roots and runs finalizers.
use libimmixcons.Base.{ℕ, Bool, Option, some, List, [], ◌∷◌, if◌then◌else◌, ◌>>=◌}
use libimmixcons.Object
use libimmixcons.Object.{same}
use libimmixcons.Tracing.{Objects, write_object}

unfoldable pub unpin_roots : Objects → List ℕ → Option Objects
unpin_roots objects [] = some objects
unpin_roots objects (root ∷ roots) = do
  header ← Object.unpin (objects root).header
  unpin_roots (write_object objects root (record (objects root) { header = header })) roots

-- The loop over `to_finalize`: what stays in it, and the objects whose finalizers ran, in order.
unfoldable pub run_finalizers : Objects → Bool → List ℕ → Option (List ℕ × List ℕ)
run_finalizers objects current_live_mark [] = some ([], [])
run_finalizers objects current_live_mark (elem ∷ elems) = do
  mark ← Object.get_mark (objects elem).header
  (kept, finalized) ← run_finalizers objects current_live_mark elems
  if same mark current_live_mark
      then (if (objects elem).needs_finalization
          then some (kept, if (objects elem).finalizer then elem ∷ finalized else finalized)
          else some (elem ∷ kept, finalized))
      else some (elem ∷ kept, finalized)
