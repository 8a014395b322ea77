-- ===== src/Tracing/Whole.antt =====
-- `ImmixCollector::collect` of src/collector.rs as a whole, when it moves nothing.
use mathlib.Core.List.{append-nil, append_assoc}
use libimmixcons.Base.{
  ℕ, ◌+◌, ◌%◌, ◌<◌, ◌≡◌, refl, sym, ap, ◌∙◌, ◌↔◌, Bool, true, false, some, List, [], ◌∷◌, ◌++◌,
  push, count, count-append, length, arith, Bool-cases, inl, inr,
}
use libimmixcons.Object
use libimmixcons.Object.{same}
use libimmixcons.Object.Header.{IsHeader, view, readers_lem}
use libimmixcons.SpaceBitmap.Granules.{IsBitmap}
use libimmixcons.ImmixSpace
use libimmixcons.ImmixSpace.{ImmixSpace}
use libimmixcons.Collector.{immix_collection}
use libimmixcons.Tracing.{World, Objects, Slots, precise_roots, precise_root, collect}
use libimmixcons.Tracing.Graph.{Reach, white_edges, IsClosed, Inv-roots, mark_from-Reach}
use libimmixcons.Tracing.Marks.{IsPlaced, InSpace}
use libimmixcons.Tracing.Refines.{Agrees, children_of, sizes_of, world, drain_queue-mark_from}

-- What the slots hold.
abbrev pub read_all : Slots → List ℕ → List ℕ
read_all slots [] = []
read_all slots (root ∷ roots) = slots root ∷ read_all slots roots

-- The objects of the list before a collection with the mark `next`: no header has that mark or is forwarded,
-- and those in the space lie in their block and in the range of the bitmap.
pub record IsTraceable (nodes : List ℕ) (s : ImmixSpace) (objects : Objects) (next : Bool)
    : Type 0 where
  pub valid : (o : ℕ) → 0 < count o nodes → IsHeader (objects o).header
  pub not_forwarded : (o : ℕ) → 0 < count o nodes → (view (objects o).header).forwarded ≡ false
  pub unmarked : (o : ℕ) → 0 < count o nodes → same (view (objects o).header).marked next ≡ false
  pub bitmap : IsBitmap s.bitmap
  pub placed : (o : ℕ) → InSpace nodes s o → IsPlaced s (sizes_of objects) o
  pub aligned : (o : ℕ) → InSpace nodes s o → o % 16 ≡ 0

module _ {nodes : List ℕ} {s : ImmixSpace} {objects : Objects} {next : Bool}
    (v : IsTraceable nodes s objects next) where
  IsTraceable-Agrees :
      (queue : List ℕ) → Agrees nodes s objects next (λ o. false) (world s objects queue)
  IsTraceable-Agrees queue = record {
    headers = record {
      valid = v.valid;
      not_forwarded = v.not_forwarded;
      marks = v.unmarked;
      same_references = λ o. refl;
      same_size = λ o. refl;
    };
    space = record {
      same_allocator = refl;
      same_space = refl;
      still_blocks = λ b h. h;
      bitmap = v.bitmap;
      placed = v.placed;
      same_begin = refl;
      lines = λ o i b. cc;
      granules = λ o i b. cc;
      others = λ g h. inl h;
    };
  }

  precise_root-queue :
      (slots : Slots) (queue : List ℕ) (root : ℕ)
      → 0 < count (slots root) nodes
      → precise_root false (world s objects queue) slots root
        ≡ some (world s objects (push queue (slots root)), slots)
  unfolding precise_root ImmixSpace.filter_fast
  precise_root-queue slots queue root h =
      let f =
        (readers_lem (objects (slots root)).header (v.valid (slots root) h)).2
        ∙ v.not_forwarded (slots root) h in
      elim (Bool-cases (ImmixSpace.filter_fast s (slots root))) [
        | inl e ↦ rw (e, f) refl
        | inr e ↦ rw e refl
      ]

  -- The precise roots are queued behind the conservative ones.
  precise_roots-queue :
      (slots : Slots) (queue roots : List ℕ)
      → ((o : ℕ) → 0 < count o (read_all slots roots) → 0 < count o nodes)
      → precise_roots false (world s objects queue) slots roots
        ≡ some (world s objects (queue ++ read_all slots roots), slots)
  unfolding precise_roots
  precise_roots-queue slots queue [] h = rw (append-nil queue) refl
  precise_roots-queue slots queue (root ∷ roots) h =
      rw
        (
          precise_root-queue slots queue root (h (slots root) (ground arith)),
          precise_roots-queue slots (push queue (slots root)) roots (λ o p. h o (omega arith)),
          append_assoc queue (slots root ∷ []) (read_all slots roots),
        )
        refl

-- All roots, the conservative ones first.
abbrev pub roots_of : Slots → List ℕ → List ℕ → List ℕ
roots_of slots roots precise = roots ++ read_all slots precise

-- How much fuel the loop needs: a round for each root, and one for each reference of an object.
abbrev pub rounds : Objects → List ℕ → List ℕ → ℕ
rounds objects nodes roots = length roots + white_edges (children_of objects) (λ o. false) nodes

-- The state after a collection, by which objects are black.
pub collect-Agrees :
    (nodes : List ℕ) (s : ImmixSpace) (objects : Objects) (next : Bool) (slots : Slots)
    (roots precise : List ℕ) (fuel : ℕ)
    → IsTraceable nodes s objects next
    → IsClosed (children_of objects) (roots_of slots roots precise) nodes
    → rounds objects nodes (roots_of slots roots precise) < fuel
    → (w : World) × (bytes : ℕ) × (black : ℕ → Bool) × (collect fuel immix_collection roots precise
          s objects slots next
        ≡ some (w, slots, bytes))
      × Agrees nodes s objects next black w
      × ((o : ℕ) → (black o ≡ true) ↔ Reach (children_of objects) (roots_of slots roots precise) o)
unfolding collect
collect-Agrees nodes s objects next slots roots precise fuel v closed enough =
    let all = roots_of slots roots precise in
    let m =
      mark_from-Reach (children_of objects) closed fuel (λ o. false) all
        (Inv-roots (children_of objects) all) enough in
    let p =
      precise_roots-queue v slots roots precise (λ o h.
        closed.has_roots o (omega (arith, count-append o roots (read_all slots precise)))) in
    let d =
      drain_queue-mark_from closed fuel (λ o. false) m.0 s objects all 0 (IsTraceable-Agrees v all)
        closed.has_roots m.1 in
    (d.0, d.1, m.0, rw (p, d.2) refl, d.3, m.2)

-- A collection that moves nothing ends, and marks exactly the objects that the roots reach: with one
-- round for each root and each reference the loop over the queue runs dry, an object has the mark of
-- this collection if and only if it is reachable, and the slots, the references and the sizes are as
-- before. The objects are any finite set that no reference leaves, none forwarded or marked.
pub collect-Reach :
    (nodes : List ℕ) (s : ImmixSpace) (objects : Objects) (next : Bool) (slots : Slots)
    (roots precise : List ℕ) (fuel : ℕ)
    → IsTraceable nodes s objects next
    → IsClosed (children_of objects) (roots_of slots roots precise) nodes
    → rounds objects nodes (roots_of slots roots precise) < fuel
    → (w : World) × (bytes : ℕ) × (collect fuel immix_collection roots precise s objects slots next
        ≡ some (w, slots, bytes))
      × ((o : ℕ)
          → 0 < count o nodes
          → (Object.get_mark (w.objects o).header ≡ some next)
            ↔ Reach (children_of objects) (roots_of slots roots precise) o)
      × ((o : ℕ) → (w.objects o).references ≡ (objects o).references)
      × ((o : ℕ) → (w.objects o).heap_size ≡ (objects o).heap_size)
collect-Reach nodes s objects next slots roots precise fuel v closed enough =
    let (w, bytes, black, e, a, reach) =
      collect-Agrees nodes s objects next slots roots precise fuel v closed enough in
    (
      w,
      bytes,
      e,
      λ o h. (
        λ mark. (reach o).0 (black_of black w a o h mark),
        λ r. mark_of black w a o h ((reach o).1 r),
      ),
      a.headers.same_references,
      a.headers.same_size,
    )
  where
    same_true : (x y : Bool) → same x y ≡ true → x ≡ y
    same_true true true h = refl
    same_true true false h = cc
    same_true false true h = cc
    same_true false false h = refl

    true_same : (x y : Bool) → some x ≡ some y → same x y ≡ true
    true_same true true h = refl
    true_same true false h = cc
    true_same false true h = cc
    true_same false false h = refl

    black_of :
        (black : ℕ → Bool) (w : World)
        → Agrees nodes s objects next black w
        → (o : ℕ) → 0 < count o nodes
        → Object.get_mark (w.objects o).header ≡ some next
        → black o ≡ true
    black_of black w a o h mark =
        let r = readers_lem (w.objects o).header (a.headers.valid o h) in
        sym (a.headers.marks o h)
        ∙ true_same (view (w.objects o).header).marked next (sym r.0 ∙ mark)

    mark_of :
        (black : ℕ → Bool) (w : World)
        → Agrees nodes s objects next black w
        → (o : ℕ) → 0 < count o nodes
        → black o ≡ true
        → Object.get_mark (w.objects o).header ≡ some next
    mark_of black w a o h b =
        let r = readers_lem (w.objects o).header (a.headers.valid o h) in
        r.0 ∙ ap some (same_true (view (w.objects o).header).marked next (a.headers.marks o h ∙ b))
