-- ===== src/Tracing/Refines.antt =====
-- The tracing of src/collector.rs, when it moves nothing, against the marking of a graph.
use libimmixcons.Base.{
  ℕ, zero, suc, ◌+◌, ◌<◌, ◌≡◌, refl, sym, ◌∙◌, Bool, true, false, some, List, [], ◌∷◌, count, arith,
  Bool-cases, inl, inr,
}
use libimmixcons.ImmixSpace.{ImmixSpace}
use libimmixcons.Tracing.{HeapObject, World, Objects, write_object, visit, drain_queue, object_size}
use libimmixcons.Tracing.Graph.{blacken, enqueue, mark_from, IsClosed, enqueue-only}
use libimmixcons.Tracing.Headers.{
  HeadersAgree, HeadersAgree-mark, HeadersAgree-references, HeadersAgree-black,
  visit_references-enqueue,
}
use libimmixcons.Tracing.Marks.{SpaceAgrees, SpaceAgrees-mark}

abbrev pub children_of : Objects → ℕ → List ℕ
children_of objects o = (objects o).references

abbrev pub sizes_of : Objects → ℕ → ℕ
sizes_of objects o = (objects o).heap_size

abbrev pub world : ImmixSpace → Objects → List ℕ → World
world s objects queue = record { immix_space = s; objects = objects; queue = queue }

-- The headers, the bitmap and the lines show which objects are black, and the rest is as at the start.
pub record Agrees (nodes : List ℕ) (s₀ : ImmixSpace) (objects₀ : Objects) (next : Bool)
    (black : ℕ → Bool) (w : World) : Type 0 where
  pub headers : HeadersAgree nodes objects₀ next black w.objects
  pub space : SpaceAgrees nodes s₀ (sizes_of objects₀) black w.immix_space

module _ {nodes roots : List ℕ} {s₀ : ImmixSpace} {objects₀ : Objects} {next : Bool}
    (closed : IsClosed (children_of objects₀) roots nodes) where
  visit-black :
      {black : ℕ → Bool} (w : World) (o : ℕ)
      → Agrees nodes s₀ objects₀ next black w
      → 0 < count o nodes
      → black o ≡ true
      → (objects : Objects) × (visit false next w o ≡ some (record w { objects = objects }, 0))
        × Agrees nodes s₀ objects₀ next black (record w { objects = objects })
  unfolding visit
  visit-black {black} w o v h b =
      let m = HeadersAgree-mark o v.headers h in
      (
        write_object w.objects o (record (w.objects o) { header = m.0 }),
        rw (m.1, b) refl,
        record { headers = HeadersAgree-black o m.2 b; space = v.space },
      )

  visit-white :
      {black : ℕ → Bool} (w : World) (o : ℕ)
      → Agrees nodes s₀ objects₀ next black w
      → 0 < count o nodes
      → black o ≡ false
      → (s' : ImmixSpace) × (objects' : Objects) × (visit false next w o
          ≡ some (
            world s' objects' (enqueue (blacken black o) w.queue (children_of objects₀ o)),
            object_size (objects₀ o),
          ))
        × Agrees nodes s₀ objects₀ next
            (blacken black o)
            (world s' objects' (enqueue (blacken black o) w.queue (children_of objects₀ o)))
  unfolding visit object_size
  visit-white {black} w o v h b =
      let m = HeadersAgree-mark o v.headers h in
      let marked : HeapObject = record (w.objects o) { header = m.0 } in
      let objects = write_object w.objects o marked in
      let sizes : sizes_of objects ≡ sizes_of objects₀ = λ i a. m.2.same_size a i in
      let s = SpaceAgrees-mark objects o v.space h sizes in
      let w₁ : World = record w { objects = objects; immix_space = s.0 } in
      let r =
        visit_references-enqueue (blacken black o) w₁ marked.references m.2
          (λ c p. closed.has_children o c h (rw (v.headers.same_references o) at p)) in
      let last = write_object objects o (record (objects o) { references = marked.references }) in
      (
        s.0,
        last,
        rw (m.1, b, s.1, r) (rw (m.2.same_size o, v.headers.same_references o) refl),
        record {
          headers =
              HeadersAgree-references o marked.references m.2 h
                (v.headers.same_references o ∙ sym (m.2.same_references o));
          space = s.2;
        },
      )

  -- With the same fuel the loop over the queue does what the marking of the graph does.
  pub drain_queue-mark_from :
      (fuel : ℕ) (black black' : ℕ → Bool) (s : ImmixSpace) (objects : Objects) (queue : List ℕ)
      (visited : ℕ)
      → Agrees nodes s₀ objects₀ next black (world s objects queue)
      → ((o : ℕ) → 0 < count o queue → 0 < count o nodes)
      → mark_from (children_of objects₀) fuel black queue ≡ some black'
      → (w' : World) × (bytes : ℕ) × (drain_queue fuel false next (world s objects queue) visited
          ≡ some (w', bytes))
        × Agrees nodes s₀ objects₀ next black' w'
  unfolding drain_queue
  drain_queue-mark_from zero black black' s objects queue visited v h e = cc
  drain_queue-mark_from (suc fuel) black black' s objects [] visited v h e =
      let e' : black ≡ black' = cc in (world s objects [], visited, refl, rw e' at v)
  drain_queue-mark_from (suc fuel) black black' s objects (o ∷ queue) visited v h e =
      let node = h o (ground arith) in
      let w : World = world s objects queue in
      let v' : Agrees nodes s₀ objects₀ next black w = record {
        headers = v.headers;
        space = v.space;
      } in
      elim (Bool-cases (black o)) [
        | inl b ↦
            let a = visit-black w o v' node b in
            let ih =
              drain_queue-mark_from fuel black black' s a.0 queue (visited + 0) a.2
                (λ c p. h c (omega arith)) (rw b at e) in
            (ih.0, ih.1, rw a.1 ih.2, ih.3)
        | inr b ↦
            let a = visit-white w o v' node b in
            let next_queue = enqueue (blacken black o) queue (children_of objects₀ o) in
            let ih =
              drain_queue-mark_from fuel (blacken black o) black' a.0 a.1 next_queue
                (visited + object_size (objects₀ o)) a.3
                (λ c p.
                  elim (enqueue-only (children_of objects₀) (blacken black o) queue
                    (children_of objects₀ o) c p) [
                      | inl q ↦ h c (omega arith)
                      | inr r ↦ closed.has_children o c node r
                    ])
                (rw b at e) in
            (ih.0, ih.1, rw a.2 ih.2, ih.3)
      ]
