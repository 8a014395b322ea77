-- ===== src/Tracing/Headers.antt =====
-- The headers of the objects while src/collector.rs traces without moving objects.
use libimmixcons.Base.{
  ℕ, ◌<◌, ◌≡◌, refl, ap, Bool, true, false, Option, some, List, [], ◌∷◌, ◌==◌, ==_iff,
  if◌then◌else◌, push, count, arith, Bool-cases, inl, inr, ◌∙◌,
}
use libimmixcons.Object
use libimmixcons.Object.{RawGc, same}
use libimmixcons.Object.Header.{IsHeader, view, mark_lem, readers_lem}
use libimmixcons.Tracing.{HeapObject, World, Objects, write_object, trace, visit_references}
use libimmixcons.Tracing.Graph.{blacken, enqueue}

-- Of the objects of a list, none was moved and those that are black have the mark `next`; references and
-- sizes are as in `objects₀`.
pub record HeadersAgree (nodes : List ℕ) (objects₀ : Objects) (next : Bool) (black : ℕ → Bool)
    (objects : Objects) : Type 0 where
  pub valid : (o : ℕ) → 0 < count o nodes → IsHeader (objects o).header
  pub not_forwarded : (o : ℕ) → 0 < count o nodes → (view (objects o).header).forwarded ≡ false
  pub marks : (o : ℕ) → 0 < count o nodes → same (view (objects o).header).marked next ≡ black o
  pub same_references : (o : ℕ) → (objects o).references ≡ (objects₀ o).references
  pub same_size : (o : ℕ) → (objects o).heap_size ≡ (objects₀ o).heap_size

same_self : (x : Bool) → same x x ≡ true
same_self true = refl
same_self false = refl

module _ {nodes : List ℕ} {objects₀ : Objects} {next : Bool} where
  -- A write that keeps what the others see.
  HeadersAgree-write :
      {black black' : ℕ → Bool} {objects : Objects} (o : ℕ) (new : HeapObject)
      → HeadersAgree nodes objects₀ next black objects
      → IsHeader new.header
      → (view new.header).forwarded ≡ false
      → same (view new.header).marked next ≡ black' o
      → new.references ≡ (objects o).references
      → new.heap_size ≡ (objects o).heap_size
      → ((a : ℕ) → (a == o) ≡ false → black' a ≡ black a)
      → HeadersAgree nodes objects₀ next black' (write_object objects o new)
  HeadersAgree-write {black} {black'} {objects} o new v valid not_forwarded marks references size
        rest =
      record {
        valid =
            λ a h. elim (Bool-cases (a == o)) [ inl e ↦ rw e valid | inr e ↦ rw e (v.valid a h) ];
        not_forwarded = λ a h. elim (Bool-cases (a == o)) [
          | inl e ↦ rw e not_forwarded
          | inr e ↦ rw e (v.not_forwarded a h)
        ];
        marks = λ a h. elim (Bool-cases (a == o)) [
          | inl e ↦ rw (e, (==_iff a o).0 e) marks
          | inr e ↦ rw (e, rest a e) (v.marks a h)
        ];
        same_references = λ a. elim (Bool-cases (a == o)) [
          | inl e ↦ rw (e, (==_iff a o).0 e) (references ∙ v.same_references o)
          | inr e ↦ rw e (v.same_references a)
        ];
        same_size = λ a. elim (Bool-cases (a == o)) [
          | inl e ↦ rw (e, (==_iff a o).0 e) (size ∙ v.same_size o)
          | inr e ↦ rw e (v.same_size a)
        ];
      }

  -- `mark` on the object's header tells whether it was black, and makes it black.
  pub HeadersAgree-mark :
      {black : ℕ → Bool} {objects : Objects} (o : ℕ)
      → HeadersAgree nodes objects₀ next black objects
      → 0 < count o nodes
      → (header : RawGc) × (Object.mark (objects o).header next ≡ some (header, black o))
        × HeadersAgree nodes objects₀ next
            (blacken black o)
            (write_object objects o (record (objects o) { header = header }))
  HeadersAgree-mark {black} {objects} o v h =
      let m = mark_lem (objects o).header next (v.valid o h) in
      (
        m.0,
        rw (← v.marks o h) m.1,
        HeadersAgree-write o (record (objects o) { header = m.0 }) v m.3
            (ap (λ w. w.forwarded) m.2 ∙ v.not_forwarded o h)
            (ap (λ w. same w.marked next) m.2 ∙ same_self next ∙ black-self) refl refl
            (λ a e. rw e refl),
      )
    where
      black-self : true ≡ blacken black o o
      black-self = ground arith

  -- References that are written back as they were change nothing.
  pub HeadersAgree-references :
      {black : ℕ → Bool} {objects : Objects} (o : ℕ) (references : List ℕ)
      → HeadersAgree nodes objects₀ next black objects
      → 0 < count o nodes
      → references ≡ (objects o).references
      → HeadersAgree nodes objects₀ next black
          (write_object objects o (record (objects o) { references = references }))
  HeadersAgree-references {black} {objects} o references v h e =
      HeadersAgree-write o (record (objects o) { references = references }) v (v.valid o h)
        (v.not_forwarded o h) (v.marks o h) e refl (λ a e. refl)

  -- Nothing changes when the object was black already.
  pub HeadersAgree-black :
      {black : ℕ → Bool} {objects : Objects} (o : ℕ)
      → HeadersAgree nodes objects₀ next (blacken black o) objects
      → black o ≡ true
      → HeadersAgree nodes objects₀ next black objects
  HeadersAgree-black {black} o v e = record {
    valid = v.valid;
    not_forwarded = v.not_forwarded;
    marks = λ a h. v.marks a h ∙ elim (Bool-cases (a == o)) [
      | inl s ↦ rw (s, (==_iff a o).0 s, e) refl
      | inr d ↦ rw d refl
    ];
    same_references = v.same_references;
    same_size = v.same_size;
  }

  -- `trace` queues an object that is not black, and leaves the reference as it is.
  trace-queue :
      (black : ℕ → Bool) (w : World) (o : ℕ)
      → HeadersAgree nodes objects₀ next black w.objects
      → 0 < count o nodes
      → trace false next w o
        ≡ some (record w { queue = if black o then w.queue else push w.queue o }, o)
  unfolding trace
  trace-queue black w o v h =
      let r = readers_lem (w.objects o).header (v.valid o h) in
      rw (r.2 ∙ v.not_forwarded o h, r.0, v.marks o h) (choose (black o))
    where
      choose :
          (b : Bool)
          → if◌then◌else◌ {A = Option (World × ℕ)} b
              (some (w, o))
              (some (record w { queue = push w.queue o }, o))
            ≡ some (record w { queue = if b then w.queue else push w.queue o }, o)
      choose true = refl
      choose false = refl

  pub visit_references-enqueue :
      (black : ℕ → Bool) (w : World) (os : List ℕ)
      → HeadersAgree nodes objects₀ next black w.objects
      → ((c : ℕ) → 0 < count c os → 0 < count c nodes)
      → visit_references false next w os ≡ some (record w { queue = enqueue black w.queue os }, os)
  unfolding visit_references
  visit_references-enqueue black w [] v h = refl
  visit_references-enqueue black w (o ∷ os) v h =
      let w₁ : World = record w { queue = if black o then w.queue else push w.queue o } in
      rw
        (
          trace-queue black w o v (h o (ground arith)),
          visit_references-enqueue black w₁ os v (λ c p. h c (omega arith)),
        )
        refl
