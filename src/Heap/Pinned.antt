-- ===== src/Heap/Pinned.antt =====
-- Roots that are pinned while src/lib.rs scans for them.
use libimmixcons.Base.{
  ℕ, ◌+◌, ◌≡◌, refl, ap, ◌∙◌, Bool, true, false, Option, some, List, [], ◌∷◌, ◌++◌, ◌==◌, ==_iff,
  ltb, if◌then◌else◌, count, count-append, arith, Bool-cases, inl, inr,
}
use libimmixcons.Object.Header.{IsHeader, Header, view, pin_lem}
use libimmixcons.Tracing.{HeapObject, Objects, write_object}
use libimmixcons.Heap.Roots.{pin_root}

abbrev pub pinned_if : Bool → Header → Header
pinned_if true h = record h { pinned = true }
pinned_if false h = h

-- The objects `objects'` are `objects` but for the pinned flags of the roots, which are set.
pub record Pinned (objects objects' : Objects) (roots : List ℕ) : Type 0 where
  pub valid : (o : ℕ) → IsHeader (objects o).header → IsHeader (objects' o).header
  pub headers :
      (o : ℕ)
      → view (objects' o).header ≡ pinned_if (ltb 0 (count o roots)) (view (objects o).header)
  pub same_references : (o : ℕ) → (objects' o).references ≡ (objects o).references
  pub same_size : (o : ℕ) → (objects' o).heap_size ≡ (objects o).heap_size

pub Pinned-none : (objects : Objects) → Pinned objects objects []
Pinned-none objects = record {
  valid = λ o v. v;
  headers = λ o. refl;
  same_references = λ o. refl;
  same_size = λ o. refl;
}

pub Pinned-append :
    {o₁ o₂ o₃ : Objects} (front back : List ℕ)
    → Pinned o₁ o₂ front
    → Pinned o₂ o₃ back
    → Pinned o₁ o₃ (front ++ back)
Pinned-append {o₁} front back p q = record {
  valid = λ o v. q.valid o (p.valid o v);
  headers = λ o.
      q.headers o
      ∙ ap (pinned_if (ltb 0 (count o back))) (p.headers o)
      ∙ rw (count-append o front back) (join (count o front) (count o back) (view (o₁ o).header));
  same_references = λ o. q.same_references o ∙ p.same_references o;
  same_size = λ o. q.same_size o ∙ p.same_size o;
}
  where
    join :
        (m n : ℕ) (h : Header)
        → pinned_if (ltb 0 n) (pinned_if (ltb 0 m) h) ≡ pinned_if (ltb 0 (m + n)) h
    join m n h = rw (either m n) (go (ltb 0 m) (ltb 0 n))
      where
        either : (m n : ℕ) → ltb 0 (m + n) ≡ (if ltb 0 m then true else ltb 0 n)
        either m n = ground arith

        go : (x y : Bool) → pinned_if y (pinned_if x h) ≡ pinned_if (if x then true else y) h
        go true true = refl
        go true false = refl
        go false y = refl

-- What pinning one root does to what was found.
abbrev pub Found : Objects → List ℕ → List ℕ → Option (Objects × List ℕ) → Type 0
Found objects into roots r =
    (objects' : Objects) × (r ≡ some (objects', into ++ roots)) × Pinned objects objects' roots

pub pin_root_lem :
    (objects : Objects) (into : List ℕ) (ptr : ℕ)
    → IsHeader (objects ptr).header
    → Found objects into (ptr ∷ []) (pin_root (objects, into) ptr)
unfolding pin_root
pin_root_lem objects into ptr v =
    let p = pin_lem (objects ptr).header v in
    let object : HeapObject = record (objects ptr) { header = p.0 } in
    (
      write_object objects ptr object,
      rw p.2 refl,
      record {
        valid = λ o h. elim (Bool-cases (o == ptr)) [ inl e ↦ rw e p.6 | inr e ↦ rw e h ];
        headers = λ o. elim (Bool-cases (o == ptr)) [
          | inl e ↦ rw (e, is_one o true e, (==_iff o ptr).0 e) p.4
          | inr e ↦ rw (e, is_one o false e) refl
        ];
        same_references = λ o. elim (Bool-cases (o == ptr)) [
          | inl e ↦ rw (e, (==_iff o ptr).0 e) refl
          | inr e ↦ rw e refl
        ];
        same_size = λ o. elim (Bool-cases (o == ptr)) [
          | inl e ↦ rw (e, (==_iff o ptr).0 e) refl
          | inr e ↦ rw e refl
        ];
      },
    )
  where
    is_one : (o : ℕ) (b : Bool) → (o == ptr) ≡ b → ltb 0 (count o (ptr ∷ [])) ≡ b
    is_one o true e = ground (arith, ==_iff o ptr)
    is_one o false e = ground (arith, ==_iff o ptr)
