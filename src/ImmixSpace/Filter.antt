-- ===== src/ImmixSpace/Filter.antt =====
-- `filter`: which addresses count as objects.
use libimmixcons.Base.{
  ℕ, ◌+◌, ◌/◌, ◌%◌, ◌<◌, ◌≡◌, refl, sym, ◌∙◌, subst, Bool, true, false, not, none, some, ◌==◌,
  if◌then◌else◌, arith,
}
use libimmixcons.BlockAllocator
use libimmixcons.SpaceBitmap
use libimmixcons.SpaceBitmap.{SpaceBitmap}
use libimmixcons.SpaceBitmap.Granules.{IsBitmap, Changed, Covers, marked, test-marked, modify_lem}
use libimmixcons.ImmixSpace.{ImmixSpace, filter, set_gc_object, unset_gc_object}

-- An address of the space, at an offset whose bit the bitmap has, that a header can have.
pub record IsPlace (s : ImmixSpace) (off : ℕ) : Type 0 where
  pub aligned : (s.bitmap.heap_begin + off) % 16 ≡ 0
  pub in_space :
      BlockAllocator.is_in_space s.space.block_allocator (s.bitmap.heap_begin + off) ≡ true
  pub covered : Covers s.bitmap off

pub filter-marked :
    (s : ImmixSpace) (off : ℕ)
    → IsBitmap s.bitmap
    → IsPlace s off
    → filter s (s.bitmap.heap_begin + off)
      ≡ some (if marked s.bitmap (off / 16) then some (s.bitmap.heap_begin + off) else none)
unfolding filter
filter-marked s off v p =
    let aligned : not ((s.bitmap.heap_begin + off) % 16 == 0) ≡ false = ground (arith, p.aligned) in
    rw (aligned, p.in_space, test-marked {m = s.bitmap} off v p.covered) refl

set-Changed :
    (m : SpaceBitmap) (off : ℕ)
    → IsBitmap m
    → Covers m off
    → (m' : SpaceBitmap) × (SpaceBitmap.set m (m.heap_begin + off) ≡ some m')
      × Changed m m' (off / 16) true
unfolding SpaceBitmap.set
set-Changed m off v h = let (m', e, c) = modify_lem {m = m} true off v h in (m', rw e refl, c)

pub set_gc_object-Changed :
    (s : ImmixSpace) (off : ℕ)
    → IsBitmap s.bitmap
    → Covers s.bitmap off
    → (m' : SpaceBitmap) × (set_gc_object s (s.bitmap.heap_begin + off)
        ≡ some (record s { bitmap = m' }))
      × Changed s.bitmap m' (off / 16) true
unfolding set_gc_object
set_gc_object-Changed s off v h =
    let (m', e, c) = set-Changed s.bitmap off v h in (m', rw e refl, c)

clear-Changed :
    (m : SpaceBitmap) (off : ℕ)
    → IsBitmap m
    → Covers m off
    → (m' : SpaceBitmap) × (SpaceBitmap.clear m (m.heap_begin + off) ≡ some m')
      × Changed m m' (off / 16) false
unfolding SpaceBitmap.clear
clear-Changed m off v h = let (m', e, c) = modify_lem {m = m} false off v h in (m', rw e refl, c)

-- The filter after one granule was changed to `x`.
filter-Changed :
    (s : ImmixSpace) (m' : SpaceBitmap) (off other : ℕ) (x : Bool)
    → IsBitmap s.bitmap
    → Changed s.bitmap m' (off / 16) x
    → IsPlace s other
    → filter (record s { bitmap = m' }) (s.bitmap.heap_begin + other) ≡ (
        if off / 16 == other / 16
        then some (if x then some (s.bitmap.heap_begin + other) else none)
        else filter s (s.bitmap.heap_begin + other))
filter-Changed s m' off other x v c p =
    let s' : ImmixSpace = record s { bitmap = m' } in
    let place : IsPlace s' other = record {
      aligned = subst (λ b. (b + other) % 16 ≡ 0) (sym c.same_begin) p.aligned;
      in_space =
          subst (λ b. BlockAllocator.is_in_space s.space.block_allocator (b + other) ≡ true)
            (sym c.same_begin) p.in_space;
      covered = subst (λ n. other / 16 / 64 < n) (sym c.same_length) p.covered;
    } in
    let here : filter s' (m'.heap_begin + other)
        ≡ some (if marked m' (other / 16) then some (m'.heap_begin + other) else none) =
      filter-marked s' other c.valid place in
    let e : filter s' (s.bitmap.heap_begin + other)
        ≡ some (if marked m' (other / 16) then some (s.bitmap.heap_begin + other) else none) =
      subst
        (λ b.
          filter s' (b + other) ≡ some (if marked m' (other / 16) then some (b + other) else none))
        c.same_begin here in
    e
    ∙ rw (filter-marked s other v p, c.granules (other / 16))
        (choose (off / 16 == other / 16) (marked s.bitmap (other / 16)))
  where
    choose :
        (same was : Bool)
        → some (if (if same then x else was) then some (s.bitmap.heap_begin + other) else none) ≡ (
            if same
            then some (if x then some (s.bitmap.heap_begin + other) else none)
            else some (if was then some (s.bitmap.heap_begin + other) else none))
    choose true was = refl
    choose false was = refl

-- After `set_gc_object` the filter lets through the address of the object, and after `unset_gc_object` it
-- does not; it treats the addresses of every other granule as before. Both change the bitmap only.
-- The addresses are multiples of 16 in the space that the bitmap covers.
pub set_gc_object_lem :
    (s : ImmixSpace) (off other : ℕ)
    → IsBitmap s.bitmap
    → IsPlace s off
    → IsPlace s other
    → (s₁ : ImmixSpace) × (s₂ : ImmixSpace) × (set_gc_object s (s.bitmap.heap_begin + off)
        ≡ some s₁)
      × (unset_gc_object s (s.bitmap.heap_begin + off) ≡ some s₂)
      × (filter s₁ (s.bitmap.heap_begin + other) ≡ (
          if off / 16 == other / 16
          then some (some (s.bitmap.heap_begin + other))
          else filter s (s.bitmap.heap_begin + other)))
      × (filter s₂ (s.bitmap.heap_begin + other)
          ≡ (if off / 16 == other / 16 then some none else filter s (s.bitmap.heap_begin + other)))
      × (s₁.space ≡ s.space)
      × (s₂.space ≡ s.space)
unfolding set_gc_object unset_gc_object
set_gc_object_lem s off other v p q =
    let (m₁, e₁, c₁) = set-Changed s.bitmap off v p.covered in
    let (m₂, e₂, c₂) = clear-Changed s.bitmap off v p.covered in
    (
      record s { bitmap = m₁ },
      record s { bitmap = m₂ },
      rw e₁ refl,
      rw e₂ refl,
      filter-Changed s m₁ off other true v c₁ q,
      filter-Changed s m₂ off other false v c₂ q,
      refl,
      refl,
    )
