-- ===== src/SpaceBitmap/Walk/Edges.antt =====
-- The shifts of `visit_marked_range`, by an index times 64 where a bit of a word is meant.
use libimmixcons.Base.{
  ℕ, ◌+◌, ◌-◌, ◌*◌, ◌/◌, ◌^◌, ◌<◌, ◌≤◌, ◌≡◌, refl, Bool, true, false, Option, none, some, ltb,
  if◌then◌else◌, ◌>>=◌, arith, bit_and_zero, checked_sub-some, get_or, get_elem?-eq-get_or, length,
  Bool-cases, inl, inr,
}
use libimmixcons.SpaceBitmap.{SpaceBitmap}
use libimmixcons.SpaceBitmap.Walk.{visit_edge, visit_marked_range}

>>=-none {ℓ κ} : {A : Type ℓ} {B : Type κ} (m : Option A) → ◌>>=◌ {B = B} m (λ a. none) ≡ none
>>=-none none = refl
>>=-none (some a) = refl

if_same {ℓ} : {A : Type ℓ} (b : Bool) (a : A) → (if b then a else a) ≡ a
if_same true a = refl
if_same false a = refl

module _ {ℓ} {S : Type ℓ} (m : SpaceBitmap) (visitor : ℕ → S → S) (s : S) where
  -- An end past the first granule: whatever the bitmap holds, the range is not visited to its end.
  pub visit_marked_range-panics :
      (begin end : ℕ)
      → begin ≤ end
      → 16 ≤ end
      → visit_marked_range m (m.heap_begin + begin) (m.heap_begin + end) visitor s ≡ none
  unfolding visit_marked_range
  visit_marked_range-panics begin end h k =
      let offset : m.heap_begin + begin - m.heap_begin ≡ begin = omega arith in
      let offset' : m.heap_begin + end - m.heap_begin ≡ end = omega arith in
      let far : ltb (end / 16 * 64) 64 ≡ false = ground arith in
      rw
        (
          checked_sub-some (m.heap_begin + begin) m.heap_begin (omega arith),
          offset,
          checked_sub-some (m.heap_begin + end) m.heap_begin (omega arith),
          offset',
          far,
        )
        (simp (>>=-none, if_same))

  -- Both ends in the first granule: nothing is visited.
  pub visit_marked_range-nothing :
      (begin end : ℕ)
      → begin ≤ end
      → end < 16
      → 0 < length m.words
      → get_or m.words 0 0 < 2 ^ 64
      → visit_marked_range m (m.heap_begin + begin) (m.heap_begin + end) visitor s ≡ some s
  unfolding visit_marked_range visit_edge
  visit_marked_range-nothing begin end h k l fits =
      let offset : m.heap_begin + begin - m.heap_begin ≡ begin = omega arith in
      let offset' : m.heap_begin + end - m.heap_begin ≡ end = omega arith in
      let first : begin / 16 ≡ 0 = omega arith in
      let last : end / 16 ≡ 0 = omega arith in
      rw (
        checked_sub-some (m.heap_begin + begin) m.heap_begin (omega arith),
        offset,
        checked_sub-some (m.heap_begin + end) m.heap_begin (omega arith),
        offset',
        first,
        last,
        get_elem?-eq-get_or m.words 0 0 l,
        bit_and_zero,
      )

  -- With its ends in the heap, the begin not after the end, `visit_marked_range` panics when the end is
  -- past the first granule, whatever the bitmap holds there, and otherwise visits nothing.
  pub visit_marked_range_lem :
      (begin end : ℕ)
      → begin ≤ end
      → 0 < length m.words
      → get_or m.words 0 0 < 2 ^ 64
      → visit_marked_range m (m.heap_begin + begin) (m.heap_begin + end) visitor s
        ≡ (if ltb end 16 then some s else none)
  visit_marked_range_lem begin end h l fits = elim (Bool-cases (ltb end 16)) [
    | inl first ↦ rw first (visit_marked_range-nothing begin end h (ground (arith, first)) l fits)
    | inr past ↦ rw past (visit_marked_range-panics begin end h (ground (arith, past)))
  ]
