-- ===== src/LargeObjectSpace/Order.antt =====
-- The order of the allocations: what `contains` finds, and when `alloc` keeps the order.
use libimmixcons.Base.{
  ℕ, ◌+◌, ◌-◌, ◌≤◌, ◌<◌, ◌≡◌, ◌↔◌, refl, sym, subst, Bool, true, false, ◌&&◌, ◌||◌, some, List, [],
  ◌∷◌, ltb, if◌then◌else◌, arith, push, count, count-append, dec_lt, Bool-cases, inl, inr, ◌⊎◌,
}
use libimmixcons.LargeObjectSpace.{Slice, LargeObjectSpace, Headers, last, contains, out_of_order}
use libimmixcons.LargeObjectSpace.PreciseAllocation.{
  PreciseAllocation, above_lower_bound, below_upper_bound,
}
use libimmixcons.LargeObjectSpace.PreciseAllocation.Cell.{from_cell-eq, between}

abbrev pub Sorted : List ℕ → Type 0
Sorted [] = Unit
Sorted (x ∷ xs) = ((b : ℕ) → 0 < count b xs → x ≤ b) × Sorted xs

-- What the documentation of slices says of the two methods: the sort orders the same elements, and
-- the search is right on a sorted slice.
pub record IsSlice (slice : Slice) : Type 0 where
  pub sorts : (xs : List ℕ) → Sorted (slice.sort_unstable xs)
  pub keeps : (xs : List ℕ) (b : ℕ) → count b (slice.sort_unstable xs) ≡ count b xs
  pub finds :
      (xs : List ℕ) (b : ℕ) → Sorted xs → (slice.binary_search xs b ≡ true) ↔ (0 < count b xs)

last-member : (x : ℕ) (xs : List ℕ) → 0 < count (last x xs) (x ∷ xs)
unfolding last
last-member x [] = ground arith
last-member x (y ∷ ys) = ground (arith, last-member y ys)

last-greatest :
    (x : ℕ) (xs : List ℕ) → Sorted (x ∷ xs) → (b : ℕ) → 0 < count b (x ∷ xs) → b ≤ last x xs
unfolding last
last-greatest x [] s b h = ground arith
last-greatest x (y ∷ ys) s b h = elim (dec_lt 0 (count b (y ∷ ys))) [
  | yes in_rest ↦ last-greatest y ys s.1 b in_rest
  | no not_in ↦ ground (arith, s.0 (last y ys) (last-member y ys))
]

last-push : (x : ℕ) (xs : List ℕ) (a : ℕ) → last x (push xs a) ≡ a
unfolding last
last-push x [] a = refl
last-push x (y ∷ ys) a = last-push y ys a

-- Sorted with one more at the end.
push-Sorted :
    (xs : List ℕ) (a : ℕ) → Sorted xs → ((b : ℕ) → 0 < count b xs → b ≤ a) → Sorted (push xs a)
push-Sorted [] a s h = (λ b q. absurd (omega arith), tt)
push-Sorted (x ∷ xs) a s h = (
  λ b q. elim (dec_lt 0 (count b xs)) [
    | yes old ↦ s.0 b old
    | no new ↦ ground (arith, h x, count-append b xs (a ∷ []))
  ],
  push-Sorted xs a s.1 (λ b q. h b (ground arith)),
)

Sorted-push : (xs : List ℕ) (a : ℕ) → Sorted (push xs a) → (b : ℕ) → 0 < count b xs → b ≤ a
Sorted-push [] a s b h = absurd (omega arith)
Sorted-push (x ∷ xs) a s b h = elim (dec_lt 0 (count b xs)) [
  | yes old ↦ Sorted-push xs a s.1 b old
  | no new ↦ ground (arith, s.0 a, count-append a xs (a ∷ []))
]

first-least : (x : ℕ) (xs : List ℕ) → Sorted (x ∷ xs) → (b : ℕ) → 0 < count b (x ∷ xs) → x ≤ b
first-least x xs s b h = ground (arith, s.0 b)

bools_differ : false ≡ true → ⊥
bools_differ e = cc

found_at : (q at : ℕ) → q ≡ at + 24 → q - 24 ≡ at
found_at q at e = omega arith

-- On sorted allocations, `contains` answers for every address, and says yes exactly for the
-- addresses of the allocations' cells.
pub contains-Sorted :
    (slice : Slice) (s : LargeObjectSpace) (headers : Headers) (q : ℕ)
    → IsSlice slice
    → Sorted s.allocations
    → ((b : ℕ) → 0 < count b s.allocations → (p : PreciseAllocation) × (headers b ≡ some p))
    → (r : Bool) × (contains slice s headers q ≡ some r)
      × ((r ≡ true) ↔ ((at : ℕ) × (0 < count at s.allocations) × (q ≡ at + 24)))
unfolding contains
contains-Sorted slice s headers q ok sorted have = go s.allocations sorted have refl
  where
    go :
        (l : List ℕ)
        → Sorted l
        → ((b : ℕ) → 0 < count b l → (p : PreciseAllocation) × (headers b ≡ some p))
        → s.allocations ≡ l
        → (r : Bool) × (contains slice s headers q ≡ some r)
          × ((r ≡ true) ↔ ((at : ℕ) × (0 < count at l) × (q ≡ at + 24)))
    go [] sorted have e =
        (false, rw e refl, (λ f. absurd (ground (arith, f)), λ h. absurd (omega (arith, h.1))))
    go (x ∷ xs) sorted have e =
        let (h, eh) = have (last x xs) (last-member x xs) in
        elim (Bool-cases (above_lower_bound x q && below_upper_bound (last x xs) h q)) [
          | inl within ↦
              let low = (between x (last x xs) h q).0 within in
              (
                slice.binary_search (x ∷ xs) (q - 24),
                rw (e, eh, within, from_cell-eq q low) refl,
                (
                  λ f. (q - 24, (ok.finds (x ∷ xs) (q - 24) sorted).0 f, omega arith),
                  λ m.
                      (ok.finds (x ∷ xs) (q - 24) sorted).1
                        (subst (λ t. 0 < count t (x ∷ xs)) (sym (found_at q m.0 m.2)) m.1),
                ),
              )
          | inr outside ↦ (
            false,
            rw (e, eh, outside) refl,
            (
              λ f. absurd (bools_differ f),
              λ m. absurd (
                  bools_differ (
                    rw outside at (between x (last x xs) h q).1 m.0
                      (first-least x xs sorted m.0 m.1) (last-greatest x xs sorted m.0 m.1) m.2)),
            ),
          )
        ]

-- `alloc` sorts after it pushes when the new address is below the first.
unfoldable pub placed_in : Slice → List ℕ → ℕ → List ℕ
placed_in slice xs a =
    let ys = push xs a in if out_of_order ys a then slice.sort_unstable ys else ys

abbrev pub InOrder : List ℕ → ℕ → Type 0
InOrder xs a = ((b : ℕ) → 0 < count b xs → b ≤ a) ⊎ ((b : ℕ) → 0 < count b xs → a < b)

pub placed_in-count :
    (slice : Slice) (xs : List ℕ) (a : ℕ)
    → IsSlice slice
    → (b : ℕ) → count b (placed_in slice xs a) ≡ count b (a ∷ xs)
unfolding placed_in
placed_in-count slice xs a ok b = ground (arith, ok.keeps (push xs a) b, count-append b xs (a ∷ []))

out : (a x : ℕ) (r : Bool) → ltb a x ≡ r → (ltb a a || ltb a x) ≡ r
out a x r e = rw e (ground arith)

all_below :
    (x : ℕ) (xs : List ℕ) (a : ℕ)
    → ¬ a < x
    → InOrder (x ∷ xs) a
    → (b : ℕ) → 0 < count b (x ∷ xs)
    → b ≤ a
all_below x xs a ge (inl all) b m = all b m
all_below x xs a ge (inr all) b m = absurd (omega (arith, all x (ground arith)))

pub placed_in-Sorted :
    (slice : Slice) (xs : List ℕ) (a : ℕ)
    → IsSlice slice
    → Sorted xs
    → Sorted (placed_in slice xs a) ↔ InOrder xs a
unfolding placed_in out_of_order
placed_in-Sorted slice [] a ok s = (
  λ h. inl (λ b q. absurd (omega arith)),
  λ h. rw (out a a false (ground arith)) (λ b q. absurd (omega arith), tt),
)
placed_in-Sorted slice (x ∷ xs) a ok s = elim (dec_lt a x) [
  | yes lt ↦ (
    λ h. inr (λ b m. omega (arith, first-least x xs s b m)),
    λ h. rw (last-push x xs a, out a x true (ground arith)) (ok.sorts (push (x ∷ xs) a)),
  )
  | no ge ↦ (
    λ h. inl (λ b m.
        Sorted-push (x ∷ xs) a (rw (last-push x xs a, out a x false (ground arith)) at h) b m),
    λ h.
        rw (last-push x xs a, out a x false (ground arith))
          (push-Sorted (x ∷ xs) a s (all_below x xs a ge h)),
  )
]
