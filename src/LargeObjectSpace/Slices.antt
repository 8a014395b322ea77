-- ===== src/LargeObjectSpace/Slices.antt =====
-- An insertion sort and a linear search for the slice methods, for tests.
use libimmixcons.Base.{
  ℕ, ◌≤◌, ◌<◌, ◌≡◌, refl, true, false, List, [], ◌∷◌, leb, ltb, if◌then◌else◌, arith, count, dec_lt,
}
use libimmixcons.LargeObjectSpace.{Slice}
use libimmixcons.LargeObjectSpace.Order.{Sorted, IsSlice}

abbrev insert : ℕ → List ℕ → List ℕ
insert a [] = a ∷ []
insert a (x ∷ xs) = let rest = insert a xs in if leb a x then a ∷ x ∷ xs else x ∷ rest

abbrev sort : List ℕ → List ℕ
sort [] = []
sort (x ∷ xs) = insert x (sort xs)

count-insert : (a : ℕ) (xs : List ℕ) (b : ℕ) → count b (insert a xs) ≡ count b (a ∷ xs)
count-insert a [] b = refl
count-insert a (x ∷ xs) b = ground (arith, count-insert a xs b)

insert-Sorted : (a : ℕ) (xs : List ℕ) → Sorted xs → Sorted (insert a xs)
insert-Sorted a [] s = (λ b q. absurd (omega arith), tt)
insert-Sorted a (x ∷ xs) s = elim (dec_lt x a) [
  | yes lt ↦
      rw (leb_no a x lt) (λ b h. ground (arith, count-insert a xs b, s.0 b), insert-Sorted a xs s.1)
  | no ge ↦ rw (leb_yes a x (omega arith)) (λ b h. ground (arith, s.0 b), s)
]
  where
    leb_no : (a x : ℕ) → x < a → leb a x ≡ false
    leb_no a x h = ground arith

    leb_yes : (a x : ℕ) → a ≤ x → leb a x ≡ true
    leb_yes a x h = ground arith

sort-Sorted : (xs : List ℕ) → Sorted (sort xs)
sort-Sorted [] = tt
sort-Sorted (x ∷ xs) = insert-Sorted x (sort xs) (sort-Sorted xs)

count-sort : (xs : List ℕ) (b : ℕ) → count b (sort xs) ≡ count b xs
count-sort [] b = refl
count-sort (x ∷ xs) b = ground (arith, count-insert x (sort xs) b, count-sort xs b)

abbrev pub list_slice : Slice
list_slice = record { sort_unstable = sort; binary_search = λ xs b. ltb 0 (count b xs) }

pub list_slice-IsSlice : IsSlice list_slice
list_slice-IsSlice = record {
  sorts = sort-Sorted;
  keeps = count-sort;
  finds = λ xs b s. (λ e. ground arith, λ h. ground arith);
}
