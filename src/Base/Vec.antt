-- ===== src/Base/Vec.antt =====
-- `Vec` as a list in index order: `push` and `pop` work at the end.
use Prim.Native.Nat.{ℕ, zero, suc, ◌+◌}
use mathlib.Core.Path.{◌≡◌, refl, ap}
use mathlib.Core.List.{List, [], ◌∷◌, ◌++◌}
use mathlib.Core.Option.{Option, none, some}
use native.Mathlib.Omega.{arith}
use libimmixcons.Base.Tests.{◌==◌, if◌then◌else◌}
use libimmixcons.Base.Lists.{length, take, drop}

module _ {ℓ} {A : Type ℓ} where
  abbrev pub push : List A → A → List A
  push xs x = xs ++ (x ∷ [])

  abbrev pub pop_from : A → List A → List A × A
  pop_from x [] = ([], x)
  pop_from x (y ∷ ys) = let (rest, last) = pop_from y ys in (x ∷ rest, last)

  -- What is left, and the last element.
  abbrev pub pop : List A → Option (List A × A)
  pop [] = none
  pop (x ∷ xs) = some (pop_from x xs)

  pub pop_from-push : (x : A) (xs : List A) → push (pop_from x xs).0 (pop_from x xs).1 ≡ x ∷ xs
  pop_from-push x [] = refl
  pop_from-push x (y ∷ ys) = ap (λ l. x ∷ l) (pop_from-push y ys)

  pub length-pop_from : (x : A) (xs : List A) → length (pop_from x xs).0 ≡ length xs
  length-pop_from x [] = refl
  length-pop_from x (y ∷ ys) = ap suc (length-pop_from y ys)

-- How often a number is in a list.
abbrev pub count : ℕ → List ℕ → ℕ
count a [] = 0
count a (x ∷ xs) = (if x == a then 1 else 0) + count a xs

-- No number stands twice.
abbrev pub Distinct : List ℕ → Type 0
Distinct [] = Unit
Distinct (x ∷ xs) = (count x xs ≡ 0) × Distinct xs

pub count-append :
    (a : ℕ) (front back : List ℕ) → count a (front ++ back) ≡ count a front + count a back
count-append a [] back = omega arith
count-append a (first ∷ front) back = ground (arith, count-append a front back)

pub count-pop_from :
    (a x : ℕ) (xs : List ℕ)
    → count a (pop_from x xs).0 + (if (pop_from x xs).1 == a then 1 else 0) ≡ count a (x ∷ xs)
count-pop_from a x [] = omega arith
count-pop_from a x (y ∷ ys) = omega (arith, count-pop_from a y ys)

-- `take` and `drop` part a list.
pub count-take-drop :
    (a n : ℕ) (xs : List ℕ) → count a (take n xs) + count a (drop n xs) ≡ count a xs
count-take-drop a zero xs = omega arith
count-take-drop a (suc n) [] = omega arith
count-take-drop a (suc n) (x ∷ xs) = omega (arith, count-take-drop a n xs)
