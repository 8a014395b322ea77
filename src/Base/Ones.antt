-- ===== src/Base/Ones.antt =====
-- `^` on binary digits, the count of trailing zeros, and the numbers of a range that pass a test.
use Prim.Native.Nat.{
  ℕ, zero, suc, ◌+◌, ◌-◌, ◌*◌, ◌/◌, ◌%◌, ◌^◌, ◌≤◌, ◌<◌, bit_xor, bit_xor-bitwise, differ,
}
use mathlib.Core.Path.{◌≡◌, refl}
use mathlib.Core.Logic.{◌≢◌, inl, inr}
use mathlib.Core.Bool.{Bool, true, false}
use mathlib.Core.List.{List, [], ◌∷◌, ◌++◌}
use native.Mathlib.Nat.{pow-suc, zero-add}
use native.Mathlib.Omega.{arith}
use native.Mathlib.Decide.{ℕ_discrete}
use libimmixcons.Base.Tests.{◌==◌, if◌then◌else◌, Bool-cases}
use libimmixcons.Base.Lists.{length}
use libimmixcons.Base.Bits.{bitwise_digit, bit}

bit_xor_digit : (a b : ℕ) → bit_xor a b ≡ bit_xor (a / 2) (b / 2) * 2 + differ (a % 2) (b % 2)
bit_xor_digit zero b = simp bit_xor-bitwise (differ_zero b)
  where
    differ_zero : (c : ℕ) → c ≡ c / 2 * 2 + differ 0 (c % 2)
    differ_zero c = low (c % 2) (omega arith) (omega arith)
      where
        low : (d : ℕ) → d < 2 → c ≡ c / 2 * 2 + d → c ≡ c / 2 * 2 + differ 0 d
        low zero h e = e
        low (suc zero) h e = e
        low (suc (suc d)) h e = absurd (omega arith)
bit_xor_digit (suc a) b = simp bit_xor-bitwise (bitwise_digit (λ y. y) differ a b)

differ_bits : (a b : ℕ) → a < 2 → b < 2 → differ a b ≡ (if a == b then 0 else 1)
differ_bits zero zero h k = refl
differ_bits zero (suc zero) h k = refl
differ_bits zero (suc (suc b)) h k = absurd (omega arith)
differ_bits (suc zero) zero h k = refl
differ_bits (suc zero) (suc zero) h k = refl
differ_bits (suc zero) (suc (suc b)) h k = absurd (omega arith)
differ_bits (suc (suc a)) b h k = absurd (omega arith)

pub bit-bit_xor : (a b i : ℕ) → bit (bit_xor a b) i ≡ (if bit a i == bit b i then 0 else 1)
unfolding bit
bit-bit_xor a b zero =
    ground (arith, bit_xor_digit a b, differ_bits (a % 2) (b % 2) (omega arith) (omega arith))
bit-bit_xor a b (suc i) =
    let e : bit_xor a b / 2 ≡ bit_xor (a / 2) (b / 2) =
      ground (arith, bit_xor_digit a b, differ_bits (a % 2) (b % 2) (omega arith) (omega arith)) in
    rw e (bit-bit_xor (a / 2) (b / 2) i)

pub bit_xor-lt : (n a b : ℕ) → a < 2 ^ n → b < 2 ^ n → bit_xor a b < 2 ^ n
bit_xor-lt zero zero zero h k = omega arith
bit_xor-lt zero zero (suc b) h k = absurd (omega arith)
bit_xor-lt zero (suc a) b h k = absurd (omega arith)
bit_xor-lt (suc n) a b h k = ground (
  arith,
  pow-suc 2 n,
  bit_xor_digit a b,
  differ_bits (a % 2) (b % 2) (omega arith) (omega arith),
  bit_xor-lt n (a / 2) (b / 2) (omega (arith, pow-suc 2 n)) (omega (arith, pow-suc 2 n)),
)

-- `trailing_zeros` of a word of `n` bits: `n` at 0.
unfoldable pub trailing_zeros : ℕ → ℕ → ℕ
trailing_zeros zero w = 0
trailing_zeros (suc n) w = if w % 2 == 1 then 0 else suc (trailing_zeros n (w / 2))

-- It is the place of the lowest digit that is 1.
pub trailing_zeros-lt : (n w : ℕ) → w < 2 ^ n → w ≢ 0 → trailing_zeros n w < n
unfolding trailing_zeros
trailing_zeros-lt zero w h ne = absurd (ne (omega arith))
trailing_zeros-lt (suc n) w h ne = elim (Bool-cases (w % 2 == 1)) [
  | inl odd ↦ rw odd (omega arith)
  | inr even ↦ rw even (
      omega (
        arith,
        trailing_zeros-lt n (w / 2) (omega (arith, pow-suc 2 n)) (λ e. ne (ground (arith, e))),
      ))
]

pub bit-trailing_zeros : (n w : ℕ) → w < 2 ^ n → w ≢ 0 → bit w (trailing_zeros n w) ≡ 1
unfolding trailing_zeros bit
bit-trailing_zeros zero w h ne = absurd (ne (omega arith))
bit-trailing_zeros (suc n) w h ne = elim (Bool-cases (w % 2 == 1)) [
  | inl odd ↦ rw odd (ground arith)
  | inr even ↦
      rw even
        (bit-trailing_zeros n (w / 2) (omega (arith, pow-suc 2 n)) (λ e. ne (ground (arith, e))))
]

pub bit_below-trailing_zeros : (n w i : ℕ) → i < trailing_zeros n w → bit w i ≡ 0
unfolding trailing_zeros bit
bit_below-trailing_zeros zero w i h = absurd (omega arith)
bit_below-trailing_zeros (suc n) w zero h = elim (Bool-cases (w % 2 == 1)) [
  | inl odd ↦ absurd (ground arith)
  | inr even ↦ ground arith
]
bit_below-trailing_zeros (suc n) w (suc i) h = elim (Bool-cases (w % 2 == 1)) [
  | inl odd ↦ absurd (ground arith)
  | inr even ↦ bit_below-trailing_zeros n (w / 2) i (ground arith)
]

-- The numbers from `k` on, `n` of them, that pass the test.
pub select : (ℕ → Bool) → ℕ → ℕ → List ℕ
select p k zero = []
select p k (suc n) = if p k then k ∷ select p (suc k) n else select p (suc k) n

-- A loop over a list, with its state.
abbrev pub for_each {ℓ} : {S : Type ℓ} → (ℕ → S → S) → List ℕ → S → S
for_each f [] s = s
for_each f (x ∷ xs) s = for_each f xs (f x s)

pub for_each-append {ℓ} :
    {S : Type ℓ} (f : ℕ → S → S) (xs ys : List ℕ) (s : S)
    → for_each f (xs ++ ys) s ≡ for_each f ys (for_each f xs s)
for_each-append f [] ys s = refl
for_each-append f (x ∷ xs) ys s = for_each-append f xs ys (f x s)

pub select-append :
    (p : ℕ → Bool) (n m k : ℕ) → select p k (n + m) ≡ select p k n ++ select p (k + n) m
unfolding select
select-append p zero m k = let e : k + 0 ≡ k = omega arith in rw (e, zero-add)
select-append p (suc n) m k =
    let e : suc k + n ≡ k + suc n = omega arith in
    let e' : suc n + m ≡ suc (n + m) = omega arith in
    elim (Bool-cases (p k)) [
      | inl t ↦ rw (e', t, select-append p n m (suc k), e)
      | inr f ↦ rw (e', f, select-append p n m (suc k), e)
    ]

pub select_ext :
    (p q : ℕ → Bool) (n k : ℕ)
    → ((i : ℕ) → k ≤ i → i < k + n → p i ≡ q i)
    → select p k n ≡ select q k n
unfolding select
select_ext p q zero k h = refl
select_ext p q (suc n) k h = rw (
  h k (omega arith) (omega arith),
  select_ext p q n (suc k) (λ i a b. h i (omega arith) (omega arith)),
)

pub select_none :
    (p : ℕ → Bool) (n k : ℕ) → ((i : ℕ) → k ≤ i → i < k + n → p i ≡ false) → select p k n ≡ []
unfolding select
select_none p zero k h = refl
select_none p (suc n) k h =
    rw (h k (omega arith) (omega arith))
      (select_none p n (suc k) (λ i a b. h i (omega arith) (omega arith)))

pub length-select : (p : ℕ → Bool) (n k : ℕ) → length (select p k n) ≤ n
unfolding select
length-select p zero k = omega arith
length-select p (suc n) k = ground (arith, length-select p n (suc k))

-- The first number that passes the test comes first.
pub select_first :
    (p : ℕ → Bool) (n k t : ℕ)
    → k ≤ t
    → t < k + n
    → ((i : ℕ) → i < t → p i ≡ false)
    → p t ≡ true
    → select p k n ≡ t ∷ select p (suc t) (k + n - suc t)
unfolding select
select_first p zero k t h l low at = absurd (omega arith)
select_first p (suc n) k t h l low at = elim (ℕ_discrete k t) [
  | yes e ↦ let rest : t + suc n - suc t ≡ n = omega arith in rw (e, at, rest)
  | no ne ↦
      let rest : k + suc n - suc t ≡ suc k + n - suc t = omega arith in
      rw (low k (omega arith), rest) (select_first p n (suc k) t (omega arith) (omega arith) low at)
]

pub select-zero : (p : ℕ → Bool) (k : ℕ) → select p k 0 ≡ []
unfolding select
select-zero p k = refl

pub select-true :
    (p : ℕ → Bool) (n k : ℕ) → p k ≡ true → select p k (suc n) ≡ k ∷ select p (suc k) n
unfolding select
select-true p n k h = rw h

pub select-false : (p : ℕ → Bool) (n k : ℕ) → p k ≡ false → select p k (suc n) ≡ select p (suc k) n
unfolding select
select-false p n k h = rw h

-- A loop over numbers of a range that starts later is the loop with a shift.
pub for_each-select_shift {ℓ} :
    {S : Type ℓ} (f : ℕ → S → S) (p : ℕ → Bool) (a n k : ℕ) (s : S)
    → for_each f (select p (a + k) n) s ≡ for_each (λ i. f (a + i)) (select (λ i. p (a + i)) k n) s
unfolding select
for_each-select_shift f p a zero k s = refl
for_each-select_shift f p a (suc n) k s =
    let e : suc (a + k) ≡ a + suc k = omega arith in
    elim (Bool-cases (p (a + k))) [
      | inl t ↦ rw (t, e) (for_each-select_shift f p a n (suc k) (f (a + k) s))
      | inr q ↦ rw (q, e) (for_each-select_shift f p a n (suc k) s)
    ]

pub for_each_ext {ℓ} :
    {S : Type ℓ} (f g : ℕ → S → S) (xs : List ℕ) (s : S)
    → ((x : ℕ) (s : S) → f x s ≡ g x s)
    → for_each f xs s ≡ for_each g xs s
for_each_ext f g [] s h = refl
for_each_ext f g (x ∷ xs) s h = rw (h x s) (for_each_ext f g xs (g x s) h)
