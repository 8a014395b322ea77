-- ===== src/Base/Bits.antt =====
-- The binary digits of a word, and what `&`, `|`, `!` and a one-bit mask do to them.
use Prim.Native.Nat.{ℕ, zero, suc, ◌+◌, ◌-◌, ◌*◌, ◌/◌, ◌%◌, ◌^◌, ◌≤◌, ◌<◌, min, max}
use Prim.Native.Nat.{bit_and, bit_or, digits, bitwise, bit_and-bitwise, bit_or-bitwise}
use mathlib.Core.Path.{◌≡◌, refl, ◌∙◌, ap, subst}
use mathlib.Core.Logic.{◌≢◌}
use mathlib.Core.Bool.{not}
use native.Mathlib.Nat.{le_refl, pow-suc, one-le-pow}
use native.Mathlib.Omega.{arith}
use native.Mathlib.Decide.{ℕ_discrete}
use libimmixcons.Base.Tests.{◌==◌, ltb, if◌then◌else◌}

-- The native operations recur on binary digits with fuel; the equation for one digit drops it.
module _ (at_end : ℕ → ℕ) (on_digit : ℕ → ℕ → ℕ) where
  digits_more :
      (little much v w : ℕ)
      → v ≤ little
      → v ≤ much
      → digits at_end on_digit little v w ≡ digits at_end on_digit much v w
  digits_more zero zero v w h k = refl
  digits_more zero (suc much) zero w h k = refl
  digits_more (suc little) zero zero w h k = refl
  digits_more (suc little) (suc much) zero w h k = refl
  digits_more zero (suc much) (suc v) w h k = absurd (omega arith)
  digits_more (suc little) zero (suc v) w h k = absurd (omega arith)
  digits_more (suc little) (suc much) (suc v) w h k =
      let half : suc v / 2 ≤ little = omega arith in
      let half' : suc v / 2 ≤ much = omega arith in
      rw (digits_more little much (suc v / 2) (w / 2) half half')

  pub bitwise_digit :
      (v w : ℕ)
      → bitwise at_end on_digit (suc v) w
        ≡ bitwise at_end on_digit (suc v / 2) (w / 2) * 2 + on_digit (suc v % 2) (w % 2)
  bitwise_digit v w =
      let half : suc v / 2 ≤ v = omega arith in
      omega (arith, digits_more v (suc v / 2) (suc v / 2) (w / 2) half (le_refl _))

bit_and_digit : (v w : ℕ) → bit_and v w ≡ min (v % 2) (w % 2) + bit_and (v / 2) (w / 2) * 2
bit_and_digit zero w = simp bit_and-bitwise (omega arith)
bit_and_digit (suc v) w = simp bit_and-bitwise (omega (arith, bitwise_digit (λ d. 0) min v w))

bit_or_digit : (v w : ℕ) → bit_or v w ≡ max (v % 2) (w % 2) + bit_or (v / 2) (w / 2) * 2
bit_or_digit zero w = simp bit_or-bitwise (omega arith)
bit_or_digit (suc v) w = simp bit_or-bitwise (omega (arith, bitwise_digit (λ d. d) max v w))

-- Digit `i` of `w`, from the lowest.
unfoldable pub bit : ℕ → ℕ → ℕ
bit w zero = w % 2
bit w (suc i) = bit (w / 2) i

-- `!w` on 64 bits.
abbrev pub bit_not : ℕ → ℕ
bit_not w = 2 ^ 64 - 1 - w

pub bit-lt : (w i : ℕ) → bit w i < 2
unfolding bit
bit-lt w zero = omega arith
bit-lt w (suc i) = bit-lt (w / 2) i

pub bit-bit_and : (a b i : ℕ) → bit (bit_and a b) i ≡ min (bit a i) (bit b i)
unfolding bit
bit-bit_and a b zero = omega (arith, bit_and_digit a b)
bit-bit_and a b (suc i) =
    let e : bit_and a b / 2 ≡ bit_and (a / 2) (b / 2) = omega (arith, bit_and_digit a b) in
    rw e (bit-bit_and (a / 2) (b / 2) i)

pub bit-bit_or : (a b i : ℕ) → bit (bit_or a b) i ≡ max (bit a i) (bit b i)
unfolding bit
bit-bit_or a b zero = omega (arith, bit_or_digit a b)
bit-bit_or a b (suc i) =
    let e : bit_or a b / 2 ≡ bit_or (a / 2) (b / 2) = omega (arith, bit_or_digit a b) in
    rw e (bit-bit_or (a / 2) (b / 2) i)

pub bit-zero : (i : ℕ) → bit 0 i ≡ 0
unfolding bit
bit-zero zero = refl
bit-zero (suc i) = bit-zero i

halve_pow : (i : ℕ) → 2 ^ suc i / 2 ≡ 2 ^ i
halve_pow i = omega (arith, pow-suc 2 i)

pub bit-pow_self : (i : ℕ) → bit (2 ^ i) i ≡ 1
unfolding bit
bit-pow_self zero = refl
bit-pow_self (suc i) = rw halve_pow (bit-pow_self i)

pub bit-pow_ne : (i j : ℕ) → i ≢ j → bit (2 ^ i) j ≡ 0
unfolding bit
bit-pow_ne zero zero h = absurd (h refl)
bit-pow_ne zero (suc j) h = bit-zero j
bit-pow_ne (suc i) zero h = omega (arith, pow-suc 2 i)
bit-pow_ne (suc i) (suc j) h = rw halve_pow (bit-pow_ne i j (λ e. h (ap suc e)))

bit-complement : (n w i : ℕ) → w < 2 ^ n → i < n → bit (2 ^ n - 1 - w) i ≡ 1 - bit w i
unfolding bit
bit-complement zero w i h k = absurd (omega arith)
bit-complement (suc n) w zero h k = omega (arith, pow-suc 2 n)
bit-complement (suc n) w (suc i) h k =
    let e : (2 ^ suc n - 1 - w) / 2 ≡ 2 ^ n - 1 - w / 2 = omega (arith, pow-suc 2 n) in
    rw e (bit-complement n (w / 2) i (omega (arith, pow-suc 2 n)) (omega arith))

pub bit-bit_not : (w i : ℕ) → w < 2 ^ 64 → i < 64 → bit (bit_not w) i ≡ 1 - bit w i
bit-bit_not w i h k = bit-complement 64 w i h k

bit_or-lt_pow : (n a b : ℕ) → a < 2 ^ n → b < 2 ^ n → bit_or a b < 2 ^ n
bit_or-lt_pow zero zero zero h k = omega arith
bit_or-lt_pow zero zero (suc b) h k = absurd (omega arith)
bit_or-lt_pow zero (suc a) b h k = absurd (omega arith)
bit_or-lt_pow (suc n) a b h k = omega (
  arith,
  pow-suc 2 n,
  bit_or_digit a b,
  bit_or-lt_pow n (a / 2) (b / 2) (omega (arith, pow-suc 2 n)) (omega (arith, pow-suc 2 n)),
)

pub bit_or-lt : (a b : ℕ) → a < 2 ^ 64 → b < 2 ^ 64 → bit_or a b < 2 ^ 64
bit_or-lt a b h k = bit_or-lt_pow 64 a b h k

bit_and-le_fuel : (n a b : ℕ) → a ≤ n → bit_and a b ≤ a
bit_and-le_fuel n zero b h = omega (arith, bit_and-bitwise 0 b)
bit_and-le_fuel zero (suc a) b h = absurd (omega arith)
bit_and-le_fuel (suc n) (suc a) b h =
    omega (arith, bit_and_digit (suc a) b, bit_and-le_fuel n (suc a / 2) (b / 2) (omega arith))

pub bit_and-le : (a b : ℕ) → bit_and a b ≤ a
bit_and-le a b = bit_and-le_fuel a a b (le_refl a)

pub bit_and_zero : (a : ℕ) → bit_and a 0 ≡ 0
bit_and_zero a = zeros a a (le_refl a)
  where
    zeros : (n x : ℕ) → x ≤ n → bit_and x 0 ≡ 0
    zeros n zero h = refl
    zeros zero (suc x) h = absurd (omega arith)
    zeros (suc n) (suc x) h =
        omega (arith, bit_and_digit (suc x) 0, zeros n (suc x / 2) (omega arith))

-- A one-bit mask picks one digit.
pub bit_and-pow : (w i : ℕ) → bit_and w (2 ^ i) ≡ bit w i * 2 ^ i
unfolding bit
bit_and-pow w zero = omega (arith, bit_and_digit w 1, bit_and_zero (w / 2))
bit_and-pow w (suc i) = omega (
  arith,
  bit_and_digit w (2 ^ suc i),
  pow-suc 2 i,
  ap (λ t. bit_and (w / 2) t) (halve_pow i) ∙ bit_and-pow (w / 2) i,
  ap (λ t. bit (w / 2) i * t) (pow-suc 2 i),
)

pub bit_test : (w i : ℕ) → not (bit_and w (2 ^ i) == 0) ≡ (bit w i == 1)
bit_test w i = ground (arith, bit_and-pow w i, bit-lt w i, one-le-pow i 2, picked (bit w i) (2 ^ i))
  where
    picked : (d p : ℕ) → d < 2 → 1 ≤ p → not (d * p == 0) ≡ (d == 1)
    picked zero p h k = ground arith
    picked (suc zero) p h k = ground arith
    picked (suc (suc d)) p h k = absurd (omega arith)

-- A word with no digit set is zero.
bits_zero_pow : (n w : ℕ) → w < 2 ^ n → ((i : ℕ) → i < n → bit w i ≡ 0) → w ≡ 0
unfolding bit
bits_zero_pow zero w h z = omega arith
bits_zero_pow (suc n) w h z = omega (
  arith,
  z 0 (omega arith),
  bits_zero_pow n (w / 2) (omega (arith, pow-suc 2 n)) (λ i k. z (suc i) (omega arith)),
)

pub bits_zero : (w : ℕ) → w < 2 ^ 64 → ((i : ℕ) → i < 64 → bit w i ≡ 0) → w ≡ 0
bits_zero w h z = bits_zero_pow 64 w h z

pub pow_mono_lt : (i n : ℕ) → i < n → 2 ^ i < 2 ^ n
pow_mono_lt i zero h = absurd (omega arith)
pow_mono_lt zero (suc n) h = omega (arith, pow-suc 2 n, one-le-pow n 2)
pow_mono_lt (suc i) (suc n) h =
    omega (arith, pow-suc 2 n, pow-suc 2 i, pow_mono_lt i n (omega arith))

-- Words with the same digits are equal.
bit_ext_pow : (n a b : ℕ) → a < 2 ^ n → b < 2 ^ n → ((i : ℕ) → i < n → bit a i ≡ bit b i) → a ≡ b
unfolding bit
bit_ext_pow zero a b h k e = omega arith
bit_ext_pow (suc n) a b h k e = omega (
  arith,
  e 0 (omega arith),
  bit_ext_pow n (a / 2) (b / 2) (omega (arith, pow-suc 2 n)) (omega (arith, pow-suc 2 n))
      (λ i p. e (suc i) (omega arith)),
)

pub bit_ext : (a b : ℕ) → a < 2 ^ 64 → b < 2 ^ 64 → ((i : ℕ) → i < 64 → bit a i ≡ bit b i) → a ≡ b
bit_ext a b h k e = bit_ext_pow 64 a b h k e

-- The binary digits of 7 are the tag bits.
pub bit-seven : (i : ℕ) → bit 7 i ≡ (if ltb i 3 then 1 else 0)
unfolding bit
bit-seven zero = refl
bit-seven (suc zero) = refl
bit-seven (suc (suc zero)) = refl
bit-seven (suc (suc (suc i))) = bit-zero i ∙ ground arith

pub bit-mul_eight : (w i : ℕ) → i < 3 → w % 8 ≡ 0 → bit w i ≡ 0
unfolding bit
bit-mul_eight w zero h e = omega arith
bit-mul_eight w (suc zero) h e = omega arith
bit-mul_eight w (suc (suc zero)) h e = omega arith
bit-mul_eight w (suc (suc (suc i))) h e = absurd (omega arith)

bit_and-odd : (w m : ℕ) → bit_and w (m * 2 + 1) ≡ bit_and (w / 2) m * 2 + w % 2
bit_and-odd w m =
    let half : (m * 2 + 1) / 2 ≡ m = omega arith in
    bit_and_digit w (m * 2 + 1) ∙ rw half (omega arith)

pub bit_and-fifteen : (w : ℕ) → bit_and w 15 ≡ w % 16
bit_and-fifteen w = omega (
  arith,
  bit_and-odd w 7,
  bit_and-odd (w / 2) 3,
  bit_and-odd (w / 2 / 2) 1,
  bit_and-odd (w / 2 / 2 / 2) 0,
  bit_and_zero (w / 2 / 2 / 2 / 2),
)

pub bit-three : (w : ℕ) → bit w 3 ≡ w / 8 % 2
unfolding bit
bit-three w = omega arith

pub bit-ten : (w : ℕ) → bit w 10 ≡ w / 1024 % 2
unfolding bit
bit-ten w = omega arith

-- Clearing a digit that is 0 changes nothing.
pub bit_and-bit_not :
    (w i : ℕ) → w < 2 ^ 64 → i < 64 → bit w i ≡ 0 → bit_and w (bit_not (2 ^ i)) ≡ w
bit_and-bit_not w i h p z = bit_ext _ w (omega (arith, bit_and-le w (bit_not (2 ^ i)))) h λ k q.
    elim (ℕ_discrete i k) [
      | yes e ↦ omega (arith, bit-bit_and w (bit_not (2 ^ i)) k, subst (λ t. bit w t ≡ 0) e z)
      | no ne ↦ omega (
        arith,
        bit-bit_and w (bit_not (2 ^ i)) k,
        bit-bit_not (2 ^ i) k (pow_mono_lt i 64 p) q,
        bit-pow_ne i k ne,
        bit-lt w k,
      )
    ]
