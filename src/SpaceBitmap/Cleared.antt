-- ===== src/SpaceBitmap/Cleared.antt =====
-- Bits taken out one by one: the loops at the two ends of `clear_range`.
use libimmixcons.Base.{
  ℕ, zero, suc, ◌+◌, ◌*◌, ◌/◌, ◌%◌, ◌≤◌, ◌<◌, ◌≡◌, ◌≢◌, ◌⊎◌, refl, subst, ◌∙◌, true, false, not,
  ◌&&◌, some, ◌==◌, ltb, leb, if◌then◌else◌, arith, checked_sub, length, ℕ_discrete, dec_lt, inl,
  inr,
}
use libimmixcons.SpaceBitmap.{SpaceBitmap, clear, clear_up, clear_down, offset_bit_index}
use libimmixcons.SpaceBitmap.Granules.{IsBitmap, marked, Changed, Covers, modify_lem}

-- `m'` is `m` without the granules from `lo` up to but not `hi`.
pub record Cleared (m m' : SpaceBitmap) (lo hi : ℕ) : Type 0 where
  pub valid : IsBitmap m'
  pub same_begin : m'.heap_begin ≡ m.heap_begin
  pub same_limit : m'.heap_limit ≡ m.heap_limit
  pub same_size : m'.bitmap_size ≡ m.bitmap_size
  pub same_length : length m'.words ≡ length m.words
  pub granules : (j : ℕ) → marked m' j ≡ (if leb lo j && ltb j hi then false else marked m j)

Cleared-none : (m : SpaceBitmap) (lo : ℕ) → IsBitmap m → Cleared m m lo lo
Cleared-none m lo v = record {
  valid = v;
  same_begin = refl;
  same_limit = refl;
  same_size = refl;
  same_length = refl;
  granules = λ j. ground arith;
}

pub Cleared-join :
    (m m₁ m₂ : SpaceBitmap) (lo mid hi : ℕ)
    → lo ≤ mid
    → mid ≤ hi
    → Cleared m m₁ lo mid
    → Cleared m₁ m₂ mid hi
    → Cleared m m₂ lo hi
Cleared-join m m₁ m₂ lo mid hi p q c d = record {
  valid = d.valid;
  same_begin = d.same_begin ∙ c.same_begin;
  same_limit = d.same_limit ∙ c.same_limit;
  same_size = d.same_size ∙ c.same_size;
  same_length = d.same_length ∙ c.same_length;
  granules = λ j. ground (arith, c.granules j, d.granules j);
}

-- The order of the two does not matter.
pub Cleared-swap :
    (m m₁ m₂ : SpaceBitmap) (lo mid hi : ℕ)
    → lo ≤ mid
    → mid ≤ hi
    → Cleared m m₁ mid hi
    → Cleared m₁ m₂ lo mid
    → Cleared m m₂ lo hi
Cleared-swap m m₁ m₂ lo mid hi p q c d = record {
  valid = d.valid;
  same_begin = d.same_begin ∙ c.same_begin;
  same_limit = d.same_limit ∙ c.same_limit;
  same_size = d.same_size ∙ c.same_size;
  same_length = d.same_length ∙ c.same_length;
  granules = λ j. ground (arith, c.granules j, d.granules j);
}

clear_one :
    (m : SpaceBitmap) (g : ℕ)
    → IsBitmap m
    → g < length m.words * 64
    → (m' : SpaceBitmap) × (clear m (m.heap_begin + g * 16) ≡ some m') × Cleared m m' g (g + 1)
unfolding clear
clear_one m g v h =
    let here : g * 16 / 16 ≡ g = omega arith in
    let covered : Covers m (g * 16) = rw here (omega arith) in
    let (m', e, c) = modify_lem {m = m} false (g * 16) v covered in
    let d : Changed m m' g false = subst (λ t. Changed m m' t false) here c in
    (
      m',
      rw e refl,
      record {
        valid = d.valid;
        same_begin = d.same_begin;
        same_limit = d.same_limit;
        same_size = d.same_size;
        same_length = d.same_length;
        granules = λ j. ground (arith, d.granules j);
      },
    )

step_up :
    (rounds : ℕ) (m m₁ : SpaceBitmap) (lo hi : ℕ)
    → clear m (m.heap_begin + lo * 16) ≡ some m₁
    → lo < hi
    → lo % 64 ≢ 0
    → clear_up (suc rounds) m (lo * 16) (hi * 16) ≡ clear_up rounds m₁ ((lo + 1) * 16) (hi * 16)
unfolding clear_up offset_bit_index
step_up rounds m m₁ lo hi run lt ne =
    let next : lo * 16 + 16 ≡ (lo + 1) * 16 = omega arith in
    let test : (ltb (lo * 16) (hi * 16) && not (lo * 16 / 16 % 64 == 0)) ≡ true = ground arith in
    rw (test, run, next) refl

step_down :
    (rounds : ℕ) (m m₁ : SpaceBitmap) (lo hi : ℕ)
    → clear m (m.heap_begin + hi * 16) ≡ some m₁
    → lo < suc hi
    → suc hi % 64 ≢ 0
    → clear_down (suc rounds) m (lo * 16) (suc hi * 16) ≡ clear_down rounds m₁ (lo * 16) (hi * 16)
unfolding clear_down offset_bit_index
step_down rounds m m₁ lo hi run lt ne =
    let less : checked_sub (suc hi * 16) 16 ≡ some (hi * 16) = ground arith in
    let test : (ltb (lo * 16) (suc hi * 16) && not (suc hi * 16 / 16 % 64 == 0)) ≡ true =
      ground arith in
    rw (test, less, run) refl

-- Rounds enough to go up to a word's boundary.
abbrev Enough : ℕ → ℕ → Type 0
Enough rounds lo = (65 ≤ rounds + lo % 64) ⊎ ((0 < rounds) × (lo % 64 ≡ 0))

Enough-next : (rounds lo : ℕ) → Enough (suc rounds) lo → lo % 64 ≢ 0 → Enough rounds (lo + 1)
Enough-next rounds lo (inr e) ne = absurd (omega (arith, e.1))
Enough-next rounds lo (inl e) ne = elim (ℕ_discrete (lo % 64) 63) [
  | yes edge ↦ inr (omega arith, omega arith)
  | no inner ↦ inl (omega arith)
]

Enough-zero : (lo : ℕ) → Enough zero lo → ⊥
Enough-zero lo (inl e) = absurd (omega arith)
Enough-zero lo (inr e) = absurd (omega (arith, e.0))

pub clear_up_lem :
    (rounds : ℕ) (m : SpaceBitmap) (lo hi : ℕ)
    → IsBitmap m
    → lo ≤ hi
    → hi ≤ length m.words * 64
    → Enough rounds lo
    → (m' : SpaceBitmap) × (lo' : ℕ) × (clear_up rounds m (lo * 16) (hi * 16) ≡ some (m', lo' * 16))
      × (lo ≤ lo')
      × (lo' ≤ hi)
      × Cleared m m' lo lo'
      × ((lo' % 64 ≡ 0) ⊎ (lo' ≡ hi))
unfolding clear_up offset_bit_index
clear_up_lem zero m lo hi v p q enough = absurd (Enough-zero lo enough)
clear_up_lem (suc rounds) m lo hi v p q enough = elim (ℕ_discrete (lo % 64) 0) [
  | yes e ↦ (m, lo, ground arith, omega arith, p, Cleared-none m lo v, inl e)
  | no ne ↦ elim (dec_lt lo hi) [
    | no done ↦ (m, lo, ground arith, omega arith, p, Cleared-none m lo v, inr (omega arith))
    | yes lt ↦
        let (m₁, run, c) = clear_one m lo v (omega arith) in
        let (m₂, lo', run', above, below, c', end) =
          clear_up_lem rounds m₁ (lo + 1) hi c.valid (omega arith) (omega (arith, c.same_length))
            (Enough-next rounds lo enough ne) in
        (
          m₂,
          lo',
          step_up rounds m m₁ lo hi run lt ne ∙ run',
          omega (arith, above),
          below,
          Cleared-join m m₁ m₂ lo (lo + 1) lo' (omega arith) above c c',
          end,
        )
  ]
]

pub clear_down_lem :
    (rounds : ℕ) (m : SpaceBitmap) (lo hi : ℕ)
    → IsBitmap m
    → lo ≤ hi
    → hi ≤ length m.words * 64
    → hi % 64 < rounds
    → (m' : SpaceBitmap) × (hi' : ℕ) × (clear_down rounds m (lo * 16) (hi * 16)
        ≡ some (m', hi' * 16))
      × (lo ≤ hi')
      × (hi' ≤ hi)
      × Cleared m m' hi' hi
      × ((hi' % 64 ≡ 0) ⊎ (hi' ≡ lo))
unfolding clear_down offset_bit_index
clear_down_lem zero m lo hi v p q enough = absurd (omega arith)
clear_down_lem (suc rounds) m lo zero v p q enough =
    (m, zero, ground arith, p, omega arith, Cleared-none m zero v, inl refl)
clear_down_lem (suc rounds) m lo (suc hi) v p q enough = elim (ℕ_discrete (suc hi % 64) 0) [
  | yes e ↦ (m, suc hi, ground arith, p, omega arith, Cleared-none m (suc hi) v, inl e)
  | no ne ↦ elim (dec_lt lo (suc hi)) [
    | no done ↦
        (m, suc hi, ground arith, p, omega arith, Cleared-none m (suc hi) v, inr (omega arith))
    | yes lt ↦
        let (m₁, run, one) = clear_one m hi v (omega arith) in
        let after : hi + 1 ≡ suc hi = omega arith in
        let c : Cleared m m₁ hi (suc hi) = subst (λ t. Cleared m m₁ hi t) after one in
        let (m₂, hi', run', above, below, c', end) =
          clear_down_lem rounds m₁ lo hi c.valid (omega arith) (omega (arith, c.same_length))
            (omega arith) in
        (
          m₂,
          hi',
          step_down rounds m m₁ lo hi run lt ne ∙ run',
          above,
          omega (arith, below),
          Cleared-swap m m₁ m₂ hi' hi (suc hi) below (omega arith) c c',
          end,
        )
  ]
]
