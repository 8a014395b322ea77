-- ===== src/SpaceBitmap/Granules.antt =====
-- The bitmap as a set of granules, the 16-byte units of the heap counted from its beginning.
use libimmixcons.Base.{
  ℕ, ◌+◌, ◌/◌, ◌%◌, ◌^◌, ◌<◌, ◌≡◌, ◌≢◌, refl, Bool, true, false, some, ◌==◌, if◌then◌else◌, arith,
  bit_and, bit_or, bit_not, get_or, length, bit, bit-lt, bit_test, bit-bit_or, bit-bit_and,
  bit-bit_not, bit-pow_self, bit-pow_ne, bit_or-lt, bit_and-le, pow_mono_lt, length-set,
  get_or-set_self, get_or-set_ne, get_elem?-eq-get_or, ℕ_discrete, Bool-cases, inl, inr,
}
use libimmixcons.Base.{set as set_elem}
use libimmixcons.SpaceBitmap.{SpaceBitmap, test, modify}

-- Words of 64 bits.
pub record IsBitmap (m : SpaceBitmap) : Type 0 where
  pub in_word : (i : ℕ) → get_or m.words i 0 < 2 ^ 64

-- Is the granule in the set?
abbrev pub marked : SpaceBitmap → ℕ → Bool
marked m g = bit (get_or m.words (g / 64) 0) (g % 64) == 1

-- The offset from the beginning of the heap has a bit.
abbrev pub Covers : SpaceBitmap → ℕ → Type 0
Covers m off = off / 16 / 64 < length m.words

-- `m'` is `m` but for granule `g`, which is in the set or not as `x` says.
pub record Changed (m m' : SpaceBitmap) (g : ℕ) (x : Bool) : Type 0 where
  pub valid : IsBitmap m'
  pub same_begin : m'.heap_begin ≡ m.heap_begin
  pub same_limit : m'.heap_limit ≡ m.heap_limit
  pub same_size : m'.bitmap_size ≡ m.bitmap_size
  pub same_length : length m'.words ≡ length m.words
  pub granules : (j : ℕ) → marked m' j ≡ (if g == j then x else marked m j)

-- `test` on an address that the bitmap covers reads its granule.
pub test-marked :
    {m : SpaceBitmap} (off : ℕ)
    → IsBitmap m
    → Covers m off
    → test m (m.heap_begin + off) ≡ some (marked m (off / 16))
unfolding test
test-marked {m} off v h = ground (
  arith,
  get_elem?-eq-get_or m.words (off / 16 / 64) 0,
  bit_test (get_or m.words (off / 16 / 64) 0) (off / 16 % 64),
)

split_same : (i j : ℕ) → i / 64 ≡ j / 64 → i % 64 ≡ j % 64 → i ≡ j
split_same i j p q = omega arith

abbrev pub with_word : SpaceBitmap → ℕ → ℕ → SpaceBitmap
with_word m g w = record m { words = set_elem m.words (g / 64) w }

-- A word that differs from the old one in one digit at most changes the set at one granule at most.
module _ {m : SpaceBitmap} (v : IsBitmap m) (g : ℕ) (h : g / 64 < length m.words) where
  abbrev pub old_word : ℕ
  old_word = get_or m.words (g / 64) 0

  with_word-Changed :
      (w : ℕ) (x : Bool)
      → w < 2 ^ 64
      → (bit w (g % 64) == 1) ≡ x
      → ((k : ℕ) → k < 64 → g % 64 ≢ k → bit w k ≡ bit old_word k)
      → Changed m (with_word m g w) g x
  with_word-Changed w x fits at rest = record {
    valid = record {
      in_word = λ k. elim (ℕ_discrete (g / 64) k) [
        | yes e ↦ rw (← e, get_or-set_self m.words (g / 64) w 0 h) fits
        | no ne ↦ rw (get_or-set_ne m.words (g / 64) k w 0 ne) (v.in_word k)
      ];
    };
    same_begin = refl;
    same_limit = refl;
    same_size = refl;
    same_length = length-set m.words (g / 64) w;
    granules = λ j. elim (ℕ_discrete (g / 64) (j / 64)) [
      | yes e ↦
          rw (← e, get_or-set_self m.words (g / 64) w 0 h)
            (elim (ℕ_discrete (g % 64) (j % 64)) [
              | yes e' ↦ rw (← e', at) (ground (arith, split_same g j e e'))
              | no ne ↦ rw (rest (j % 64) (omega arith) ne) (ground arith)
            ])
      | no ne ↦ rw (get_or-set_ne m.words (g / 64) (j / 64) w 0 ne) (ground arith)
    ];
  }

  abbrev pub mask : ℕ
  mask = 2 ^ (g % 64)

  mask_fits : mask < 2 ^ 64
  mask_fits = pow_mono_lt (g % 64) 64 (omega arith)

  pub set_bit-Changed : Changed m (with_word m g (bit_or old_word mask)) g true
  set_bit-Changed =
      with_word-Changed (bit_or old_word mask) true
        (bit_or-lt old_word mask (v.in_word (g / 64)) mask_fits)
        (ground (
          arith,
          bit-bit_or old_word mask (g % 64),
          bit-pow_self (g % 64),
          bit-lt old_word (g % 64),
        ))
        (λ k p ne. omega (arith, bit-bit_or old_word mask k, bit-pow_ne (g % 64) k ne))

  clear_bit-Changed : Changed m (with_word m g (bit_and old_word (bit_not mask))) g false
  clear_bit-Changed =
      with_word-Changed (bit_and old_word (bit_not mask)) false
        (omega (arith, bit_and-le old_word (bit_not mask), v.in_word (g / 64)))
        (ground (
          arith,
          bit-bit_and old_word (bit_not mask) (g % 64),
          bit-bit_not mask (g % 64) mask_fits (omega arith),
          bit-pow_self (g % 64),
        ))
        (λ k p ne. omega (
          arith,
          bit-bit_and old_word (bit_not mask) k,
          bit-bit_not mask k mask_fits p,
          bit-pow_ne (g % 64) k ne,
          bit-lt old_word k,
        ))

  kept-Changed : bit old_word (g % 64) ≡ 1 → Changed m (with_word m g old_word) g true
  kept-Changed e =
      with_word-Changed old_word true (v.in_word (g / 64)) (ground arith) (λ k p ne. refl)

-- `modify` puts the granule of a covered address into the set or takes it out, changes nothing else,
-- and says whether it was in it.
pub modify_lem :
    {m : SpaceBitmap} (x : Bool) (off : ℕ)
    → IsBitmap m
    → Covers m off
    → (m' : SpaceBitmap) × (modify x m (m.heap_begin + off) ≡ some (m', marked m (off / 16)))
      × Changed m m' (off / 16) x
unfolding modify
modify_lem {m} true off v h =
    let g = off / 16 in
    elim (Bool-cases (marked m g)) [
      | inl was ↦ (
        with_word m g (old_word v g h),
        ground (
          arith,
          was,
          get_elem?-eq-get_or m.words (g / 64) 0,
          bit_test (old_word v g h) (g % 64),
        ),
        kept-Changed v g h (ground (arith, was)),
      )
      | inr was ↦ (
        with_word m g (bit_or (old_word v g h) (mask v g h)),
        ground (
          arith,
          was,
          get_elem?-eq-get_or m.words (g / 64) 0,
          bit_test (old_word v g h) (g % 64),
        ),
        set_bit-Changed v g h,
      )
    ]
modify_lem {m} false off v h =
    let g = off / 16 in
    (
      with_word m g (bit_and (old_word v g h) (bit_not (mask v g h))),
      ground (arith, get_elem?-eq-get_or m.words (g / 64) 0, bit_test (old_word v g h) (g % 64)),
      clear_bit-Changed v g h,
    )
