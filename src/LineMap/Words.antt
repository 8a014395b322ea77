-- ===== src/LineMap/Words.antt =====
-- What the line bitmap means, a set of line numbers, and what one changed word does to it.
use libimmixcons.Base.{
  ℕ, ◌+◌, ◌/◌, ◌%◌, ◌^◌, ◌≤◌, ◌<◌, ◌≡◌, ◌≢◌, Bool, true, false, none, some, arith, ◌==◌,
  if◌then◌else◌, get_or, length, bit_and, bit_or, bit_not,
}
use libimmixcons.Base.{
  bit, bit-lt, bit_test, bit-bit_and, bit-bit_or, bit-bit_not, bit-pow_self, bit-pow_ne, bit_or-lt,
  bit_and-le, get_elem?-eq-get_or, get_or-set_self, get_or-set_ne, length-set, get_elem?-none,
  pow_mono_lt, ℕ_discrete, set as set_elem, ◌∙◌,
}
use libimmixcons.LineMap.{LineMap, test}

-- Four words of 64 bits.
pub record IsLineMap (m : LineMap) : Type 0 where
  pub words : length m.bitmap ≡ 4
  pub in_word : (i : ℕ) → get_or m.bitmap i 0 < 2 ^ 64

-- Is the line in the set?
abbrev pub marked : LineMap → ℕ → Bool
marked m line = bit (get_or m.bitmap (line / 64) 0) (line % 64) == 1

pub test_lem :
    {m : LineMap} (b off : ℕ)
    → IsLineMap m
    → off < 32768
    → test m (b + off) b ≡ some (marked m (off / 128))
unfolding test
test_lem {m} b off v h = ground (
  arith,
  get_elem?-eq-get_or m.bitmap (off / 128 / 64) 0,
  bit_test (get_or m.bitmap (off / 128 / 64) 0) (off / 128 % 64),
)

-- An offset past the last line is an index out of the array.
pub test-none : {m : LineMap} (b off : ℕ) → IsLineMap m → 32768 ≤ off → test m (b + off) b ≡ none
unfolding test
test-none {m} b off v h = ground (arith, get_elem?-none m.bitmap (off / 128 / 64))

-- Two lines share a word and a digit only if they are one line.
line_split : (i j : ℕ) → i / 64 ≡ j / 64 → i % 64 ≡ j % 64 → i ≡ j
line_split i j p q = omega arith

mask_lt : (i : ℕ) → 2 ^ (i % 64) < 2 ^ 64
mask_lt i = pow_mono_lt (i % 64) 64 (omega arith)

-- `m` with `w` for the word that holds line `i`.
abbrev pub with_word : LineMap → ℕ → ℕ → LineMap
with_word m i w = record { bitmap = set_elem m.bitmap (i / 64) w }

module _ {m : LineMap} (v : IsLineMap m) (i : ℕ) (h : i < 256) where
  abbrev pub entry : ℕ
  entry = get_or m.bitmap (i / 64) 0

  with_word-IsLineMap : (w : ℕ) → w < 2 ^ 64 → IsLineMap (with_word m i w)
  with_word-IsLineMap w fits = record {
    words = length-set m.bitmap (i / 64) w ∙ v.words;
    in_word = λ k. elim (ℕ_discrete (i / 64) k) [
      | yes e ↦ rw (← e, get_or-set_self m.bitmap (i / 64) w 0 (omega (arith, v.words))) fits
      | no ne ↦ rw (get_or-set_ne m.bitmap (i / 64) k w 0 ne) (v.in_word k)
    ];
  }

  -- A word that differs from the entry in one digit changes the set at one line.
  marked-with_word :
      (w d : ℕ)
      → bit w (i % 64) ≡ d
      → ((k : ℕ) → k < 64 → i % 64 ≢ k → bit w k ≡ bit entry k)
      → (j : ℕ) → marked (with_word m i w) j ≡ (if i == j then d == 1 else marked m j)
  marked-with_word w d self rest j = elim (ℕ_discrete (i / 64) (j / 64)) [
    | yes e ↦
        rw (← e, get_or-set_self m.bitmap (i / 64) w 0 (omega (arith, v.words)))
          (elim (ℕ_discrete (i % 64) (j % 64)) [
            | yes e' ↦ rw (← e', self) (ground (arith, line_split i j e e'))
            | no ne ↦ rw (rest (j % 64) (omega arith) ne) (ground arith)
          ])
    | no ne ↦ rw (get_or-set_ne m.bitmap (i / 64) (j / 64) w 0 ne) (ground arith)
  ]

  pub set_word-IsLineMap : IsLineMap (with_word m i (bit_or entry (2 ^ (i % 64))))
  set_word-IsLineMap =
      with_word-IsLineMap _ (bit_or-lt entry (2 ^ (i % 64)) (v.in_word (i / 64)) (mask_lt i))

  pub marked-set_word :
      (j : ℕ)
      → marked (with_word m i (bit_or entry (2 ^ (i % 64)))) j
        ≡ (if i == j then true else marked m j)
  marked-set_word =
      marked-with_word _ 1
        (omega (
          arith,
          bit-bit_or entry (2 ^ (i % 64)) (i % 64),
          bit-pow_self (i % 64),
          bit-lt entry (i % 64),
        ))
        (λ k p ne. omega (arith, bit-bit_or entry (2 ^ (i % 64)) k, bit-pow_ne (i % 64) k ne))

  pub clear_word-IsLineMap : IsLineMap (with_word m i (bit_and entry (bit_not (2 ^ (i % 64)))))
  clear_word-IsLineMap =
      with_word-IsLineMap _
        (omega (arith, bit_and-le entry (bit_not (2 ^ (i % 64))), v.in_word (i / 64)))

  pub marked-clear_word :
      (j : ℕ)
      → marked (with_word m i (bit_and entry (bit_not (2 ^ (i % 64))))) j
        ≡ (if i == j then false else marked m j)
  marked-clear_word =
      marked-with_word _ 0
        (omega (
          arith,
          bit-bit_and entry (bit_not (2 ^ (i % 64))) (i % 64),
          bit-bit_not (2 ^ (i % 64)) (i % 64) (mask_lt i) (omega arith),
          bit-pow_self (i % 64),
        ))
        (λ k p ne. omega (
          arith,
          bit-bit_and entry (bit_not (2 ^ (i % 64))) k,
          bit-bit_not (2 ^ (i % 64)) k (mask_lt i) p,
          bit-pow_ne (i % 64) k ne,
          bit-lt entry k,
        ))
