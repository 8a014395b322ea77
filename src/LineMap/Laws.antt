-- ===== src/LineMap/Laws.antt =====
-- The operations of the line bitmap as operations on a set of line numbers.
use libimmixcons.Base.{
  ℕ, zero, suc, ◌+◌, ◌*◌, ◌/◌, ◌%◌, ◌^◌, ◌<◌, ◌≡◌, refl, ◌↔◌, Bool, true, false, not, some, List,
  [], ◌∷◌, arith, ◌==◌, if◌then◌else◌, get_or, length, bit_and, bit_or, bit_not, inl, inr,
  Bool-cases,
}
use libimmixcons.Base.{
  bit, bit-lt, bit_test, bits_zero, bit-zero, get_elem?-eq-get_or, get_or-replicate, ℕ_discrete,
  ◌∙◌, ap,
}
use libimmixcons.LineMap.{
  LineMap, new, clear_all, is_empty, set, clear, zero_words, no_word_set, bitmap_size,
}
use libimmixcons.LineMap.Words.{
  IsLineMap, marked, with_word, set_word-IsLineMap, marked-set_word, clear_word-IsLineMap,
  marked-clear_word,
}

-- `m'` is `m` but for line `i`, which is in the set or not as `x` says.
pub record Updated (m m' : LineMap) (i : ℕ) (x : Bool) : Type 0 where
  pub valid : IsLineMap m'
  pub lines : (j : ℕ) → marked m' j ≡ (if i == j then x else marked m j)

-- Nothing is written where the line already has the value.
Updated-self : {m : LineMap} (i : ℕ) {x : Bool} → IsLineMap m → marked m i ≡ x → Updated m m i x
Updated-self {m} i {x} v e = record {
  valid = v;
  lines = λ j. elim (ℕ_discrete i j) [ yes p ↦ rw (← p) (ground arith) | no ne ↦ ground arith ];
}

-- `set` on an address of the block puts its line, and no other, into the set, and says whether it
-- was not there before.
pub set_lem :
    {m : LineMap} (b off : ℕ)
    → IsLineMap m
    → off < 32768
    → (m' : LineMap) × (set m (b + off) b ≡ some (m', not (marked m (off / 128))))
      × Updated m m' (off / 128) true
unfolding set
set_lem {m} b off v h = elim (Bool-cases (marked m (off / 128))) [
  | inl old ↦ (
    m,
    ground (
      arith,
      get_elem?-eq-get_or m.bitmap (off / 128 / 64) 0,
      bit_test (get_or m.bitmap (off / 128 / 64) 0) (off / 128 % 64),
    ),
    Updated-self (off / 128) v old,
  )
  | inr new ↦ (
    with_word m (off / 128) (bit_or (get_or m.bitmap (off / 128 / 64) 0) (2 ^ (off / 128 % 64))),
    ground (
      arith,
      get_elem?-eq-get_or m.bitmap (off / 128 / 64) 0,
      bit_test (get_or m.bitmap (off / 128 / 64) 0) (off / 128 % 64),
    ),
    record {
      valid = set_word-IsLineMap v (off / 128) (omega arith);
      lines = marked-set_word v (off / 128) (omega arith);
    },
  )
]

-- `clear` on an address of the block takes its line, and no other, out of the set, and says whether
-- it was there before.
pub clear_lem :
    {m : LineMap} (b off : ℕ)
    → IsLineMap m
    → off < 32768
    → (m' : LineMap) × (clear m (b + off) b ≡ some (m', marked m (off / 128)))
      × Updated m m' (off / 128) false
unfolding clear
clear_lem {m} b off v h = elim (Bool-cases (marked m (off / 128))) [
  | inl old ↦ (
    with_word m (off / 128)
        (bit_and (get_or m.bitmap (off / 128 / 64) 0) (bit_not (2 ^ (off / 128 % 64)))),
    ground (
      arith,
      get_elem?-eq-get_or m.bitmap (off / 128 / 64) 0,
      bit_test (get_or m.bitmap (off / 128 / 64) 0) (off / 128 % 64),
    ),
    record {
      valid = clear_word-IsLineMap v (off / 128) (omega arith);
      lines = marked-clear_word v (off / 128) (omega arith);
    },
  )
  | inr new ↦ (
    m,
    ground (
      arith,
      get_elem?-eq-get_or m.bitmap (off / 128 / 64) 0,
      bit_test (get_or m.bitmap (off / 128 / 64) 0) (off / 128 % 64),
    ),
    Updated-self (off / 128) v new,
  )
]

marked_of_zero_word : (m : LineMap) (j : ℕ) → get_or m.bitmap (j / 64) 0 ≡ 0 → marked m j ≡ false
marked_of_zero_word m j e = rw (e, bit-zero) (ground arith)

pub new-IsLineMap : IsLineMap new
unfolding new bitmap_size
new-IsLineMap = record {
  words = refl;
  in_word = λ i. omega (arith, get_or-replicate {A = ℕ} 4 i 0);
}

pub marked-new : (j : ℕ) → marked new j ≡ false
unfolding new bitmap_size
marked-new j = marked_of_zero_word new j (get_or-replicate 4 (j / 64) 0)

length-zero_words : (ws : List ℕ) → length (zero_words ws) ≡ length ws
unfolding zero_words
length-zero_words [] = refl
length-zero_words (w ∷ ws) = ap suc (length-zero_words ws)

get_or-zero_words : (ws : List ℕ) (i : ℕ) → get_or (zero_words ws) i 0 ≡ 0
unfolding zero_words
get_or-zero_words [] i = refl
get_or-zero_words (w ∷ ws) zero = refl
get_or-zero_words (w ∷ ws) (suc i) = get_or-zero_words ws i

-- `clear_all` keeps the four words and empties the set.
pub clear_all_lem :
    {m : LineMap}
    → IsLineMap m
    → IsLineMap (clear_all m) × ((j : ℕ) → marked (clear_all m) j ≡ false)
unfolding clear_all
clear_all_lem {m} v = (
  record {
    words = length-zero_words m.bitmap ∙ v.words;
    in_word = λ i. omega (arith, get_or-zero_words m.bitmap i);
  },
  λ j. marked_of_zero_word _ j (get_or-zero_words m.bitmap (j / 64)),
)

no_word_set_sound : (ws : List ℕ) (i : ℕ) → no_word_set ws ≡ true → get_or ws i 0 ≡ 0
unfolding no_word_set
no_word_set_sound [] i h = refl
no_word_set_sound (w ∷ ws) zero h = ground arith
no_word_set_sound (w ∷ ws) (suc i) h = ground (arith, no_word_set_sound ws i)

no_word_set_complete :
    (ws : List ℕ) → ((i : ℕ) → i < length ws → get_or ws i 0 ≡ 0) → no_word_set ws ≡ true
unfolding no_word_set
no_word_set_complete [] h = refl
no_word_set_complete (w ∷ ws) h =
    ground (arith, h 0, no_word_set_complete ws (λ i k. h (suc i) (omega arith)))

-- The bitmap's own `is_empty` reads words; it says exactly that no line of the block is in the set.
pub is_empty_iff :
    {m : LineMap} → IsLineMap m → (is_empty m ≡ true) ↔ ((j : ℕ) → j < 256 → marked m j ≡ false)
unfolding is_empty
is_empty_iff {m} v = (
  λ e j h. marked_of_zero_word m j (no_word_set_sound m.bitmap (j / 64) e),
  λ all. no_word_set_complete m.bitmap λ i h.
      bits_zero (get_or m.bitmap i 0) (v.in_word i)
        λ k p. digit i k h p (all (i * 64 + k) (omega (arith, v.words))),
)
  where
    digit :
        (i k : ℕ)
        → i < length m.bitmap
        → k < 64
        → marked m (i * 64 + k) ≡ false
        → bit (get_or m.bitmap i 0) k ≡ 0
    digit i k h p e =
        let q : (i * 64 + k) / 64 ≡ i = omega arith in
        let r : (i * 64 + k) % 64 ≡ k = omega arith in
        let e' : (bit (get_or m.bitmap i 0) k == 1) ≡ false = rw (q, r) at e in
        ground (arith, bit-lt (get_or m.bitmap i 0) k)
