-- ===== src/SpaceBitmap/Walk/Words.antt =====
-- The loop over a word meets its digits from the lowest, and `walk` meets the granules of the set.
use libimmixcons.Base.{
  ℕ, zero, suc, ◌+◌, ◌-◌, ◌*◌, ◌/◌, ◌%◌, ◌^◌, ◌<◌, ◌≤◌, ◌≡◌, ◌≢◌, Bool, true, some, [], ◌∷◌, ◌==◌,
  if◌then◌else◌, arith, bit_xor, length, trailing_zeros, trailing_zeros-lt, bit-trailing_zeros,
  bit_below-trailing_zeros, bit, bit-lt, bit-zero, bits_zero, bit-bit_xor, bit_xor-lt, bit-pow_self,
  bit-pow_ne, pow_mono_lt, select, select-append, select_ext, select_none, select_first, dec_lt,
  ◌∙◌, ap, sym, for_each_ext, for_each-select_shift, select-zero, ==_iff, for_each, for_each-append,
  Bool-cases, inl, inr, get_or, get_elem?-eq-get_or, ℕ_discrete, checked_sub-some,
}
use libimmixcons.SpaceBitmap.{SpaceBitmap, index_to_offset}
use libimmixcons.SpaceBitmap.Granules.{IsBitmap, marked}
use libimmixcons.SpaceBitmap.Walk.{visit_word, visit_words, walk}

-- The digits of a word that are 1, from `k` on.
abbrev pub one : ℕ → ℕ → Bool
one w i = bit w i == 1

-- A word whose digits below `k` are 0: its lowest 1 comes first.
abbrev pub lowest : ℕ → ℕ
lowest w = trailing_zeros 64 w

abbrev pub without_lowest : ℕ → ℕ
without_lowest w = bit_xor w (2 ^ lowest w)

module _ (w : ℕ) (fits : w < 2 ^ 64) (ne : w ≢ 0) where
  pub lowest-lt : lowest w < 64
  lowest-lt = trailing_zeros-lt 64 w fits ne

  pub without_lowest-lt : without_lowest w < 2 ^ 64
  without_lowest-lt = bit_xor-lt 64 w _ fits (pow_mono_lt (lowest w) 64 lowest-lt)

  pub bit-without_lowest :
      (i : ℕ) → bit (without_lowest w) i ≡ (if i == lowest w then 0 else bit w i)
  bit-without_lowest i = elim (ℕ_discrete (lowest w) i) [
    | yes e ↦ rw (← e) (
        ground (
          arith,
          bit-bit_xor w (2 ^ lowest w) (lowest w),
          bit-pow_self (lowest w),
          bit-trailing_zeros 64 w fits ne,
        ))
    | no q ↦ ground (arith, bit-bit_xor w (2 ^ lowest w) i, bit-pow_ne (lowest w) i q, bit-lt w i)
  ]

  pub le-lowest : (k : ℕ) → ((i : ℕ) → i < k → bit w i ≡ 0) → k ≤ lowest w
  le-lowest k low = elim (dec_lt (lowest w) k) [
    | yes q ↦ absurd (omega (arith, low (lowest w) q, bit-trailing_zeros 64 w fits ne))
    | no q ↦ omega arith
  ]

  pub bit-without_lowest_zero : (i : ℕ) → i < suc (lowest w) → bit (without_lowest w) i ≡ 0
  bit-without_lowest_zero i h = elim (dec_lt i (lowest w)) [
    | yes q ↦ ground (arith, bit-without_lowest i, bit_below-trailing_zeros 64 w i q)
    | no q ↦ ground (arith, bit-without_lowest i)
  ]

  pub select_split :
      (k : ℕ)
      → k ≤ 64
      → ((i : ℕ) → i < k → bit w i ≡ 0)
      → select (one w) k (64 - k)
        ≡ lowest w ∷ select (one (without_lowest w)) (suc (lowest w)) (64 - suc (lowest w))
  select_split k h low =
      let first =
        select_first (one w) (64 - k) k (lowest w) (le-lowest k low) (omega (arith, lowest-lt))
          (λ i q. ground (arith, bit_below-trailing_zeros 64 w i q))
          (ground (arith, bit-trailing_zeros 64 w fits ne)) in
      let e : k + (64 - k) - suc (lowest w) ≡ 64 - suc (lowest w) = omega arith in
      let same =
        select_ext (one w) (one (without_lowest w)) (64 - suc (lowest w)) (suc (lowest w))
          (λ i a b. ground (arith, bit-without_lowest i)) in
      first ∙ rw (e, same)

-- Enough rounds are left: the digits below `k` are gone.
visit_word_from {ℓ} :
    {S : Type ℓ} (visitor : ℕ → S → S) (rounds k w : ℕ) (s : S)
    → w < 2 ^ 64
    → w ≢ 0
    → k ≤ 64
    → 64 ≤ rounds + k
    → ((i : ℕ) → i < k → bit w i ≡ 0)
    → visit_word visitor rounds w s ≡ some (for_each visitor (select (one w) k (64 - k)) s)
unfolding visit_word
visit_word_from visitor zero k w s fits ne h enough low =
    absurd (ne (bits_zero w fits (λ i q. low i (omega arith))))
visit_word_from visitor (suc rounds) k w s fits ne h enough low =
    rw (select_split w fits ne k h low) (elim (Bool-cases (without_lowest w == 0)) [
      | inl done ↦ rw (done, none_left done)
      | inr more ↦ rw more (
          visit_word_from visitor rounds (suc (lowest w)) (without_lowest w) (visitor (lowest w) s)
            (without_lowest-lt w fits ne) (λ e. ground (arith, e))
            (omega (arith, lowest-lt w fits ne)) (omega (arith, le-lowest w fits ne k low))
            (bit-without_lowest_zero w fits ne))
    ])
  where
    none_left :
        (without_lowest w == 0) ≡ true
        → select (one (without_lowest w)) (suc (lowest w)) (64 - suc (lowest w)) ≡ []
    none_left done = select_none _ _ _ (λ i a b.
        ground (arith, ap (λ x. bit x i) ((==_iff (without_lowest w) 0).0 done), bit-zero i))

-- `while { …; w != 0 } {}` ends, and visits the digits that are 1 from the lowest on.
pub visit_word_lem {ℓ} :
    {S : Type ℓ} (visitor : ℕ → S → S) (w : ℕ) (s : S)
    → w < 2 ^ 64
    → w ≢ 0
    → visit_word visitor 64 w s ≡ some (for_each visitor (select (one w) 0 64) s)
visit_word_lem visitor w s fits ne =
    visit_word_from visitor 64 0 w s fits ne (omega arith) (omega arith)
      (λ i q. absurd (omega arith))

-- The words from `index` on: the granules of the set that they hold, from the lowest on.
abbrev pub address : SpaceBitmap → ℕ → ℕ
address m g = m.heap_begin + g * 16

-- What is done to a word that may be 0, from an address on.
visit_if_any {ℓ} :
    {S : Type ℓ} (visitor : ℕ → S → S) (w : ℕ) (s : S)
    → w < 2 ^ 64
    → (if w == 0 then some s else visit_word visitor 64 w s)
      ≡ some (for_each visitor (select (one w) 0 64) s)
visit_if_any visitor w s fits = elim (Bool-cases (w == 0)) [
  | inl z ↦ rw (
    z,
    select_none (one w) 64 0
        (λ i a b. ground (arith, ap (λ x. bit x i) ((==_iff w 0).0 z), bit-zero i)),
  )
  | inr p ↦ rw p (visit_word_lem visitor w s fits (λ e. ground (arith, e)))
]

pub one-marked :
    (m : SpaceBitmap) (index i : ℕ)
    → i < 64
    → one (get_or m.words index 0) i ≡ marked m (64 * index + i)
one-marked m index i h =
    let q : (64 * index + i) / 64 ≡ index = omega arith in
    let r : (64 * index + i) % 64 ≡ i = omega arith in rw (q, r)

visit_words-granules {ℓ} :
    {S : Type ℓ} (m : SpaceBitmap) (visitor : ℕ → S → S) (count index : ℕ) (s : S)
    → IsBitmap m
    → index + count ≤ length m.words
    → visit_words m visitor index count s
      ≡ some (for_each (λ g. visitor (address m g)) (select (marked m) (64 * index) (64 * count)) s)
unfolding visit_words index_to_offset
visit_words-granules m visitor zero index s v h = rw (select-zero (marked m) (64 * index))
visit_words-granules {S} m visitor (suc count) index s v h =
    let place = index * 16 * 64 + m.heap_begin in
    let word = get_or m.words index 0 in
    let visit : ℕ → S → S = λ g. visitor (address m g) in
    let here : ℕ → S → S = λ shift. visitor (place + shift * 16) in
    let below = for_each visit (select (marked m) (64 * index + 0) 64) s in
    let one_word : (if word == 0 then some s else visit_word here 64 word s) ≡ some below =
      visit_if_any here word s (v.in_word index)
      ∙ ap some (
          for_each_ext here (λ i. visit (64 * index + i)) (select (one word) 0 64) s
            (λ i t. ap (λ a. visitor a t) (omega arith)))
      ∙ ap (λ l. some (for_each (λ i. visit (64 * index + i)) l s))
          (select_ext (one word) (λ i. marked m (64 * index + i)) 64 0
            (λ i a b. one-marked m index i b))
      ∙ ap some (sym (for_each-select_shift visit (marked m) (64 * index) 64 0 s)) in
    let start : 64 * index + 0 ≡ 64 * index = omega arith in
    let next : 64 * index + 64 ≡ 64 * suc index = omega arith in
    let split : 64 * suc count ≡ 64 + 64 * count = omega arith in
    rw (get_elem?-eq-get_or m.words index 0 (omega arith), one_word)
      (visit_words-granules m visitor count (suc index) below v (omega arith)
        ∙ ap some (
            rw (
              start,
              split,
              select-append (marked m) 64 (64 * count) (64 * index),
              for_each-append visit (select (marked m) (64 * index) 64)
                  (select (marked m) (64 * index + 64) (64 * count)) s,
              next,
            )))

-- `walk` ends, and hands the visitor the addresses of the granules in the set, from the lowest on and
-- each once, up to the end of the last word that the heap's limit reaches.
pub walk_lem {ℓ} :
    {S : Type ℓ} (m : SpaceBitmap) (visitor : ℕ → S → S) (last : ℕ) (s : S)
    → IsBitmap m
    → m.heap_limit ≡ m.heap_begin + last + 1
    → last / 16 / 64 < length m.words
    → walk m visitor s
      ≡ some (
          for_each
            (λ g. visitor (m.heap_begin + g * 16))
            (select (marked m) 0 (64 * (last / 16 / 64 + 1)))
            s)
unfolding walk
walk_lem m visitor last s v e h =
    let capacity : m.heap_limit - m.heap_begin ≡ last + 1 = omega arith in
    let rest : last + 1 - 1 ≡ last = omega arith in
    rw
      (
        checked_sub-some m.heap_limit m.heap_begin (omega arith),
        capacity,
        checked_sub-some (last + 1) 1 (omega arith),
        rest,
      )
      (visit_words-granules m visitor (last / 16 / 64 + 1) 0 s v (omega arith))
