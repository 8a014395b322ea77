-- ===== src/SpaceBitmap/Range.antt =====
-- `clear_range`: bit by bit up to a word's boundary and down to one, and whole words between.
use libimmixcons.Base.{
  ℕ, zero, suc, ◌+◌, ◌-◌, ◌*◌, ◌/◌, ◌%◌, ◌≤◌, ◌≡◌, ◌⊎◌, refl, sym, false, ◌&&◌, some, List, [], ◌∷◌,
  ◌==◌, ltb, leb, if◌then◌else◌, arith, checked_sub, get_or, length, bit, bit-zero, dec_lt, inl,
  inr,
}
use libimmixcons.SpaceBitmap.{
  SpaceBitmap, clear_up, clear_down, zero_range, clear_range, offset_to_index,
}
use libimmixcons.SpaceBitmap.Granules.{IsBitmap}
use libimmixcons.SpaceBitmap.Cleared.{
  Cleared, Cleared-join, Cleared-swap, clear_up_lem, clear_down_lem,
}

zero_range_lem :
    (words : List ℕ) (start count : ℕ)
    → start + count ≤ length words
    → (words' : List ℕ) × (zero_range words start count ≡ some words')
      × (length words' ≡ length words)
      × ((i : ℕ)
          → get_or words' i 0
            ≡ (if leb start i && ltb i (start + count) then 0 else get_or words i 0))
unfolding zero_range
zero_range_lem words zero zero h = (words, refl, refl, λ i. ground arith)
zero_range_lem [] (suc start) count h = absurd (omega arith)
zero_range_lem [] zero (suc count) h = absurd (omega arith)
zero_range_lem (word ∷ words) zero (suc count) h =
    let (rest, run, len, at) = zero_range_lem words zero count (omega arith) in
    (0 ∷ rest, rw run refl, omega (arith, len), cases rest at)
  where
    cases :
        (rest : List ℕ)
        → ((i : ℕ)
            → get_or rest i 0 ≡ (if leb 0 i && ltb i (0 + count) then 0 else get_or words i 0))
        → (i : ℕ)
        → get_or (0 ∷ rest) i 0
          ≡ (if leb 0 i && ltb i (0 + suc count) then 0 else get_or (word ∷ words) i 0)
    cases rest at zero = ground arith
    cases rest at (suc i) = ground (arith, at i)
zero_range_lem (word ∷ words) (suc start) count h =
    let (rest, run, len, at) = zero_range_lem words start count (omega arith) in
    (word ∷ rest, rw run refl, omega (arith, len), cases rest at)
  where
    cases :
        (rest : List ℕ)
        → ((i : ℕ)
            → get_or rest i 0
              ≡ (if leb start i && ltb i (start + count) then 0 else get_or words i 0))
        → (i : ℕ)
        → get_or (word ∷ rest) i 0 ≡ (
            if leb (suc start) i && ltb i (suc start + count) then 0 else get_or (word ∷ words) i 0)
    cases rest at zero = ground arith
    cases rest at (suc i) = ground (arith, at i)

-- Whole words are zeroed.
zero_words-Cleared :
    (m : SpaceBitmap) (lo hi : ℕ) (words : List ℕ)
    → IsBitmap m
    → lo ≤ hi
    → length words ≡ length m.words
    → ((lo % 64 ≡ 0) × (hi % 64 ≡ 0)) ⊎ (lo ≡ hi)
    → ((i : ℕ)
        → get_or words i 0 ≡ (
            if leb (lo / 64) i && ltb i (lo / 64 + (hi / 64 - lo / 64))
            then 0
            else get_or m.words i 0))
    → Cleared m (record m { words = words }) lo hi
zero_words-Cleared m lo hi words v p len edges at = record {
  valid = record { in_word = λ i. ground (arith, at i, v.in_word i) };
  same_begin = refl;
  same_limit = refl;
  same_size = refl;
  same_length = len;
  granules = λ j. inside j edges;
}
  where
    inside :
        (j : ℕ)
        → ((lo % 64 ≡ 0) × (hi % 64 ≡ 0)) ⊎ (lo ≡ hi)
        → (bit (get_or words (j / 64) 0) (j % 64) == 1)
          ≡ (if leb lo j && ltb j hi then false else bit (get_or m.words (j / 64) 0) (j % 64) == 1)
    inside j (inl e) = elim (dec_lt j lo) [
      | yes below ↦ rw (at (j / 64)) (ground arith)
      | no above ↦ rw (at (j / 64)) (ground (arith, bit-zero (j % 64), e.0, e.1))
    ]
    inside j (inr e) = rw (at (j / 64)) (ground arith)

clear_range_run :
    (m m₁ m₂ : SpaceBitmap) (lo hi lo' hi' : ℕ) (words : List ℕ)
    → clear_up 65 m (lo * 16) (hi * 16) ≡ some (m₁, lo' * 16)
    → clear_down 65 m₁ (lo' * 16) (hi * 16) ≡ some (m₂, hi' * 16)
    → lo' ≤ hi'
    → zero_range m₂.words (lo' / 64) (hi' / 64 - lo' / 64) ≡ some words
    → clear_range m (m.heap_begin + lo * 16) (m.heap_begin + hi * 16)
      ≡ some (record m₂ { words = words })
unfolding clear_range offset_to_index
clear_range_run m m₁ m₂ lo hi lo' hi' words up down p zeroed =
    let first : checked_sub (m.heap_begin + lo * 16) m.heap_begin ≡ some (lo * 16) = ground arith in
    let last : checked_sub (m.heap_begin + hi * 16) m.heap_begin ≡ some (hi * 16) = ground arith in
    let start : lo' * 16 / 16 ≡ lo' = omega arith in
    let end : hi' * 16 / 16 ≡ hi' = omega arith in
    let count : checked_sub (hi' / 64) (lo' / 64) ≡ some (hi' / 64 - lo' / 64) = ground arith in
    rw (first, last, up, down, start, end, count, zeroed) refl

edges :
    (lo' hi hi' : ℕ)
    → lo' ≤ hi'
    → hi' ≤ hi
    → (lo' % 64 ≡ 0) ⊎ (lo' ≡ hi)
    → (hi' % 64 ≡ 0) ⊎ (hi' ≡ lo')
    → ((lo' % 64 ≡ 0) × (hi' % 64 ≡ 0)) ⊎ (lo' ≡ hi')
edges lo' hi hi' p q (inl e) (inl e') = inl (e, e')
edges lo' hi hi' p q (inl e) (inr e') = inr (sym e')
edges lo' hi hi' p q (inr e) e' = inr (omega arith)

-- On a range of whole granules that the bitmap covers, `clear_range` takes exactly the granules of the
-- range out of the set. It does not panic, and its loops end.
pub clear_range_lem :
    (m : SpaceBitmap) (lo hi : ℕ)
    → IsBitmap m
    → lo ≤ hi
    → hi ≤ length m.words * 64
    → (m' : SpaceBitmap) × (clear_range m (m.heap_begin + lo * 16) (m.heap_begin + hi * 16)
        ≡ some m')
      × Cleared m m' lo hi
unfolding clear_range offset_to_index
clear_range_lem m lo hi v p q =
    let (m₁, lo', up, a, b, c₁, e₁) = clear_up_lem 65 m lo hi v p q (inl (omega arith)) in
    let (m₂, hi', down, a', b', c₂, e₂) =
      clear_down_lem 65 m₁ lo' hi c₁.valid b (omega (arith, c₁.same_length)) (omega arith) in
    let (words, zeroed, len, at) =
      zero_range_lem m₂.words (lo' / 64) (hi' / 64 - lo' / 64)
        (omega (arith, c₁.same_length, c₂.same_length)) in
    (
      record m₂ { words = words },
      clear_range_run m m₁ m₂ lo hi lo' hi' words up down a' zeroed,
      Cleared-join m m₁ (record m₂ { words = words }) lo lo' hi a b c₁
          (Cleared-swap m₁ m₂ (record m₂ { words = words }) lo' hi' hi a' b' c₂
            (zero_words-Cleared m₂ lo' hi' words c₂.valid a' len (edges lo' hi hi' a' b' e₁ e₂)
              at)),
    )
