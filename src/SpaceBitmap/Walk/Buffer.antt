-- ===== src/SpaceBitmap/Walk/Buffer.antt =====
-- The digits of one word that the walks put into the buffer.
use libimmixcons.Base.{
  ℕ, zero, suc, ◌+◌, ◌-◌, ◌^◌, ◌<◌, ◌≤◌, ◌≡◌, ◌≢◌, refl, Bool, true, some, List, [], ◌∷◌, ◌++◌,
  ◌==◌, ltb, arith, length, length-append, bit, bit-zero, bits_zero, select, select_none,
  select-zero, select-true, select-false, ap₂, Bool-cases, inl, inr, ap, sym, ◌∙◌, ==_iff,
}
use mathlib.Core.List.{map, append_assoc}
use libimmixcons.SpaceBitmap.Walk.{buffer_word}
use libimmixcons.SpaceBitmap.Walk.Words.{
  one, lowest, lowest-lt, without_lowest, without_lowest-lt, le-lowest, bit-without_lowest_zero,
  select_split,
}

-- A word's items, as the loop computes them.
abbrev pub item : ℕ → ℕ → ℕ
item place shift = place + shift + 16

pub length-map : (f : ℕ → ℕ) (xs : List ℕ) → length (map f xs) ≡ length xs
length-map f [] = refl
length-map f (x ∷ xs) = ap suc (length-map f xs)

-- The buffer has room for the digits that are left.
pub buffer_word_from :
    (place rounds k w : ℕ) (buffer : List ℕ)
    → w < 2 ^ 64
    → w ≢ 0
    → k ≤ 64
    → 64 ≤ rounds + k
    → ((i : ℕ) → i < k → bit w i ≡ 0)
    → length buffer + (64 - k) < 512
    → buffer_word place rounds w buffer
      ≡ some (buffer ++ map (item place) (select (one w) k (64 - k)))
unfolding buffer_word
buffer_word_from place zero k w buffer fits ne h enough low room =
    absurd (ne (bits_zero w fits (λ i q. low i (omega arith))))
buffer_word_from place (suc rounds) k w buffer fits ne h enough low room =
    let short : ltb (length buffer) 512 ≡ true =
      ground (arith, le-lowest w fits ne k low, lowest-lt w fits ne) in
    rw (select_split w fits ne k h low, short)
      (elim (Bool-cases (without_lowest w == 0)) [
        | inl done ↦ rw (done, none_left done)
        | inr more ↦ rw more (
            buffer_word_from place rounds (suc (lowest w)) (without_lowest w)
              (buffer ++ (item place (lowest w)) ∷ []) (without_lowest-lt w fits ne)
              (λ e. ground (arith, e)) (omega (arith, lowest-lt w fits ne))
              (omega (arith, le-lowest w fits ne k low)) (bit-without_lowest_zero w fits ne)
              (omega (
                arith,
                le-lowest w fits ne k low,
                lowest-lt w fits ne,
                length-append buffer (item place (lowest w) ∷ []),
              ))
            ∙ ap some (append_assoc buffer (item place (lowest w) ∷ []) _))
      ])
  where
    none_left :
        (without_lowest w == 0) ≡ true
        → select (one (without_lowest w)) (suc (lowest w)) (64 - suc (lowest w)) ≡ []
    none_left done = select_none _ _ _ (λ i a b.
        ground (arith, ap (λ x. bit x i) ((==_iff (without_lowest w) 0).0 done), bit-zero i))

-- A run of numbers that starts at 0, and one that starts at `a`.
pub map-select_shift :
    (f g : ℕ → ℕ) (p q : ℕ → Bool) (a n k : ℕ)
    → ((i : ℕ) → k ≤ i → i < k + n → p i ≡ q (a + i))
    → ((i : ℕ) → k ≤ i → i < k + n → f i ≡ g (a + i))
    → map f (select p k n) ≡ map g (select q (a + k) n)
map-select_shift f g p q a zero k hp hf = rw (select-zero p k, select-zero q (a + k))
map-select_shift f g p q a (suc n) k hp hf =
    let next : suc (a + k) ≡ a + suc k = omega arith in
    let rest =
      map-select_shift f g p q a n (suc k) (λ i b c. hp i (omega arith) (omega arith))
        (λ i b c. hf i (omega arith) (omega arith)) in
    elim (Bool-cases (p k)) [
      | inl t ↦
          rw
            (
              select-true p n k t,
              select-true q n (a + k) (sym (hp k (omega arith) (omega arith)) ∙ t),
              next,
            )
            (ap₂ ◌∷◌ (hf k (omega arith) (omega arith)) rest)
      | inr t ↦
          rw
            (
              select-false p n k t,
              select-false q n (a + k) (sym (hp k (omega arith) (omega arith)) ∙ t),
              next,
            )
            rest
    ]
