-- ===== src/Block/Counts.antt =====
-- The counts of a block: empty or not, holes, marked and available lines.
use libimmixcons.Base.{
  length, select, select-zero, select-true, select-false, ℕ, zero, suc, ◌+◌, ◌*◌, ◌/◌, ◌≤◌, ◌<◌,
  ◌≡◌, refl, ◌↔◌, Bool, true, false, not, Option, none, some, arith, ◌&&◌, if◌then◌else◌, inl, inr,
  ◌∙◌, Bool-cases, ℕ_discrete,
}
use libimmixcons.Block.{ImmixBlock, find_line, is_empty, count_holes, count_holes_from}
use libimmixcons.Block.Find.{IsBlock, line, test-line, Found, nowhere, at_line, find_line_lem}

-- `is_empty` does not panic, and says exactly that no line of the block is marked.
pub is_empty_lem :
    {blk : ImmixBlock}
    → IsBlock blk
    → (b : Bool) × (is_empty blk ≡ some b) × ((b ≡ true) ↔ ((j : ℕ) → j < 256 → line blk j ≡ false))
unfolding is_empty
is_empty_lem {blk} v = let f = find_line_lem v true 256 0 (omega arith) in go f.0 f.1 f.2
  where
    go :
        (r : Option ℕ)
        → find_line true blk 256 0 ≡ some r
        → Found (line blk) true 0 r
        → (b : Bool) × (is_empty blk ≡ some b)
          × ((b ≡ true) ↔ ((j : ℕ) → j < 256 → line blk j ≡ false))
    go none e (nowhere e' all) = (true, rw e, (λ p j h. all j (omega arith) h, λ p. refl))
    go none e (at_line i e' p q f before) = cc
    go (some i) e (nowhere e' all) = cc
    go (some x) e (at_line i e' p q f before) = (false, rw e, (λ p'. cc, λ all. cc (all i q)))

-- The loop of `count_holes`, on the marks alone.
holes_of : (ℕ → Bool) → ℕ → ℕ → ℕ → Bool → ℕ
holes_of m zero i holes in_hole = holes
holes_of m (suc rounds) i holes in_hole =
    let starts = not in_hole && not (m i) in
    holes_of m rounds (i + 1) (if starts then holes + 1 else holes) starts

module _ {blk : ImmixBlock} (v : IsBlock blk) where
  count_holes_from-eq :
      (rounds i holes : ℕ) (in_hole : Bool)
      → i + rounds ≤ 256
      → count_holes_from blk rounds i holes in_hole
        ≡ some (holes_of (line blk) rounds i holes in_hole)
  unfolding count_holes_from holes_of
  count_holes_from-eq zero i holes in_hole h = refl
  count_holes_from-eq (suc rounds) i holes in_hole h =
      let e : 128 * i ≡ i * 128 = omega arith in
      rw (e, test-line v i (omega arith)) (count_holes_from-eq rounds (i + 1) _ _ (omega arith))

holes_of-le :
    (m : ℕ → Bool) (rounds i holes : ℕ) (in_hole : Bool)
    → holes_of m rounds i holes in_hole + holes_of m rounds i holes in_hole
      ≤ holes + holes + (if in_hole then rounds else rounds + 1)
unfolding holes_of
holes_of-le m zero i holes in_hole = ground arith
holes_of-le m (suc rounds) i holes true = omega (arith, holes_of-le m rounds (i + 1) holes false)
holes_of-le m (suc rounds) i holes false = elim (Bool-cases (m i)) [
  | inl e ↦ rw e (omega (arith, holes_of-le m rounds (i + 1) holes false))
  | inr e ↦ rw e (omega (arith, holes_of-le m rounds (i + 1) (holes + 1) true))
]

holes_of-ge :
    (m : ℕ → Bool) (rounds i holes : ℕ) (in_hole : Bool) → holes ≤ holes_of m rounds i holes in_hole
unfolding holes_of
holes_of-ge m zero i holes in_hole = omega arith
holes_of-ge m (suc rounds) i holes true = holes_of-ge m rounds (i + 1) holes false
holes_of-ge m (suc rounds) i holes false = elim (Bool-cases (m i)) [
  | inl e ↦ rw e (holes_of-ge m rounds (i + 1) holes false)
  | inr e ↦ rw e (omega (arith, holes_of-ge m rounds (i + 1) (holes + 1) true))
]

-- Started outside a hole, the loop counts one as soon as a line is free.
holes_of-pos :
    (m : ℕ → Bool) (rounds i holes j : ℕ)
    → i ≤ j
    → j < i + rounds
    → m j ≡ false
    → holes < holes_of m rounds i holes false
unfolding holes_of
holes_of-pos m zero i holes j p q e = absurd (omega arith)
holes_of-pos m (suc rounds) i holes j p q e = elim (Bool-cases (m i)) [
  | inl e' ↦ rw e' (holes_of-pos m rounds (i + 1) holes j (past e') (omega arith) e)
  | inr e' ↦ rw e' (omega (arith, holes_of-ge m rounds (i + 1) (holes + 1) true))
]
  where
    past : m i ≡ true → i + 1 ≤ j
    past e' = elim (ℕ_discrete i j) [
      | yes same ↦ let e'' : m i ≡ false = rw same e in cc
      | no ne ↦ omega arith
    ]

holes_of_marked :
    (m : ℕ → Bool) (rounds i holes : ℕ) (in_hole : Bool)
    → ((j : ℕ) → i ≤ j → j < i + rounds → m j ≡ true)
    → holes_of m rounds i holes in_hole ≡ holes
unfolding holes_of
holes_of_marked m zero i holes in_hole all = refl
holes_of_marked m (suc rounds) i holes true all =
    holes_of_marked m rounds (i + 1) holes false (λ j p q. all j (omega arith) (omega arith))
holes_of_marked m (suc rounds) i holes false all =
    rw (all i (omega arith) (omega arith))
      (holes_of_marked m rounds (i + 1) holes false (λ j p q. all j (omega arith) (omega arith)))

holes_of_run :
    (m : ℕ → Bool) (rounds i n holes : ℕ) (in_hole : Bool)
    → n ≤ rounds
    → ((j : ℕ) → i ≤ j → j < i + n → m j ≡ false)
    → ((j : ℕ) → i + n ≤ j → j < i + rounds → m j ≡ true)
    → holes_of m rounds i holes in_hole ≡ holes + (if in_hole then n / 2 else (n + 1) / 2)
unfolding holes_of
holes_of_run m rounds i zero holes in_hole h free after =
    holes_of_marked m rounds i holes in_hole (λ j p q. after j (omega arith) q) ∙ ground arith
holes_of_run m zero i (suc n) holes in_hole h free after = absurd (omega arith)
holes_of_run m (suc rounds) i (suc n) holes true h free after = omega (
  arith,
  holes_of_run m rounds (i + 1) n holes false (omega arith)
      (λ j p q. free j (omega arith) (omega arith)) (λ j p q. after j (omega arith) (omega arith)),
)
holes_of_run m (suc rounds) i (suc n) holes false h free after =
    rw (free i (omega arith) (omega arith)) (
      omega (
        arith,
        holes_of_run m rounds (i + 1) n (holes + 1) true (omega arith)
            (λ j p q. free j (omega arith) (omega arith))
            (λ j p q. after j (omega arith) (omega arith)),
      ))

-- A hole is counted at line `j`: it is free, and no hole is counted at the line before it.
unfoldable pub starts_hole : (ℕ → Bool) → ℕ → Bool
starts_hole m zero = not (m zero)
starts_hole m (suc j) = not (starts_hole m j) && not (m (suc j))

-- How many lines of a block are such.
unfoldable pub hole_starts : ImmixBlock → ℕ
hole_starts blk = length (select (starts_hole (line blk)) 0 256)

starts_hole-suc :
    (m : ℕ → Bool) (j : ℕ) → (not (starts_hole m j) && not (m (suc j))) ≡ starts_hole m (suc j)
unfolding starts_hole
starts_hole-suc m j = refl

holes_of-starts :
    (m : ℕ → Bool) (rounds i holes : ℕ)
    → holes_of m rounds (suc i) holes (starts_hole m i)
      ≡ holes + length (select (starts_hole m) (suc i) rounds)
unfolding holes_of
holes_of-starts m zero i holes = rw (select-zero (starts_hole m) (suc i)) (omega arith)
holes_of-starts m (suc rounds) i holes =
    let next : suc i + 1 ≡ suc (suc i) = omega arith in
    elim (Bool-cases (starts_hole m (suc i))) [
      | inl t ↦
          let ih = holes_of-starts m rounds (suc i) (holes + 1) in
          rw (starts_hole-suc m i, next, t, select-true (starts_hole m) rounds (suc i) t)
            ((rw t at ih) ∙ omega arith)
      | inr t ↦
          let ih = holes_of-starts m rounds (suc i) holes in
          rw (starts_hole-suc m i, next, t, select-false (starts_hole m) rounds (suc i) t)
            (rw t at ih)
    ]

holes_of-all_starts :
    (m : ℕ → Bool) (rounds : ℕ)
    → holes_of m (suc rounds) 0 0 false ≡ length (select (starts_hole m) 0 (suc rounds))
unfolding holes_of starts_hole
holes_of-all_starts m rounds = elim (Bool-cases (m 0)) [
  | inl t ↦
      let ih = holes_of-starts m rounds 0 0 in
      rw (t, select-false (starts_hole m) rounds 0 (rw t refl)) ((rw t at ih) ∙ omega arith)
  | inr t ↦
      let ih = holes_of-starts m rounds 0 1 in
      rw (t, select-true (starts_hole m) rounds 0 (rw t refl)) ((rw t at ih) ∙ omega arith)
]

holes_of-hole_starts : (blk : ImmixBlock) → holes_of (line blk) 256 0 0 false ≡ hole_starts blk
unfolding hole_starts
holes_of-hole_starts blk = holes_of-all_starts (line blk) 255

-- `count_holes` does not panic, changes the count and nothing else, stores what it returns, counts
-- at most half of the lines, and returns 0 exactly when every line is marked. A free line is counted
-- unless the line before it is.
pub count_holes_lem :
    {blk : ImmixBlock}
    → IsBlock blk
    → (n : ℕ) × (count_holes blk ≡ some (record blk { hole_count = n }, n))
      × (n ≤ 128)
      × ((n ≡ 0) ↔ ((j : ℕ) → j < 256 → line blk j ≡ true))
      × (n ≡ hole_starts blk)
unfolding count_holes
count_holes_lem {blk} v =
    let n = holes_of (line blk) 256 0 0 false in
    let le : n ≤ 128 = omega (arith, holes_of-le (line blk) 256 0 0 false) in
    (
      n,
      rw (count_holes_from-eq v 256 0 0 false (omega arith)) (ground arith),
      le,
      (
        λ e j h. elim (Bool-cases (line blk j)) [
          | inl p ↦ p
          | inr p ↦
              absurd
                (omega (arith, holes_of-pos (line blk) 256 0 0 j (omega arith) (omega arith) p))
        ],
        λ all. holes_of_marked (line blk) 256 0 0 false (λ j p q. all j (omega arith)),
      ),
      holes_of-hole_starts blk,
    )

holes_of_prefix :
    (m : ℕ → Bool) (k rounds i n holes : ℕ)
    → k + n ≤ rounds
    → ((j : ℕ) → i ≤ j → j < i + k → m j ≡ true)
    → ((j : ℕ) → i + k ≤ j → j < i + k + n → m j ≡ false)
    → ((j : ℕ) → i + k + n ≤ j → j < i + rounds → m j ≡ true)
    → holes_of m rounds i holes false ≡ holes + (n + 1) / 2
unfolding holes_of
holes_of_prefix m zero rounds i n holes h before free after =
    holes_of_run m rounds i n holes false (omega arith)
      (λ j p q. free j (omega arith) (omega arith)) (λ j p q. after j (omega arith) q)
holes_of_prefix m (suc k) zero i n holes h before free after = absurd (omega arith)
holes_of_prefix m (suc k) (suc rounds) i n holes h before free after =
    rw (before i (omega arith) (omega arith)) (
      holes_of_prefix m k rounds (i + 1) n holes (omega arith)
        (λ j p q. before j (omega arith) (omega arith))
        (λ j p q. free j (omega arith) (omega arith))
        (λ j p q. after j (omega arith) (omega arith)))

-- A block whose free lines are the one run of `n` lines from `lo` on has one hole; `count_holes`
-- counts half of the run's lines, rounded up.
pub count_holes-one_run :
    {blk : ImmixBlock} (lo n : ℕ)
    → IsBlock blk
    → lo + n ≤ 256
    → ((j : ℕ) → j < lo → line blk j ≡ true)
    → ((j : ℕ) → lo ≤ j → j < lo + n → line blk j ≡ false)
    → ((j : ℕ) → lo + n ≤ j → j < 256 → line blk j ≡ true)
    → count_holes blk ≡ some (record blk { hole_count = (n + 1) / 2 }, (n + 1) / 2)
unfolding count_holes
count_holes-one_run {blk} lo n v h before free after =
    rw
      (
        count_holes_from-eq v 256 0 0 false (omega arith),
        holes_of_prefix (line blk) lo 256 0 n 0 h (λ j p q. before j (omega arith))
            (λ j p q. free j (omega arith) (omega arith))
            (λ j p q. after j (omega arith) (omega arith)),
      )
      (ground arith)
