-- ===== src/Block/Totals.antt =====
-- The counts of marked and of available lines.
use libimmixcons.Base.{
  ℕ, zero, suc, ◌+◌, ◌*◌, ◌≤◌, ◌<◌, ◌≡◌, refl, ◌↔◌, Bool, true, false, some, arith, inl, inr,
  Bool-cases, ℕ_discrete, ap, not, length, select, select-zero, select-true, select-false, ◌∙◌,
}
use libimmixcons.Block.{
  ImmixBlock, is_empty, count_lines, count_holes_and_marked_lines, count_holes_and_available_lines,
}
use libimmixcons.Block.Counts.{is_empty_lem}
use libimmixcons.Block.Find.{IsBlock, line, test-line}

count_lines_total :
    {blk : ImmixBlock}
    → IsBlock blk
    → (rounds i a b : ℕ) → i + rounds ≤ 256
    → (x : ℕ) × (y : ℕ) × (count_lines true blk rounds i a ≡ some x)
      × (count_lines false blk rounds i b ≡ some y)
      × (x + y ≡ a + b + rounds)
      × (a ≤ x)
      × ((x ≡ a) ↔ ((j : ℕ) → i ≤ j → j < i + rounds → line blk j ≡ false))
unfolding count_lines
count_lines_total v zero i a b h =
    (a, b, refl, refl, omega arith, omega arith, (λ e j p q. absurd (omega arith), λ all. refl))
count_lines_total {blk} v (suc rounds) i a b h =
    let e : i * 128 + blk.begin ≡ blk.begin + i * 128 = omega arith in
    elim (Bool-cases (line blk i)) [
      | inl m ↦
          let ih = count_lines_total v rounds (i + 1) (a + 1) b (omega arith) in
          (
            ih.0,
            ih.1,
            rw (e, test-line v i (omega arith), m) ih.2,
            rw (e, test-line v i (omega arith), m) ih.3,
            omega (arith, ih.4),
            omega (arith, ih.5),
            (λ q. absurd (omega (arith, ih.5)), λ all. cc (all i (omega arith) (omega arith))),
          )
      | inr m ↦
          let ih = count_lines_total v rounds (i + 1) a (b + 1) (omega arith) in
          (
            ih.0,
            ih.1,
            rw (e, test-line v i (omega arith), m) ih.2,
            rw (e, test-line v i (omega arith), m) ih.3,
            omega (arith, ih.4),
            ih.5,
            (
              λ q j p r. elim (ℕ_discrete i j) [
                | yes same ↦ rw (← same) m
                | no ne ↦ ih.6.0 q j (omega arith) (omega arith)
              ],
              λ all. ih.6.1 (λ j p r. all j (omega arith) (omega arith)),
            ),
          )
    ]

-- The lines of a block that are not marked, as a number.
unfoldable pub free_lines : ImmixBlock → ℕ
free_lines blk = length (select (λ j. not (line blk j)) 0 256)

count_lines-free :
    {blk : ImmixBlock}
    → IsBlock blk
    → (rounds i n : ℕ) → i + rounds ≤ 256
    → count_lines false blk rounds i n ≡ some (n + length (select (λ j. not (line blk j)) i rounds))
unfolding count_lines
count_lines-free {blk} v zero i n h =
    rw (select-zero (λ j. not (line blk j)) i) (ap some (omega arith))
count_lines-free {blk} v (suc rounds) i n h =
    let e : i * 128 + blk.begin ≡ blk.begin + i * 128 = omega arith in
    let next : i + 1 ≡ suc i = omega arith in
    elim (Bool-cases (line blk i)) [
      | inl m ↦
          rw
            (
              e,
              test-line v i (omega arith),
              m,
              next,
              select-false (λ j. not (line blk j)) rounds i (rw m refl),
            )
            (count_lines-free v rounds (suc i) n (omega arith))
      | inr m ↦
          rw
            (
              e,
              test-line v i (omega arith),
              m,
              next,
              select-true (λ j. not (line blk j)) rounds i (rw m refl),
            )
            (count_lines-free v rounds (suc i) (n + 1) (omega arith) ∙ ap some (omega arith))
    ]

-- The count of available lines is the number of the lines that are not marked.
pub available_lines_lem :
    {blk : ImmixBlock}
    → IsBlock blk
    → count_holes_and_available_lines blk ≡ some (blk.hole_count, free_lines blk)
unfolding count_holes_and_available_lines free_lines
available_lines_lem {blk} v =
    let from_zero : 0 + free_lines blk ≡ free_lines blk = omega arith in
    rw (count_lines-free v 256 0 0 (omega arith)) (ap (λ n. some (blk.hole_count, n)) from_zero)

-- The counts of marked and of available lines make up the 256 lines of the block, both report the
-- stored hole count, and no marked line is counted exactly when the block is empty.
pub count_lines_lem :
    {blk : ImmixBlock}
    → IsBlock blk
    → (x : ℕ) × (y : ℕ) × (count_holes_and_marked_lines blk ≡ some (blk.hole_count, x))
      × (count_holes_and_available_lines blk ≡ some (blk.hole_count, y))
      × (x + y ≡ 256)
      × ((x ≡ 0) ↔ (is_empty blk ≡ some true))
unfolding count_holes_and_marked_lines count_holes_and_available_lines
count_lines_lem {blk} v =
    let t = count_lines_total v 256 0 0 0 (omega arith) in
    let e = is_empty_lem v in
    (
      t.0,
      t.1,
      rw t.2,
      rw t.3,
      omega (arith, t.4),
      (
        λ q. rw e.1 (ap some (e.2.1 (λ j p. t.6.0 q j (omega arith) (omega arith)))),
        λ q. t.6.1 (λ j p r. e.2.0 (truth e.0 (rw e.1 at q)) j (omega arith)),
      ),
    )
  where
    truth : (b : Bool) → some b ≡ some true → b ≡ true
    truth b q = cc
