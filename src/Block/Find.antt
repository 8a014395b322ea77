-- ===== src/Block/Find.antt =====
-- The loops over the lines of a block.
use libimmixcons.Base.{
  ℕ, zero, suc, ◌+◌, ◌*◌, ◌/◌, ◌%◌, ◌≤◌, ◌<◌, ◌≡◌, refl, Bool, true, false, not, Option, none, some,
  arith, inl, inr, ◌∙◌, Bool-cases, ℕ_discrete, ap,
}
use libimmixcons.LineMap
use libimmixcons.LineMap.Words.{IsLineMap, marked, test_lem}
use libimmixcons.Block.{ImmixBlock, find_line}

abbrev pub line : ImmixBlock → ℕ → Bool
line blk j = marked blk.line_map j

-- What the loop finds from `lo` on: the first line that is as wanted, or that there is none.
pub data Found (m : ℕ → Bool) (want : Bool) (lo : ℕ) (r : Option ℕ) : Type 0 where
  nowhere : r ≡ none → ((j : ℕ) → lo ≤ j → j < 256 → m j ≡ not want) → Found m want lo r
  at_line :
      (i : ℕ)
      → r ≡ some i
      → lo ≤ i
      → i < 256
      → m i ≡ want
      → ((j : ℕ) → lo ≤ j → j < i → m j ≡ not want)
      → Found m want lo r

pub record IsBlock (blk : ImmixBlock) : Type 0 where
  pub lines : IsLineMap blk.line_map
  pub aligned : blk.begin % 32768 ≡ 0

module _ {blk : ImmixBlock} (v : IsBlock blk) where
  pub test-line :
      (j : ℕ)
      → j < 256
      → LineMap.test blk.line_map (blk.begin + j * 128) blk.begin ≡ some (line blk j)
  test-line j h =
      let e : j * 128 / 128 ≡ j = omega arith in
      test_lem blk.begin (j * 128) v.lines (omega arith) ∙ ap (λ t. some (line blk t)) e

  Found-step :
      (want : Bool) (lo : ℕ) {r : Option ℕ}
      → line blk lo ≡ not want
      → Found (line blk) want (lo + 1) r
      → Found (line blk) want lo r
  Found-step want lo e (nowhere p all) =
      nowhere p
        (λ j h k. elim (ℕ_discrete lo j) [ yes q ↦ rw (← q) e | no q ↦ all j (omega arith) k ])
  Found-step want lo e (at_line i p h k q all) =
      at_line i p (omega arith) k q (λ j h' k'. elim (ℕ_discrete lo j) [
        | yes q' ↦ rw (← q') e
        | no q' ↦ all j (omega arith) k'
      ])

  pub find_line_lem :
      (want : Bool) (rounds lo : ℕ)
      → lo + rounds ≡ 256
      → (r : Option ℕ) × (find_line want blk rounds lo ≡ some r) × Found (line blk) want lo r
  unfolding find_line
  find_line_lem want zero lo e = (none, refl, nowhere refl (λ j h k. absurd (omega arith)))
  find_line_lem true (suc rounds) lo e = elim (Bool-cases (line blk lo)) [
    | inl yes' ↦ (
      some lo,
      rw (test-line lo (omega arith), yes'),
      at_line lo refl (omega arith) (omega arith) yes' (λ j h k. absurd (omega arith)),
    )
    | inr no' ↦
        let ih = find_line_lem true rounds (lo + 1) (omega arith) in
        (ih.0, rw (test-line lo (omega arith), no') ih.1, Found-step true lo no' ih.2)
  ]
  find_line_lem false (suc rounds) lo e = elim (Bool-cases (line blk lo)) [
    | inr no' ↦ (
      some lo,
      rw (test-line lo (omega arith), no'),
      at_line lo refl (omega arith) (omega arith) no' (λ j h k. absurd (omega arith)),
    )
    | inl yes' ↦
        let ih = find_line_lem false rounds (lo + 1) (omega arith) in
        (ih.0, rw (test-line lo (omega arith), yes') ih.1, Found-step false lo yes' ih.2)
  ]
