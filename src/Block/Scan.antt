-- ===== src/Block/Scan.antt =====
-- `scan_block`: the holes that it finds, that it misses none it means to find, and that it ends.
use libimmixcons.Base.{
  ℕ, zero, suc, ◌+◌, ◌-◌, ◌*◌, ◌/◌, ◌≤◌, ◌<◌, ◌≡◌, refl, ◌≢◌, true, false, not, Option, none, some,
  arith, ◌==◌, ltb, ◌&&◌, if◌then◌else◌, inl, inr, ◌⊎◌, sym, ◌∙◌, ℕ_discrete, dec_lt, subst, subst₂,
}
use libimmixcons.Align.{align_usize, align_usize_multiple}
use libimmixcons.Block.{
  ImmixBlock, find_line, scan_block_from, scan_block, low_index_of, high_index_of, u16,
}
use libimmixcons.Block.Find.{IsBlock, line, Found, nowhere, at_line, find_line_lem}
use libimmixcons.Block.Holes.{NoPair, IsHole, Scanned, full, hole, Scanned-back}

abbrev decision : ImmixBlock → ℕ → ℕ → ℕ → Option (Option (ℕ × ℕ))
decision blk fuel low high =
    if low == high && not (high == 255)
    then scan_block_from fuel blk (u16 (high * 128 - 1))
    else if ltb low 255
    then some (some (u16 (align_usize (low * 128) 16), u16 (high * 128 - 1)))
    else some none

module _ {blk : ImmixBlock} (v : IsBlock blk) where
  scan_step :
      (fuel last k : ℕ) (a b : Option ℕ)
      → last / 128 ≡ k
      → find_line false blk (256 - (k + 1)) (k + 1) ≡ some a
      → find_line true blk (256 - low_index_of a) (low_index_of a) ≡ some b
      → scan_block_from (suc fuel) blk last ≡ decision blk fuel (low_index_of a) (high_index_of b)
  unfolding scan_block_from
  scan_step fuel last k a b e p q = rw (e, p, q)

  hole_result :
      (low high : ℕ)
      → low < high
      → high ≤ 256
      → (u16 (align_usize (low * 128) 16) ≡ low * 128) × (u16 (high * 128 - 1) ≡ high * 128 - 1)
  hole_result low high h k = (
    (let e : low * 128 ≡ (low * 8) * 16 = omega arith in
        rw (e, align_usize_multiple (low * 8)) (omega arith)),
    omega arith,
  )

  -- Past the line `i` that the first loop found: a hole, or one line to skip.
  abbrev Outcome : ℕ → ℕ → ℕ → ℕ → Type 0
  Outcome fuel k low high =
      (r : Option (ℕ × ℕ)) × (decision blk fuel low high ≡ some r) × Scanned (line blk) k r

  decide_hole : (fuel k low high : ℕ) → IsHole (line blk) k low high → Outcome fuel k low high
  decide_hole fuel k low high h = (
    some (low * 128, high * 128 - 1),
    ground (arith, hole_result low high h.nonempty h.inside),
    hole low high refl h,
  )

  -- The recursive call, as a hypothesis.
  abbrev Rescans : ℕ → Type 0
  Rescans fuel =
      (last k : ℕ)
      → last / 128 ≡ k
      → k < 256
      → 256 < fuel + k
      → (r : Option (ℕ × ℕ)) × (scan_block_from fuel blk last ≡ some r) × Scanned (line blk) k r

  again_is :
      (fuel i : ℕ)
      → i < 256
      → i ≢ 254
      → decision blk fuel (i + 1) (i + 1) ≡ scan_block_from fuel blk ((i + 1) * 128 - 1)
  again_is fuel i h ne =
      let e : u16 ((i + 1) * 128 - 1) ≡ (i + 1) * 128 - 1 = omega arith in ground arith

  -- The line `i` is free, and the one past it is marked, or there is none.
  rescan :
      (fuel k i : ℕ)
      → Rescans fuel
      → 256 < suc fuel + k
      → k < i
      → i < 256
      → i ≢ 254
      → ((j : ℕ) → k + 1 ≤ j → j < i → line blk j ≡ true)
      → (i ≡ 255) ⊎ (line blk (i + 1) ≡ true)
      → Outcome fuel k (i + 1) (i + 1)
  rescan fuel k i ih enough lo hi ne before at =
      let again = ih ((i + 1) * 128 - 1) i (omega arith) hi (omega arith) in
      (
        again.0,
        again_is fuel i hi ne ∙ again.1,
        Scanned-back lo before (elim at [ inl end ↦ inl (omega arith) | inr next ↦ inr next ])
            again.2,
      )

  no_hole :
      (fuel k low high : ℕ)
      → 255 ≤ low
      → (low ≡ high → high ≡ 255)
      → NoPair (line blk) k 254
      → Outcome fuel k low high
  no_hole fuel k low high h same none_free = (none, ground arith, full refl none_free)

  module _ (fuel k i : ℕ) (ih : Rescans fuel) (enough : 256 < suc fuel + k) (lo : k < i)
      (hi : i < 256) (free_at : line blk i ≡ false)
      (before : (j : ℕ) → k + 1 ≤ j → j < i → line blk j ≡ true) where
    -- The line `i` is free, and so is all that follows.
    to_end : ((j : ℕ) → i + 1 ≤ j → j < 256 → line blk j ≡ false) → Outcome fuel k (i + 1) 256
    to_end free = elim (dec_lt i 254) [
      | yes low ↦ decide_hole fuel k (i + 1) 256 (record {
        after = omega arith;
        nonempty = omega arith;
        inside = omega arith;
        starts = omega arith;
        free = λ j p q. free_from j (omega arith) q;
        maximal = inl refl;
        first = λ j p q. inl (before j (omega arith) (omega arith));
      })
      | no high ↦ elim (ℕ_discrete i 254) [
        | yes e ↦
            no_hole fuel k (i + 1) 256 (omega arith) (λ q. absurd (omega arith))
              (λ j p q. inl (before j (omega arith) (omega arith)))
        | no ne ↦
            let e : i + 1 ≡ 256 = omega arith in
            subst (λ t. Outcome fuel k (i + 1) t) e
              (rescan fuel k i ih enough lo hi ne before (inl (omega arith)))
      ]
    ]
      where
        free_from : (j : ℕ) → i ≤ j → j < 256 → line blk j ≡ false
        free_from j p q = elim (ℕ_discrete i j) [
          | yes e ↦ rw (← e) free_at
          | no ne ↦ free j (omega arith) q
        ]

    -- The line `i` is free, and `high` is the next marked line.
    to_line :
        (high : ℕ)
        → i + 1 ≤ high
        → high < 256
        → line blk high ≡ true
        → ((j : ℕ) → i + 1 ≤ j → j < high → line blk j ≡ false)
        → Outcome fuel k (i + 1) high
    to_line high past inside marked_at free = elim (dec_lt (i + 1) high) [
      | yes wide ↦ decide_hole fuel k (i + 1) high (record {
        after = omega arith;
        nonempty = wide;
        inside = omega arith;
        starts = omega arith;
        free = λ j p q. free_from j (omega arith) q;
        maximal = inr marked_at;
        first = λ j p q. inl (before j (omega arith) (omega arith));
      })
      | no single ↦
          let e : i + 1 ≡ high = omega arith in
          elim (ℕ_discrete i 254) [
            | yes e' ↦
                no_hole fuel k (i + 1) high (omega arith) (λ q. omega arith)
                  (λ j p q. inl (before j (omega arith) (omega arith)))
            | no ne ↦
                subst (λ t. Outcome fuel k (i + 1) t) e
                  (rescan fuel k i ih enough lo hi ne before (inr (rw e marked_at)))
          ]
    ]
      where
        free_from : (j : ℕ) → i ≤ j → j < high → line blk j ≡ false
        free_from j p q = elim (ℕ_discrete i j) [
          | yes e ↦ rw (← e) free_at
          | no ne ↦ free j (omega arith) q
        ]

  -- What the code decides from the two lines that its loops found.
  decide :
      (fuel k : ℕ) (a b : Option ℕ)
      → Rescans fuel
      → 256 < suc fuel + k
      → k < 256
      → Found (line blk) false (k + 1) a
      → Found (line blk) true (low_index_of a) b
      → Outcome fuel k (low_index_of a) (high_index_of b)
  decide fuel k none none ih enough h (nowhere e all) (nowhere e' all') =
      no_hole fuel k 255 256 (omega arith) (λ q. absurd (omega arith))
        (λ j p q. inl (all j (omega arith) (omega arith)))
  decide fuel k none b ih enough h (at_line i e p q f before) fb = cc
  decide fuel k (some x) b ih enough h (nowhere e all) fb = cc
  decide fuel k none (some x) ih enough h (nowhere e all) (nowhere e' all') = cc
  decide fuel k none none ih enough h (nowhere e all) (at_line i' e' p' q' f' before') = cc
  decide fuel k none (some x) ih enough h (nowhere e all) (at_line i e' p' q' f' before') =
      let x_is : x ≡ i = ground arith in
      no_hole fuel k 255 x (omega arith) (λ q. sym q)
        (λ j p q. inl (all j (omega arith) (omega arith)))
  decide fuel k (some x) none ih enough h (at_line i e p q f before)
        (at_line i' e' p' q' f' before') =
      cc
  decide fuel k (some x) (some y) ih enough h (at_line i e p q f before) (nowhere e' all') = cc
  decide fuel k (some x) none ih enough h (at_line i e p q f before) (nowhere e' all') =
      let x_is : i ≡ x = ground arith in
      subst (λ t. Outcome fuel k (t + 1) 256) x_is
        (to_end fuel k i ih enough (omega arith) q f before (rw (← x_is) at all'))
  decide fuel k (some x) (some y) ih enough h (at_line i e p q f before)
        (at_line i' e' p' q' f' before') =
      let x_is : i ≡ x = ground arith in
      let y_is : i' ≡ y = ground arith in
      subst₂ (λ t u. Outcome fuel k (t + 1) u) x_is y_is
        (to_line fuel k i ih enough (omega arith) q f before i' (omega arith) q' f'
          (rw (← x_is) at before'))

  -- By induction on the fuel. Each rescan starts at least one line further.
  scan_block_from_lem : (fuel : ℕ) → Rescans fuel
  scan_block_from_lem zero last k e h enough = absurd (omega arith)
  scan_block_from_lem (suc fuel) last k e h enough =
      let a = find_line_lem v false (256 - (k + 1)) (k + 1) (omega arith) in
      let b = find_line_lem v true (256 - low_index_of a.0) (low_index_of a.0) (low_in a.0 a.2) in
      let d = decide fuel k a.0 b.0 (scan_block_from_lem fuel) enough h a.2 b.2 in
      (d.0, scan_step fuel last k a.0 b.0 e a.1 b.1 ∙ d.1, d.2)
    where
      low_in :
          (a : Option ℕ)
          → Found (line blk) false (k + 1) a
          → low_index_of a + (256 - low_index_of a) ≡ 256
      low_in none f = omega arith
      low_in (some i) (nowhere e' all) = cc
      low_in (some i) (at_line i' e' p q f before) = ground arith

  -- For every block and every offset in it, `scan_block` returns, without a panic, and its recursion
  -- ends within the fuel. It returns `none` only if no pair of free lines past the offset's line lies
  -- below line 255; else the first such hole, as its lowest and highest usable offset.
  pub scan_block_lem :
      (last : ℕ)
      → last < 32768
      → (r : Option (ℕ × ℕ)) × (scan_block blk last ≡ some r) × Scanned (line blk) (last / 128) r
  unfolding scan_block
  scan_block_lem last h = scan_block_from_lem 257 last (last / 128) refl (omega arith) (omega arith)
