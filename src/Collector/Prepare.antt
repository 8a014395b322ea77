-- ===== src/Collector/Prepare.antt =====
-- `prepare_collection` of src/collector.rs: the kind of the collection and the evacuation candidates.
use libimmixcons.Base.{
  ℕ, zero, suc, ◌+◌, ◌<◌, ◌≡◌, refl, ap, Bool, true, false, Option, some, leb, ltb, arith, count,
  List, [], ◌∷◌, ◌||◌, ◌⊎◌, inl, inr, ◌*◌, ◌≤◌, ◌+◌, ◌∙◌, ℕ_discrete, dec_lt,
}
use libimmixcons.Block.{ImmixBlock}
use libimmixcons.Block.Find.{IsBlock}
use libimmixcons.Collector.Threshold.{IsThreshold, establish_hole_threshhold_lem}
use libimmixcons.BlockAllocator.{Memory, write}
use libimmixcons.Collector.{
  Collector, CollectionType, immix_collection, immix_evac_collection, set_candidates,
  prepare_collection, establish_hole_threshhold, evac_threshold,
}

abbrev pub with_candidate : ImmixBlock → Bool → ImmixBlock
with_candidate blk c = record blk { evacuation_candidate = c }

-- The headers of `blocks` have the flag that `test` gives them, and all else is as before.
pub record Chosen (test : ImmixBlock → Bool) (blocks : List ℕ) (memory memory' : Memory)
    : Type 0 where
  pub chosen :
      (b : ℕ) → 0 < count b blocks → memory' b ≡ with_candidate (memory b) (test (memory b))
  pub kept : (b : ℕ) → count b blocks ≡ 0 → memory' b ≡ memory b

set_candidates-Chosen :
    (test : ImmixBlock → Bool)
    → ((blk : ImmixBlock) (c : Bool) → test (with_candidate blk c) ≡ test blk)
    → (blocks : List ℕ) (memory : Memory)
    → Chosen test blocks memory (set_candidates test blocks memory)
unfolding set_candidates
set_candidates-Chosen test blind [] memory = record {
  chosen = λ b h. absurd (omega arith);
  kept = λ b h. refl;
}
set_candidates-Chosen test blind (x ∷ xs) memory =
    cons x xs memory (set_candidates-Chosen test blind xs (stepped x memory))
  where
    stepped : ℕ → Memory → Memory
    stepped x memory = write memory x (with_candidate (memory x) (test (memory x)))

    stepped_here :
        (x : ℕ) (memory : Memory) → stepped x memory x ≡ with_candidate (memory x) (test (memory x))
    stepped_here x memory = ground arith

    same :
        (x : ℕ) (memory : Memory) (b : ℕ)
        → with_candidate (stepped x memory b) (test (stepped x memory b))
          ≡ with_candidate (memory b) (test (memory b))
    same x memory b = elim (ℕ_discrete x b) [
      | yes e ↦ rw (← e, stepped_here x memory) (ap (with_candidate (memory x)) (blind _ _))
      | no ne ↦ ground arith
    ]

    here :
        (b x : ℕ) (memory : Memory)
        → x ≡ b
        → stepped x memory b ≡ with_candidate (memory b) (test (memory b))
    here b x memory e = rw (← e) (stepped_here x memory)

    cons :
        (x : ℕ) (xs : List ℕ) (memory : Memory)
        → Chosen test xs (stepped x memory) (set_candidates test xs (stepped x memory))
        → Chosen test (x ∷ xs) memory (set_candidates test xs (stepped x memory))
    cons x xs memory ih = record {
      chosen = λ b h. elim (dec_lt 0 (count b xs)) [
        | yes more ↦ ih.chosen b more ∙ same x memory b
        | no none_left ↦ ih.kept b (omega arith) ∙ here b x memory (ground arith)
      ];
      kept = λ b h. ih.kept b (omega arith) ∙ ground arith;
    }

-- The collection is asked to evacuate, or the blocks at hand and one more are no more than a quarter of all.
abbrev pub Wanted : Bool → ℕ → ℕ → ℕ → Type 0
Wanted evacuation available_blocks evac_headroom total_blocks =
    (evacuation ≡ true) ⊎ (4 * (available_blocks + evac_headroom + 1) ≤ total_blocks)

-- What `prepare_collection` decides.
pub data Prepared (c : Collector) (memory : Memory) (emergency : Bool) (evac_headroom : ℕ)
    (W : Type 0) (result : Option (Memory × CollectionType)) : Type 0 where
  all_blocks_move :
      (memory' : Memory)
      → emergency ≡ true
      → result ≡ some (memory', immix_evac_collection)
      → Chosen (λ b. true) c.all_blocks memory memory'
      → Prepared c memory emergency evac_headroom W result
  holed_blocks_move :
      (memory' : Memory) (h : ℕ)
      → emergency ≡ false
      → W
      → 0 < h
      → IsThreshold c memory evac_headroom h
      → result ≡ some (memory', immix_evac_collection)
      → Chosen (λ b. leb h b.hole_count) c.all_blocks memory memory'
      → Prepared c memory emergency evac_headroom W result
  no_block_moves :
      emergency ≡ false
      → (W → IsThreshold c memory evac_headroom 0)
      → result ≡ some (memory, immix_collection)
      → Prepared c memory emergency evac_headroom W result

-- In an emergency every block becomes a candidate and the collection evacuates. Otherwise it
-- evacuates exactly when it is asked for, or four times the blocks at hand and one more are at most all
-- blocks, and the threshold is not 0; then the candidates are the blocks with at least that many
-- holes. The threshold is the first hole count at which the marked lines of the histogram and the free
-- lines of the blocks, up to it, reach 255 lines for each block of the headroom, or 256. In the remaining
-- case no header changes. The blocks' headers are well formed.
pub prepare_collection_lem :
    (c : Collector) (memory : Memory) (evacuation : Bool)
    (available_blocks evac_headroom total_blocks : ℕ) (emergency : Bool)
    → ((b : ℕ) → 0 < count b c.all_blocks → IsBlock (memory b))
    → Prepared c memory emergency evac_headroom
        (Wanted evacuation available_blocks evac_headroom total_blocks)
        (prepare_collection c memory evacuation available_blocks evac_headroom total_blocks
          emergency)
unfolding prepare_collection
prepare_collection_lem c memory evacuation available_blocks evac_headroom total_blocks true v =
    all_blocks_move _ refl refl
      (set_candidates-Chosen (λ b. true) (λ b d. refl) c.all_blocks memory)
prepare_collection_lem c memory evacuation available_blocks evac_headroom total_blocks false v =
    let (r, established, is) = establish_hole_threshhold_lem c memory evac_headroom v in
    go _ refl r established is
  where
    wanted :
        (evacuation : Bool)
        → (evacuation || ltb (available_blocks + evac_headroom) (evac_threshold total_blocks))
          ≡ true
        → Wanted evacuation available_blocks evac_headroom total_blocks
    wanted true e = inl refl
    wanted false e = inr (ground (arith, e))

    not_wanted :
        (evacuation : Bool)
        → (evacuation || ltb (available_blocks + evac_headroom) (evac_threshold total_blocks))
          ≡ false
        → (evacuation ≡ false) × ¬ Wanted evacuation available_blocks evac_headroom total_blocks
    not_wanted true e = absurd cc
    not_wanted false e = (refl, λ w. elim w [ inl a ↦ cc | inr b ↦ absurd (ground (arith, e)) ])

    go :
        (asked : Bool)
        → (evacuation || ltb (available_blocks + evac_headroom) (evac_threshold total_blocks))
          ≡ asked
        → (r : ℕ) → establish_hole_threshhold c memory evac_headroom ≡ some r
        → IsThreshold c memory evac_headroom r
        → Prepared c memory false evac_headroom
            (Wanted evacuation available_blocks evac_headroom total_blocks)
            (prepare_collection c memory evacuation available_blocks evac_headroom total_blocks
              false)
    go true w zero q is = no_block_moves refl (λ t. is) (rw (w, q) refl)
    go true w (suc r) q is =
        holed_blocks_move _ (suc r) refl (wanted evacuation w) (omega arith) is
          (rw (w, q) (ground arith))
          (set_candidates-Chosen (λ b. leb (suc r) b.hole_count) (λ b d. refl) c.all_blocks memory)
    go false w r q is =
        let (plain, not_asked) = not_wanted evacuation w in
        no_block_moves refl (λ t. absurd (not_asked t)) (rw w (rw plain refl))
