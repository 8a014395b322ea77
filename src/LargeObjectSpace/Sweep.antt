-- ===== src/LargeObjectSpace/Sweep.antt =====
-- `sweep` of the large object space: which allocations stay.
use libimmixcons.Base.{
  ℕ, ◌+◌, ◌-◌, ◌^◌, ◌<◌, ◌≡◌, ◌≢◌, refl, sym, subst, Bool, true, false, none, some, List, [], ◌∷◌,
  if◌then◌else◌, arith, push, count, count-append, ℕ_discrete, Bool-cases, inl, inr, ◌∙◌, ◌⊎◌,
  Distinct,
}
use libimmixcons.LargeObjectSpace.{
  Slice, LargeObjectSpace, Headers, Retaining, write_header, sweep_one, sweep_all, sweep,
}
use libimmixcons.LargeObjectSpace.Order.{Sorted, IsSlice}
use libimmixcons.LargeObjectSpace.PreciseAllocation.{PreciseAllocation, cell}
use libimmixcons.LargeObjectSpace.PreciseAllocation.Cell.{
  dead, sweep-dead, sweep-alive, destroy-some,
}

-- The header of each allocation, with a size that fits a layout.
abbrev pub Held : Headers → List ℕ → Type 0
Held headers l =
    (b : ℕ)
    → 0 < count b l
    → (p : PreciseAllocation) × (headers b ≡ some p) × (p.cell_size < 2 ^ 63 - 64)

abbrev pub dead_at : Headers → ℕ → Bool
dead_at headers b = elim (headers b) [ none ↦ false | some p ↦ dead p ]

-- What sweeping `l` does: the dead allocations and their headers go, each after its finalizer if it
-- has one, and the others stay as they are.
pub record Swept (l : List ℕ) (s s' : Retaining) : Type 0 where
  pub stay :
      (b : ℕ)
      → count b s'.retained ≡ count b s.retained + (if dead_at s.headers b then 0 else count b l)
  pub gone : (b : ℕ) → 0 < count b l → dead_at s.headers b ≡ true → s'.headers b ≡ none
  pub same_headers :
      (b : ℕ) → count b l ≡ 0 ⊎ (dead_at s.headers b ≡ false) → s'.headers b ≡ s.headers b

-- One step, on `x`, before the rest of the list.
record Step (x : ℕ) (s t : Retaining) : Type 0 where
  other : (b : ℕ) → x ≢ b → t.headers b ≡ s.headers b
  kept : (b : ℕ) → x ≢ b → count b t.retained ≡ count b s.retained
  kept_here : count x t.retained ≡ count x s.retained + (if dead_at s.headers x then 0 else 1)
  lost_here : dead_at s.headers x ≡ true → t.headers x ≡ none
  live_here : dead_at s.headers x ≡ false → t.headers x ≡ s.headers x

cons-Swept :
    (x : ℕ) (xs : List ℕ) (s t s' : Retaining)
    → count x xs ≡ 0
    → Step x s t
    → Swept xs t s'
    → Swept (x ∷ xs) s s'
cons-Swept x xs s t s' fresh step w = record {
  stay = λ b. elim (ℕ_discrete x b) [
    | yes e ↦
        subst
          (λ c.
            count c s'.retained
            ≡ count c s.retained + (if dead_at s.headers c then 0 else count c (x ∷ xs)))
          e stay_x
    | no ne ↦ ground (arith, w.stay b, step.kept b ne, same_dead b ne)
  ];
  gone = λ b h d. elim (ℕ_discrete x b) [
    | yes e ↦
        subst (λ c. s'.headers c ≡ none) e (w.same_headers x (inl fresh) ∙ step.lost_here (rw e d))
    | no ne ↦ w.gone b (ground arith) (same_dead b ne ∙ d)
  ];
  same_headers = λ b h. elim (ℕ_discrete x b) [
    | yes e ↦
        subst (λ c. s'.headers c ≡ s.headers c) e
          (w.same_headers x (inl fresh) ∙ step.live_here (rw e (here b e h)))
    | no ne ↦ w.same_headers b (there b ne h) ∙ step.other b ne
  ];
}
  where
    same_dead : (b : ℕ) → x ≢ b → dead_at t.headers b ≡ dead_at s.headers b
    same_dead b ne = rw (dead_at, step.other b ne) refl

    stay_x :
        count x s'.retained
        ≡ count x s.retained + (if dead_at s.headers x then 0 else count x (x ∷ xs))
    stay_x = ground (arith, w.stay x, step.kept_here)

    here :
        (b : ℕ)
        → x ≡ b
        → count b (x ∷ xs) ≡ 0 ⊎ (dead_at s.headers b ≡ false)
        → dead_at s.headers b ≡ false
    here b e (inl q) = absurd (ground arith)
    here b e (inr q) = q

    there :
        (b : ℕ)
        → x ≢ b
        → count b (x ∷ xs) ≡ 0 ⊎ (dead_at s.headers b ≡ false)
        → count b xs ≡ 0 ⊎ (dead_at t.headers b ≡ false)
    there b ne (inl q) = inl (ground arith)
    there b ne (inr q) = inr (same_dead b ne ∙ q)

bools_differ : true ≡ false → ⊥
bools_differ e = cc

module _ (finalizer : ℕ → Bool) (stale : ℕ → ℕ) where
  alive_step : Retaining → ℕ → PreciseAllocation → Retaining
  alive_step s x p = record s {
    headers = write_header s.headers x (some p);
    retained = push s.retained x;
  }

  dead_step : Retaining → ℕ → ℕ × ℕ × ℕ → Retaining
  dead_step s x memory = record s {
    headers = write_header s.headers x none;
    finalized = if finalizer (cell x) then push s.finalized (cell x) else s.finalized;
    freed = push s.freed memory;
    sweeped = s.sweeped + stale x;
  }

  step_alive :
      (s : Retaining) (x : ℕ) (p : PreciseAllocation)
      → s.headers x ≡ some p
      → dead p ≡ false
      → sweep_one finalizer stale s x ≡ some (alive_step s x p)
  unfolding sweep_one alive_step
  step_alive s x p e d = rw (e, sweep-alive x finalizer p s.finalized d) refl

  step_dead :
      (s : Retaining) (x : ℕ) (p : PreciseAllocation)
      → s.headers x ≡ some p
      → dead p ≡ true
      → p.cell_size < 2 ^ 63 - 64
      → (memory : ℕ × ℕ × ℕ) × (sweep_one finalizer stale s x ≡ some (dead_step s x memory))
  unfolding sweep_one dead_step
  step_dead s x p e d fits =
      let (memory, m) = destroy-some x (record p { has_valid_cell = false }) fits in
      (memory, rw (e, sweep-dead x finalizer p s.finalized d, m) refl)

  dead_step-Step :
      (s : Retaining) (x : ℕ) (p : PreciseAllocation) (memory : ℕ × ℕ × ℕ)
      → s.headers x ≡ some p
      → dead p ≡ true
      → Step x s (dead_step s x memory)
  unfolding dead_step
  dead_step-Step s x p memory e lost = record {
    other = λ b ne. ground arith;
    kept = λ b ne. refl;
    kept_here = rw (dead_at, e, lost) (omega arith);
    lost_here = λ q. ground arith;
    live_here = λ q. absurd (bools_differ (rw (dead_at, e, lost) at q));
  }

  alive_step-Step :
      (s : Retaining) (x : ℕ) (p : PreciseAllocation)
      → s.headers x ≡ some p
      → dead p ≡ false
      → Step x s (alive_step s x p)
  unfolding alive_step
  alive_step-Step s x p e live = record {
    other = λ b ne. ground arith;
    kept = λ b ne. ground (arith, count-append b s.retained (x ∷ []));
    kept_here = rw (dead_at, e, live) (ground (arith, count-append x s.retained (x ∷ [])));
    lost_here = λ q. absurd (bools_differ (sym (rw (dead_at, e, live) at q)));
    live_here = λ q. rw e (ground arith);
  }

  Held-rest :
      (x : ℕ) (xs : List ℕ) (s t : Retaining)
      → count x xs ≡ 0
      → Step x s t
      → Held s.headers (x ∷ xs)
      → Held t.headers xs
  Held-rest x xs s t fresh step held b h =
      let ne : x ≢ b = λ e. absurd (ground arith) in
      let (p, e, fits) = held b (ground arith) in (p, step.other b ne ∙ e, fits)

  sweep_all_lem :
      (l : List ℕ) (s : Retaining)
      → Distinct l
      → Held s.headers l
      → (s' : Retaining) × (sweep_all finalizer stale l s ≡ some s') × Swept l s s'
  unfolding sweep_all
  sweep_all_lem [] s d held = (
    s,
    refl,
    record {
      stay = λ b. ground arith;
      gone = λ b h. absurd (omega arith);
      same_headers = λ b h. refl;
    },
  )
  sweep_all_lem (x ∷ xs) s d held =
      let (p, e, fits) = held x (ground arith) in
      elim (Bool-cases (dead p)) [
        | inl lost ↦
            let (memory, step) = step_dead s x p e lost fits in
            let (s', run, w) =
              sweep_all_lem xs (dead_step s x memory) d.1
                (Held-rest x xs s _ d.0 (dead_step-Step s x p memory e lost) held) in
            (s', rw step run, cons-Swept x xs s _ s' d.0 (dead_step-Step s x p memory e lost) w)
        | inr live ↦
            let (s', run, w) =
              sweep_all_lem xs (alive_step s x p) d.1
                (Held-rest x xs s _ d.0 (alive_step-Step s x p e live) held) in
            (
              s',
              rw (step_alive s x p e live) run,
              cons-Swept x xs s _ s' d.0 (alive_step-Step s x p e live) w,
            )
      ]

-- With well-formed headers and no allocation twice, `sweep` succeeds. The allocations that stay are
-- those that are marked or have no valid cell any more, in order; the headers of the others are
-- gone, and no other header changes.
pub sweep_lem :
    (slice : Slice) (finalizer : ℕ → Bool) (stale : ℕ → ℕ) (s : LargeObjectSpace)
    (headers : Headers)
    → IsSlice slice
    → Distinct s.allocations
    → Held headers s.allocations
    → (s' : LargeObjectSpace) × (r : Retaining) × (sweep slice finalizer stale s headers
        ≡ some (s', r))
      × Sorted s'.allocations
      × ((b : ℕ)
          → count b s'.allocations ≡ (if dead_at headers b then 0 else count b s.allocations))
      × ((b : ℕ) → 0 < count b s.allocations → dead_at headers b ≡ true → r.headers b ≡ none)
      × ((b : ℕ)
          → count b s.allocations ≡ 0 ⊎ (dead_at headers b ≡ false)
          → r.headers b ≡ headers b)
unfolding sweep
sweep_lem slice finalizer stale s headers ok d held =
    let start : Retaining = record {
      headers = headers;
      retained = [];
      finalized = [];
      freed = [];
      sweeped = 0;
    } in
    let (r, run, w) = sweep_all_lem finalizer stale s.allocations start d held in
    (
      record s { allocations = slice.sort_unstable r.retained },
      r,
      rw run refl,
      ok.sorts r.retained,
      λ b. ground (arith, ok.keeps r.retained b, w.stay b),
      w.gone,
      w.same_headers,
    )
