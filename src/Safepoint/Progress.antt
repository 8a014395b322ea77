-- ===== src/Safepoint/Progress.antt =====
-- A collector that has started gets through, once the other threads have stopped.
use libimmixcons.Base.{
  ℕ, ◌<◌, ◌≡◌, ◌≢◌, refl, sym, ◌∙◌, subst, false, true, List, [], ◌∷◌, count, ℕ_discrete, arith,
}
use libimmixcons.Safepoint.{
  Place, managed, checking, stopping, collecting, ending, ended, releasing, restoring, gc_state,
  World, move, Step, yield_step, collector_step, check_goes, skip_self, see_stopped, all_stopped,
  lock_end, end, unlock_end, unlock, restore,
}

-- Steps after which every thread but `c` is where it was.
pub data Runs (c : ℕ) (w : World) : World → Type 0 where
  done : Runs c w w
  more :
      {v u : World} → Runs c w v → Step v u → ((t : ℕ) → t ≢ c → u.place t ≡ v.place t) → Runs c w u

Runs-place : {c : ℕ} {w v : World} (t : ℕ) → Runs c w v → t ≢ c → v.place t ≡ w.place t
Runs-place t done ne = refl
Runs-place t (more r st same) ne = same t ne ∙ Runs-place t r ne

Runs-trans : {c : ℕ} {w v u : World} → Runs c w v → Runs c v u → Runs c w u
Runs-trans r done = r
Runs-trans r (more r' st same) = more (Runs-trans r r') st same

-- A move of `c` leaves the others.
others : (w : World) (c : ℕ) (p : Place) (t : ℕ) → t ≢ c → (move w c p).place t ≡ w.place t
others w c p t ne = ground arith

here : (w : World) (c : ℕ) (p : Place) → (move w c p).place c ≡ p
here w c p = ground arith

one :
    {c : ℕ} (w : World) {v : World}
    → Step w v
    → ((t : ℕ) → t ≢ c → v.place t ≡ w.place t)
    → Runs c w v
one w st same = more done st same

abbrev AllStopped : World → ℕ → List ℕ → Type 0
AllStopped w c pending = (t : ℕ) → 0 < count t pending → t ≢ c → gc_state (w.place t) ≢ 0

-- The loop over the threads that the collector has yet to see.
world_stops :
    (c : ℕ) (pending : List ℕ) (w : World)
    → w.place c ≡ stopping pending
    → AllStopped w c pending
    → (v : World) × Runs c w v
      × (v.place c ≡ collecting)
      × (v.threads ≡ w.threads)
      × (v.start_locked ≡ w.start_locked)
world_stops c [] w at h = (
  move w c collecting,
  one w (collector_step (all_stopped c at)) (others w c collecting),
  here w c collecting,
  refl,
  refl,
)
world_stops c (u ∷ rest) w at h =
    let v = move w c (stopping rest) in
    let stopped : AllStopped v c rest = λ t k ne.
      subst (λ p. gc_state p ≢ 0) (sym (others w c (stopping rest) t ne)) (h t (omega arith) ne) in
    let (x, r, e, same, same') = world_stops c rest v (here w c (stopping rest)) stopped in
    elim (ℕ_discrete u c) [
      | yes self ↦ (
        x,
        Runs-trans
            (one w
              (collector_step
                (skip_self c rest (subst (λ y. w.place c ≡ stopping (y ∷ rest)) self at)))
              (others w c (stopping rest)))
            r,
        e,
        same,
        same',
      )
      | no ne ↦ (
        x,
        Runs-trans
            (one w (collector_step (see_stopped c u rest at (h u (ground arith) ne)))
              (others w c (stopping rest)))
            r,
        e,
        same,
        same',
      )
    ]

-- When every other thread that a collector in the loop of `safepoint_wait_for_the_world` has yet to see has
-- stopped, and no thread is in the part of `safepoint_start_gc` that has `SAFEPOINT_LOCK`, the collector
-- can go on alone: it collects, and comes back to managed code with `GC_RUNNING` reset, both locks given
-- back and the list of threads as it was, while all others stay where they are.
pub collection_ends :
    (c : ℕ) (pending : List ℕ) (w : World)
    → w.place c ≡ stopping pending
    → w.start_locked ≡ false
    → ((t : ℕ) → 0 < count t pending → t ≢ c → gc_state (w.place t) ≢ 0)
    → (v : World) × (v' : World) × Runs c w v
      × (v.place c ≡ collecting)
      × Runs c v v'
      × (v'.place c ≡ managed)
      × (v'.running ≡ false)
      × (v'.start_locked ≡ false)
      × (v'.locked ≡ false)
      × (v'.threads ≡ w.threads)
      × ((t : ℕ) → t ≢ c → v'.place t ≡ w.place t)
collection_ends c pending w at free h =
    let (v, r, e, same, same') = world_stops c pending w at h in
    let v₁ : World = record (move v c ending) { start_locked = true } in
    let v₂ : World = record (move v₁ c ended) { running = false } in
    let v₃ : World = record (move v₂ c releasing) { start_locked = false } in
    let v₄ : World = record (move v₃ c restoring) { locked = false } in
    let v₅ : World = move v₄ c checking in
    let v₆ : World = move v₅ c managed in
    let run₃ : Runs c v v₃ =
      more
        (more (one v (collector_step (lock_end c e (same' ∙ free))) (others v c ending))
          (collector_step (end c (here v c ending))) (others v₁ c ended))
        (collector_step (unlock_end c (here v₁ c ended))) (others v₂ c releasing) in
    let run : Runs c v v₆ =
      more
        (more (more run₃ (collector_step (unlock c (here v₂ c releasing))) (others v₃ c restoring))
          (collector_step (restore c (here v₃ c restoring))) (others v₄ c checking))
        (yield_step (check_goes c (here v₄ c checking) refl)) (others v₅ c managed) in
    (
      v,
      v₆,
      r,
      e,
      run,
      here v₅ c managed,
      refl,
      refl,
      refl,
      same,
      λ t ne. Runs-place t (Runs-trans r run) ne,
    )
