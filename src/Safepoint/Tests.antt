-- ===== src/Safepoint/Tests.antt =====
-- Two threads: the second stops for a collection of the first, and comes back from `set_gc_and_wait` while the
-- first is in its next collection.
use libimmixcons.Base.{ℕ, ◌<◌, ◌≡◌, ◌≢◌, refl, true, false, [], ◌∷◌, push, count, arith, inl, subst}
use libimmixcons.Safepoint.{
  managed, resumed, checking, waiting, leaving, starting, started, stopping, collecting, ended,
  holding, enabling, enabled, ending, releasing, restoring, lock_start, enable, unlock_start,
  lock_end, unlock_end, unlock, World, gc_state, move, new, registry_step, yield_step, wait_step,
  collector_step, register, yield, check_stops, check_goes, wait_over, resume, begin, start, lock,
  skip_self, see_stopped, all_stopped, end, restore, Reached, initial, after,
}
use libimmixcons.Safepoint.Stopped.{collecting-Stopped}
use libimmixcons.Safepoint.Progress.{Runs, collection_ends}

abbrev registered_one : World
registered_one = record (move new 1 managed) { threads = push new.threads 1 }

abbrev registered_two : World
registered_two = record (move registered_one 2 managed) { threads = push registered_one.threads 2 }

abbrev one_begins : World
one_begins = move registered_two 1 starting

abbrev one_holds : World
one_holds = record (move one_begins 1 holding) { start_locked = true }

abbrev one_exchanges : World
one_exchanges = record (move one_holds 1 enabling) { running = true }

abbrev one_enables : World
one_enables = move one_exchanges 1 enabled

abbrev one_starts : World
one_starts = record (move one_enables 1 started) { start_locked = false }

abbrev two_yields : World
two_yields = move one_starts 2 checking

abbrev two_waits : World
two_waits = move two_yields 2 waiting

abbrev one_locks : World
one_locks = record (move two_waits 1 (stopping two_waits.threads)) { locked = true }

abbrev one_skips : World
one_skips = move one_locks 1 (stopping (2 ∷ []))

abbrev one_sees_two : World
one_sees_two = move one_skips 1 (stopping [])

abbrev one_collects : World
one_collects = move one_sees_two 1 collecting

abbrev one_is_ending : World
one_is_ending = record (move one_collects 1 ending) { start_locked = true }

abbrev one_ends : World
one_ends = record (move one_is_ending 1 ended) { running = false }

abbrev two_leaves : World
two_leaves = move one_ends 2 leaving

abbrev one_releases : World
one_releases = record (move two_leaves 1 releasing) { start_locked = false }

abbrev one_unlocks : World
one_unlocks = record (move one_releases 1 restoring) { locked = false }

abbrev one_restores : World
one_restores = move one_unlocks 1 checking

abbrev one_goes : World
one_goes = move one_restores 1 managed

abbrev one_begins_again : World
one_begins_again = move one_goes 1 starting

abbrev one_holds_again : World
one_holds_again = record (move one_begins_again 1 holding) { start_locked = true }

abbrev one_exchanges_again : World
one_exchanges_again = record (move one_holds_again 1 enabling) { running = true }

abbrev one_enables_again : World
one_enables_again = move one_exchanges_again 1 enabled

abbrev one_starts_again : World
one_starts_again = record (move one_enables_again 1 started) { start_locked = false }

abbrev one_locks_again : World
one_locks_again = record (move one_starts_again 1 (stopping one_starts_again.threads)) {
  locked = true;
}

abbrev one_skips_again : World
one_skips_again = move one_locks_again 1 (stopping (2 ∷ []))

abbrev one_sees_two_again : World
one_sees_two_again = move one_skips_again 1 (stopping [])

abbrev one_collects_again : World
one_collects_again = move one_sees_two_again 1 collecting

abbrev two_resumes : World
two_resumes = move one_collects_again 2 resumed

one_starts-Reached : Reached one_starts
one_starts-Reached =
    after
      (after
        (after
          (after
            (after
              (after (after (initial) (registry_step (register 1 refl refl)))
                (registry_step (register 2 refl refl)))
              (collector_step (begin 1 (inl refl))))
            (collector_step (lock_start 1 refl refl)))
          (collector_step (start 1 refl refl)))
        (collector_step (enable 1 refl refl)))
      (collector_step (unlock_start 1 refl))

one_locks-Reached : Reached one_locks
one_locks-Reached =
    after
      (after (after (one_starts-Reached) (yield_step (yield 2 (inl refl))))
        (yield_step (check_stops 2 refl refl)))
      (collector_step (lock 1 refl refl))

one_ends-Reached : Reached one_ends
one_ends-Reached =
    after
      (after
        (after
          (after (after (one_locks-Reached) (collector_step (skip_self 1 (2 ∷ []) refl)))
            (collector_step (see_stopped 1 2 [] refl (λ e. absurd (omega (arith, e))))))
          (collector_step (all_stopped 1 refl)))
        (collector_step (lock_end 1 refl refl)))
      (collector_step (end 1 refl))

one_goes-Reached : Reached one_goes
one_goes-Reached =
    after
      (after
        (after
          (after (after (one_ends-Reached) (wait_step (wait_over 2 refl refl)))
            (collector_step (unlock_end 1 refl)))
          (collector_step (unlock 1 refl)))
        (collector_step (restore 1 refl)))
      (yield_step (check_goes 1 refl refl))

one_starts_again-Reached : Reached one_starts_again
one_starts_again-Reached =
    after
      (after
        (after
          (after (after (one_goes-Reached) (collector_step (begin 1 (inl refl))))
            (collector_step (lock_start 1 refl refl)))
          (collector_step (start 1 refl refl)))
        (collector_step (enable 1 refl refl)))
      (collector_step (unlock_start 1 refl))

two_resumes-Reached : Reached two_resumes
two_resumes-Reached =
    after
      (after
        (after
          (after (after (one_starts_again-Reached) (collector_step (lock 1 refl refl)))
            (collector_step (skip_self 1 (2 ∷ []) refl)))
          (collector_step (see_stopped 1 2 [] refl (λ e. absurd (omega (arith, e))))))
        (collector_step (all_stopped 1 refl)))
      (wait_step (resume 2 refl))

-- The second thread runs managed code during the first one's collection.
both_run : (two_resumes.place 1 ≡ collecting) × (two_resumes.place 2 ≡ resumed)
both_run = (refl, refl)

one_locks_stopped : (t : ℕ) → 0 < count t (1 ∷ 2 ∷ []) → t ≢ 1 → gc_state (one_locks.place t) ≢ 0
one_locks_stopped t h ne e =
    let two : t ≡ 2 = ground arith in
    let one_waits : gc_state (one_locks.place 2) ≡ 0 =
      subst (λ x. gc_state (one_locks.place x) ≡ 0) two e in
    absurd (omega (arith, one_waits))

-- The witnesses.
collection_ends_example :
    (v : World) × (v' : World) × Runs 1 one_locks v
    × (v.place 1 ≡ collecting)
    × Runs 1 v v'
    × (v'.place 1 ≡ managed)
    × (v'.running ≡ false)
    × (v'.start_locked ≡ false)
    × (v'.locked ≡ false)
    × (v'.threads ≡ 1 ∷ 2 ∷ [])
    × ((t : ℕ) → t ≢ 1 → v'.place t ≡ one_locks.place t)
collection_ends_example = collection_ends 1 (1 ∷ 2 ∷ []) one_locks refl refl one_locks_stopped

collecting-Stopped_example :
    (two_resumes.running ≡ true)
    × (two_resumes.locked ≡ true)
    × ((t : ℕ) → two_resumes.place t ≡ collecting → t ≡ 1)
    × ((t : ℕ) → 0 < count t (1 ∷ 2 ∷ []) → t ≢ 1 → two_resumes.place t ≢ managed)
collecting-Stopped_example = collecting-Stopped two_resumes 1 two_resumes-Reached refl
