-- ===== src/Safepoint/Stopped.antt =====
-- What src/safepoint.rs and src/threading.rs guarantee, and what they do not.
use libimmixcons.Base.{ℕ, ◌<◌, ◌≡◌, ◌≢◌, refl, true, [], count}
use libimmixcons.Safepoint.{managed, collecting, World, Reached, initial, after, new}
use libimmixcons.Safepoint.Invariant.{Inv}
use libimmixcons.Safepoint.Steps.{Step-Inv}

Inv-new : Inv new
Inv-new = record {
  active_running = λ t a. cc;
  one_active = λ t u a b. cc;
  holder_locked = λ t a. cc;
  one_holder = λ t u a b. cc;
  seen_stopped = λ c t l p. cc;
}

Reached-Inv : {w : World} → Reached w → Inv w
Reached-Inv initial = Inv-new
Reached-Inv (after r s) = Step-Inv (Reached-Inv r) s

-- In every state that the threads reach, whatever the order of their steps: at most one thread collects, and
-- `GC_RUNNING` is set and the list of threads is locked while it does; and every other registered thread
-- has been stopped, except those that came back from `set_gc_and_wait`: none runs managed code that it
-- entered past a check of `GC_RUNNING`.
pub collecting-Stopped :
    (w : World) (c : ℕ)
    → Reached w
    → w.place c ≡ collecting
    → (w.running ≡ true)
      × (w.locked ≡ true)
      × ((t : ℕ) → w.place t ≡ collecting → t ≡ c)
      × ((t : ℕ) → 0 < count t w.threads → t ≢ c → w.place t ≢ managed)
collecting-Stopped w c r e =
    let v = Reached-Inv r in
    (
      v.active_running c (rw e refl),
      v.holder_locked c (rw e refl),
      λ t e'. v.one_active t c (rw e' refl) (rw e refl),
      λ t h ne. v.seen_stopped c t [] (rw e refl) h ne refl,
    )
