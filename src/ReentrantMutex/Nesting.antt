-- ===== src/ReentrantMutex/Nesting.antt =====
-- Who is in a `ReentrantMutex`, how deep, and when it is free.
use libimmixcons.Base.{ℕ, ◌≡◌, ◌≢◌, refl, subst, Option, none, some}
use libimmixcons.ReentrantMutex.{Mutex, World, idle, Reach, new}
use libimmixcons.ReentrantMutex.Fine.{Fine, Reach-IsFine}

no_some : (o : Option ℕ) → ((t : ℕ) → o ≢ some t) → o ≡ none
no_some none h = refl
no_some (some t) h = absurd (h t refl)

module _ {M : Type 0} (mutex : Mutex M) {m : M} {w : World M} (free : mutex.holder m ≡ none)
    (r : Reach mutex (new m) w) where
  fine_at : (t d : ℕ) → w.place t ≡ idle d → Fine (mutex.holder w.mtx) w.owner w.count t (idle d)
  fine_at t d at =
      subst (Fine (mutex.holder w.mtx) w.owner w.count t) at ((Reach-IsFine mutex free r).each t)

  -- When every thread has unlocked as often as locked and is outside of the methods, there is no owner, and
  -- the mutex is free.
  pub unlock-free : ((t : ℕ) → w.place t ≡ idle 0) → (w.owner ≡ none) × (mutex.holder w.mtx ≡ none)
  unfolding Fine
  unlock-free quiet = (
    no_some w.owner (λ t. (fine_at t 0 (quiet t)).1),
    no_some (mutex.holder w.mtx) (λ t. (fine_at t 0 (quiet t)).0),
  )
