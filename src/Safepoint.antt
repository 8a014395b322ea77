-- ===== src/Safepoint.antt =====
-- src/safepoint.rs and src/threading.rs with the features `threaded` and `willdebug`: how the threads stop for a
-- collection, as steps of any number of threads. A thread is its number; each access of shared memory is one
-- step, and memory is sequentially consistent. A round of a loop that finds nothing new is no step.
pub mod Invariant
pub mod Steps
pub mod Stopped
pub mod Progress
mod Tests
use libimmixcons.Base.{
  ℕ, ◌≡◌, ◌≢◌, ◌⊎◌, Bool, true, false, Option, none, some, List, [], ◌∷◌, ◌==◌, if◌then◌else◌, push,
}

-- Where a thread stands. `outside` is not registered yet, `gone` not any more; `managed` runs managed code,
-- and so does `resumed`, after `set_gc_and_wait`. `checking` has stored the state 0 and is to load
-- `GC_RUNNING`, `waiting` and `leaving` are in `set_gc_and_wait`, before and after the loop. The others
-- are in `collect_internal`. In `safepoint_start_gc`: `starting` is to take `SAFEPOINT_LOCK`, `holding` is
-- before the exchange, `blocked` in the loop after it has failed and `given_up` behind that, `enabling`
-- after it has succeeded, `enabled` with the pages enabled. `started` has dropped the lock, and `stopping`
-- is in the loop of `safepoint_wait_for_the_world` with the threads it has yet to see. In
-- `safepoint_end_gc`, `ending` has `SAFEPOINT_LOCK` and `ended` has reset `GC_RUNNING`; `releasing` has
-- dropped that lock, and `restoring` the list of threads.
pub data Place : Type 0 where
  outside gone managed resumed safe checking waiting leaving starting holding blocked : Place
  given_up enabling enabled started : Place
  stopping : List ℕ → Place
  collecting ending ended releasing restoring : Place

-- `gc_state`.
abbrev pub gc_state : Place → ℕ
gc_state outside = 0
gc_state gone = 0
gc_state managed = 0
gc_state resumed = 0
gc_state safe = 2
gc_state checking = 0
gc_state waiting = 1
gc_state leaving = 1
gc_state starting = 1
gc_state blocked = 1
gc_state started = 1
gc_state (stopping pending) = 1
gc_state collecting = 1
gc_state ended = 1
gc_state holding = 1
gc_state given_up = 1
gc_state enabling = 1
gc_state enabled = 1
gc_state ending = 1
gc_state releasing = 1
gc_state restoring = 1

-- `GC_RUNNING`, `SAFEPOINT_LOCK`, the lock of `THREADS` and its list, and the threads.
pub record World : Type 0 where
  pub running : Bool
  pub start_locked : Bool
  pub locked : Bool
  pub threads : List ℕ
  pub place : ℕ → Place

abbrev pub new : World
new = record {
  running = false;
  start_locked = false;
  locked = false;
  threads = [];
  place = λ t. outside;
}

abbrev pub move : World → ℕ → Place → World
move w t p = record w { place = λ u. if u == t then p else w.place u }

-- `lock.retain(|x| *x != tls)`.
abbrev pub retain_others : ℕ → List ℕ → List ℕ
retain_others t [] = []
retain_others t (x ∷ xs) = if x == t then retain_others t xs else x ∷ retain_others t xs

abbrev pub RunsManaged : Place → Type 0
RunsManaged p = (p ≡ managed) ⊎ (p ≡ resumed)

-- `immix_register_thread` and `immix_unregister_thread`. A thread that was unregistered is not registered
-- again, since it keeps its page.
pub data RegistryStep (w : World) : World → Type 0 where
  register :
      (t : ℕ)
      → w.place t ≡ outside
      → w.locked ≡ false
      → RegistryStep w (record (move w t managed) { threads = push w.threads t })
  register_again : (t : ℕ) → w.place t ≡ gone → w.locked ≡ false → RegistryStep w w
  unregister :
      (t : ℕ)
      → RunsManaged (w.place t)
      → w.locked ≡ false
      → RegistryStep w (record (move w t gone) { threads = retain_others t w.threads })

-- `gc_state_set` and `yieldpoint`, called from managed code, `immix_safe_enter` and `immix_safe_leave`.
pub data YieldStep (w : World) : World → Type 0 where
  enter_safe : (t : ℕ) → RunsManaged (w.place t) → YieldStep w (move w t safe)
  leave_safe : (t : ℕ) → w.place t ≡ safe → YieldStep w (move w t checking)
  yield : (t : ℕ) → RunsManaged (w.place t) → YieldStep w (move w t checking)
  check_stops : (t : ℕ) → w.place t ≡ checking → w.running ≡ true → YieldStep w (move w t waiting)
  check_goes : (t : ℕ) → w.place t ≡ checking → w.running ≡ false → YieldStep w (move w t managed)

-- `set_gc_and_wait`: the end of its loop, and the store of the old state.
pub data WaitStep (w : World) : World → Type 0 where
  wait_over : (t : ℕ) → w.place t ≡ waiting → w.running ≡ false → WaitStep w (move w t leaving)
  resume : (t : ℕ) → w.place t ≡ leaving → WaitStep w (move w t resumed)

-- `safepoint_start_gc`, whose exchange may also fail for no reason, with the waiting after it has failed;
-- `enable` takes the list of threads and gives it back; `safepoint_wait_for_the_world`, a look at a thread
-- at a time; `safepoint_end_gc`; and the stores of the state around them in `collect_internal`.
pub data CollectorStep (w : World) : World → Type 0 where
  begin : (t : ℕ) → RunsManaged (w.place t) → CollectorStep w (move w t starting)
  lock_start :
      (t : ℕ)
      → w.place t ≡ starting
      → w.start_locked ≡ false
      → CollectorStep w (record (move w t holding) { start_locked = true })
  start :
      (t : ℕ)
      → w.place t ≡ holding
      → w.running ≡ false
      → CollectorStep w (record (move w t enabling) { running = true })
  start_fails :
      (t : ℕ)
      → w.place t ≡ holding
      → CollectorStep w (record (move w t blocked) { start_locked = false })
  stop_waiting :
      (t : ℕ) → w.place t ≡ blocked → w.running ≡ false → CollectorStep w (move w t given_up)
  give_up : (t : ℕ) → w.place t ≡ given_up → CollectorStep w (move w t checking)
  enable : (t : ℕ) → w.place t ≡ enabling → w.locked ≡ false → CollectorStep w (move w t enabled)
  unlock_start :
      (t : ℕ)
      → w.place t ≡ enabled
      → CollectorStep w (record (move w t started) { start_locked = false })
  lock :
      (t : ℕ)
      → w.place t ≡ started
      → w.locked ≡ false
      → CollectorStep w (record (move w t (stopping w.threads)) { locked = true })
  skip_self :
      (t : ℕ) (rest : List ℕ)
      → w.place t ≡ stopping (t ∷ rest)
      → CollectorStep w (move w t (stopping rest))
  see_stopped :
      (t u : ℕ) (rest : List ℕ)
      → w.place t ≡ stopping (u ∷ rest)
      → gc_state (w.place u) ≢ 0
      → CollectorStep w (move w t (stopping rest))
  all_stopped : (t : ℕ) → w.place t ≡ stopping [] → CollectorStep w (move w t collecting)
  lock_end :
      (t : ℕ)
      → w.place t ≡ collecting
      → w.start_locked ≡ false
      → CollectorStep w (record (move w t ending) { start_locked = true })
  end : (t : ℕ) → w.place t ≡ ending → CollectorStep w (record (move w t ended) { running = false })
  unlock_end :
      (t : ℕ)
      → w.place t ≡ ended
      → CollectorStep w (record (move w t releasing) { start_locked = false })
  unlock :
      (t : ℕ)
      → w.place t ≡ releasing
      → CollectorStep w (record (move w t restoring) { locked = false })
  restore : (t : ℕ) → w.place t ≡ restoring → CollectorStep w (move w t checking)

pub data Step (w w' : World) : Type 0 where
  registry_step : RegistryStep w w' → Step w w'
  yield_step : YieldStep w w' → Step w w'
  wait_step : WaitStep w w' → Step w w'
  collector_step : CollectorStep w w' → Step w w'

-- The states that are reached from the start.
pub data Reached : World → Type 0 where
  initial : Reached new
  after : {w w' : World} → Reached w → Step w w' → Reached w'
