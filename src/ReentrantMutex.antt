-- ===== src/ReentrantMutex.antt =====
-- `ReentrantMutex` of src/util/locks.rs, as steps of several threads. The mutex inside, which
-- is adapted from the crate parking_lot, is outside of the model: a state, the thread whose `lock` has
-- returned and that has not called `unlock`, `lock` when it returns, `park` for a thread that gets in line,
-- and `unlock`, which may hand the mutex to a parked thread: then no other thread's `lock` returns before,
-- but that thread holds the mutex only when its own `lock` returns. Each access of the
-- owner, the count and the mutex is a step; memory is sequentially consistent. `lock_nogc` and
-- `unlock_nogc` have the same text over the other entry points of the mutex.
mod Fine
pub mod Nesting
mod Tests
use libimmixcons.Base.{
  ℕ, suc, ◌+◌, ◌-◌, ◌^◌, ◌<◌, ◌≤◌, ◌≡◌, Option, none, some, ◌==◌, if◌then◌else◌,
}

pub record Mutex (M : Type 0) : Type 0 where
  pub holder : M → Option ℕ
  pub lock : ℕ → M → Option M
  pub park : ℕ → M → M
  pub unlock : M → M
  pub lock_free : (t : ℕ) (m m' : M) → lock t m ≡ some m' → holder m ≡ none
  pub lock_holds : (t : ℕ) (m m' : M) → lock t m ≡ some m' → holder m' ≡ some t
  pub park_keeps : (t : ℕ) (m : M) → holder (park t m) ≡ holder m
  pub unlock_leaves : (m : M) → holder (unlock m) ≡ none

-- Where a thread is; the number counts its calls of `lock` that have returned less those of `unlock`.
-- `idle` is outside of the methods, the rest are points in `lock` (the owner is the thread, it is not,
-- the mutex is taken, the owner is stored), in `unlock` (the assertion has passed, the count is stored,
-- the owner is cleared), and the two panics.
pub data Place : Type 0 where
  idle : ℕ → Place
  reenter : ℕ → Place
  contend : ℕ → Place
  taken : ℕ → Place
  owned : ℕ → Place
  asserted : ℕ → Place
  counted : ℕ → Place
  cleared : ℕ → Place
  not_owner : ℕ → Place
  overflowed : ℕ → Place

pub record World (M : Type 0) : Type 0 where
  pub mtx : M
  pub owner : Option ℕ
  pub count : ℕ
  pub place : ℕ → Place

abbrev pub put_place : (ℕ → Place) → ℕ → Place → ℕ → Place
put_place f t p u = if t == u then p else f u

-- `owner == Some(this)`.
abbrev pub is_owner : Option ℕ → ℕ → Place → Place → Place
is_owner none t yes_place no_place = no_place
is_owner (some o) t yes_place no_place = if o == t then yes_place else no_place

-- The load at the start of `lock`, and the assertion at the start of `unlock`.
unfoldable pub lock_point : Option ℕ → ℕ → ℕ → Place
lock_point owner t depth = is_owner owner t (reenter depth) (contend depth)

unfoldable pub unlock_point : Option ℕ → ℕ → ℕ → Place
unlock_point owner t depth = is_owner owner t (asserted depth) (not_owner depth)

-- The count of a thread that enters again is a `u32`.
unfoldable pub count_point : ℕ → ℕ → Place
count_point count depth = if count + 1 == 2 ^ 32 then overflowed depth else idle (depth + 1)

module _ {M : Type 0} (mutex : Mutex M) where
  -- Every thread may call `lock` and `unlock` at any time.
  pub data Step (w : World M) : World M → Type 0 where
    load_lock :
        (t depth : ℕ)
        → w.place t ≡ idle depth
        → Step w (record w { place = put_place w.place t (lock_point w.owner t depth) })
    count_up :
        (t depth : ℕ)
        → w.place t ≡ reenter depth
        → Step w (record w {
          count = if w.count + 1 == 2 ^ 32 then w.count else w.count + 1;
          place = put_place w.place t (count_point w.count depth);
        })
    get_in_line :
        (t depth : ℕ) → w.place t ≡ contend depth → Step w (record w { mtx = mutex.park t w.mtx })
    take :
        (t depth : ℕ) (m : M)
        → w.place t ≡ contend depth
        → mutex.lock t w.mtx ≡ some m
        → Step w (record w { mtx = m; place = put_place w.place t (taken depth) })
    store_owner :
        (t depth : ℕ)
        → w.place t ≡ taken depth
        → Step w (record w { owner = some t; place = put_place w.place t (owned depth) })
    store_count :
        (t depth : ℕ)
        → w.place t ≡ owned depth
        → Step w (record w { count = 1; place = put_place w.place t (idle (depth + 1)) })
    load_unlock :
        (t depth : ℕ)
        → w.place t ≡ idle depth
        → Step w (record w { place = put_place w.place t (unlock_point w.owner t depth) })
    count_down :
        (t depth : ℕ)
        → w.place t ≡ asserted depth
        → 0 < w.count
        → Step w (record w { count = w.count - 1; place = put_place w.place t (counted depth) })
    keep :
        (t depth : ℕ)
        → w.place t ≡ counted depth
        → 0 < w.count
        → Step w (record w { place = put_place w.place t (idle (depth - 1)) })
    clear_owner :
        (t depth : ℕ)
        → w.place t ≡ counted depth
        → w.count ≡ 0
        → Step w (record w { owner = none; place = put_place w.place t (cleared depth) })
    give :
        (t depth : ℕ)
        → w.place t ≡ cleared depth
        → Step w
            (record w { mtx = mutex.unlock w.mtx; place = put_place w.place t (idle (depth - 1)) })

  pub data Reach (w : World M) : World M → Type 0 where
    here : Reach w w
    next : {u v : World M} → Reach w u → Step u v → Reach w v

-- `new`: no owner, and a mutex that nobody holds.
abbrev pub new : {M : Type 0} → M → World M
new m = record { mtx = m; owner = none; count = 0; place = λ t. idle 0 }
