-- ===== src/SpinLock.antt =====
-- `GCSpinLock` of src/util/locks.rs, for any number of threads. A thread is its id, which is not 0. Each
-- access of the shared fields is a step: the compare-and-exchange takes the owner's load with it, since
-- it fails if the owner changed. `none` is an action that the thread is not in a state to take, or a
-- panic; an overflow of the count, a `u32`, is one. A thread may unlock a lock that it is not in. The yield point of `lock` does not touch the lock.
mod Exclusion
mod Tests
use libimmixcons.Base.{
  ℕ, ◌+◌, ◌-◌, ◌^◌, Bool, true, false, Option, none, some, List, [], ◌∷◌, ◌==◌, if◌then◌else◌,
  ◌>>=◌, checked_sub,
}

-- Where a thread stands: not in the lock, between the exchange and the first count, in it, and between
-- the last count and the store of the owner.
pub data Place : Type 0 where
  outside claimed inside leaving : Place

pub record SpinLock : Type 0 where
  pub owner : ℕ
  pub count : ℕ
  pub place : ℕ → Place

pub new : SpinLock
new = record { owner = 0; count = 0; place = λ t. outside }

abbrev pub move : SpinLock → ℕ → Place → ℕ → Place
move s this p t = if t == this then p else s.place t

pub data Action : Type 0 where
  take store_one unlock store_owner : ℕ → Action

-- One round of the loop of `wait`, which is also `try_lock`.
pub wait : SpinLock → ℕ → Option SpinLock
wait s this =
    if s.owner == this
    then (if s.count + 1 == 2 ^ 32
        then none
        else some (record s { count = s.count + 1; place = move s this inside }))
    else if s.owner == 0
    then some (record s { owner = this; place = move s this claimed })
    else some s

pub try_wait : SpinLock → ℕ → Place → Option SpinLock
unfolding wait
try_wait s this outside = if this == 0 then none else wait s this
try_wait s this inside = wait s this
try_wait s this claimed = none
try_wait s this leaving = none

pub first_count : SpinLock → ℕ → Place → Option SpinLock
first_count s this claimed = some (record s { count = 1; place = move s this inside })
first_count s this outside = none
first_count s this inside = none
first_count s this leaving = none

pub unlock_count : SpinLock → ℕ → Place → Option SpinLock
unlock_count s this inside = do
  c ← checked_sub s.count 1
  some (record s { count = c; place = move s this (if c == 0 then leaving else inside) })
unlock_count s this outside = do
  c ← checked_sub s.count 1
  some (record s { count = c; place = move s this (if c == 0 then leaving else outside) })
unlock_count s this claimed = none
unlock_count s this leaving = none

pub release : SpinLock → ℕ → Place → Option SpinLock
release s this leaving = some (record s { owner = 0; place = move s this outside })
release s this outside = none
release s this claimed = none
release s this inside = none

pub step : SpinLock → Action → Option SpinLock
step s (take this) = try_wait s this (s.place this)
step s (store_one this) = first_count s this (s.place this)
step s (unlock this) = unlock_count s this (s.place this)
step s (store_owner this) = release s this (s.place this)

pub run : SpinLock → List Action → Option SpinLock
unfolding step
run s [] = some s
run s (action ∷ actions) = do s' ← step s action; run s' actions
