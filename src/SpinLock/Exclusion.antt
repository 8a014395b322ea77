-- ===== src/SpinLock/Exclusion.antt =====
-- At most one thread is in the lock.
use libimmixcons.Base.{ℕ, ◌<◌, ◌≡◌, ◌≢◌, ◌⊎◌, Option, none, some, List, [], ◌∷◌}
use libimmixcons.SpinLock.{
  SpinLock, Place, outside, claimed, inside, leaving, Action, take, store_one, unlock, store_owner,
  step,
}

-- What the lock's fields are while thread `t` is at a place.
abbrev pub Good : SpinLock → ℕ → Place → Type 0
Good s t outside = (s.owner ≢ t) ⊎ (t ≡ 0)
Good s t claimed = (s.owner ≡ t) × (t ≢ 0)
Good s t inside = (s.owner ≡ t) × (t ≢ 0) × (0 < s.count)
Good s t leaving = (s.owner ≡ t) × (t ≢ 0)

abbrev pub Inv : SpinLock → Type 0
Inv s = (t : ℕ) → Good s t (s.place t)

-- The result of an action, if it is taken, has the invariant.
abbrev Holds : Option SpinLock → Type 0
Holds none = Unit
Holds (some s) = Inv s

-- The thread of an `unlock` is in the lock.
abbrev pub InLock : SpinLock → Action → Type 0
InLock s (take this) = Unit
InLock s (store_one this) = Unit
InLock s (unlock this) = s.place this ≢ outside
InLock s (store_owner this) = Unit

-- So it is at each `unlock` of a run.
abbrev pub Disciplined : SpinLock → List Action → Type 0
Disciplined s [] = Unit
Disciplined s (action ∷ actions) =
    InLock s action
    × (elim (step s action) as (λ r. Type 0) [ none ↦ Unit | some s' ↦ Disciplined s' actions ])
