-- ===== src/SpinLock/Tests.antt =====
-- A run in which thread 7 takes the lock twice and unlocks it once while thread 9 waits.
use libimmixcons.Base.{ℕ, List, [], ◌∷◌, ◌==◌, if◌then◌else◌}
use libimmixcons.SpinLock.{SpinLock, outside, claimed, inside, Action, take, store_one, unlock}

abbrev taken_twice : SpinLock
taken_twice = record {
  owner = 7;
  count = 1;
  place = λ t.
      if t == 7
      then inside
      else (if t == 7
          then inside
          else (if t == 7 then inside else (if t == 7 then claimed else outside)));
}

abbrev taking_twice : List Action
taking_twice = take 7 ∷ store_one 7 ∷ take 9 ∷ take 7 ∷ unlock 7 ∷ []

abbrev this_thread : ℕ
this_thread = 7
