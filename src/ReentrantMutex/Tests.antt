-- ===== src/ReentrantMutex/Tests.antt =====
-- One thread locks twice and unlocks twice while another is parked, to which the mutex is handed.
use libimmixcons.Base.{
  ℕ, ◌≡◌, refl, Option, none, some, arith, ap, sym, ◌==◌, if◌then◌else◌, Bool-cases, inl, inr,
}
use libimmixcons.ReentrantMutex.{
  Mutex, World, lock_point, unlock_point, count_point, Reach, here, next, load_lock, count_up, take,
  store_owner, store_count, load_unlock, count_down, keep, clear_owner, give, get_in_line, new,
}

-- A mutex that hands itself to the thread that is parked, if there is one.
record Fair : Type 0 where
  holder : Option ℕ
  handed : Option ℕ
  parked : Option ℕ

abbrev take_handed : ℕ → Option ℕ → Fair → Option Fair
take_handed t none m = some (record { holder = some t; handed = none; parked = m.parked })
take_handed t (some u) m =
    if u == t then some (record { holder = some t; handed = none; parked = m.parked }) else none

abbrev take_fair : ℕ → Option ℕ → Fair → Option Fair
take_fair t none m = take_handed t m.handed m
take_fair t (some o) m = none

handed_holds :
    (t : ℕ) (h : Option ℕ) (m m' : Fair) → take_handed t h m ≡ some m' → m'.holder ≡ some t
handed_holds t none m m' = λ e.
    let same : record { holder = some t; handed = none; parked = m.parked } ≡ m' = cc in
    ap (λ x. x.holder) (sym same)
handed_holds t (some u) m m' = elim (Bool-cases (u == t)) [
  | inl e ↦ rw e (λ r.
      let same : record { holder = some t; handed = none; parked = m.parked } ≡ m' = cc in
      ap (λ x. x.holder) (sym same))
  | inr e ↦ rw e (λ r. absurd cc)
]

fair_free : (t : ℕ) (h : Option ℕ) (m m' : Fair) → take_fair t h m ≡ some m' → h ≡ none
fair_free t none m m' e = refl
fair_free t (some o) m m' e = cc

fair_holds : (t : ℕ) (h : Option ℕ) (m m' : Fair) → take_fair t h m ≡ some m' → m'.holder ≡ some t
fair_holds t none m m' e = handed_holds t m.handed m m' e
fair_holds t (some o) m m' e = absurd cc

abbrev fair : Mutex Fair
fair = record {
  holder = λ m. m.holder;
  lock = λ t m. take_fair t m.holder m;
  park = λ t m. record { holder = m.holder; handed = m.handed; parked = some t };
  unlock = λ m. record { holder = none; handed = m.parked; parked = none };
  lock_free = λ t m m' e. fair_free t m.holder m m' e;
  lock_holds = λ t m m' e. fair_holds t m.holder m m' e;
  park_keeps = λ t m. refl;
  unlock_leaves = λ m. refl;
}

abbrev nobody : Fair
nobody = record { holder = none; handed = none; parked = none }

-- Thread 3 locks and enters again, thread 5 gets in line, thread 3 leaves both times, and thread 5 is
-- the one that locks then.
abbrev first_in : (w : World Fair) × Reach fair (new nobody) w
unfolding lock_point unlock_point count_point
first_in = (
  _,
  next
      (next
        (next
          (next
            (next
              (next (next (next here (load_lock 3 0 refl)) (take 3 0 _ refl refl))
                (store_owner 3 0 refl))
              (store_count 3 0 refl))
            (load_lock 3 1 refl))
          (count_up 3 1 refl))
        (load_lock 5 0 refl))
      (get_in_line 5 0 refl),
)

abbrev left_once : (w : World Fair) × Reach fair (new nobody) w
unfolding lock_point unlock_point count_point
left_once = (
  _,
  next (next (next first_in.1 (load_unlock 3 2 refl)) (count_down 3 2 refl (omega arith)))
      (keep 3 2 refl (omega arith)),
)

abbrev handed_over : (w : World Fair) × Reach fair (new nobody) w
unfolding lock_point unlock_point count_point
handed_over = (
  _,
  next
      (next
        (next
          (next
            (next
              (next (next left_once.1 (load_unlock 3 1 refl)) (count_down 3 1 refl (omega arith)))
              (clear_owner 3 1 refl refl))
            (give 3 1 refl))
          (take 5 0 _ refl refl))
        (store_owner 5 0 refl))
      (store_count 5 0 refl),
)
