-- ===== src/ReentrantMutex/Fine.antt =====
-- What each step of a `ReentrantMutex` keeps.
use libimmixcons.Base.{
  ℕ, zero, suc, ◌+◌, ◌-◌, ◌^◌, ◌<◌, ◌≡◌, ◌≢◌, refl, sym, subst, true, false, Option, none, some,
  ◌==◌, arith, ℕ_discrete, Bool-cases, inl, inr,
}
use libimmixcons.ReentrantMutex.{
  Mutex, Place, idle, reenter, contend, taken, owned, asserted, counted, cleared, not_owner,
  overflowed, World, put_place, lock_point, unlock_point, count_point, Step, load_lock, count_up,
  get_in_line, take, store_owner, store_count, load_unlock, count_down, keep, clear_owner, give,
  Reach, here, next, new,
}

-- Thread `t` is in the mutex and owns the lock, and `count` is `n`.
abbrev Holds : Option ℕ → Option ℕ → ℕ → ℕ → ℕ → Type 0
Holds holder owner count t n = (holder ≡ some t) × (owner ≡ some t) × (count ≡ n)

-- What the place of a thread says of the lock.
unfoldable pub Fine : Option ℕ → Option ℕ → ℕ → ℕ → Place → Type 0
Fine holder owner count t (idle zero) = (holder ≢ some t) × (owner ≢ some t)
Fine holder owner count t (idle (suc d)) = Holds holder owner count t (suc d)
Fine holder owner count t (reenter d) = Holds holder owner count t d × (0 < d)
Fine holder owner count t (contend d) = (d ≡ 0) × (holder ≢ some t) × (owner ≢ some t)
Fine holder owner count t (taken d) = (d ≡ 0) × (holder ≡ some t) × (owner ≢ some t)
Fine holder owner count t (owned d) = (d ≡ 0) × (holder ≡ some t) × (owner ≡ some t)
Fine holder owner count t (asserted d) = Holds holder owner count t d × (0 < d)
Fine holder owner count t (counted d) = Holds holder owner count t (d - 1) × (0 < d)
Fine holder owner count t (cleared d) = (d ≡ 1) × (holder ≡ some t) × (owner ≢ some t)
Fine holder owner count t (not_owner d) = (d ≡ 0) × (holder ≢ some t) × (owner ≢ some t)
Fine holder owner count t (overflowed d) = Holds holder owner count t d × (0 < d)

-- The owner is in the mutex.
owner_holds : (h o : Option ℕ) (c u : ℕ) (p : Place) → Fine h o c u p → o ≡ some u → h ≡ some u
unfolding Fine
owner_holds h o c u (idle zero) f e = absurd (f.1 e)
owner_holds h o c u (idle (suc d)) f e = f.0
owner_holds h o c u (reenter d) f e = f.0.0
owner_holds h o c u (contend d) f e = absurd (f.2 e)
owner_holds h o c u (taken d) f e = f.1
owner_holds h o c u (owned d) f e = f.1
owner_holds h o c u (asserted d) f e = f.0.0
owner_holds h o c u (counted d) f e = f.0.0
owner_holds h o c u (cleared d) f e = f.1
owner_holds h o c u (not_owner d) f e = absurd (f.2 e)
owner_holds h o c u (overflowed d) f e = f.0.0

idle_holding : {h o : Option ℕ} {c : ℕ} (t n : ℕ) → 0 < n → Holds h o c t n → Fine h o c t (idle n)
unfolding Fine
idle_holding t zero pos f = absurd (omega arith)
idle_holding t (suc n) pos f = f

idle_free : (h o : Option ℕ) (c t n : ℕ) → n ≡ 0 → h ≢ some t → o ≢ some t → Fine h o c t (idle n)
unfolding Fine
idle_free h o c t zero z f g = (f, g)
idle_free h o c t (suc n) z f g = absurd (omega arith)

-- A thread that is not in the mutex does not care who is.
other :
    (h o h' o' : Option ℕ) (c c' u : ℕ) (p : Place)
    → h ≢ some u
    → h' ≢ some u
    → o' ≢ some u
    → Fine h o c u p
    → Fine h' o' c' u p
unfolding Fine
other h o h' o' c c' u (idle zero) n n' m f = (n', m)
other h o h' o' c c' u (idle (suc d)) n n' m f = absurd (n (f.0))
other h o h' o' c c' u (reenter d) n n' m f = absurd (n (f.0.0))
other h o h' o' c c' u (contend d) n n' m f = (f.0, n', m)
other h o h' o' c c' u (taken d) n n' m f = absurd (n (f.1))
other h o h' o' c c' u (owned d) n n' m f = absurd (n (f.1))
other h o h' o' c c' u (asserted d) n n' m f = absurd (n (f.0.0))
other h o h' o' c c' u (counted d) n n' m f = absurd (n (f.0.0))
other h o h' o' c c' u (cleared d) n n' m f = absurd (n (f.1))
other h o h' o' c c' u (not_owner d) n n' m f = (f.0, n', m)
other h o h' o' c c' u (overflowed d) n n' m f = absurd (n (f.0.0))

some_ne : {h : Option ℕ} (t u : ℕ) → t ≢ u → h ≡ some t → h ≢ some u
some_ne t u ne e f = ne (cc)

none_ne : {h : Option ℕ} (u : ℕ) → h ≡ none → h ≢ some u
none_ne u e f = cc

module _ {M : Type 0} (mutex : Mutex M) where
  pub record IsFine (w : World M) : Type 0 where
    pub each : (t : ℕ) → Fine (mutex.holder w.mtx) w.owner w.count t (w.place t)

  -- A move of thread `t` that is in the mutex before or after, so that no other is.
  moved :
      {w w' : World M} (t : ℕ) (p : Place)
      → IsFine w
      → w'.place ≡ put_place w.place t p
      → ((u : ℕ) → t ≢ u → mutex.holder w.mtx ≢ some u)
      → ((u : ℕ) → t ≢ u → mutex.holder w'.mtx ≢ some u)
      → ((u : ℕ) → t ≢ u → w'.owner ≢ some u)
      → Fine (mutex.holder w'.mtx) w'.owner w'.count t p
      → IsFine w'
  moved {w} {w'} t p f e out out' no_owner mine = record {
    each = λ u. elim (ℕ_discrete t u) [
      | yes same ↦
          subst (λ x. Fine (mutex.holder w'.mtx) w'.owner w'.count x (w'.place x)) same
            (subst (Fine (mutex.holder w'.mtx) w'.owner w'.count t) (sym (at_t t)) mine)
      | no ne ↦ subst (Fine (mutex.holder w'.mtx) w'.owner w'.count u) (sym (at_u u ne)) (
          other (mutex.holder w.mtx) w.owner (mutex.holder w'.mtx) w'.owner w.count w'.count u
            (w.place u) (out u ne) (out' u ne) (no_owner u ne) (f.each u))
    ];
  }
    where
      at_t : (x : ℕ) → w'.place t ≡ p
      at_t x = rw e (ground arith)

      at_u : (u : ℕ) → t ≢ u → w'.place u ≡ w.place u
      at_u u ne = rw e (ground arith)

  -- A thread that holds the lock goes on and stays in the mutex.
  still :
      {w w' : World M} (t : ℕ) (p : Place)
      → IsFine w
      → w'.place ≡ put_place w.place t p
      → mutex.holder w.mtx ≡ some t
      → mutex.holder w'.mtx ≡ some t
      → ((u : ℕ) → t ≢ u → w'.owner ≢ some u)
      → Fine (mutex.holder w'.mtx) w'.owner w'.count t p
      → IsFine w'
  still t p f e h h' no_owner mine =
      moved t p f e (λ u ne. some_ne t u ne h) (λ u ne. some_ne t u ne h') no_owner mine

  -- A move that changes nothing but the place of the thread.
  only_place :
      {w : World M} (t : ℕ) (p : Place)
      → IsFine w
      → Fine (mutex.holder w.mtx) w.owner w.count t p
      → IsFine (record w { place = put_place w.place t p })
  only_place {w} t p f mine = record {
    each = λ u. elim (ℕ_discrete t u) [
      | yes same ↦
          subst (λ x. Fine (mutex.holder w.mtx) w.owner w.count x (put_place w.place t p x)) same
            (subst (Fine (mutex.holder w.mtx) w.owner w.count t) (sym (at_t t)) mine)
      | no ne ↦ subst (Fine (mutex.holder w.mtx) w.owner w.count u) (sym (at_u u ne)) (f.each u)
    ];
  }
    where
      at_t : (x : ℕ) → put_place w.place t p t ≡ p
      at_t x = ground arith

      at_u : (u : ℕ) → t ≢ u → put_place w.place t p u ≡ w.place u
      at_u u ne = ground arith

  -- The place of the moving thread says what it may rely on.
  at_place :
      {w : World M} (t : ℕ) (p : Place)
      → IsFine w
      → w.place t ≡ p
      → Fine (mutex.holder w.mtx) w.owner w.count t p
  at_place {w} t p f e = subst (Fine (mutex.holder w.mtx) w.owner w.count t) e (f.each t)

  lock_point-Fine :
      (h o : Option ℕ) (c t d : ℕ) → Fine h o c t (idle d) → Fine h o c t (lock_point o t d)
  unfolding lock_point Fine
  lock_point-Fine h none c t zero f = (refl, f.0, f.1)
  lock_point-Fine h (some x) c t zero f =
      let ne : (x == t) ≡ false = ground (arith, f.1) in rw ne (refl, f.0, f.1)
  lock_point-Fine h none c t (suc d) f = absurd (cc (f.1))
  lock_point-Fine h (some x) c t (suc d) f =
      let same : (x == t) ≡ true = ground (arith, f.1) in rw same (f, omega arith)

  unlock_point-Fine :
      (h o : Option ℕ) (c t d : ℕ) → Fine h o c t (idle d) → Fine h o c t (unlock_point o t d)
  unfolding unlock_point Fine
  unlock_point-Fine h none c t zero f = (refl, f.0, f.1)
  unlock_point-Fine h (some x) c t zero f =
      let ne : (x == t) ≡ false = ground (arith, f.1) in rw ne (refl, f.0, f.1)
  unlock_point-Fine h none c t (suc d) f = absurd (cc (f.1))
  unlock_point-Fine h (some x) c t (suc d) f =
      let same : (x == t) ≡ true = ground (arith, f.1) in rw same (f, omega arith)

  pub Step-IsFine : {w w' : World M} → Step mutex w w' → IsFine w → IsFine w'
  unfolding count_point Fine
  Step-IsFine {w} (load_lock t d at) f =
      only_place t (lock_point w.owner t d) f
        (lock_point-Fine (mutex.holder w.mtx) w.owner w.count t d (at_place t (idle d) f at))
  Step-IsFine {w} (count_up t d at) f =
      let p = at_place t (reenter d) f at in
      let out : (u : ℕ) → t ≢ u → w.owner ≢ some u = λ u ne. some_ne t u ne (p.0.1) in
      elim (Bool-cases (w.count + 1 == 2 ^ 32)) [
        | inl full ↦ rw full (still t (overflowed d) f refl (p.0.0) (p.0.0) out p)
        | inr more ↦ rw more (
            still t (idle (d + 1)) f refl (p.0.0) (p.0.0) out
              (idle_holding t (d + 1) (omega arith) (p.0.0, p.0.1, omega (arith, p.0.2))))
      ]
  Step-IsFine {w} (get_in_line t d at) f = record {
    each = λ u.
        subst (λ h. Fine h w.owner w.count u (w.place u)) (sym (mutex.park_keeps t w.mtx))
          (f.each u);
  }
  Step-IsFine {w} (take t d m at got) f =
      let p = at_place t (contend d) f at in
      moved t (taken d) f refl (λ u ne. none_ne u (mutex.lock_free t w.mtx m got))
        (λ u ne. some_ne t u ne (mutex.lock_holds t w.mtx m got))
        (λ u ne e.
          none_ne u (mutex.lock_free t w.mtx m got)
            (owner_holds (mutex.holder w.mtx) w.owner w.count u (w.place u) (f.each u) e))
        (p.0, mutex.lock_holds t w.mtx m got, p.2)
  Step-IsFine {w} (store_owner t d at) f =
      let p = at_place t (taken d) f at in
      still t (owned d) f refl (p.1) (p.1) (λ u ne. some_ne t u ne refl) (p.0, p.1, refl)
  Step-IsFine {w} (store_count t d at) f =
      let p = at_place t (owned d) f at in
      still t (idle (d + 1)) f refl (p.1) (p.1) (λ u ne. some_ne t u ne (p.2))
        (idle_holding t (d + 1) (omega arith) (p.1, p.2, omega (arith, p.0)))
  Step-IsFine {w} (load_unlock t d at) f =
      only_place t (unlock_point w.owner t d) f
        (unlock_point-Fine (mutex.holder w.mtx) w.owner w.count t d (at_place t (idle d) f at))
  Step-IsFine {w} (count_down t d at pos) f =
      let p = at_place t (asserted d) f at in
      still t (counted d) f refl (p.0.0) (p.0.0) (λ u ne. some_ne t u ne (p.0.1))
        ((p.0.0, p.0.1, omega (arith, p.0.2)), p.1)
  Step-IsFine {w} (keep t d at pos) f =
      let p = at_place t (counted d) f at in
      only_place t (idle (d - 1)) f (idle_holding t (d - 1) (omega (arith, p.0.2)) (p.0))
  Step-IsFine {w} (clear_owner t d at zeroed) f =
      let p = at_place t (counted d) f at in
      still t (cleared d) f refl (p.0.0) (p.0.0) (λ u ne. none_ne u refl)
        (omega (arith, p.0.2, p.1), p.0.0, none_ne t refl)
  Step-IsFine {w} (give t d at) f =
      let p = at_place t (cleared d) f at in
      let free = mutex.unlock_leaves w.mtx in
      moved t (idle (d - 1)) f refl (λ u ne. some_ne t u ne (p.1)) (λ u ne. none_ne u free)
        (λ u ne e.
          some_ne t u ne (p.1)
            (owner_holds (mutex.holder w.mtx) w.owner w.count u (w.place u) (f.each u) e))
        (idle_free (mutex.holder (mutex.unlock w.mtx)) w.owner w.count t (d - 1)
          (omega (arith, p.0)) (none_ne t free) (p.2))

  pub new-IsFine : (m : M) → mutex.holder m ≡ none → IsFine (new m)
  unfolding Fine
  new-IsFine m e = record { each = λ t. (none_ne t e, none_ne t refl) }

  pub Reach-IsFine :
      {m : M} {w : World M} → mutex.holder m ≡ none → Reach mutex (new m) w → IsFine w
  Reach-IsFine {m} e here = new-IsFine m e
  Reach-IsFine e (next r st) = Step-IsFine st (Reach-IsFine e r)
