-- ===== src/SpaceBitmap/Atomic/Progress.antt =====
-- A thread that runs alone, with exchanges that fail only when the word has changed, returns.
use libimmixcons.Base.{
  ℕ, suc, ◌≡◌, ◌≢◌, refl, ◌∙◌, Bool, true, false, not, ◌==◌, arith, bit_and, Bool-cases, inl, inr,
  ℕ_discrete,
}
use libimmixcons.SpaceBitmap.{offset_to_mask}
use libimmixcons.SpaceBitmap.Atomic.{
  Point, at_load, loaded, returned, Marking, put_point, entry, after_load, Step, load, exchange,
  fail,
}

-- Steps of one thread, at most `n` of them.
pub data Alone (object : ℕ → ℕ) (i : ℕ) : ℕ → Marking → Marking → Type 0 where
  stop : {n : ℕ} {s : Marking} → Alone object i n s s
  step :
      {n : ℕ} {s t u : Marking}
      → Step object s t
      → ((j : ℕ) → i ≢ j → t.point j ≡ s.point j)
      → Alone object i n t u
      → Alone object i (suc n) s u

abbrev Returns : (ℕ → ℕ) → ℕ → ℕ → Marking → Type 0
Returns object i n s = (t : Marking) × (b : Bool) × Alone object i n s t × (t.point i ≡ returned b)

-- A move of thread `i` leaves the others where they are.
others : (f : ℕ → Point) (i : ℕ) (p : Point) (j : ℕ) → i ≢ j → put_point f i p j ≡ f j
others f i p j ne = ground arith

here : (f : ℕ → Point) (i : ℕ) (p : Point) → put_point f i p i ≡ p
here f i p = ground arith

module _ (object : ℕ → ℕ) (i : ℕ) where
  exchange-Returns :
      (s : Marking) (w : ℕ)
      → s.point i ≡ loaded w
      → entry s.bitmap (object i) ≡ w
      → Returns object i 1 s
  exchange-Returns s w at same = (
    _,
    false,
    step (exchange i w at same) (others s.point i (returned false)) stop,
    here s.point i (returned false),
  )

  load-Returns : (s : Marking) → s.point i ≡ at_load → Returns object i 2 s
  unfolding after_load
  load-Returns s at =
      let word = entry s.bitmap (object i) in
      let p = after_load (object i) word in
      let s' : Marking = record s { point = put_point s.point i p } in
      elim (Bool-cases (not (bit_and word (offset_to_mask (object i)) == 0))) [
        | inl set ↦
            (s', true, step (load i at) (others s.point i p) stop, here s.point i p ∙ rw set)
        | inr unset ↦
            (let (t, b, run, end) = exchange-Returns s' word (here s.point i p ∙ rw unset) refl in
              (t, b, step (load i at) (others s.point i p) run, end))
      ]

  Alone-suc : {n : ℕ} {s t : Marking} → Alone object i n s t → Alone object i (suc n) s t
  Alone-suc stop = stop
  Alone-suc (step st same run) = step st same (Alone-suc run)

  point-Returns : (s : Marking) (p : Point) → s.point i ≡ p → Returns object i 3 s
  point-Returns s at_load at =
      let (t, b, run, end) = load-Returns s at in (t, b, Alone-suc run, end)
  point-Returns s (loaded w) at =
      let failed : Marking = record s { point = put_point s.point i at_load } in
      elim (ℕ_discrete (entry s.bitmap (object i)) w) [
        | yes same ↦
            (let (t, b, run, end) = exchange-Returns s w at same in
              (t, b, Alone-suc (Alone-suc run), end))
        | no changed ↦
            (let (t, b, run, end) = load-Returns failed (here s.point i at_load) in
              (t, b, step (fail i w at) (others s.point i at_load) run, end))
      ]
  point-Returns s (returned b) at = (s, b, stop, at)

-- From any state, a thread that takes steps alone can return after at most three of them: the
-- exchange of a word that has not changed may succeed, and a word loaded afresh is not changed.
pub atomic_test_and_set-Returns :
    (object : ℕ → ℕ) (i : ℕ) (s : Marking)
    → (t : Marking) × (b : Bool) × Alone object i 3 s t × (t.point i ≡ returned b)
atomic_test_and_set-Returns object i s = point-Returns object i s (s.point i) refl
