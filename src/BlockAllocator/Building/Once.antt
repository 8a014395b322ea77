-- ===== src/BlockAllocator/Building/Once.antt =====
-- No two threads are given the same block.
use libimmixcons.Base.{
  ℕ, ◌+◌, ◌%◌, ◌≤◌, ◌<◌, ◌≡◌, ◌≢◌, sym, ◌∙◌, subst, true, none, some, arith, ℕ_discrete, Bool-cases,
  inl, inr, ◌==◌, ltb,
}
use libimmixcons.BlockAllocator.Building.{
  Stage, trying, returned, panicked, Building, put_stage, start, after_read, after_exchange, Step,
  load, exchange, fail, Reach, here, next,
}

-- What holds of a thread's point, with `data_next` at `now`.
record Good (first bound now : ℕ) (p : Stage) : Type 0 where
  seen : (old : ℕ) → p ≡ trying old → old + 32768 ≤ bound
  got : (b : ℕ) → p ≡ returned (some b) → (first ≤ b) × (b + 32768 ≤ now) × (b % 32768 ≡ 0)
  full : p ≡ returned none → bound < now + 32768
  fine : p ≢ panicked

abbrev Apart : Stage → Stage → Type 0
Apart p q = (b : ℕ) → p ≡ returned (some b) → q ≢ returned (some b)

record IsBuilding (first bound : ℕ) (s : Building) : Type 0 where
  low : first ≤ s.data_next
  high : s.data_next ≤ bound
  aligned : s.data_next % 32768 ≡ 0
  points : (i : ℕ) → Good first bound s.data_next (s.point i)
  apart : (i j : ℕ) → i ≢ j → Apart (s.point i) (s.point j)

trying-injective : {a b : ℕ} → trying a ≡ trying b → a ≡ b
trying-injective e = cc

returned-injective : {a b : ℕ} → returned (some a) ≡ returned (some b) → a ≡ b
returned-injective e = cc

Good-after_read : (first bound now : ℕ) → Good first bound now (after_read bound now)
unfolding after_read
Good-after_read first bound now = elim (Bool-cases (ltb bound (now + 32768))) [
  | inl over ↦ rw over (record {
    seen = λ old e. absurd cc;
    got = λ b e. absurd cc;
    full = λ e. ground (arith, over);
    fine = λ e. cc;
  })
  | inr room ↦ rw room (record {
    seen = λ old e. ground (arith, room, trying-injective e);
    got = λ b e. absurd cc;
    full = λ e. absurd cc;
    fine = λ e. cc;
  })
]

Good-later :
    (first bound now later : ℕ) (p : Stage)
    → now ≤ later
    → Good first bound now p
    → Good first bound later p
Good-later first bound now later p le g = record {
  seen = g.seen;
  got = λ b e. let (a, c, d) = g.got b e in (a, omega (arith, c), d);
  full = λ e. omega (arith, g.full e);
  fine = g.fine;
}

Good-after_exchange :
    (first bound old : ℕ)
    → first ≤ old
    → old % 32768 ≡ 0
    → Good first bound (old + 32768) (after_exchange old)
unfolding after_exchange
Good-after_exchange first bound old low aligned =
    let even : (old % 32768 == 0) ≡ true = ground arith in
    rw even (record {
      seen = λ k e. absurd cc;
      got = λ b e.
          let same = returned-injective e in
          (omega (arith, same), omega (arith, same), subst (λ t. t % 32768 ≡ 0) same aligned);
      full = λ e. absurd cc;
      fine = λ e. cc;
    })

after_exchange-returned : (old b : ℕ) → after_exchange old ≡ returned (some b) → old ≡ b
unfolding after_exchange
after_exchange-returned old b = elim (Bool-cases (old % 32768 == 0)) [
  | inl even ↦ rw even (λ e. returned-injective e)
  | inr odd ↦ rw odd (λ e. absurd cc)
]

put_stage_self : (f : ℕ → Stage) (i : ℕ) (p : Stage) → put_stage f i p i ≡ p
put_stage_self f i p = ground arith

put_stage_ne : (f : ℕ → Stage) (i j : ℕ) (p : Stage) → i ≢ j → put_stage f i p j ≡ f j
put_stage_ne f i j p ne = ground arith

put_stage_all :
    (P : Stage → Type 0) (f : ℕ → Stage) (i : ℕ) (p : Stage)
    → P p
    → ((j : ℕ) → P (f j))
    → (j : ℕ) → P (put_stage f i p j)
put_stage_all P f i p at all j = elim (ℕ_discrete i j) [
  | yes e ↦ subst (λ k. P (put_stage f i p k)) e (rw (put_stage_self f i p) at)
  | no ne ↦ rw (put_stage_ne f i j p ne) (all j)
]

Apart-back : (p q : Stage) → Apart p q → Apart q p
Apart-back p q h b e k = h b k e

-- After a move, the threads are still apart if the new point is apart from the others.
put_stage-Apart :
    (f : ℕ → Stage) (i : ℕ) (p : Stage)
    → ((k : ℕ) → k ≢ i → Apart p (f k))
    → ((j k : ℕ) → j ≢ k → Apart (f j) (f k))
    → (j k : ℕ) → j ≢ k
    → Apart (put_stage f i p j) (put_stage f i p k)
put_stage-Apart f i p new old j k ne = elim (ℕ_discrete i j) [
  | yes e ↦
      subst (λ t. Apart (put_stage f i p t) (put_stage f i p k)) e
        (rw (put_stage_self f i p, put_stage_ne f i k p (λ h. ne (sym e ∙ h)))
          (new k (λ h. ne (sym (h ∙ e)))))
  | no other ↦ elim (ℕ_discrete i k) [
    | yes e ↦
        subst (λ t. Apart (put_stage f i p j) (put_stage f i p t)) e
          (rw (put_stage_self f i p, put_stage_ne f i j p other)
            (Apart-back p (f j) (new j (λ h. other (sym h)))))
    | no third ↦ rw (put_stage_ne f i j p other, put_stage_ne f i k p third) (old j k ne)
  ]
]

-- A point that returns no block is apart from all.
after_read-Apart : (bound now : ℕ) (q : Stage) → Apart (after_read bound now) q
unfolding after_read
after_read-Apart bound now q b e = elim (Bool-cases (ltb bound (now + 32768))) [
  | inl over ↦ absurd cc
  | inr room ↦ absurd cc
]

module _ {first bound : ℕ} where
  reads-IsBuilding :
      (s : Building) (i : ℕ)
      → IsBuilding first bound s
      → IsBuilding first bound
          (record s { point = put_stage s.point i (after_read bound s.data_next) })
  reads-IsBuilding s i v = record {
    low = v.low;
    high = v.high;
    aligned = v.aligned;
    points =
        put_stage_all (Good first bound s.data_next) s.point i (after_read bound s.data_next)
          (Good-after_read first bound s.data_next) v.points;
    apart =
        put_stage-Apart s.point i (after_read bound s.data_next)
          (λ k ne. after_read-Apart bound s.data_next (s.point k)) v.apart;
  }

  exchange-IsBuilding :
      (s : Building) (i old : ℕ)
      → IsBuilding first bound s
      → s.point i ≡ trying old
      → s.data_next ≡ old
      → IsBuilding first bound
          (record { data_next = old + 32768; point = put_stage s.point i (after_exchange old) })
  unfolding after_exchange
  exchange-IsBuilding s i old v at same =
      let good =
        Good-after_exchange first bound old (omega (arith, v.low)) (ground (arith, v.aligned)) in
      record {
        low = omega (arith, v.low);
        high = (v.points i).seen old at;
        aligned = ground (arith, v.aligned);
        points =
            put_stage_all (Good first bound (old + 32768)) s.point i (after_exchange old) good (λ k.
              Good-later first bound s.data_next (old + 32768) (s.point k) (omega arith)
                (v.points k));
        apart =
            put_stage-Apart s.point i (after_exchange old)
              (λ k ne b e h. fresh b (let (low, room, even) = (v.points k).got b h in room) e)
              v.apart;
      }
    where
      fresh : (b : ℕ) → b + 32768 ≤ s.data_next → after_exchange old ≢ returned (some b)
      fresh b le e = absurd (omega (arith, after_exchange-returned old b e))

  step-IsBuilding :
      {s t : Building} → IsBuilding first bound s → Step bound s t → IsBuilding first bound t
  step-IsBuilding {s} v (load i at) = reads-IsBuilding s i v
  step-IsBuilding {s} v (exchange i old at same) = exchange-IsBuilding s i old v at same
  step-IsBuilding {s} v (fail i old at) = reads-IsBuilding s i v

  reach-IsBuilding :
      {s t : Building} → IsBuilding first bound s → Reach bound s t → IsBuilding first bound t
  reach-IsBuilding v here = v
  reach-IsBuilding v (next r step) = step-IsBuilding (reach-IsBuilding v r) step

start-IsBuilding :
    (first bound : ℕ) → first ≤ bound → first % 32768 ≡ 0 → IsBuilding first bound (start first)
start-IsBuilding first bound le even = record {
  low = omega arith;
  high = le;
  aligned = even;
  points = λ i. record {
    seen = λ old e. absurd cc;
    got = λ b e. absurd cc;
    full = λ e. absurd cc;
    fine = λ e. cc;
  };
  apart = λ i j ne b e h. cc;
}

-- Whatever the order in which threads run `build_block` from a cursor on a block's boundary, and however
-- often an exchange fails, each block that a thread is given lies on a boundary between the first cursor
-- and the cursor, which stays within the bound; two threads are never given the same block. A thread is
-- given none only when no room for a block is left, and the assertion never fails.
pub build_block_once :
    (first bound : ℕ) (s : Building)
    → first ≤ bound
    → first % 32768 ≡ 0
    → Reach bound (start first) s
    → (s.data_next ≤ bound)
      × ((i b : ℕ)
          → s.point i ≡ returned (some b)
          → (first ≤ b) × (b + 32768 ≤ s.data_next) × (b % 32768 ≡ 0))
      × ((i j b : ℕ) → s.point i ≡ returned (some b) → s.point j ≡ returned (some b) → i ≡ j)
      × ((i : ℕ) → s.point i ≡ returned none → bound < s.data_next + 32768)
      × ((i : ℕ) → s.point i ≢ panicked)
build_block_once first bound s le even run =
    let v = reach-IsBuilding (start-IsBuilding first bound le even) run in
    (
      v.high,
      λ i b. (v.points i).got b,
      λ i j b e h. elim (ℕ_discrete i j) [
        | yes same ↦ same
        | no ne ↦ absurd (v.apart i j ne b e h)
      ],
      λ i. (v.points i).full,
      λ i. (v.points i).fine,
    )
