-- ===== src/Block/Holes.antt =====
-- The holes of a block: what `scan_block` is to find.
use libimmixcons.Base.{
  ℕ, ◌+◌, ◌-◌, ◌*◌, ◌≤◌, ◌<◌, ◌≡◌, Bool, true, false, Option, none, some, arith, inl, inr, ◌⊎◌,
  dec_lt,
}

-- The lines strictly between `k` and `top` hold no two neighbours that are both free.
abbrev pub NoPair : (ℕ → Bool) → ℕ → ℕ → Type 0
NoPair m k top = (j : ℕ) → k < j → j < top → (m j ≡ true) ⊎ (m (j + 1) ≡ true)

-- The first hole past line `k`: lines `low` to `high - 1` and the line before them are free, line
-- `high` is marked or past the end, and nothing before is a pair of free lines.
pub record IsHole (m : ℕ → Bool) (k low high : ℕ) : Type 0 where
  pub after : k + 2 ≤ low
  pub nonempty : low < high
  pub inside : high ≤ 256
  pub starts : low < 255
  pub free : (j : ℕ) → low ≤ j + 1 → j < high → m j ≡ false
  pub maximal : (high ≡ 256) ⊎ (m high ≡ true)
  pub first : NoPair m k (low - 1)

pub data Scanned (m : ℕ → Bool) (k : ℕ) (r : Option (ℕ × ℕ)) : Type 0 where
  full : r ≡ none → NoPair m k 254 → Scanned m k r
  hole : (low high : ℕ) → r ≡ some (low * 128, high * 128 - 1) → IsHole m k low high → Scanned m k r

-- A scan from a later line is one from `k`, if all lines up to there are marked or single.
pub Scanned-back :
    {m : ℕ → Bool} {k i : ℕ} {r : Option (ℕ × ℕ)}
    → k < i
    → ((j : ℕ) → k + 1 ≤ j → j < i → m j ≡ true)
    → (254 ≤ i) ⊎ (m (i + 1) ≡ true)
    → Scanned m i r
    → Scanned m k r
Scanned-back {m} {k} {i} h before at (full e none_after) =
    full e (back 254 (omega arith) none_after)
  where
    back : (top : ℕ) → top ≤ 254 → NoPair m i top → NoPair m k top
    back top le rest j p q = elim (dec_lt i j) [
      | yes past ↦ rest j past q
      | no not_past ↦ elim (dec_lt j i) [
        | yes earlier ↦ inl (before j (omega arith) earlier)
        | no same ↦
            let e : i ≡ j = omega arith in
            elim at [ inl far ↦ absurd (omega arith) | inr next ↦ inr (rw (← e) next) ]
      ]
    ]
Scanned-back {m} {k} {i} h before at (hole low high e found) = hole low high e (record {
  after = omega arith;
  nonempty = found.nonempty;
  inside = found.inside;
  starts = found.starts;
  free = found.free;
  maximal = found.maximal;
  first = λ j p q. elim (dec_lt i j) [
    | yes past ↦ found.first j past q
    | no not_past ↦ elim (dec_lt j i) [
      | yes earlier ↦ inl (before j (omega arith) earlier)
      | no same ↦
          let e : i ≡ j = omega arith in
          elim at [ inl far ↦ absurd (omega arith) | inr next ↦ inr (rw (← e) next) ]
    ]
  ];
})
