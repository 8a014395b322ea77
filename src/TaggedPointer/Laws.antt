-- ===== src/TaggedPointer/Laws.antt =====
-- A tagged pointer is a pointer and three bits, each changed without the others.
use libimmixcons.Base.{
  ℕ, zero, suc, ◌*◌, ◌%◌, ◌^◌, ◌<◌, ◌≡◌, refl, ◌≢◌, Bool, true, false, ◌==◌, arith, if◌then◌else◌,
  bit_and, bit_not, ℕ_discrete, dec_lt,
}
use libimmixcons.Base.{
  bit, bit-lt, bit-bit_and, bit-bit_or, bit-bit_not, bit-pow_self, bit-pow_ne, bit_or-lt,
  bit_and-le, bit_and-pow, bit-zero, pow_mono_lt, bit_ext, bit-seven, bit-mul_eight,
}
use native.Mathlib.Nat.{one-le-pow}
use libimmixcons.TaggedPointer.{
  TaggedPointer, bit_is_set, with_bit, without_bit, untagged, set_bit_x, clear_bit, set_bit,
  from_bool, untag_mask,
}

pub bit_is_set_lem : (w i : ℕ) → bit_is_set w i ≡ (bit w i == 1)
unfolding bit_is_set
bit_is_set_lem w i = picked (bit w i) (bit-lt w i) (bit_and-pow w i)
  where
    picked :
        (d : ℕ) → d < 2 → bit_and w (2 ^ i) ≡ d * 2 ^ i → (bit_and w (2 ^ i) == 2 ^ i) ≡ (d == 1)
    picked zero h e = ground (arith, one-le-pow i 2)
    picked (suc zero) h e = ground arith
    picked (suc (suc d)) h e = absurd (omega arith)

-- A word changed at digit `i` to `d`.
pub record Retagged (w w' i d : ℕ) : Type 0 where
  pub in_word : w' < 2 ^ 64
  pub at : bit w' i ≡ d
  pub rest : (j : ℕ) → j < 64 → i ≢ j → bit w' j ≡ bit w j

mask_fits : (i : ℕ) → i < 64 → 2 ^ i < 2 ^ 64
mask_fits i h = pow_mono_lt i 64 h

pub with_bit-Retagged : (w i : ℕ) → w < 2 ^ 64 → i < 64 → Retagged w (with_bit w i) i 1
unfolding with_bit
with_bit-Retagged w i h k = record {
  in_word = bit_or-lt w (2 ^ i) h (mask_fits i k);
  at = omega (arith, bit-bit_or w (2 ^ i) i, bit-pow_self i, bit-lt w i);
  rest = λ j p ne. omega (arith, bit-bit_or w (2 ^ i) j, bit-pow_ne i j ne);
}

pub without_bit-Retagged : (w i : ℕ) → w < 2 ^ 64 → i < 64 → Retagged w (without_bit w i) i 0
unfolding without_bit
without_bit-Retagged w i h k = record {
  in_word = omega (arith, bit_and-le w (bit_not (2 ^ i)));
  at = omega (
    arith,
    bit-bit_and w (bit_not (2 ^ i)) i,
    bit-bit_not (2 ^ i) i (mask_fits i k) k,
    bit-pow_self i,
  );
  rest = λ j p ne. omega (
    arith,
    bit-bit_and w (bit_not (2 ^ i)) j,
    bit-bit_not (2 ^ i) j (mask_fits i k) p,
    bit-pow_ne i j ne,
    bit-lt w j,
  );
}

-- `(x as u64) << i` has the one digit `x`.
shifted_bool :
    (x : Bool) (i : ℕ)
    → i < 64
    → (from_bool x * 2 ^ i < 2 ^ 64)
      × (bit (from_bool x * 2 ^ i) i ≡ from_bool x)
      × ((j : ℕ) → i ≢ j → bit (from_bool x * 2 ^ i) j ≡ 0)
shifted_bool true i h =
    let e : 1 * 2 ^ i ≡ 2 ^ i = omega arith in
    (rw e (mask_fits i h), rw e (bit-pow_self i), λ j ne. rw e (bit-pow_ne i j ne))
shifted_bool false i h =
    let e : 0 * 2 ^ i ≡ 0 = omega arith in
    (rw e (omega arith), rw e (bit-zero i), λ j ne. rw e (bit-zero j))

pub set_bit_x-Retagged :
    (p : TaggedPointer) (x : Bool) (i : ℕ)
    → p.raw < 2 ^ 64
    → i < 64
    → Retagged p.raw (set_bit_x p x i).raw i (from_bool x)
unfolding set_bit_x without_bit
set_bit_x-Retagged p x i h k =
    let c : Retagged p.raw (bit_and p.raw (bit_not (2 ^ i))) i 0 =
      without_bit-Retagged p.raw i h k in
    let m = shifted_bool x i k in
    record {
      in_word = bit_or-lt _ _ c.in_word m.0;
      at =
          omega (
            arith,
            bit-bit_or (bit_and p.raw (bit_not (2 ^ i))) (from_bool x * 2 ^ i) i,
            c.at,
            m.1,
          );
      rest = λ j q ne. omega (
        arith,
        bit-bit_or (bit_and p.raw (bit_not (2 ^ i))) (from_bool x * 2 ^ i) j,
        c.rest j q ne,
        m.2 j ne,
      );
    }

-- The tag bits are 0, 1 and 2; the rest of the word is the pointer.
pub untagged_same :
    {w w' i d : ℕ} → w < 2 ^ 64 → i < 3 → Retagged w w' i d → untagged w' ≡ untagged w
unfolding untagged
untagged_same {w} {w'} {i} h k r =
    bit_ext _ _ (omega (arith, bit_and-le w' untag_mask, r.in_word))
      (omega (arith, bit_and-le w untag_mask))
      λ j p. elim (dec_lt j 3) [
        | yes tag ↦ ground (
          arith,
          bit-bit_and w untag_mask j,
          bit-bit_and w' untag_mask j,
          bit-bit_not 7 j,
          bit-seven j,
        )
        | no address ↦
            ground (arith, bit-bit_and w untag_mask j, bit-bit_and w' untag_mask j, r.rest j)
      ]

-- A multiple of 8 is its own untagged word, and has no tag.
pub untagged_aligned : (w : ℕ) → w < 2 ^ 64 → w % 8 ≡ 0 → untagged w ≡ w
unfolding untagged
untagged_aligned w h e = bit_ext _ _ (omega (arith, bit_and-le w untag_mask)) h λ j p.
    elim (dec_lt j 3) [
      | yes tag ↦
          ground
            (arith, bit-bit_and w untag_mask j, bit-bit_not 7 j, bit-seven j, bit-mul_eight w j)
      | no address ↦
          ground (arith, bit-bit_and w untag_mask j, bit-bit_not 7 j, bit-seven j, bit-lt w j)
    ]

-- Setting, clearing or assigning a bit does exactly that: the bit reads as set, cleared or assigned,
-- every other bit of the word reads as before, and the result is a 64-bit word.
pub bit_updates :
    (p : TaggedPointer) (i : ℕ) (x : Bool)
    → p.raw < 2 ^ 64
    → i < 64
    → ((j : ℕ)
        → j < 64
        → (bit_is_set (set_bit p i).raw j ≡ (if i == j then true else bit_is_set p.raw j))
          × (bit_is_set (clear_bit p i).raw j ≡ (if i == j then false else bit_is_set p.raw j))
          × (bit_is_set (set_bit_x p x i).raw j ≡ (if i == j then x else bit_is_set p.raw j)))
      × ((set_bit p i).raw < 2 ^ 64)
      × ((clear_bit p i).raw < 2 ^ 64)
      × ((set_bit_x p x i).raw < 2 ^ 64)
unfolding set_bit clear_bit
bit_updates p i x h k =
    let a = with_bit-Retagged p.raw i h k in
    let b = without_bit-Retagged p.raw i h k in
    let c = set_bit_x-Retagged p x i h k in
    (
      λ j q. (reads a true refl j q, reads b false refl j q, reads c x refl j q),
      a.in_word,
      b.in_word,
      c.in_word,
    )
  where
    reads :
        {w' d : ℕ}
        → Retagged p.raw w' i d
        → (y : Bool) → d ≡ from_bool y
        → (j : ℕ) → j < 64
        → bit_is_set w' j ≡ (if i == j then y else bit_is_set p.raw j)
    reads {w'} r y e j q = elim (ℕ_discrete i j) [
      | yes same ↦ rw (bit_is_set_lem w' j, bit_is_set_lem p.raw j) (rw (← same, r.at, e) (digit y))
      | no ne ↦ rw (bit_is_set_lem w' j, bit_is_set_lem p.raw j, r.rest j q ne) (ground arith)
    ]
      where
        digit : (y : Bool) → (from_bool y == 1) ≡ (if i == i then y else (bit p.raw i == 1))
        digit true = ground arith
        digit false = ground arith
