-- ===== src/SpaceBitmap/Atomic/Once.antt =====
-- Who is told that an object was not marked before, whatever the order of the steps.
use libimmixcons.Base.{
  ℕ, ◌/◌, ◌%◌, ◌^◌, ◌<◌, ◌≡◌, ◌≢◌, refl, sym, ap, ◌∙◌, subst, Bool, true, false, ◌⊎◌, ◌↔◌, inl, inr,
  arith, bit, bit-lt, bit_test, bit_or, get_or, length, ℕ_discrete, Bool-cases,
}
use libimmixcons.SpaceBitmap.{SpaceBitmap, offset_to_index, offset_to_mask}
use libimmixcons.SpaceBitmap.Granules.{
  IsBitmap, marked, Covers, Changed, with_word, set_bit-Changed,
}
use libimmixcons.SpaceBitmap.Atomic.{
  Point, at_load, loaded, returned, Marking, put_point, entry, with_entry, after_load, marked_word,
  start, Step, load, exchange, fail, Reach, here, next,
}

-- The granule of an object.
abbrev pub granule_of : ℕ → ℕ
granule_of off = off / 16

abbrev pub Winner : (ℕ → ℕ) → Marking → ℕ → Type 0
Winner object s g = (i : ℕ) × (s.point i ≡ returned false) × (granule_of (object i) ≡ g)

-- `m` is the bitmap at the start.
pub record Inv (object : ℕ → ℕ) (m : SpaceBitmap) (s : Marking) : Type 0 where
  pub valid : IsBitmap s.bitmap
  pub same_length : length s.bitmap.words ≡ length m.words
  pub kept : (g : ℕ) → marked m g ≡ true → marked s.bitmap g ≡ true
  pub found : (g : ℕ) → marked s.bitmap g ≡ true → (marked m g ≡ true) ⊎ Winner object s g
  pub returned_marked :
      (i : ℕ) (b : Bool) → s.point i ≡ returned b → marked s.bitmap (granule_of (object i)) ≡ true
  pub winner_fresh : (i : ℕ) → s.point i ≡ returned false → marked m (granule_of (object i)) ≡ false
  pub loaded_zero : (i w : ℕ) → s.point i ≡ loaded w → bit w (granule_of (object i) % 64) ≡ 0
  pub one_winner :
      (i j : ℕ)
      → s.point i ≡ returned false
      → s.point j ≡ returned false
      → granule_of (object i) ≡ granule_of (object j)
      → i ≡ j

put_point_self : (f : ℕ → Point) (i : ℕ) (p : Point) → put_point f i p i ≡ p
put_point_self f i p = ground arith

put_point_ne : (f : ℕ → Point) (i j : ℕ) (p : Point) → i ≢ j → put_point f i p j ≡ f j
put_point_ne f i j p ne = ground arith

-- A property of a point and its thread holds after a move if it holds of the new point.
put_point_all {ℓ} :
    (P : ℕ → Point → Type ℓ) (f : ℕ → Point) (i : ℕ) (p : Point)
    → P i p
    → ((j : ℕ) → P j (f j))
    → (j : ℕ) → P j (put_point f i p j)
put_point_all P f i p at all j = elim (ℕ_discrete i j) [
  | yes e ↦ subst (λ k. P k (put_point f i p k)) e (rw (put_point_self f i p) at)
  | no ne ↦ rw (put_point_ne f i j p ne) (all j)
]

-- Winners stay winners, and a move that is no return of a winner makes none.
winner_before :
    (f : ℕ → Point) (i k : ℕ) (p : Point)
    → p ≢ returned false
    → put_point f i p k ≡ returned false
    → f k ≡ returned false
winner_before f i k p is h = elim (ℕ_discrete i k) [
  | yes e ↦
      absurd (
        is (sym (put_point_self f i p) ∙ subst (λ x. put_point f i p x ≡ returned false) (sym e) h))
  | no ne ↦ sym (put_point_ne f i k p ne) ∙ h
]

winner_after :
    (f : ℕ → Point) (i k : ℕ) (p : Point)
    → f i ≢ returned false
    → f k ≡ returned false
    → put_point f i p k ≡ returned false
winner_after f i k p was h = elim (ℕ_discrete i k) [
  | yes e ↦ absurd (was (rw e h))
  | no ne ↦ put_point_ne f i k p ne ∙ h
]

module _ {object : ℕ → ℕ} {m : SpaceBitmap} (covers : (i : ℕ) → Covers m (object i)) where
  -- A move that leaves the bitmap alone and is not the return of a winner.
  moved-Inv :
      {s : Marking} (inv : Inv object m s) (i : ℕ) (p : Point)
      → s.point i ≢ returned false
      → p ≢ returned false
      → ((b : Bool) → p ≡ returned b → marked s.bitmap (granule_of (object i)) ≡ true)
      → ((w : ℕ) → p ≡ loaded w → bit w (granule_of (object i) % 64) ≡ 0)
      → Inv object m (record s { point = put_point s.point i p })
  moved-Inv {s} inv i p was is returned_mark loaded_bit = record {
    valid = inv.valid;
    same_length = inv.same_length;
    kept = inv.kept;
    found = λ g h. elim (inv.found g h) [
      | inl old ↦ inl old
      | inr (k, e, f) ↦ inr (k, winner_after s.point i k p was e, f)
    ];
    returned_marked = λ j b.
        put_point_all (λ k q. q ≡ returned b → marked s.bitmap (granule_of (object k)) ≡ true)
          s.point i p (returned_mark b) (λ k. inv.returned_marked k b) j;
    winner_fresh = λ j h. inv.winner_fresh j (winner_before s.point i j p is h);
    loaded_zero = λ j w.
        put_point_all (λ k q. q ≡ loaded w → bit w (granule_of (object k) % 64) ≡ 0) s.point i p
          (loaded_bit w) (λ k. inv.loaded_zero k w) j;
    one_winner = λ j k h l.
        inv.one_winner j k (winner_before s.point i j p is h) (winner_before s.point i k p is l);
  }

  -- The exchange: the bit of the object is set, and its thread is the winner.
  exchanged-Inv :
      {s : Marking} (inv : Inv object m s) (i w : ℕ)
      → s.point i ≡ loaded w
      → entry s.bitmap (object i) ≡ w
      → Inv object m (record {
        bitmap = with_entry s.bitmap (object i) (marked_word (object i) w);
        point = put_point s.point i (returned false);
      })
  unfolding entry with_entry marked_word offset_to_index offset_to_mask
  exchanged-Inv {s} inv i w at same =
      let g = granule_of (object i) in
      let inside : g / 64 < length s.bitmap.words = omega (arith, inv.same_length, covers i) in
      let changed =
        subst (λ x. Changed s.bitmap (with_word s.bitmap g (bit_or x (2 ^ (g % 64)))) g true) same
          (set_bit-Changed inv.valid g inside) in
      let was_clear : marked s.bitmap g ≡ false = ground (arith, same, inv.loaded_zero i w at) in
      let no_winner : (k : ℕ) → s.point k ≡ returned false → granule_of (object k) ≢ g = λ k h e.
        absurd (ground (arith, was_clear, ap (marked s.bitmap) e, inv.returned_marked k false h)) in
      let s' : Marking = record {
        bitmap = with_word s.bitmap g (bit_or w (2 ^ (g % 64)));
        point = put_point s.point i (returned false);
      } in
      record {
        valid = changed.valid;
        same_length = changed.same_length ∙ inv.same_length;
        kept = λ j h. ground (arith, changed.granules j, inv.kept j h);
        found = λ j h. elim (ℕ_discrete g j) [
          | yes e ↦ inr (i, put_point_self s.point i (returned false), e)
          | no ne ↦ elim (inv.found j (ground (arith, changed.granules j, ne, h))) [
            | inl old ↦ inl old
            | inr (k, e, f) ↦ inr (k, winner_after s.point i k (returned false) (λ q. cc) e, f)
          ]
        ];
        returned_marked = λ j b.
            put_point_all (λ k q. q ≡ returned b → marked s'.bitmap (granule_of (object k)) ≡ true)
              s.point i (returned false) (λ q. ground (arith, changed.granules g))
              (λ k q.
                ground (arith, changed.granules (granule_of (object k)), inv.returned_marked k b q))
              j;
        winner_fresh =
            put_point_all (λ k q. q ≡ returned false → marked m (granule_of (object k)) ≡ false)
              s.point i (returned false)
              (λ q. elim (Bool-cases (marked m g)) [ inl t ↦ cc (inv.kept g t) | inr f ↦ f ])
              inv.winner_fresh;
        loaded_zero = λ j x.
            put_point_all (λ k q. q ≡ loaded x → bit x (granule_of (object k) % 64) ≡ 0) s.point i
              (returned false) (λ q. cc) (λ k. inv.loaded_zero k x) j;
        one_winner = λ j k hj hk e. elim (ℕ_discrete i j) [
          | yes p ↦ elim (ℕ_discrete i k) [
            | yes q ↦ sym p ∙ q
            | no ne ↦ absurd (no_winner k (sym (put_point_ne s.point i k _ ne) ∙ hk) (rw p (sym e)))
          ]
          | no ne ↦ elim (ℕ_discrete i k) [
            | yes q ↦ absurd (no_winner j (sym (put_point_ne s.point i j _ ne) ∙ hj) (rw q e))
            | no ne' ↦
                inv.one_winner j k (sym (put_point_ne s.point i j _ ne) ∙ hj)
                  (sym (put_point_ne s.point i k _ ne') ∙ hk) e
          ]
        ];
      }

  Step-Inv : {s t : Marking} → Step object s t → Inv object m s → Inv object m t
  unfolding after_load entry offset_to_index offset_to_mask
  Step-Inv {s} (load i at) inv =
      let g = granule_of (object i) in
      let w = get_or s.bitmap.words (g / 64) 0 in
      elim (Bool-cases (marked s.bitmap g)) [
        | inl set ↦
            rw (bit_test w (g % 64), set)
              (moved-Inv inv i (returned true) (λ e. cc) (λ e. cc) (λ b e. set) (λ x e. cc))
        | inr unset ↦
            rw (bit_test w (g % 64), unset)
              (moved-Inv inv i (loaded w) (λ e. cc) (λ e. cc) (λ b e. cc)
                (λ x e.
                  let same : w ≡ x = cc in rw (← same) (ground (arith, unset, bit-lt w (g % 64)))))
      ]
  Step-Inv (exchange i w at same) inv = exchanged-Inv inv i w at same
  Step-Inv (fail i w at) inv = moved-Inv inv i at_load (λ e. cc) (λ e. cc) (λ b e. cc) (λ x e. cc)

  start-Inv : IsBitmap m → Inv object m (start m)
  start-Inv v = record {
    valid = v;
    same_length = refl;
    kept = λ g h. h;
    found = λ g h. inl h;
    returned_marked = λ i b h. cc;
    winner_fresh = λ i h. cc;
    loaded_zero = λ i w h. cc;
    one_winner = λ i j h k e. cc;
  }

  Reach-Inv : {s : Marking} → IsBitmap m → Reach object (start m) s → Inv object m s
  Reach-Inv v here = start-Inv v
  Reach-Inv v (next r st) = Step-Inv st (Reach-Inv v r)

-- Whatever the order of the steps of the threads, of those that mark objects of one granule at most
-- one is told that it was not marked, and only if it was not marked at the start.
pub atomic_test_and_set-one :
    {object : ℕ → ℕ} {m : SpaceBitmap} {s : Marking} (i j : ℕ)
    → IsBitmap m
    → ((k : ℕ) → Covers m (object k))
    → Reach object (start m) s
    → s.point i ≡ returned false
    → s.point j ≡ returned false
    → granule_of (object i) ≡ granule_of (object j)
    → (i ≡ j) × (marked m (granule_of (object i)) ≡ false)
atomic_test_and_set-one i j v covers r h k e =
    let inv = Reach-Inv covers v r in (inv.one_winner i j h k e, inv.winner_fresh i h)

-- In every state that the threads reach, the marked granules are those marked at the start and those
-- of the threads that were told that theirs was not, and the granule of every thread that has
-- returned is one of these.
pub atomic_test_and_set-marked :
    {object : ℕ → ℕ} {m : SpaceBitmap} {s : Marking} (g : ℕ)
    → IsBitmap m
    → ((k : ℕ) → Covers m (object k))
    → Reach object (start m) s
    → ((marked s.bitmap g ≡ true) ↔ ((marked m g ≡ true) ⊎ Winner object s g))
      × ((i : ℕ) (b : Bool)
          → s.point i ≡ returned b
          → marked s.bitmap (granule_of (object i)) ≡ true)
atomic_test_and_set-marked {object} {m} {s} g v covers r =
    let inv = Reach-Inv covers v r in
    (
      (
        inv.found g,
        λ h. elim h [
          | inl old ↦ inv.kept g old
          | inr (i, won, e) ↦
              subst (λ x. marked s.bitmap x ≡ true) e (inv.returned_marked i false won)
        ],
      ),
      inv.returned_marked,
    )
