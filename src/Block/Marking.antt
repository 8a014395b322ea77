-- ===== src/Block/Marking.antt =====
-- Line marks: what `line_object_mark` writes, and why a hole holds no byte of a marked object.
use libimmixcons.Base.{
  ℕ, ◌+◌, ◌-◌, ◌*◌, ◌/◌, ◌%◌, ◌≤◌, ◌<◌, ◌≡◌, refl, Bool, true, false, Option, some, List, [], ◌∷◌,
  arith, inl, inr, ◌⊎◌, ◌>>=◌, ◌∙◌, max, dec_lt, subst₂, All, All-map,
}
use libimmixcons.Block.{
  ImmixBlock, modify_line, line_object_mark, line_object_unmark, object_size, object_to_line_num,
  scan_block,
}
use libimmixcons.Block.Find.{IsBlock, line}
use libimmixcons.Block.Holes.{IsHole, Scanned, full, hole}
use libimmixcons.Block.Scan.{scan_block_lem}
use libimmixcons.Block.Remarked.{Remarked, modify_lines_lem}

module _ (heap_size : ℕ → ℕ) where
  -- The object's bytes lie in the block that begins at `b`, and end before its last byte.
  pub record Lies (b object : ℕ) : Type 0 where
    pub above : b ≤ object
    pub below : object - b + object_size heap_size object < 32768

  modify_line_lem :
      {blk : ImmixBlock}
      → IsBlock blk
      → (object : ℕ) (x : Bool) → Lies blk.begin object
      → (blk' : ImmixBlock) × (modify_line heap_size blk object x ≡ some blk')
        × Remarked blk blk'
            ((object - blk.begin) / 128)
            ((object - blk.begin) / 128 + (object_size heap_size object / 128 + 1))
            x
  unfolding modify_line object_to_line_num
  modify_line_lem {blk} v object x h =
      let e : object % 32768 / 128 ≡ (object - blk.begin) / 128 =
        omega (arith, v.aligned, h.above, h.below) in
      rw e (
        modify_lines_lem v x (object_size heap_size object / 128 + 1) ((object - blk.begin) / 128)
          (omega (arith, h.below)))

  -- `line_object_mark` marks the lines from the object's first through the one that is its size in
  -- lines further, changes no other line and no other field, and does not panic.
  pub line_object_mark_lem :
      {blk : ImmixBlock}
      → IsBlock blk
      → (object : ℕ) → Lies blk.begin object
      → (blk' : ImmixBlock) × (line_object_mark heap_size blk object ≡ some blk')
        × Remarked blk blk'
            ((object - blk.begin) / 128)
            ((object - blk.begin) / 128 + (object_size heap_size object / 128 + 1))
            true
  unfolding line_object_mark
  line_object_mark_lem v object h = modify_line_lem v object true h

  -- `line_object_unmark` clears the same lines.
  pub line_object_unmark_lem :
      {blk : ImmixBlock}
      → IsBlock blk
      → (object : ℕ) → Lies blk.begin object
      → (blk' : ImmixBlock) × (line_object_unmark heap_size blk object ≡ some blk')
        × Remarked blk blk'
            ((object - blk.begin) / 128)
            ((object - blk.begin) / 128 + (object_size heap_size object / 128 + 1))
            false
  unfolding line_object_unmark
  line_object_unmark_lem v object h = modify_line_lem v object false h

  -- All lines that marking the object marks are marked.
  abbrev pub Covered : (ℕ → Bool) → ℕ → ℕ → Type 0
  Covered m b object =
      (j : ℕ)
      → (object - b) / 128 ≤ j
      → j ≤ (object - b) / 128 + object_size heap_size object / 128
      → m j ≡ true

  -- No byte of the object is one of the usable bytes from `low` through `high` of the block at `b`.
  abbrev pub Apart : ℕ → ℕ → ℕ → ℕ → Type 0
  Apart b low high object = (object - b + object_size heap_size object ≤ low) ⊎ (high < object - b)

  -- Marking covers at most one line less than the object may touch; the line that a hole leaves free
  -- in front makes up for it.
  hole-Apart :
      (m : ℕ → Bool) (b k low high object : ℕ)
      → IsHole m k low high
      → Covered m b object
      → Apart b (low * 128) (high * 128 - 1) object
  hole-Apart m b k low high object h c =
      elim (dec_lt ((object - b) / 128 + object_size heap_size object / 128 + 1) low) [
        | yes before ↦ inl (omega arith)
        | no not_before ↦ elim (dec_lt ((object - b) / 128) high) [
          | no after ↦ inr (omega (arith, h.nonempty))
          | yes meets ↦ absurd (
              clash (max ((object - b) / 128) (low - 1)) (omega (arith, h.after))
                (omega (arith, h.nonempty, h.after)) (omega (arith, h.after)) (omega arith))
        ]
      ]
    where
      clash :
          (j : ℕ)
          → low ≤ j + 1
          → j < high
          → (object - b) / 128 ≤ j
          → j ≤ (object - b) / 128 + object_size heap_size object / 128
          → ⊥
      clash j p q r s = cc (h.free j p q, c j r s)

  -- A client's marks, one after the other.
  unfoldable pub mark_all : ImmixBlock → List ℕ → Option ImmixBlock
  mark_all blk [] = some blk
  mark_all blk (object ∷ objects) = do
    blk' ← line_object_mark heap_size blk object
    mark_all blk' objects

  pub Covered-Remarked :
      {blk blk' : ImmixBlock} {lo hi : ℕ} (b object : ℕ)
      → Remarked blk blk' lo hi true
      → Covered (line blk) b object
      → Covered (line blk') b object
  Covered-Remarked b object r c j p q = ground (arith, r.lines j, c j p q)

  pub Covered-mark :
      {blk blk' : ImmixBlock} (b object : ℕ)
      → blk.begin ≡ b
      → Remarked blk blk'
          ((object - blk.begin) / 128)
          ((object - blk.begin) / 128 + (object_size heap_size object / 128 + 1))
          true
      → Covered (line blk') b object
  Covered-mark {blk} b object e r j p q =
      let p' : (object - blk.begin) / 128 ≤ j = rw e p in
      let q' : j < (object - blk.begin) / 128 + (object_size heap_size object / 128 + 1) =
        rw e (omega arith) in
      ground (arith, r.lines j)

  -- Marks already there survive, and each object of the list ends up covered.
  mark_all_lem :
      {blk : ImmixBlock} (b : ℕ) (objects : List ℕ)
      → IsBlock blk
      → blk.begin ≡ b
      → All (Lies b) objects
      → (blk' : ImmixBlock) × (mark_all blk objects ≡ some blk')
        × IsBlock blk'
        × (blk'.begin ≡ b)
        × All (Covered (line blk') b) objects
        × ((object : ℕ) → Covered (line blk) b object → Covered (line blk') b object)
  unfolding mark_all
  mark_all_lem {blk} b [] v e h = (blk, refl, v, e, tt, λ o c. c)
  mark_all_lem {blk} b (object ∷ objects) v e h =
      let s = line_object_mark_lem v object (rw e h.0) in
      let ih = mark_all_lem {blk = s.0} b objects s.2.valid (s.2.same_begin ∙ e) h.1 in
      (
        ih.0,
        rw s.1 ih.1,
        ih.2,
        ih.3,
        (ih.5 object (Covered-mark b object e s.2), ih.4),
        λ o c. ih.5 o (Covered-Remarked b o s.2 c),
      )

  -- Marking objects that lie in a block never panics.
  pub mark_all-some :
      (blk : ImmixBlock) (objects : List ℕ)
      → IsBlock blk
      → All (Lies blk.begin) objects
      → (blk' : ImmixBlock) × (mark_all blk objects ≡ some blk') × IsBlock blk'
  mark_all-some blk objects v h = let r = mark_all_lem blk.begin objects v refl h in (r.0, r.1, r.2)

  -- A hole that `scan_block` returns has no usable byte in common with an object whose lines are marked.
  pub Covered-Apart :
      {blk : ImmixBlock} (b object last low high : ℕ)
      → IsBlock blk
      → Covered (line blk) b object
      → last < 32768
      → scan_block blk last ≡ some (some (low, high))
      → Apart b low high object
  Covered-Apart {blk} b object last low high v c lt found =
      let s = scan_block_lem v last lt in apart s.0 (ground (arith, s.1)) s.2
    where
      apart :
          (r : Option (ℕ × ℕ))
          → r ≡ some (low, high)
          → Scanned (line blk) (last / 128) r
          → Apart b low high object
      apart r e (full e' none_free) = cc
      apart r e (hole l h e' is) =
          let p : (l * 128 ≡ low) × (h * 128 - 1 ≡ high) = ground arith in
          subst₂ (λ t u. Apart b t u object) p.0 p.1
            (hole-Apart (line blk) b (last / 128) l h object is c)

  -- After the objects of a list are marked in a block, in any state of its other lines, no hole that
  -- `scan_block` returns from any offset has a usable byte in common with any of those objects.
  pub hole-Apart-marked :
      (blk blk' : ImmixBlock) (objects : List ℕ) (last low high : ℕ)
      → IsBlock blk
      → All (Lies blk.begin) objects
      → mark_all blk objects ≡ some blk'
      → last < 32768
      → scan_block blk' last ≡ some (some (low, high))
      → All (Apart blk.begin low high) objects
  hole-Apart-marked blk blk' objects last low high v h e lt found =
      let r = mark_all_lem blk.begin objects v refl h in
      let e' : r.0 ≡ blk' = ground (arith, r.1) in
      let c : All (Covered (line blk') blk.begin) objects = rw e' at r.4 in
      let v' : IsBlock blk' = rw e' at r.2 in
      All-map objects (λ o covered. Covered-Apart blk.begin o last low high v' covered lt found) c
