-- ===== src/Heap/Scan.antt =====
-- `collect_roots` of src/lib.rs against a description of the roots of a range, word by word.
use mathlib.Core.List.{append-nil, append_assoc}
use libimmixcons.Base.{
  ℕ, zero, suc, ◌+◌, ◌-◌, ◌/◌, ◌≡◌, ◌≢◌, ◌*◌, ◌≤◌, ◌<◌, ◌⊎◌, refl, ap, ◌∙◌, Bool, true, ◌||◌,
  Option, none, some, List, [], ◌∷◌, ◌++◌, ◌==◌, ltb, if◌then◌else◌, arith, Bool-cases, inl, inr,
}
use libimmixcons.Align.{align_usize}
use libimmixcons.Object.Header.{IsHeader}
use libimmixcons.LargeObjectSpace.{Slice, LargeObjectSpace, Headers}
use libimmixcons.ImmixSpace
use libimmixcons.ImmixSpace.{ImmixSpace}
use libimmixcons.ImmixSpace.Known.{HasBitmap, is_known, filter_lem}
use libimmixcons.Tracing.{Objects}
use libimmixcons.Heap.Roots.{
  Words, sub_eight, filter_root, is_large_root, scan_word, scan_words, collect_roots,
}
use libimmixcons.Heap.Pinned.{Pinned, Found, pin_root_lem, Pinned-none, Pinned-append}

-- Which words are objects: `is_large` of the large object space, `known` of the blocks, where the filter
-- is asked for an address that it can answer for.
pub record Finds (slice : Slice) (s : ImmixSpace) (large : LargeObjectSpace) (headers : Headers)
    (is_large known : ℕ → Bool) : Type 0 where
  pub finds_large : (p : ℕ) → is_large_root slice s large headers p ≡ some (is_large p)
  pub finds_known :
      (p : ℕ)
      → p ≢ s.space.block_allocator.data_bound
      → ImmixSpace.filter s p ≡ some (if known p then some p else none)

-- A word that is not the first address behind the mapping, nor is 8 below it.
abbrev pub NotBound : ImmixSpace → ℕ → Type 0
NotBound s p =
    (p ≢ s.space.block_allocator.data_bound) × (sub_eight p ≢ s.space.block_allocator.data_bound)

module _ (is_large known : ℕ → Bool) where
  abbrev pub known_root : ℕ → List ℕ
  known_root p = if known p then p ∷ [] else []

  -- The roots that a word stands for: a large object, or the object there and the one a word before.
  abbrev pub roots_of_word : ℕ → List ℕ
  roots_of_word p =
      if p == 0 then [] else if is_large p then p ∷ [] else known_root p ++ known_root (sub_eight p)

  -- The roots of `rounds` words from `scan` on.
  abbrev pub roots_of_words : Words → ℕ → ℕ → List ℕ
  roots_of_words words zero scan = []
  roots_of_words words (suc rounds) scan =
      roots_of_word (words scan) ++ roots_of_words words rounds (scan + 8)

  -- Those of a range, whose ends are rounded up to 16 and may be given in either order.
  abbrev pub roots_of_range : Words → ℕ → ℕ → List ℕ
  roots_of_range words from to =
      let scan = align_usize from 16 in
      let end = align_usize to 16 in
      if scan == 0 || end == 0
      then []
      else if ltb end scan
      then roots_of_words words ((scan - end) / 8) end
      else roots_of_words words ((end - scan) / 8) scan

  -- Every object has a header.
  abbrev pub AllHeaders : Objects → Type 0
  AllHeaders objects = (o : ℕ) → (is_large o || known o) ≡ true → IsHeader (objects o).header

module _ {slice : Slice} {s : ImmixSpace} {large : LargeObjectSpace} {headers : Headers}
    {is_large known : ℕ → Bool} (f : Finds slice s large headers is_large known) where
  filter_root_lem :
      (objects : Objects) (into : List ℕ) (p : ℕ)
      → p ≢ s.space.block_allocator.data_bound
      → AllHeaders is_large known objects
      → Found objects into
          (known_root is_large known p)
          (filter_root slice s large headers (objects, into) p)
  unfolding filter_root
  filter_root_lem objects into p ok v = elim (Bool-cases (known p)) [
    | inl e ↦ rw (f.finds_known p ok, e) (pin_root_lem objects into p (v p (ground arith)))
    | inr e ↦ rw (f.finds_known p ok, e) (objects, rw (append-nil into) refl, Pinned-none objects)
  ]

  -- One search after another.
  Found-then :
      {objects : Objects} (into front back : List ℕ) {r r' : Option (Objects × List ℕ)}
      → AllHeaders is_large known objects
      → Found objects into front r
      → ((objects' : Objects)
          → AllHeaders is_large known objects'
          → r ≡ some (objects', into ++ front)
          → Found objects' (into ++ front) back r')
      → Found objects into (front ++ back) r'
  Found-then {objects} into front back v (objects', e, p) k =
      let (last, e', p') = k objects' (λ o h. p.valid o (v o h)) e in
      (
        last,
        e' ∙ ap (λ l. some (last, l)) (append_assoc into front back),
        Pinned-append front back p p',
      )

  scan_word_lem :
      (objects : Objects) (into : List ℕ) (p : ℕ)
      → NotBound s p
      → AllHeaders is_large known objects
      → Found objects into
          (roots_of_word is_large known p)
          (scan_word slice s large headers (objects, into) p)
  unfolding scan_word
  scan_word_lem objects into p ok v = elim (Bool-cases (p == 0)) [
    | inl e ↦ rw e (objects, rw (append-nil into) refl, Pinned-none objects)
    | inr e ↦ elim (Bool-cases (is_large p)) [
      | inl l ↦ rw (e, f.finds_large p, l) (pin_root_lem objects into p (v p (ground arith)))
      | inr l ↦
          rw (e, f.finds_large p, l)
            (Found-then into (known_root is_large known p) (known_root is_large known (sub_eight p))
              v (filter_root_lem objects into p ok.0 v)
              (λ objects' v' run. rw run (
                filter_root_lem objects' (into ++ known_root is_large known p) (sub_eight p) ok.1
                  v')))
    ]
  ]

  scan_words_lem :
      (words : Words) (rounds scan : ℕ) (objects : Objects) (into : List ℕ)
      → ((a : ℕ) → scan ≤ a → a < scan + 8 * rounds → NotBound s (words a))
      → AllHeaders is_large known objects
      → Found objects into
          (roots_of_words is_large known words rounds scan)
          (scan_words slice s large headers words rounds scan (objects, into))
  unfolding scan_words
  scan_words_lem words zero scan objects into ok v =
      (objects, rw (append-nil into) refl, Pinned-none objects)
  scan_words_lem words (suc rounds) scan objects into ok v =
      Found-then into (roots_of_word is_large known (words scan))
        (roots_of_words is_large known words rounds (scan + 8)) v
        (scan_word_lem objects into (words scan) (ok scan (omega arith) (omega arith)) v)
        (λ objects' v' run. rw run (
          scan_words_lem words rounds (scan + 8) objects'
            (into ++ roots_of_word is_large known (words scan))
            (λ a lo hi. ok a (omega arith) (omega arith)) v'))

-- `collect_roots` appends exactly the roots of the words in the range, in order, to those found before, and
-- pins those and no other object: nothing but their pinned flags changes. The ends are rounded up to
-- 16 and swapped if they are in the wrong order. The bitmap of the space is that of its mapping, no word
-- in the range is the first address behind the mapping or 8 more, the large object space answers for
-- every word, and the objects that the two know have headers.
pub collect_roots_lem :
    (slice : Slice) (s : ImmixSpace) (large : LargeObjectSpace) (headers : Headers)
    (is_large : ℕ → Bool) (words : Words) (from to : ℕ) (objects : Objects) (into : List ℕ)
    → HasBitmap s
    → ((p : ℕ) → is_large_root slice s large headers p ≡ some (is_large p))
    → ((a : ℕ)
        → ((align_usize from 16 ≤ a) × (a < align_usize to 16))
          ⊎ ((align_usize to 16 ≤ a) × (a < align_usize from 16))
        → NotBound s (words a))
    → AllHeaders is_large (is_known s) objects
    → (objects' : Objects) × (collect_roots slice s large headers words from to (objects, into)
        ≡ some (objects', into ++ roots_of_range is_large (is_known s) words from to))
      × Pinned objects objects' (roots_of_range is_large (is_known s) words from to)
unfolding collect_roots
collect_roots_lem slice s large headers is_large words from to objects into has finds ok v =
    let scan = align_usize from 16 in
    let end = align_usize to 16 in
    let f : Finds slice s large headers is_large (is_known s) = record {
      finds_large = finds;
      finds_known = λ p ne. filter_lem s p has ne;
    } in
    elim (Bool-cases (scan == 0 || end == 0)) [
      | inl e ↦ rw e (objects, rw (append-nil into) refl, Pinned-none objects)
      | inr e ↦ elim (Bool-cases (ltb end scan)) [
        | inl swapped ↦
            rw (e, swapped)
              (scan_words_lem f words ((scan - end) / 8) end objects into
                (λ a lo hi. ok a (inr (lo, ground (arith, hi, swapped)))) v)
        | inr in_order ↦
            rw (e, in_order)
              (scan_words_lem f words ((end - scan) / 8) scan objects into
                (λ a lo hi. ok a (inl (lo, ground (arith, hi, in_order)))) v)
      ]
    ]
