-- ===== src/SpaceBitmap/Walk/Copying.antt =====
-- What `copy_from` leaves in the bitmap.
use libimmixcons.Base.{
  ℕ, zero, suc, ◌+◌, ◌/◌, ◌≤◌, ◌≡◌, refl, Bool, some, List, ltb, leb, ◌&&◌, if◌then◌else◌, arith,
  get_or, get_elem?-eq-get_or, length, length-set, get_or-set_self, get_or-set_ne, ℕ_discrete,
  subst, ◌∙◌,
}
use libimmixcons.Base.{set as set_elem}
use libimmixcons.SpaceBitmap.{SpaceBitmap}
use libimmixcons.SpaceBitmap.Granules.{marked}
use libimmixcons.SpaceBitmap.Walk.{copy_words, copy_from}

-- The words from `i` on, `count` of them, are those of the source.
abbrev copied : ℕ → ℕ → ℕ → Bool
copied i count k = leb i k && ltb k (i + count)

copy_words-get_or :
    (src dest : List ℕ) (i count : ℕ)
    → i + count ≤ length src
    → i + count ≤ length dest
    → (words : List ℕ) × (copy_words src dest i count ≡ some words)
      × (length words ≡ length dest)
      × ((k : ℕ)
          → get_or words k 0 ≡ (if copied i count k then get_or src k 0 else get_or dest k 0))
unfolding copy_words
copy_words-get_or src dest i zero h l = (dest, refl, refl, λ k. ground arith)
copy_words-get_or src dest i (suc count) h l =
    let word = get_or src i 0 in
    let (words, run, same, at) =
      copy_words-get_or src (set_elem dest i word) (suc i) count (omega arith)
        (omega (arith, length-set dest i word)) in
    (
      words,
      rw (get_elem?-eq-get_or src i 0 (omega arith), get_elem?-eq-get_or dest i 0 (omega arith))
          run,
      same ∙ length-set dest i word,
      λ k. elim (ℕ_discrete i k) [
        | yes e ↦
            subst
              (λ x.
                get_or words x 0
                ≡ (if copied i (suc count) x then get_or src x 0 else get_or dest x 0))
              e (ground (arith, at i, get_or-set_self dest i word 0 (omega arith)))
        | no ne ↦ ground (arith, at k, get_or-set_ne dest i k word 0 ne)
      ],
    )

-- `copy_from` makes the granules below the size of the source those of the source, and changes no
-- other; the sizes and the bounds of the heap stay.
pub copy_from_lem :
    (m source : SpaceBitmap)
    → source.bitmap_size / 8 ≤ length source.words
    → source.bitmap_size / 8 ≤ length m.words
    → (m' : SpaceBitmap) × (copy_from m source ≡ some m')
      × ((g : ℕ)
          → marked m' g
            ≡ (if ltb (g / 64) (source.bitmap_size / 8) then marked source g else marked m g))
      × (m'.heap_begin ≡ m.heap_begin)
      × (m'.heap_limit ≡ m.heap_limit)
      × (m'.bitmap_size ≡ m.bitmap_size)
unfolding copy_from
copy_from_lem m source h l =
    let (words, run, same, at) =
      copy_words-get_or source.words m.words 0 (source.bitmap_size / 8) (omega arith)
        (omega arith) in
    (record m { words = words }, rw run, λ g. ground (arith, at (g / 64)), refl, refl, refl)
