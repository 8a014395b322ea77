-- ===== src/SpaceBitmap/Walk/Sweeping.antt =====
-- What `sweep_walk` hands to its callback, and what it leaves in its buffer.
use libimmixcons.Base.{
  ℕ, zero, suc, ◌+◌, ◌-◌, ◌*◌, ◌/◌, ◌%◌, ◌^◌, ◌<◌, ◌≤◌, ◌≡◌, refl, Bool, not, ◌&&◌, some, List, [],
  ◌∷◌, ◌++◌, ◌==◌, leb, if◌then◌else◌, ◌>>=◌, arith, bit_and, bit_not, length, All, length-append,
  bit, bit-lt, bit-zero, bit-bit_and, bit-bit_not, bit_and-le, select, select-append, select_none,
  select-zero, length-select, Bool-cases, inl, inr, get_or, get_elem?-eq-get_or, checked_sub-some,
  ap, sym, ◌∙◌, lt→not_leb, ==_iff,
}
use mathlib.Core.List.{map, append_assoc, append-nil, map-append}
use libimmixcons.SpaceBitmap.{SpaceBitmap, index_to_offset}
use libimmixcons.SpaceBitmap.Granules.{IsBitmap, marked}
use libimmixcons.SpaceBitmap.Walk.{buffer_word, flush, sweep_words, sweep_walk}
use libimmixcons.SpaceBitmap.Walk.Words.{one, one-marked}
use libimmixcons.SpaceBitmap.Walk.Buffer.{item, length-map, buffer_word_from, map-select_shift}

-- The granules of the one bitmap that are not in the other.
abbrev pub garbage : SpaceBitmap → SpaceBitmap → ℕ → Bool
garbage live mark g = marked live g && not (marked mark g)

-- The address that the code computes for such a granule.
abbrev pub garbage_address : SpaceBitmap → ℕ → ℕ
garbage_address live g = g / 64 * 1024 + live.heap_begin + g % 64 + 16

-- The callback is called for these buffers, in this order.
abbrev pub deliver {ℓ} : {S : Type ℓ} → (ℕ → List ℕ → S → S) → List (List ℕ) → S → S
deliver callback [] s = s
deliver callback (buffer ∷ buffers) s =
    deliver callback buffers (callback (length buffer * 8) buffer s)

abbrev pub concat : List (List ℕ) → List ℕ
concat [] = []
concat (xs ∷ xss) = xs ++ concat xss

-- A buffer that is handed over is full enough, and the array has room for it.
abbrev pub IsFull : List ℕ → Type 0
IsFull buffer = (448 ≤ length buffer) × (length buffer < 512)

module _ {ℓ} {S : Type ℓ} (live mark : SpaceBitmap) (callback : ℕ → List ℕ → S → S) where
  abbrev garbage_word : ℕ → ℕ
  garbage_word index = bit_and (get_or live.words index 0) (bit_not (get_or mark.words index 0))

  abbrev place : ℕ → ℕ
  place index = index * 16 * 64 + live.heap_begin

  bit-garbage_word :
      (index i : ℕ)
      → IsBitmap mark
      → i < 64
      → one (garbage_word index) i ≡ garbage live mark (64 * index + i)
  bit-garbage_word index i v h =
      let live_word = get_or live.words index 0 in
      let mark_word = get_or mark.words index 0 in
      rw (← one-marked live index i h, ← one-marked mark index i h)
        (ground (
          arith,
          bit-bit_and live_word (bit_not mark_word) i,
          bit-bit_not mark_word i (v.in_word index) h,
          bit-lt live_word i,
          bit-lt mark_word i,
        ))

  word_items :
      (index : ℕ)
      → IsBitmap mark
      → map (item (place index)) (select (one (garbage_word index)) 0 64)
        ≡ map (garbage_address live) (select (garbage live mark) (64 * index) 64)
  word_items index v =
      let start : 64 * index + 0 ≡ 64 * index = omega arith in
      map-select_shift (item (place index)) (garbage_address live) (one (garbage_word index))
        (garbage live mark) (64 * index) 64 0 (λ i a b. bit-garbage_word index i v b)
        (λ i a b. omega arith)
      ∙ rw start

  -- A word of the loop, with the test at its end.
  sweep_one :
      (index : ℕ) (buffer : List ℕ) (s : S)
      → IsBitmap live
      → length buffer < 448
      → (if garbage_word index == 0
          then some (buffer, s)
          else buffer_word (place index) 64 (garbage_word index) buffer >>= λ buffer'.
              some (flush callback buffer' s))
        ≡ some (
            flush callback
              (buffer ++ map (item (place index)) (select (one (garbage_word index)) 0 64))
              s)
  unfolding flush
  sweep_one index buffer s v h =
      let fits : garbage_word index < 2 ^ 64 = omega (
        arith,
        bit_and-le (get_or live.words index 0) (bit_not (get_or mark.words index 0)),
        v.in_word index,
      ) in
      elim (Bool-cases (garbage_word index == 0)) [
        | inl z ↦
            rw
              (
                z,
                select_none (one (garbage_word index)) 64 0 (λ i a b.
                    ground
                      (arith, ap (λ x. bit x i) ((==_iff (garbage_word index) 0).0 z), bit-zero i)),
              )
              (rw (append-nil buffer, lt→not_leb (length buffer) 448 h))
        | inr p ↦ rw (
          p,
          buffer_word_from (place index) 64 0 (garbage_word index) buffer fits
              (λ e. ground (arith, e)) (omega arith) (omega arith) (λ i q. absurd (omega arith))
              (omega arith),
        )
      ]

  abbrev items : ℕ → ℕ → List ℕ
  items index count =
      map (garbage_address live) (select (garbage live mark) (64 * index) (64 * count))

  items-suc : (index count : ℕ) → items index (suc count) ≡ items index 1 ++ items (suc index) count
  items-suc index count =
      let next : 64 * index + 64 ≡ 64 * suc index = omega arith in
      let split : 64 * suc count ≡ 64 + 64 * count = omega arith in
      rw (split, select-append (garbage live mark) 64 (64 * count) (64 * index), next)
        (map-append (garbage_address live) (select (garbage live mark) (64 * index) 64)
          (select (garbage live mark) (64 * suc index) (64 * count)))

  sweep_words-suc :
      (index count : ℕ) (buffer : List ℕ) (s : S)
      → IsBitmap live
      → IsBitmap mark
      → index < length live.words
      → index < length mark.words
      → length buffer < 448
      → (let r : List ℕ × S = flush callback (buffer ++ items index 1) s in
          sweep_words live mark callback index (suc count) buffer s
          ≡ sweep_words live mark callback (suc index) count (r.0) (r.1))
  unfolding sweep_words index_to_offset
  sweep_words-suc index count buffer s v w h k short = rw (
    get_elem?-eq-get_or live.words index 0 h,
    get_elem?-eq-get_or mark.words index 0 k,
    sweep_one index buffer s v short,
    word_items index w,
  )

  -- What a run over some words leaves: the items that it handed over and those in the buffer are the
  -- garbage of these words after what was in the buffer.
  abbrev Swept : ℕ → ℕ → List ℕ → S → Type ℓ
  Swept index count buffer s =
      (buffers : List (List ℕ)) × (lost : List ℕ) × (sweep_words live mark callback index count
          buffer s
        ≡ some (lost, deliver callback buffers s))
      × (concat buffers ++ lost ≡ buffer ++ items index count)
      × All IsFull buffers
      × (length lost < 448)

  sweep_words-Swept :
      (count index : ℕ) (buffer : List ℕ) (s : S)
      → IsBitmap live
      → IsBitmap mark
      → index + count ≤ length live.words
      → index + count ≤ length mark.words
      → length buffer < 448
      → Swept index count buffer s
  unfolding sweep_words flush
  sweep_words-Swept zero index buffer s v w h k short = (
    [],
    buffer,
    refl,
    rw (select-zero (garbage live mark) (64 * index), append-nil buffer),
    tt,
    short,
  )
  sweep_words-Swept (suc count) index buffer s v w h k short =
      let buffer' = buffer ++ items index 1 in
      let step = sweep_words-suc index count buffer s v w (omega arith) (omega arith) short in
      elim (Bool-cases (leb 448 (length buffer'))) [
        | inl full ↦
            (let (buffers, lost, run, all, fulls, few) =
                sweep_words-Swept count (suc index) [] (callback (length buffer' * 8) buffer' s) v w
                  (omega arith) (omega arith) (omega arith) in
              (
                buffer' ∷ buffers,
                lost,
                step ∙ rw full run,
                append_assoc buffer' (concat buffers) lost
                    ∙ ap (λ (l : List ℕ). buffer' ++ l) all
                    ∙ later buffer,
                ((ground (arith, full), few_items buffer short), fulls),
                few,
              ))
        | inr room ↦
            (let (buffers, lost, run, all, fulls, few) =
                sweep_words-Swept count (suc index) buffer' s v w (omega arith) (omega arith)
                  (ground (arith, room)) in
              (buffers, lost, step ∙ rw room run, all ∙ later buffer, fulls, few))
      ]
    where
      later :
          (buffer : List ℕ)
          → (buffer ++ items index 1) ++ items (suc index) count ≡ buffer ++ items index (suc count)
      later buffer =
          append_assoc buffer (items index 1) (items (suc index) count)
          ∙ ap (λ (l : List ℕ). buffer ++ l) (sym (items-suc index count))

      few_items : (buffer : List ℕ) → length buffer < 448 → length (buffer ++ items index 1) < 512
      few_items buffer h = omega (
        arith,
        length-append buffer (items index 1),
        length-map (garbage_address live) (select (garbage live mark) (64 * index) (64 * 1)),
        length-select (garbage live mark) (64 * 1) (64 * index),
      )

-- `sweep_walk` ends, writes inside its buffer, and calls the callback with buffers of 448 to 511
-- items, whose length it gives in bytes. The buffers together are, in order, the addresses that it
-- computes for the granules that are in the live bitmap and not in the mark bitmap, of all words that the
-- range has a part in, so that granules before and behind the range are among them; the last of these,
-- fewer than 448, are not handed over. The range lies in the words of both bitmaps.
pub sweep_walk_lem {ℓ} :
    {S : Type ℓ} (live mark : SpaceBitmap) (callback : ℕ → List ℕ → S → S) (begin last : ℕ) (s : S)
    → IsBitmap live
    → IsBitmap mark
    → begin ≤ last
    → last / 16 / 64 < length live.words
    → last / 16 / 64 < length mark.words
    → (buffers : List (List ℕ)) × (lost : List ℕ) × (sweep_walk live mark
          (live.heap_begin + begin)
          (live.heap_begin + last + 1)
          callback
          s
        ≡ some (deliver callback buffers s))
      × (concat buffers ++ lost
          ≡ map (garbage_address live) (
              select
                (garbage live mark)
                (64 * (begin / 16 / 64))
                (64 * (last / 16 / 64 + 1 - begin / 16 / 64))))
      × All IsFull buffers
      × (length lost < 448)
unfolding sweep_walk flush
sweep_walk_lem live mark callback begin last s v w h k l =
    let first = begin / 16 / 64 in
    let (buffers, lost, run, all, fulls, few) =
      sweep_words-Swept live mark callback (last / 16 / 64 + 1 - first) first [] s v w (omega arith)
        (omega arith) (omega arith) in
    let offset : live.heap_begin + begin - live.heap_begin ≡ begin = omega arith in
    let offset' : live.heap_begin + last + 1 - live.heap_begin ≡ last + 1 = omega arith in
    let rest : last + 1 - 1 ≡ last = omega arith in
    (
      buffers,
      lost,
      rw (
        lt→not_leb (live.heap_begin + begin) (live.heap_begin + last + 1) (omega arith),
        checked_sub-some (live.heap_begin + begin) live.heap_begin (omega arith),
        offset,
        checked_sub-some (live.heap_begin + last + 1) live.heap_begin (omega arith),
        offset',
        checked_sub-some (last + 1) 1 (omega arith),
        rest,
        run,
        lt→not_leb (length lost) 448 few,
      ),
      all,
      fulls,
      few,
    )
