-- ===== src/SpaceBitmap/Walk.antt =====
-- The walks over the bitmap of the feature `threaded` (`walk`, `visit_marked_range`, `sweep_walk` and
-- `copy_from` of src/space_bitmap.rs), as one thread runs them while no other writes to the bitmap.
-- A visitor is a function on a state of its caller. Addresses of the heap fit in a word.
pub mod Buffer
pub mod Words
pub mod Sweeping
pub mod Edges
pub mod Copying
mod Tests
use libimmixcons.Base.{
  ℕ, zero, suc, ◌+◌, ◌-◌, ◌*◌, ◌/◌, ◌^◌, Bool, true, false, not, Option, none, some, List, [], ◌∷◌,
  ◌++◌, ◌==◌, ltb, leb, if◌then◌else◌, ◌>>=◌, bit_and, bit_xor, bit_not, checked_sub, get_elem?,
  length, trailing_zeros,
}
use libimmixcons.Base.{set as set_elem}
use libimmixcons.Constants.{size_of_usize}
use libimmixcons.SpaceBitmap.{SpaceBitmap, granule, offset_to_index, index_to_offset}

-- `while { … w ^= 1 << shift; w != 0 } {}` on a word that is not 0. `none` when the rounds run out.
pub visit_word {ℓ} : {S : Type ℓ} → (ℕ → S → S) → ℕ → ℕ → S → Option S
visit_word visitor zero w s = none
visit_word visitor (suc rounds) w s =
    let shift = trailing_zeros 64 w in
    let w' = bit_xor w (2 ^ shift) in
    let rest = visit_word visitor rounds w' (visitor shift s) in
    if w' == 0 then some (visitor shift s) else rest

-- The words `index`, `index + 1` and so on, `count` of them: the body of the loops of `walk` and of
-- `visit_marked_range`. A word has 64 bits, so 64 rounds are enough.
pub visit_words {ℓ} : {S : Type ℓ} → SpaceBitmap → (ℕ → S → S) → ℕ → ℕ → S → Option S
visit_words m visitor index zero s = some s
visit_words m visitor index (suc count) s = get_elem? m.words index >>= λ w.
    (let ptr_base = index_to_offset index + m.heap_begin in
      let visited = visit_word (λ shift. visitor (ptr_base + shift * granule)) 64 w s in
      if w == 0 then some s else visited)
    >>= λ s'. visit_words m visitor (suc index) count s'

pub walk {ℓ} : {S : Type ℓ} → SpaceBitmap → (ℕ → S → S) → S → Option S
unfolding offset_to_index
walk m visitor s = do
  capacity ← checked_sub m.heap_limit m.heap_begin
  last ← checked_sub capacity 1
  let end = offset_to_index last
  visit_words m visitor 0 (end + 1) s

-- `1 << bits`, which panics from 64 on.
abbrev pub checked_shl : ℕ → Option ℕ
checked_shl bits = if ltb bits 64 then some (2 ^ bits) else none

-- A word at an edge of the range, visited if it is not 0.
pub visit_edge {ℓ} : {S : Type ℓ} → SpaceBitmap → (ℕ → S → S) → ℕ → ℕ → S → Option S
visit_edge m visitor index edge s =
    let ptr_base = index_to_offset index + m.heap_begin in
    let visited = visit_word (λ shift. visitor (ptr_base + shift * granule)) 64 edge s in
    if edge == 0 then some s else visited

pub visit_marked_range {ℓ} : {S : Type ℓ} → SpaceBitmap → ℕ → ℕ → (ℕ → S → S) → S → Option S
unfolding offset_to_index
visit_marked_range m visit_begin visit_end visitor s =
    checked_sub visit_begin m.heap_begin >>= λ offset_start.
    checked_sub visit_end m.heap_begin >>= λ offset_end.
    let index_start = offset_to_index offset_start in
    let index_end = offset_to_index offset_end in
    let bit_start = offset_start / granule * (size_of_usize * 8) in
    let bit_end = offset_end / granule * (size_of_usize * 8) in
    get_elem? m.words index_start >>= λ first. checked_shl bit_start >>= λ start_bit.
    let left_edge = bit_and first (bit_not (start_bit - 1)) in
    let across = visit_edge m visitor index_start left_edge s >>= λ s₁.
    visit_words m visitor (index_start + 1) (index_end - (index_start + 1)) s₁ >>= λ s₂.
    (if bit_end == 0 then some 0 else get_elem? m.words index_end) >>= λ right_edge.
    checked_shl bit_end >>= λ end_bit.
    visit_edge m visitor index_end (bit_and right_edge (end_bit - 1)) s₂ in
    let within = checked_shl bit_end >>= λ end_bit.
    visit_edge m visitor index_end (bit_and left_edge (end_bit - 1)) s in
    if ltb index_start index_end then across else within

-- The buffer of `sweep_walk`: the items below `cur_pointer`. `none` is a write past its end.
abbrev pub buffer_size : ℕ
buffer_size = size_of_usize * (size_of_usize * 8)

pub buffer_word : ℕ → ℕ → ℕ → List ℕ → Option (List ℕ)
buffer_word ptr_base zero garbage buffer = none
buffer_word ptr_base (suc rounds) garbage buffer =
    let shift = trailing_zeros 64 garbage in
    let garbage' = bit_xor garbage (2 ^ shift) in
    let buffer' = buffer ++ (ptr_base + shift + granule) ∷ [] in
    let rest = buffer_word ptr_base rounds garbage' buffer' in
    if ltb (length buffer) buffer_size then (if garbage' == 0 then some buffer' else rest) else none

-- `if cur_pointer >= pointer_end`: the callback takes the length in bytes and the items.
pub flush {ℓ} : {S : Type ℓ} → (ℕ → List ℕ → S → S) → List ℕ → S → List ℕ × S
flush callback buffer s =
    if◌then◌else◌ {A = List ℕ × _} (leb (buffer_size - size_of_usize * 8) (length buffer))
      ([], callback (length buffer * size_of_usize) buffer s) (buffer, s)

pub sweep_words {ℓ} :
    {S : Type ℓ}
    → SpaceBitmap
    → SpaceBitmap
    → (ℕ → List ℕ → S → S)
    → ℕ
    → ℕ
    → List ℕ
    → S
    → Option (List ℕ × S)
unfolding flush
sweep_words live mark callback index zero buffer s = some (buffer, s)
sweep_words live mark callback index (suc count) buffer s =
    get_elem? live.words index >>= λ live_word. get_elem? mark.words index >>= λ mark_word.
    let garbage = bit_and live_word (bit_not mark_word) in
    let ptr_base = index_to_offset index + live.heap_begin in
    let filled =
      buffer_word ptr_base 64 garbage buffer >>= λ buffer'. some (flush callback buffer' s) in
    (if garbage == 0 then some (buffer, s) else filled) >>= λ r.
    sweep_words live mark callback (suc index) count (r.0) (r.1)

pub sweep_walk {ℓ} :
    {S : Type ℓ} → SpaceBitmap → SpaceBitmap → ℕ → ℕ → (ℕ → List ℕ → S → S) → S → Option S
unfolding offset_to_index
sweep_walk live mark sweep_begin sweep_end callback s =
    let swept = checked_sub sweep_begin live.heap_begin >>= λ begin_offset.
    checked_sub sweep_end live.heap_begin >>= λ end_offset. checked_sub end_offset 1 >>= λ last.
    let start = offset_to_index begin_offset in
    let end = offset_to_index last in
    sweep_words live mark callback start (end + 1 - start) [] s >>= λ r.
    some ((flush callback (r.0) (r.1)).1) in
    if leb sweep_end sweep_begin then some s else swept

-- `copy_from`, with the number of words from the size of the source.
pub copy_words : List ℕ → List ℕ → ℕ → ℕ → Option (List ℕ)
copy_words src dest i zero = some dest
copy_words src dest i (suc count) = get_elem? src i >>= λ word.
    get_elem? dest i >>= λ old. copy_words src (set_elem dest i word) (suc i) count

pub copy_from : SpaceBitmap → SpaceBitmap → Option SpaceBitmap
unfolding copy_words
copy_from m source_bitmap = do
  words ← copy_words source_bitmap.words m.words 0 (source_bitmap.bitmap_size / size_of_usize)
  some (record m { words = words })
