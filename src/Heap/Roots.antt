-- ===== src/Heap/Roots.antt =====
-- `collect_roots` of src/lib.rs: the scan of a range of the stack for words that may be objects.
use libimmixcons.Base.{
  ℕ, zero, suc, ◌+◌, ◌-◌, ◌/◌, ◌%◌, ◌^◌, Bool, false, ◌||◌, Option, none, some, List, ◌==◌, ltb,
  if◌then◌else◌, ◌>>=◌, push,
}
use libimmixcons.Align.{align_usize}
use libimmixcons.Object
use libimmixcons.LargeObjectSpace
use libimmixcons.LargeObjectSpace.{Slice, LargeObjectSpace, Headers}
use libimmixcons.LargeObjectSpace.PreciseAllocation
use libimmixcons.ImmixSpace
use libimmixcons.ImmixSpace.{ImmixSpace}
use libimmixcons.Tracing.{Objects, write_object}

-- What the words of the memory hold, by address.
abbrev pub Words : Type 0
Words = ℕ → ℕ

-- An object is pinned and becomes a root.
unfoldable pub pin_root : Objects × List ℕ → ℕ → Option (Objects × List ℕ)
pin_root (objects, into) ptr = do
  header ← Object.pin (objects ptr).header
  some (write_object objects ptr (record (objects ptr) { header = header }), push into ptr)

-- `ptr.sub(8)`.
abbrev pub sub_eight : ℕ → ℕ
sub_eight ptr = (ptr + 2 ^ 64 - 8) % 2 ^ 64

module _ (slice : Slice) (s : ImmixSpace) (large : LargeObjectSpace) (headers : Headers) where
  unfoldable pub filter_root : Objects × List ℕ → ℕ → Option (Objects × List ℕ)
  unfolding pin_root
  filter_root found ptr = do
    object ← ImmixSpace.filter s ptr
    elim object [ none ↦ some found | some o ↦ pin_root found o ]

  unfoldable pub is_large_root : ℕ → Option Bool
  is_large_root ptr =
      if PreciseAllocation.is_precise ptr
      then LargeObjectSpace.contains slice large headers ptr
      else some false

  -- The body of the loop, for a word.
  unfoldable pub scan_word : Objects × List ℕ → ℕ → Option (Objects × List ℕ)
  unfolding pin_root filter_root is_large_root
  scan_word found ptr =
      if ptr == 0
      then some found
      else (is_large_root ptr >>= λ is_large.
          if is_large
          then pin_root found ptr
          else (filter_root found ptr >>= λ found'. filter_root found' (sub_eight ptr)))

  -- The loop, with the number of words that are left.
  unfoldable pub scan_words : Words → ℕ → ℕ → Objects × List ℕ → Option (Objects × List ℕ)
  unfolding scan_word
  scan_words words zero scan found = some found
  scan_words words (suc rounds) scan found = do
    found' ← scan_word found (words scan)
    scan_words words rounds (scan + 8) found'

  unfoldable pub collect_roots : Words → ℕ → ℕ → Objects × List ℕ → Option (Objects × List ℕ)
  unfolding scan_words
  collect_roots words from to into =
      let scan = align_usize from 16 in
      let end = align_usize to 16 in
      if scan == 0 || end == 0
      then some into
      else if ltb end scan
      then scan_words words ((scan - end) / 8) end into
      else scan_words words ((end - scan) / 8) scan into
