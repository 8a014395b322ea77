-- ===== src/Collection/Clear.antt =====
-- The start of a collection in src/collector.rs: the marks of the last one are cleared.
use libimmixcons.Base.{
  ℕ, ◌+◌, ◌-◌, ◌*◌, ◌/◌, ◌%◌, ◌≤◌, ◌<◌, ◌≡◌, refl, ◌∙◌, some, List, [], ◌∷◌, length, count, ◌==◌,
  ==_iff, arith, Bool-cases, inl, inr,
}
use libimmixcons.LineMap
use libimmixcons.LineMap.Laws.{clear_all_lem}
use libimmixcons.Block.{ImmixBlock}
use libimmixcons.Block.Find.{IsBlock}
use libimmixcons.BlockAllocator.{Memory, write}
use libimmixcons.SpaceBitmap
use libimmixcons.SpaceBitmap.{SpaceBitmap}
use libimmixcons.SpaceBitmap.Granules.{IsBitmap}
use libimmixcons.SpaceBitmap.Range.{clear_range_lem}
use libimmixcons.ImmixSpace.{ImmixSpace}
use libimmixcons.Collection.{clear_blocks}

-- The block at `b` is in the range of the bitmap, and begins at a granule.
pub record InBitmap (m : SpaceBitmap) (b : ℕ) : Type 0 where
  pub above : m.heap_begin ≤ b
  pub at_granule : (b - m.heap_begin) % 16 ≡ 0
  pub below : (b - m.heap_begin) / 16 + 2048 ≤ length m.words * 64

abbrev pub with_marks : ImmixSpace → SpaceBitmap → Memory → ImmixSpace
with_marks s bitmap memory = record s {
  bitmap = bitmap;
  space = record (s.space) { memory = memory };
}

-- The space after the clearing is the old one but for the bitmap `m'` and the headers `memory'`, in which
-- every block is still one.
pub record Unmarked (s : ImmixSpace) (m' : SpaceBitmap) (memory' : Memory) : Type 0 where
  pub bitmap : IsBitmap m'
  pub same_begin : m'.heap_begin ≡ s.bitmap.heap_begin
  pub same_length : length m'.words ≡ length s.bitmap.words
  pub blocks :
      (b : ℕ)
      → IsBlock (s.space.memory b)
      → IsBlock (memory' b) × ((memory' b).begin ≡ (s.space.memory b).begin)

abbrev cleared_header : ImmixBlock → ImmixBlock
cleared_header header = record header { line_map = LineMap.clear_all header.line_map }

clear_range-block :
    (m : SpaceBitmap) (b : ℕ)
    → IsBitmap m
    → InBitmap m b
    → (m' : SpaceBitmap) × (SpaceBitmap.clear_range m b (b + 32768) ≡ some m')
      × IsBitmap m'
      × (m'.heap_begin ≡ m.heap_begin)
      × (length m'.words ≡ length m.words)
clear_range-block m b v p =
    let lo = (b - m.heap_begin) / 16 in
    let at : m.heap_begin + lo * 16 ≡ b = omega (arith, p.above, p.at_granule) in
    let to : m.heap_begin + (lo + 2048) * 16 ≡ b + 32768 = omega (arith, at) in
    let (m', e, c) = clear_range_lem m lo (lo + 2048) v (omega arith) p.below in
    (m', rw (at, to) at e, c.valid, c.same_begin, c.same_length)

pub clear_blocks_lem :
    (blocks : List ℕ) (s : ImmixSpace)
    → IsBitmap s.bitmap
    → ((b : ℕ) → 0 < count b blocks → InBitmap s.bitmap b)
    → ((b : ℕ) → 0 < count b blocks → IsBlock (s.space.memory b))
    → (m' : SpaceBitmap) × (memory' : Memory) × (clear_blocks blocks s
        ≡ some (with_marks s m' memory'))
      × Unmarked s m' memory'
unfolding clear_blocks
clear_blocks_lem [] s v p h = (
  s.bitmap,
  s.space.memory,
  refl,
  record { bitmap = v; same_begin = refl; same_length = refl; blocks = λ b k. (k, refl) },
)
clear_blocks_lem (block ∷ blocks) s v p h =
    let (m₁, run, v₁, begin, len) = clear_range-block s.bitmap block v (p block (ground arith)) in
    let memory₁ : Memory = write s.space.memory block (cleared_header (s.space.memory block)) in
    let still : (b : ℕ)
        → IsBlock (s.space.memory b)
        → IsBlock (memory₁ b) × ((memory₁ b).begin ≡ (s.space.memory b).begin) =
      λ b k. elim (Bool-cases (b == block)) [
        | inl e ↦
            rw (e, (==_iff b block).0 e)
              (
                record {
                  lines = (clear_all_lem (h block (ground arith)).lines).0;
                  aligned = (h block (ground arith)).aligned;
                },
                refl,
              )
        | inr e ↦ rw e (k, refl)
      ] in
    let ih =
      clear_blocks_lem blocks (with_marks s m₁ memory₁) v₁
        (λ b k.
          let q = p b (omega arith) in
          record {
            above = rw begin q.above;
            at_granule = rw begin q.at_granule;
            below = rw (begin, len) q.below;
          })
        (λ b k. (still b (h b (omega arith))).0) in
    (
      ih.0,
      ih.1,
      rw run ih.2,
      record {
        bitmap = ih.3.bitmap;
        same_begin = ih.3.same_begin ∙ begin;
        same_length = ih.3.same_length ∙ len;
        blocks = λ b k. let t = still b k in let u = ih.3.blocks b t.0 in (u.0, u.1 ∙ t.1);
      },
    )
