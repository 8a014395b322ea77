-- ===== src/Tracing/Marks.antt =====
-- The bitmap and the lines of the blocks while src/collector.rs traces without moving objects.
use libimmixcons.Base.{
  ℕ, ◌+◌, ◌-◌, ◌/◌, ◌≤◌, ◌<◌, ◌≡◌, refl, sym, ap, ◌∙◌, Bool, true, false, some, List, ◌==◌, ==_iff,
  if◌then◌else◌, count, arith, Bool-cases, inl, inr, ◌⊎◌,
}
use libimmixcons.Block
use libimmixcons.Block.Find.{IsBlock, line}
use libimmixcons.Block.Remarked.{Remarked}
use libimmixcons.Block.Marking.{Lies, Covered, line_object_mark_lem, Covered-Remarked, Covered-mark}
use libimmixcons.BlockAllocator.{write}
use libimmixcons.Allocation.Allocators.{Space}
use libimmixcons.SpaceBitmap.{SpaceBitmap}
use libimmixcons.SpaceBitmap.Granules.{IsBitmap, Changed, Covers, marked}
use libimmixcons.ImmixSpace
use libimmixcons.ImmixSpace.{ImmixSpace}
use libimmixcons.ImmixSpace.Filter.{set_gc_object-Changed}
use libimmixcons.Tracing.{Objects, mark_in_block, write_block}
use libimmixcons.Tracing.Graph.{blacken}

-- Where an object of the space lies: in the range of the bitmap, and in the block of its address.
pub record IsPlaced (s : ImmixSpace) (heap_size : ℕ → ℕ) (o : ℕ) : Type 0 where
  pub above : s.bitmap.heap_begin ≤ o
  pub covered : Covers s.bitmap (o - s.bitmap.heap_begin)
  pub block : IsBlock (s.space.memory (Block.get_block_ptr o))
  pub begins : (s.space.memory (Block.get_block_ptr o)).begin ≡ Block.get_block_ptr o
  pub lies : Lies heap_size (Block.get_block_ptr o) o

-- The granule of an address.
abbrev pub granule : ImmixSpace → ℕ → ℕ
granule s o = (o - s.bitmap.heap_begin) / 16

-- The objects of the list that lie in the space `s₀`.
abbrev pub InSpace : List ℕ → ImmixSpace → ℕ → Type 0
InSpace nodes s₀ o = (0 < count o nodes) × (ImmixSpace.filter_fast s₀ o ≡ true)

-- The space `s` is `s₀` but for the marks of the black objects: their lines are marked, and the bitmap
-- has their granules, those that it had, and no other.
pub record SpaceAgrees (nodes : List ℕ) (s₀ : ImmixSpace) (heap_size : ℕ → ℕ) (black : ℕ → Bool)
    (s : ImmixSpace) : Type 0 where
  pub same_allocator : s.space.block_allocator ≡ s₀.space.block_allocator
  pub same_space : s.space ≡ record (s₀.space) { memory = s.space.memory }
  pub still_blocks : (b : ℕ) → IsBlock (s₀.space.memory b) → IsBlock (s.space.memory b)
  pub bitmap : IsBitmap s.bitmap
  pub placed : (o : ℕ) → InSpace nodes s₀ o → IsPlaced s heap_size o
  pub same_begin : s.bitmap.heap_begin ≡ s₀.bitmap.heap_begin
  pub lines :
      (o : ℕ)
      → InSpace nodes s₀ o
      → black o ≡ true
      → Covered heap_size (line (s.space.memory (Block.get_block_ptr o))) (Block.get_block_ptr o) o
  pub granules :
      (o : ℕ) → InSpace nodes s₀ o → black o ≡ true → marked s.bitmap (granule s₀ o) ≡ true
  pub others :
      (g : ℕ)
      → marked s.bitmap g ≡ true
      → (marked s₀.bitmap g ≡ true)
        ⊎ ((o : ℕ) × InSpace nodes s₀ o × (black o ≡ true) × (granule s₀ o ≡ g))

or_true : (x : Bool) {y : Bool} → y ≡ true → (if x then true else y) ≡ true
or_true true e = refl
or_true false e = e

module _ {nodes : List ℕ} {s₀ : ImmixSpace} {heap_size : ℕ → ℕ} where
  -- An object outside the space leaves it as it is.
  SpaceAgrees-outside :
      {black : ℕ → Bool} {s : ImmixSpace} (o : ℕ)
      → SpaceAgrees nodes s₀ heap_size black s
      → ImmixSpace.filter_fast s₀ o ≡ false
      → SpaceAgrees nodes s₀ heap_size (blacken black o) s
  SpaceAgrees-outside {black} {s} o v out = record {
    same_allocator = v.same_allocator;
    same_space = v.same_space;
    still_blocks = v.still_blocks;
    bitmap = v.bitmap;
    placed = v.placed;
    same_begin = v.same_begin;
    lines = λ a i b. v.lines a i (kept a i b);
    granules = λ a i b. v.granules a i (kept a i b);
    others = λ g h. elim (v.others g h) [
      | inl was ↦ inl was
      | inr (a, i, b, e) ↦ inr (a, i, ground arith, e)
    ];
  }
    where
      kept : (a : ℕ) → InSpace nodes s₀ a → blacken black o a ≡ true → black a ≡ true
      kept a i b = elim (Bool-cases (a == o)) [
        | inl e ↦ absurd (clash (rw ((==_iff a o).0 e) at i.1))
        | inr e ↦ rw e at b
      ]
        where
          clash : ImmixSpace.filter_fast s₀ o ≡ true → ⊥
          clash e = cc (e, out)

  -- The new bitmap and the new header of the object's block.
  SpaceAgrees-inside :
      {black : ℕ → Bool} {s : ImmixSpace} (o : ℕ)
      → SpaceAgrees nodes s₀ heap_size black s
      → InSpace nodes s₀ o
      → (m' : SpaceBitmap) → Changed s.bitmap m' ((o - s.bitmap.heap_begin) / 16) true
      → (header : Block.ImmixBlock)
      → Remarked
          (s.space.memory (Block.get_block_ptr o))
          header
          ((o - (s.space.memory (Block.get_block_ptr o)).begin) / 128)
          ((o - (s.space.memory (Block.get_block_ptr o)).begin) / 128
            + (Block.object_size heap_size o / 128 + 1))
          true
      → SpaceAgrees nodes s₀ heap_size
          (blacken black o)
          (write_block (record s { bitmap = m' }) (Block.get_block_ptr o) header)
  SpaceAgrees-inside {black} {s} o v inside m' c header r = record {
    same_allocator = v.same_allocator;
    same_space =
        ap
          (λ (space : Space).
            let written : Space = record space {
              memory = write s.space.memory (Block.get_block_ptr o) header;
            } in
            written)
          v.same_space;
    still_blocks = λ b h. elim (Bool-cases (b == Block.get_block_ptr o)) [
      | inl e ↦ rw e r.valid
      | inr e ↦ rw e (v.still_blocks b h)
    ];
    bitmap = c.valid;
    placed = λ a i.
        let p = v.placed a i in
        record {
          above = rw c.same_begin p.above;
          covered = rw (c.same_begin, c.same_length) p.covered;
          block = elim (Bool-cases (Block.get_block_ptr a == Block.get_block_ptr o)) [
            | inl e ↦ rw e r.valid
            | inr e ↦ rw e p.block
          ];
          begins = elim (Bool-cases (Block.get_block_ptr a == Block.get_block_ptr o)) [
            | inl e ↦
                rw (e, (==_iff (Block.get_block_ptr a) (Block.get_block_ptr o)).0 e)
                  (r.same_begin ∙ (v.placed o inside).begins)
            | inr e ↦ rw e p.begins
          ];
          lies = p.lies;
        };
    same_begin = c.same_begin ∙ v.same_begin;
    lines = λ a i b. covered a i (elim (Bool-cases (a == o)) [
      | inl e ↦ inl ((==_iff a o).0 e)
      | inr e ↦ inr (v.lines a i (rw e at b))
    ]);
    granules = λ a i b. here a i b;
    others = λ g h. elim (Bool-cases (granule s o == g)) [
      | inl e ↦ inr (o, inside, ground arith, rw v.same_begin at ((==_iff (granule s o) g).0 e))
      | inr e ↦ elim (v.others g (sym (c.granules g ∙ rw e refl) ∙ h)) [
        | inl was ↦ inl was
        | inr (a, i, b, e) ↦ inr (a, i, ground arith, e)
      ]
    ];
  }
    where
      here :
          (a : ℕ) → InSpace nodes s₀ a → blacken black o a ≡ true → marked m' (granule s₀ a) ≡ true
      here a i b = c.granules (granule s₀ a) ∙ elim (Bool-cases (a == o)) [
        | inl e ↦ rw (v.same_begin, (==_iff a o).0 e) (ground arith)
        | inr e ↦ or_true (granule s o == granule s₀ a) (v.granules a i (rw e at b))
      ]

      covered :
          (a : ℕ)
          → InSpace nodes s₀ a
          → (a ≡ o)
            ⊎ Covered heap_size
                (line (s.space.memory (Block.get_block_ptr a)))
                (Block.get_block_ptr a)
                a
          → Covered heap_size
              (line (write s.space.memory (Block.get_block_ptr o) header (Block.get_block_ptr a)))
              (Block.get_block_ptr a)
              a
      covered a i k = elim (Bool-cases (Block.get_block_ptr a == Block.get_block_ptr o)) [
        | inl e ↦
            let same = (==_iff (Block.get_block_ptr a) (Block.get_block_ptr o)).0 e in
            rw (e, same)
              (elim k [
                | inl at ↦
                    rw at (
                      Covered-mark heap_size (Block.get_block_ptr o) o (v.placed o inside).begins r)
                | inr c ↦ Covered-Remarked heap_size (Block.get_block_ptr o) a r (rw same at c)
              ])
        | inr e ↦ elim k [ inl at ↦ absurd (clash at e) | inr c ↦ rw e c ]
      ]
        where
          clash : a ≡ o → (Block.get_block_ptr a == Block.get_block_ptr o) ≡ false → ⊥
          clash at e = ground (arith, ap Block.get_block_ptr at)

  -- `mark_in_block` makes the object black, whether it is in the space or not.
  pub SpaceAgrees-mark :
      {black : ℕ → Bool} {s : ImmixSpace} (objects : Objects) (o : ℕ)
      → SpaceAgrees nodes s₀ heap_size black s
      → 0 < count o nodes
      → (λ a. (objects a).heap_size) ≡ heap_size
      → (s' : ImmixSpace) × (mark_in_block objects s o ≡ some s')
        × SpaceAgrees nodes s₀ heap_size (blacken black o) s'
  unfolding mark_in_block ImmixSpace.filter_fast
  SpaceAgrees-mark {black} {s} objects o v h sizes =
      elim (Bool-cases (ImmixSpace.filter_fast s₀ o)) [
        | inl inside ↦
            let p = v.placed o (h, inside) in
            let at : s.bitmap.heap_begin + (o - s.bitmap.heap_begin) ≡ o = omega (arith, p.above) in
            let b = set_gc_object-Changed s (o - s.bitmap.heap_begin) v.bitmap p.covered in
            let l = line_object_mark_lem heap_size p.block o (rw p.begins p.lies) in
            (
              write_block (record s { bitmap = b.0 }) (Block.get_block_ptr o) l.0,
              unchanged inside (rw at at b.1) l.1,
              SpaceAgrees-inside o v (h, inside) b.0 b.2 l.0 l.2,
            )
        | inr outside ↦ (s, rw (stays ∙ outside) refl, SpaceAgrees-outside o v outside)
      ]
    where
      stays : ImmixSpace.filter_fast s o ≡ ImmixSpace.filter_fast s₀ o
      stays = rw v.same_allocator refl

      unchanged :
          {m' : SpaceBitmap} {header : Block.ImmixBlock}
          → ImmixSpace.filter_fast s₀ o ≡ true
          → ImmixSpace.set_gc_object s o ≡ some (record s { bitmap = m' })
          → Block.line_object_mark heap_size (s.space.memory (Block.get_block_ptr o)) o
            ≡ some header
          → mark_in_block objects s o
            ≡ some (write_block (record s { bitmap = m' }) (Block.get_block_ptr o) header)
      unchanged inside e e' = rw (stays ∙ inside, e, sizes, e') refl
