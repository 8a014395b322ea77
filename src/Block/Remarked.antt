-- ===== src/Block/Remarked.antt =====
-- The lines of a block that a run of marks changes.
use libimmixcons.Base.{
  ℕ, zero, suc, ◌+◌, ◌*◌, ◌/◌, ◌≤◌, ◌<◌, ◌≡◌, refl, Bool, true, false, some, arith, ltb, leb, ◌&&◌,
  if◌then◌else◌,
}
use libimmixcons.LineMap
use libimmixcons.LineMap.{LineMap}
use libimmixcons.LineMap.Laws.{Updated, set_lem, clear_lem}
use libimmixcons.Block.{ImmixBlock, modify_lines}
use libimmixcons.Block.Find.{IsBlock, line}

-- `blk'` is `blk` but for the marks of the lines from `lo` up to but not `hi`, which are all `x`.
pub record Remarked (blk blk' : ImmixBlock) (lo hi : ℕ) (x : Bool) : Type 0 where
  pub valid : IsBlock blk'
  pub same_begin : blk'.begin ≡ blk.begin
  pub same_allocated : blk'.allocated ≡ blk.allocated
  pub same_hole_count : blk'.hole_count ≡ blk.hole_count
  pub same_candidate : blk'.evacuation_candidate ≡ blk.evacuation_candidate
  pub lines : (j : ℕ) → line blk' j ≡ (if leb lo j && ltb j hi then x else line blk j)

one_line :
    {blk : ImmixBlock}
    → IsBlock blk
    → (x : Bool) (i : ℕ) → i < 256
    → (m' : LineMap) × (c : Bool) × ((elim x [
      | true ↦ LineMap.set blk.line_map (blk.begin + i * 128) blk.begin
      | false ↦ LineMap.clear blk.line_map (blk.begin + i * 128) blk.begin
    ])
        ≡ some (m', c))
      × Updated blk.line_map m' i x
one_line {blk} v true i h =
    let s = set_lem blk.begin (i * 128) v.lines (omega arith) in
    let e : i * 128 / 128 ≡ i = omega arith in (s.0, _, s.1, rw e at s.2)
one_line {blk} v false i h =
    let s = clear_lem blk.begin (i * 128) v.lines (omega arith) in
    let e : i * 128 / 128 ≡ i = omega arith in (s.0, _, s.1, rw e at s.2)

pub modify_lines_lem :
    {blk : ImmixBlock}
    → IsBlock blk
    → (x : Bool) (rounds lo : ℕ) → lo + rounds ≤ 256
    → (blk' : ImmixBlock) × (modify_lines blk x rounds lo ≡ some blk')
      × Remarked blk blk' lo (lo + rounds) x
unfolding modify_lines
modify_lines_lem {blk} v x zero lo h = (
  blk,
  refl,
  record {
    valid = v;
    same_begin = refl;
    same_allocated = refl;
    same_hole_count = refl;
    same_candidate = refl;
    lines = λ j. ground arith;
  },
)
modify_lines_lem {blk} v x (suc rounds) lo h =
    let s = one_line v x lo (omega arith) in
    let blk₁ : ImmixBlock = record blk { line_map = s.0 } in
    let v₁ : IsBlock blk₁ = record { lines = s.3.valid; aligned = v.aligned } in
    let ih = modify_lines_lem {blk = blk₁} v₁ x rounds (lo + 1) (omega arith) in
    (
      ih.0,
      rw s.2 ih.1,
      record {
        valid = ih.2.valid;
        same_begin = ih.2.same_begin;
        same_allocated = ih.2.same_allocated;
        same_hole_count = ih.2.same_hole_count;
        same_candidate = ih.2.same_candidate;
        lines = λ j. ground (arith, ih.2.lines j, s.3.lines j);
      },
    )
