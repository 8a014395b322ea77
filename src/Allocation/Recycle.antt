-- ===== src/Allocation/Recycle.antt =====
-- `handle_no_hole` of the normal allocator: the search through the recyclable blocks ends.
use libimmixcons.Base.{
  ℕ, zero, suc, ◌+◌, ◌-◌, ◌*◌, ◌≤◌, ◌<◌, ◌≡◌, refl, ◌∙◌, Option, none, some, List, [], ◌∷◌, push,
  pop_from, length, length-pop_from, count, count-append, count-pop_from, ◌==◌, if◌then◌else◌,
  arith, dec_lt, le→leb, lt→not_leb,
}
use libimmixcons.Block.Find.{IsBlock, line}
use libimmixcons.Block.Holes.{IsHole, full, hole}
use libimmixcons.Block.Scan.{scan_block_lem}
use libimmixcons.BlockAllocator.{Memory}
use libimmixcons.Allocation.Scan.{BlockTuple}
use libimmixcons.Allocation.Allocators.{Space, normal_full, normal_no_hole_from, normal_no_hole}
use libimmixcons.Allocation.Hole.{Usable, fits, none_fits, scan_for_hole_lem}

abbrev pub with_lists : Space → List ℕ → List ℕ → Space
with_lists s unavailable recyclable = record s {
  normal = record (s.normal) { unavailable_blocks = unavailable; recyclable_blocks = recyclable };
}

-- The results of a search for `size` bytes. Only the two lists of blocks change; between them a block
-- stands as often as `total` says, but for the one that is found.
pub data Recycled (size : ℕ) (s : Space) (total : ℕ → ℕ) (r : Option (Space × Option BlockTuple))
    : Type 0 where
  too_large :
      128 ≤ size
      → (u l : List ℕ) → r ≡ some (with_lists s u l, none)
      → ((b : ℕ) → count b u + count b l ≡ total b)
      → Recycled size s total r
  found :
      (u l : List ℕ) (tp : BlockTuple)
      → r ≡ some (with_lists s u l, some tp)
      → Usable s.memory tp
      → tp.low + size ≤ tp.high
      → ((b : ℕ) → count b u + count b l + (if tp.block == b then 1 else 0) ≡ total b)
      → Recycled size s total r
  drained :
      (u : List ℕ)
      → r ≡ some (with_lists s u [], none)
      → ((b : ℕ) → count b u ≡ total b)
      → Recycled size s total r

-- The blocks of a list have headers.
abbrev pub HasHeaders : Memory → List ℕ → Type 0
HasHeaders memory l = (b : ℕ) → 0 < count b l → IsBlock (memory b) × ((memory b).begin ≡ b)

Recycled-total :
    {size : ℕ} {s : Space} {total total' : ℕ → ℕ} {r : Option (Space × Option BlockTuple)}
    → ((b : ℕ) → total b ≡ total' b)
    → Recycled size s total r
    → Recycled size s total' r
Recycled-total e (too_large h u l p c) = too_large h u l p (λ b. c b ∙ e b)
Recycled-total e (found u l tp p v room c) = found u l tp p v room (λ b. c b ∙ e b)
Recycled-total e (drained u p c) = drained u p (λ b. c b ∙ e b)

hole-Usable_first :
    {memory : Memory} (block low high : ℕ)
    → IsBlock (memory block)
    → (memory block).begin ≡ block
    → IsHole (line (memory block)) 0 low high
    → Usable memory (record { block = block; low = low * 128; high = high * 128 - 1 })
hole-Usable_first block low high v begins h = record {
  valid = v;
  begins = begins;
  low_aligned = omega arith;
  past_header = omega (arith, h.after);
  ordered = omega (arith, h.nonempty);
  inside = omega (arith, h.inside, h.nonempty);
  edge = omega (arith, h.nonempty);
  free = λ j p q. h.free j (omega arith) (omega (arith, h.nonempty));
}

normal_no_hole_from_lem :
    (fuel size : ℕ) (s : Space) (u l : List ℕ)
    → HasHeaders s.memory l
    → length l < fuel
    → Recycled size s
        (λ b. count b u + count b l)
        (normal_no_hole_from fuel (with_lists s u l) size)
unfolding normal_no_hole_from normal_full
normal_no_hole_from_lem zero size s u l v enough = absurd (omega arith)
normal_no_hole_from_lem (suc fuel) size s u [] v enough = elim (dec_lt size 128) [
  | no large ↦ too_large (omega arith) u [] (rw (le→leb 128 size (omega arith)) refl) (λ b. refl)
  | yes small ↦ drained u (rw (lt→not_leb size 128 small) refl) (λ b. omega arith)
]
normal_no_hole_from_lem (suc fuel) size s u (x ∷ xs) v enough = elim (dec_lt size 128) [
  | no large ↦
      too_large (omega arith) u (x ∷ xs) (rw (le→leb 128 size (omega arith)) refl) (λ b. refl)
  | yes small ↦
      let rest = (pop_from x xs).0 in
      let block = (pop_from x xs).1 in
      let header = v block (ground (arith, count-pop_from block x xs)) in
      let ih =
        Recycled-total
          (λ b. omega (arith, count-append b u ((pop_from x xs).1 ∷ []), count-pop_from b x xs))
          (normal_no_hole_from_lem fuel size s (push u block) rest
            (λ b h. v b (omega (arith, count-pop_from b x xs)))
            (omega (arith, length-pop_from x xs))) in
      let scan = scan_block_lem header.0 47 (omega arith) in
      elim scan.2 [
        | full e none_free ↦ rw (lt→not_leb size 128 small, scan.1, e) ih
        | hole low high e is ↦
            let usable = hole-Usable_first block low high header.0 header.1 is in
            rw
              (
                lt→not_leb size 128 small,
                scan.1,
                e,
                le→leb 48 (low * 128) (omega (arith, is.after)),
              )
              (elim (scan_for_hole_lem (λ (t : Space). t.memory) normal_full size
                (with_lists s u rest)
                (record { block = block; low = low * 128; high = high * 128 - 1 }) usable) [
                  | fits tp q v' same lo room ↦
                      found u rest tp (rw q refl) v' room
                        (λ b. rw same (omega (arith, count-pop_from b x xs)))
                  | none_fits q ↦ rw q ih
                ])
      ]
]

pub normal_no_hole_lem :
    (size : ℕ) (s : Space)
    → HasHeaders s.memory s.normal.recyclable_blocks
    → Recycled size s
        (λ b. count b s.normal.unavailable_blocks + count b s.normal.recyclable_blocks)
        (normal_no_hole s size)
unfolding normal_no_hole
normal_no_hole_lem size s v =
    normal_no_hole_from_lem (suc (length s.normal.recyclable_blocks)) size s
      s.normal.unavailable_blocks s.normal.recyclable_blocks v (omega arith)
