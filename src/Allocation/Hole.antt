-- ===== src/Allocation/Hole.antt =====
-- `scan_for_hole` and `allocate_from_block`: what is handed out lies in a hole, and is handed out once.
use libimmixcons.Base.{
  ℕ, zero, suc, ◌+◌, ◌-◌, ◌*◌, ◌/◌, ◌%◌, ◌≤◌, ◌<◌, ◌≡◌, refl, false, Option, none, some, arith, sym,
  dec_lt, subst, subst₂, le→leb, lt→not_leb,
}
use libimmixcons.Align.{align_usize, align_usize_multiple}
use libimmixcons.Block
use libimmixcons.Block.{ImmixBlock, u16}
use libimmixcons.Block.Find.{IsBlock, line}
use libimmixcons.Block.Holes.{IsHole, Scanned, full, hole}
use libimmixcons.Block.Scan.{scan_block_lem}
use libimmixcons.BlockAllocator.{Memory}
use libimmixcons.Allocation.Scan.{
  BlockTuple, allocate_from_block, scan_for_hole_from, scan_for_hole,
}

-- The tuple's bytes, `low` through `high`, lie past the header line of a valid block, on free lines.
pub record Usable (memory : Memory) (tp : BlockTuple) : Type 0 where
  pub valid : IsBlock (memory tp.block)
  pub begins : (memory tp.block).begin ≡ tp.block
  pub low_aligned : tp.low % 16 ≡ 0
  pub past_header : 128 ≤ tp.low
  pub ordered : tp.low ≤ tp.high
  pub inside : tp.high < 32768
  pub edge : tp.high % 128 ≡ 127
  pub free : (j : ℕ) → tp.low / 128 ≤ j → j ≤ tp.high / 128 → line (memory tp.block) j ≡ false

-- The tuple after an object of `size` bytes.
abbrev pub advance : BlockTuple → ℕ → BlockTuple
advance tp size = record { block = tp.block; low = tp.low + size; high = tp.high }

-- An object that fits starts at the low offset, the tuple moves just past it, and stays usable.
pub allocate_from_block_lem :
    {memory : Memory} {tp : BlockTuple} (size : ℕ)
    → Usable memory tp
    → size % 16 ≡ 0
    → tp.low + size ≤ tp.high
    → (allocate_from_block memory size tp ≡ some (advance tp size, tp.block + tp.low))
      × Usable memory (advance tp size)
unfolding allocate_from_block Block.offset
allocate_from_block_lem {memory} {tp} size v m fits =
    let e : tp.low ≡ tp.low / 16 * 16 = omega (arith, v.low_aligned) in
    let a : align_usize tp.low 16 ≡ tp.low =
      subst (λ t. align_usize t 16 ≡ t) (sym e) (align_usize_multiple (tp.low / 16)) in
    (
      ground (arith, v.begins, v.inside),
      record {
        valid = v.valid;
        begins = v.begins;
        low_aligned = omega (arith, v.low_aligned);
        past_header = omega (arith, v.past_header);
        ordered = fits;
        inside = v.inside;
        edge = v.edge;
        free = λ j p q. v.free j (omega arith) q;
      },
    )

hole-Usable :
    {memory : Memory} {tp : BlockTuple} (low high : ℕ)
    → Usable memory tp
    → IsHole (line (memory tp.block)) (tp.high / 128) low high
    → Usable memory (record { block = tp.block; low = low * 128; high = high * 128 - 1 })
hole-Usable low high v h = record {
  valid = v.valid;
  begins = v.begins;
  low_aligned = omega arith;
  past_header = omega (arith, h.after);
  ordered = omega (arith, h.nonempty);
  inside = omega (arith, h.inside, h.nonempty);
  edge = omega (arith, h.nonempty);
  free = λ j p q. h.free j (omega arith) (omega (arith, h.nonempty));
}

-- The result of a scan for `size` bytes that starts at `tp`.
pub data HoleFound {S : Type 0} (memory : S → Memory) (handle_full_block : S → ℕ → S) (size : ℕ)
    (tp : BlockTuple) (s : S) (r : Option (S × Option BlockTuple)) : Type 0 where
  fits :
      (tp' : BlockTuple)
      → r ≡ some (s, some tp')
      → Usable (memory s) tp'
      → tp'.block ≡ tp.block
      → tp.low ≤ tp'.low
      → tp'.low + size ≤ tp'.high
      → HoleFound memory handle_full_block size tp s r
  none_fits :
      r ≡ some (handle_full_block s tp.block, none) → HoleFound memory handle_full_block size tp s r

module _ {S : Type 0} (memory : S → Memory) (handle_full_block : S → ℕ → S) where
  abbrev rescan : ℕ → ℕ → BlockTuple → S → Option (ℕ × ℕ) → Option (S × Option BlockTuple)
  rescan fuel size tp s none = some (handle_full_block s tp.block, none)
  rescan fuel size tp s (some (low, high)) =
      scan_for_hole_from memory handle_full_block fuel size
        (record { block = tp.block; low = low; high = high }) s

  scan_step :
      (fuel size : ℕ) (s : S) (tp : BlockTuple) (r : Option (ℕ × ℕ))
      → tp.low ≤ tp.high
      → tp.high - tp.low < size
      → Block.scan_block (memory s tp.block) tp.high ≡ some r
      → scan_for_hole_from memory handle_full_block (suc fuel) size tp s ≡ rescan fuel size tp s r
  unfolding scan_for_hole_from
  scan_step fuel size s tp none o small e = rw (le→leb _ _ o, lt→not_leb _ _ small, e)
  scan_step fuel size s tp (some x) o small e = rw (le→leb _ _ o, lt→not_leb _ _ small, e)

  abbrev Scans : ℕ → ℕ → S → Type 0
  Scans fuel size s =
      (tp : BlockTuple)
      → Usable (memory s) tp
      → 256 < fuel + tp.high / 128
      → HoleFound memory handle_full_block size tp s
          (scan_for_hole_from memory handle_full_block fuel size tp s)

  after_scan :
      (fuel size : ℕ) (s : S) (tp : BlockTuple) (r : Option (ℕ × ℕ))
      → Usable (memory s) tp
      → 256 < suc fuel + tp.high / 128
      → Scans fuel size s
      → Scanned (line (memory s tp.block)) (tp.high / 128) r
      → HoleFound memory handle_full_block size tp s (rescan fuel size tp s r)
  after_scan fuel size s tp none v enough ih c = none_fits refl
  after_scan fuel size s tp (some (low, high)) v enough ih (full e none_free) = cc
  after_scan fuel size s tp (some (low, high)) v enough ih (hole l h e is) =
      let p : (l * 128 ≡ low) × (h * 128 - 1 ≡ high) = ground arith in
      let tp₁ : BlockTuple = record { block = tp.block; low = l * 128; high = h * 128 - 1 } in
      let more : HoleFound memory handle_full_block size tp₁ s
          (rescan fuel size tp s (some (l * 128, h * 128 - 1))) =
        ih tp₁ (hole-Usable l h v is) (omega (arith, is.after, is.nonempty)) in
      subst₂
        (λ t u. HoleFound memory handle_full_block size tp s (rescan fuel size tp s (some (t, u))))
        p.0 p.1
        (elim more [
          | fits tp' q v' b lo room ↦ fits tp' q v' b (omega (arith, is.after, v.ordered)) room
          | none_fits q ↦ none_fits q
        ])

  scan_for_hole_from_lem : (fuel size : ℕ) (s : S) → Scans fuel size s
  scan_for_hole_from_lem zero size s tp v enough = absurd (omega (arith, v.inside))
  scan_for_hole_from_lem (suc fuel) size s tp v enough = elim (dec_lt (tp.high - tp.low) size) [
    | no room ↦ fits tp (now room) v refl (omega arith) (omega (arith, v.ordered))
    | yes small ↦
        let b = scan_block_lem v.valid tp.high v.inside in
        subst (λ r. HoleFound memory handle_full_block size tp s r)
          (sym (scan_step fuel size s tp b.0 v.ordered small b.1))
          (after_scan fuel size s tp b.0 v enough (scan_for_hole_from_lem fuel size s) b.2)
  ]
    where
      now :
          ¬ (tp.high - tp.low < size)
          → scan_for_hole_from memory handle_full_block (suc fuel) size tp s ≡ some (s, some tp)
      now room =
          unfold scan_for_hole_from in
          rw (le→leb _ _ v.ordered, le→leb size (tp.high - tp.low) (omega arith))

  -- From a usable tuple, `scan_for_hole` ends without a panic. Either it returns a usable tuple of the
  -- same block, not before the old one, with room for `size` bytes, and changes nothing; or it hands
  -- the block to `handle_full_block`.
  pub scan_for_hole_lem :
      (size : ℕ) (s : S) (tp : BlockTuple)
      → Usable (memory s) tp
      → HoleFound memory handle_full_block size tp s
          (scan_for_hole memory handle_full_block size tp s)
  unfolding scan_for_hole
  scan_for_hole_lem size s tp v = scan_for_hole_from_lem 257 size s tp v (omega arith)
