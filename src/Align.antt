-- ===== src/Align.antt =====
-- `align_usize` of src/object.rs.
mod Tests
use native.Mathlib.Nat.{div-add-mod, mod-lt, mul-mod_left}
use libimmixcons.Base.{
  ℕ, zero, suc, ◌+◌, ◌-◌, ◌*◌, ◌/◌, ◌%◌, ◌≤◌, ◌<◌, ◌≡◌, refl, ap, ◌∙◌, arith, ◌==◌, if◌then◌else◌,
}

unfoldable pub align_usize : ℕ → ℕ → ℕ
align_usize value align = if align == 0 then value else (value + align - 1) / align * align

-- The result is the least multiple of the alignment at or above the value.
pub align_usize_bounds :
    (value align : ℕ)
    → 0 < align
    → (value ≤ align_usize value align)
      × (align_usize value align < value + align)
      × (align_usize value align % align ≡ 0)
unfolding align_usize
align_usize_bounds value align h = (
  ground (arith, div-add-mod (value + align - 1) align, mod-lt (value + align - 1) h),
  ground (arith, div-add-mod (value + align - 1) align, mod-lt (value + align - 1) h),
  ground (arith, mul-mod_left ((value + align - 1) / align) align),
)

pub align_usize_multiple : (k : ℕ) → align_usize (k * 16) 16 ≡ k * 16
unfolding align_usize
align_usize_multiple k = omega arith
