-- ===== src/Region.antt =====
-- `Address` and `Region` of src/util.rs. An address is a number; `none` is a failed `debug_assert!` or
-- the panic of an overflow.
mod Overlap
mod Tests
use libimmixcons.Base.{
  ℕ, ◌+◌, ◌-◌, ◌*◌, Bool, not, ◌&&◌, ◌||◌, Option, none, some, ◌==◌, leb, ltb, if◌then◌else◌, ◌>>=◌,
  checked_sub, checked_add,
}
use libimmixcons.Constants.{size_of_usize}

pub record Region : Type 0 where
  pub start : ℕ
  pub end : ℕ

pub region : ℕ → ℕ → Option Region
region start end = if leb start end then some (record { start = start; end = end }) else none

pub offset_from : ℕ → ℕ → Option ℕ
offset_from addr base = checked_sub addr base

pub offset : ℕ → ℕ → Option ℕ
offset addr off = checked_add addr off

pub sub : ℕ → ℕ → Option ℕ
sub addr off = checked_sub addr off

pub add_ptr : ℕ → ℕ → Option ℕ
add_ptr addr words = checked_add addr (words * size_of_usize)

pub sub_ptr : ℕ → ℕ → Option ℕ
sub_ptr addr words = checked_sub addr (words * size_of_usize)

pub region_start : ℕ → ℕ → Option Region
region_start addr size = do end ← offset addr size; region addr end

pub contains : Region → ℕ → Bool
contains r addr = leb r.start addr && ltb addr r.end

pub valid_top : Region → ℕ → Bool
valid_top r addr = leb r.start addr && leb addr r.end

pub size : Region → Option ℕ
size r = checked_sub r.end r.start

pub empty : Region → Bool
empty r = r.start == r.end

pub disjunct : Region → Region → Bool
disjunct r other = leb r.end other.start || leb other.end r.start

pub overlaps : Region → Region → Bool
unfolding disjunct
overlaps r other = not (disjunct r other)

pub fully_contains : Region → Region → Bool
unfolding contains valid_top
fully_contains r other = contains r other.start && valid_top r other.end
