-- ===== src/Object.antt =====
-- `RawGc` of src/object.rs: the one-word header of an object, a pointer to its type (or to where it
-- was moved) with three tags: bit 0 the mark, bit 1 forwarded, bit 2 pinned.
-- `none` is a failed `debug_assert!`.
pub mod Header
mod Tests
use libimmixcons.Base.{ℕ, Bool, true, false, not, Option, none, some, if◌then◌else◌, ◌>>=◌}
use libimmixcons.TaggedPointer
use libimmixcons.TaggedPointer.{TaggedPointer}

pub record RawGc : Type 0 where
  pub vtable : TaggedPointer

-- `==` on `bool`.
abbrev pub same : Bool → Bool → Bool
same x y = if x then y else not y

abbrev pub debug_assert : Bool → Option (Unit {0})
debug_assert b = if b then some tt else none

unfoldable pub new : ℕ → RawGc
unfolding TaggedPointer.new
new vtable = record { vtable = TaggedPointer.new vtable }

-- The new header, and whether the mark was already as asked.
pub mark : RawGc → Bool → Option (RawGc × Bool)
mark o x = do
  let prev = TaggedPointer.bit_is_set o.vtable.raw 0
  checked ← debug_assert (not (TaggedPointer.is_null o.vtable))
  let vtable = TaggedPointer.set_bit_x o.vtable x 0
  checked' ← debug_assert (same (TaggedPointer.bit_is_set vtable.raw 0) x)
  some (record { vtable = vtable }, same prev x)

pub get_mark : RawGc → Option Bool
get_mark o = do
  checked ← debug_assert (not (TaggedPointer.is_null o.vtable))
  some (TaggedPointer.bit_is_set o.vtable.raw 0)

pub pin : RawGc → Option RawGc
pin o = do
  checked ← debug_assert (not (TaggedPointer.is_null o.vtable))
  some (record { vtable = TaggedPointer.set_bit o.vtable 2 })

unfoldable pub is_pinned : RawGc → Option Bool
is_pinned o = do
  checked ← debug_assert (not (TaggedPointer.is_null o.vtable))
  some (TaggedPointer.bit_is_set o.vtable.raw 2)

pub unpin : RawGc → Option RawGc
unpin o = do
  checked ← debug_assert (not (TaggedPointer.is_null o.vtable))
  some (record { vtable = TaggedPointer.clear_bit o.vtable 2 })

pub is_forwarded : RawGc → Bool
is_forwarded o = TaggedPointer.bit_is_set o.vtable.raw 1

pub set_forwarded : RawGc → ℕ → Option RawGc
set_forwarded o addr = do
  checked ← debug_assert (not (TaggedPointer.is_null o.vtable))
  some (record { vtable = TaggedPointer.set_bit (TaggedPointer.new addr) 1 })

pub vtable : RawGc → Option ℕ
vtable o = do
  checked ← debug_assert (not (TaggedPointer.is_null o.vtable))
  some (TaggedPointer.untagged o.vtable.raw)
