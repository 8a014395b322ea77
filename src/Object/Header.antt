-- ===== src/Object/Header.antt =====
-- The header word as a record of a pointer and three flags, which the methods of `RawGc` update.
use libimmixcons.Base.{ℕ, ◌%◌, ◌^◌, ◌<◌, ◌≡◌, refl, ◌≢◌, Bool, true, false, not, some, arith, ◌∙◌}
use libimmixcons.TaggedPointer
use libimmixcons.TaggedPointer.{TaggedPointer, from_bool}
use libimmixcons.TaggedPointer.Laws.{
  bit_updates, untagged_same, untagged_aligned, with_bit-Retagged, without_bit-Retagged,
  set_bit_x-Retagged, bit_is_set_lem,
}
use libimmixcons.Base.{bit-mul_eight}
use libimmixcons.Object.{
  RawGc, same, mark, get_mark, pin, is_pinned, unpin, is_forwarded, set_forwarded, vtable,
}

pub record Header : Type 0 where
  pub pointer : ℕ
  pub marked : Bool
  pub forwarded : Bool
  pub pinned : Bool

unfoldable pub view : RawGc → Header
view o = record {
  pointer = TaggedPointer.untagged o.vtable.raw;
  marked = TaggedPointer.bit_is_set o.vtable.raw 0;
  forwarded = TaggedPointer.bit_is_set o.vtable.raw 1;
  pinned = TaggedPointer.bit_is_set o.vtable.raw 2;
}

-- A 64-bit word whose pointer is not null.
pub record IsHeader (o : RawGc) : Type 0 where
  pub in_word : o.vtable.raw < 2 ^ 64
  pub not_null : TaggedPointer.untagged o.vtable.raw ≢ 0

not-is_null : (o : RawGc) → IsHeader o → not (TaggedPointer.is_null o.vtable) ≡ true
unfolding TaggedPointer.is_null
not-is_null o v = ground (arith, v.not_null)

-- `mark` sets the mark flag as asked and nothing else, and returns whether it was so before.
pub mark_lem :
    (o : RawGc) (x : Bool)
    → IsHeader o
    → (o' : RawGc) × (mark o x ≡ some (o', same (view o).marked x))
      × (view o' ≡ record (view o) { marked = x })
      × IsHeader o'
unfolding mark view
mark_lem o x v =
    let u = bit_updates o.vtable 0 x v.in_word (omega arith) in
    let t =
      untagged_same v.in_word (omega arith)
        (set_bit_x-Retagged o.vtable x 0 v.in_word (omega arith)) in
    (
      record { vtable = TaggedPointer.set_bit_x o.vtable x 0 },
      ground (arith, not-is_null o v, u.0 0 (omega arith)),
      ground (arith, t, u.0 0 (omega arith), u.0 1 (omega arith), u.0 2 (omega arith)),
      record { in_word = u.3; not_null = rw t v.not_null },
    )

-- `pin` and `unpin` set and clear the pinned flag, and nothing else.
pub pin_lem :
    (o : RawGc)
    → IsHeader o
    → (o₁ : RawGc) × (o₂ : RawGc) × (pin o ≡ some o₁)
      × (unpin o ≡ some o₂)
      × (view o₁ ≡ record (view o) { pinned = true })
      × (view o₂ ≡ record (view o) { pinned = false })
      × IsHeader o₁
      × IsHeader o₂
unfolding pin unpin view TaggedPointer.set_bit TaggedPointer.clear_bit
pin_lem o v =
    let u = bit_updates o.vtable 2 true v.in_word (omega arith) in
    let t =
      untagged_same v.in_word (omega arith)
        (with_bit-Retagged o.vtable.raw 2 v.in_word (omega arith)) in
    let t' =
      untagged_same v.in_word (omega arith)
        (without_bit-Retagged o.vtable.raw 2 v.in_word (omega arith)) in
    (
      record { vtable = TaggedPointer.set_bit o.vtable 2 },
      record { vtable = TaggedPointer.clear_bit o.vtable 2 },
      ground (arith, not-is_null o v),
      ground (arith, not-is_null o v),
      ground (arith, t, u.0 0 (omega arith), u.0 1 (omega arith), u.0 2 (omega arith)),
      ground (arith, t', u.0 0 (omega arith), u.0 1 (omega arith), u.0 2 (omega arith)),
      record { in_word = u.1; not_null = rw t v.not_null },
      record { in_word = u.2; not_null = rw t' v.not_null },
    )

-- The readers of a header return its flags and its pointer.
pub readers_lem :
    (o : RawGc)
    → IsHeader o
    → (get_mark o ≡ some (view o).marked)
      × (is_pinned o ≡ some (view o).pinned)
      × (is_forwarded o ≡ (view o).forwarded)
      × (vtable o ≡ some (view o).pointer)
unfolding get_mark is_pinned is_forwarded vtable view
readers_lem o v = (
  ground (arith, not-is_null o v),
  ground (arith, not-is_null o v),
  refl,
  ground (arith, not-is_null o v),
)

-- `set_forwarded` to an 8-aligned address that is not null: the header then reads as forwarded to
-- that very address, unmarked and not pinned.
pub set_forwarded_lem :
    (o : RawGc) (addr : ℕ)
    → IsHeader o
    → addr < 2 ^ 64
    → addr % 8 ≡ 0
    → addr ≢ 0
    → (o' : RawGc) × (set_forwarded o addr ≡ some o')
      × (view o' ≡ record { pointer = addr; marked = false; forwarded = true; pinned = false })
      × IsHeader o'
unfolding set_forwarded view TaggedPointer.set_bit TaggedPointer.new
set_forwarded_lem o addr v h m ne =
    let u = bit_updates (TaggedPointer.new addr) 1 true h (omega arith) in
    let t =
      untagged_same h (omega arith) (with_bit-Retagged addr 1 h (omega arith))
      ∙ untagged_aligned addr h m in
    (
      record { vtable = TaggedPointer.set_bit (TaggedPointer.new addr) 1 },
      ground (arith, not-is_null o v),
      ground (
        arith,
        t,
        u.0 0 (omega arith),
        u.0 1 (omega arith),
        u.0 2 (omega arith),
        bit_is_set_lem addr 0,
        bit_is_set_lem addr 2,
        bit-mul_eight addr 0,
        bit-mul_eight addr 2,
      ),
      record { in_word = u.1; not_null = rw t ne },
    )
