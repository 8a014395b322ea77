-- ===== src/TaggedPointer.antt =====
-- `TaggedPointer` of src/util.rs and the functions on tags that it calls. A pointer is its 64-bit
-- word; `bit` numbers a tag. The atomic methods are single
-- steps on a shared word.
pub mod Laws
mod Tests
use Prim.Native.Nat.{bit_and, bit_or, bit_xor}
use libimmixcons.Base.{
  ℕ, ◌+◌, ◌-◌, ◌*◌, ◌^◌, Bool, true, false, not, ◌||◌, ◌==◌, if◌then◌else◌, bit_not,
}

abbrev pub untag_mask : ℕ
untag_mask = bit_not 0x7

-- `x as u64`.
abbrev pub from_bool : Bool → ℕ
from_bool x = if x then 1 else 0

unfoldable pub bit_is_set : ℕ → ℕ → Bool
bit_is_set pointer bit = let shifted = 2 ^ bit in bit_and pointer shifted == shifted

pub with_bit : ℕ → ℕ → ℕ
with_bit pointer bit = bit_or pointer (2 ^ bit)

pub without_bit : ℕ → ℕ → ℕ
without_bit pointer bit = bit_and pointer (bit_not (2 ^ bit))

unfoldable pub untagged : ℕ → ℕ
untagged pointer = bit_and pointer untag_mask

pub record TaggedPointer : Type 0 where
  pub raw : ℕ

unfoldable pub new : ℕ → TaggedPointer
new raw = record { raw = raw }

pub set_bit_x : TaggedPointer → Bool → ℕ → TaggedPointer
set_bit_x p x bit = record {
  raw = bit_or (bit_and p.raw (bit_not (2 ^ bit))) (from_bool x * 2 ^ bit);
}

pub toggle : TaggedPointer → ℕ → TaggedPointer × Bool
toggle p bit = let x = bit_is_set p.raw bit in (record { raw = bit_xor p.raw (2 ^ bit) }, x)

unfoldable pub clear_bit : TaggedPointer → ℕ → TaggedPointer
clear_bit p bit = record { raw = without_bit p.raw bit }

unfoldable pub set_bit : TaggedPointer → ℕ → TaggedPointer
set_bit p bit = record { raw = with_bit p.raw bit }

pub without_tags : TaggedPointer → TaggedPointer
without_tags p = new (untagged p.raw)

unfoldable pub is_null : TaggedPointer → Bool
is_null p = untagged p.raw == 0

-- The atomic methods, each one step on the word. `fails` says that the weak exchange fails for no reason.
unfoldable pub compare_and_swap : TaggedPointer → Bool → ℕ → ℕ → TaggedPointer × Bool
compare_and_swap p fails current other =
    if fails || not (p.raw == current) then (p, false) else (new other, true)

unfoldable pub atomic_store : TaggedPointer → ℕ → TaggedPointer
atomic_store p other = new other

unfoldable pub atomic_load : TaggedPointer → ℕ
atomic_load p = p.raw

unfoldable pub atomic_bit_is_set : TaggedPointer → ℕ → Bool
unfolding atomic_load
atomic_bit_is_set p bit = bit_is_set (atomic_load p) bit
