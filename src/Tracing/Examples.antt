-- ===== src/Tracing/Examples.antt =====
-- Three objects of a block, two of which refer to each other, and a large object, for tests.
use libimmixcons.Base.{
  ℕ, ◌/◌, ◌%◌, ◌≡◌, ◌≤◌, refl, ◌⊎◌, true, false, none, List, [], ◌∷◌, ◌==◌, if◌then◌else◌,
  replicate, get_or-replicate, bit-zero, arith,
}
use libimmixcons.Align.{align_usize}
use libimmixcons.TaggedPointer
use libimmixcons.Object
use libimmixcons.Object.Header.{view}
use libimmixcons.Block
use libimmixcons.Block.Examples.{clean_block, clean_block-IsBlock}
use libimmixcons.BlockAllocator
use libimmixcons.SpaceBitmap.Granules.{marked}
use libimmixcons.ImmixSpace
use libimmixcons.ImmixSpace.{ImmixSpace}
use libimmixcons.Tracing.{Objects, Slots}
use libimmixcons.Tracing.Graph.{IsClosed}
use libimmixcons.Tracing.Marks.{IsPlaced, InSpace}
use libimmixcons.Tracing.Refines.{children_of, sizes_of}
use libimmixcons.Tracing.Whole.{IsTraceable}

abbrev pub space : ImmixSpace
space = record {
  space = record {
    block_allocator = record {
      free_blocks = [];
      data_bound = 131072;
      data_next = 98304;
      mmap = record { start = 61440; finish = 131072; size = 65536 };
    };
    memory = λ block. clean_block;
    normal = record { unavailable_blocks = []; recyclable_blocks = []; current_block = none };
    overflow = record { unavailable_blocks = []; current_block = none };
    evac = record { unavailable_blocks = []; evac_headroom = []; current_block = none };
  };
  bitmap = record {
    words = replicate 32 0;
    bitmap_size = 256;
    heap_begin = 65536;
    heap_limit = 98304;
  };
  current_live_mark = false;
}

abbrev pub references : ℕ → List ℕ
references a =
    if a == 65664
    then 65920 ∷ 262144 ∷ []
    else if a == 65920
    then 65664 ∷ []
    else if a == 66176
    then 65920 ∷ []
    else []

abbrev pub objects : Objects
objects a = record {
  header = record { vtable = record { raw = 4096 } };
  heap_size = 100;
  references = references a;
  needs_finalization = false;
  finalizer = false;
}

abbrev pub nodes : List ℕ
nodes = 65664 ∷ 65920 ∷ 66176 ∷ 262144 ∷ []

abbrev pub slots : Slots
slots slot = 262144

abbrev pub all_roots : List ℕ
all_roots = 65664 ∷ 262144 ∷ []

pub nodes-IsClosed : IsClosed (children_of objects) all_roots nodes
nodes-IsClosed = record { has_roots = λ o h. ground arith; has_children = λ o c h g. ground arith }

pub in_block : (o : ℕ) → InSpace nodes space o → (o ≡ 65664) ⊎ ((o ≡ 65920) ⊎ (o ≡ 66176))
unfolding ImmixSpace.filter_fast BlockAllocator.is_in_space
in_block o i = ground arith

placed : (o : ℕ) → InSpace nodes space o → IsPlaced space (sizes_of objects) o
unfolding Block.get_block_ptr Block.object_size align_usize
placed o i =
    let near : (65664 ≤ o) × (o ≤ 66176) = ground (arith, in_block o i) in
    record {
      above = omega arith;
      covered = omega arith;
      block = clean_block-IsBlock;
      begins = omega arith;
      lies = record { above = omega arith; below = omega arith };
    }

header_run : TaggedPointer.untagged 4096 ≡ 4096
unfolding TaggedPointer.untagged
header_run = refl

flags_run :
    (TaggedPointer.bit_is_set 4096 1 ≡ false)
    × (Object.same (TaggedPointer.bit_is_set 4096 0) true ≡ false)
unfolding TaggedPointer.bit_is_set
flags_run = (refl, refl)

pub objects-IsTraceable : IsTraceable nodes space objects true
unfolding view
objects-IsTraceable = record {
  valid = λ o h. record {
    in_word = omega arith;
    not_null = λ e. absurd (omega (arith, e, header_run));
  };
  not_forwarded = λ o h. flags_run.0;
  unmarked = λ o h. flags_run.1;
  bitmap = record { in_word = λ i. omega (arith, get_or-replicate {A = ℕ} 32 i 0) };
  placed = placed;
  aligned = λ o i. ground (arith, in_block o i);
}

pub unmarked_bitmap : (g : ℕ) → marked space.bitmap g ≡ false
unmarked_bitmap g = rw (get_or-replicate {A = ℕ} 32 (g / 64) 0, bit-zero (g % 64)) refl
