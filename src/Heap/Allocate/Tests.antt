-- ===== src/Heap/Allocate/Tests.antt =====
-- A request to a new heap of 128 KiB.
use libimmixcons.Base.{ℕ, ◌≡◌, refl, false, none, some, [], arith, inr, subst}
use libimmixcons.TaggedPointer
use libimmixcons.Align.{align_usize}
use libimmixcons.Object
use libimmixcons.Object.Header.{IsHeader}
use libimmixcons.LargeObjectSpace.Slices.{list_slice}
use libimmixcons.Collector.{empty_map}
use libimmixcons.SpaceBitmap.Granules.{marked}
use libimmixcons.BlockAllocator
use libimmixcons.BlockAllocator.Mmap
use libimmixcons.ImmixSpace.{ImmixSpace, new}
use libimmixcons.ImmixSpace.Allocated.{IsImmixSpace}
use libimmixcons.ImmixSpace.Evacuate.{CanEvacuate}
use libimmixcons.ImmixSpace.Fresh.{new-IsImmixSpace}
use libimmixcons.Heap.{Outside, Immix, allocate}
use libimmixcons.Heap.Allocate.{HasBlock, SmallAllocated, allocate_small_lem}

-- A program whose objects have 40 bytes and no references.
abbrev plain : Outside
plain = record {
  slice = list_slice;
  malloc = λ layout. none;
  finalizer = λ a. false;
  stale = λ a. 0;
  callback = λ data_ptr. record { precise = []; ranges = [] };
  get_sp = 8192;
  fresh = λ rtti. record {
    header = record { vtable = record { raw = 0 } };
    heap_size = 40;
    references = [];
    needs_finalization = false;
    finalizer = false;
  };
  rounds = 100;
}

abbrev new_space :
    (s : ImmixSpace) × (new (λ size. some 61440) 131072 ≡ some s)
    × IsImmixSpace s []
    × CanEvacuate s
    × ((g : ℕ) → marked s.bitmap g ≡ false)
new_space = new-IsImmixSpace (λ size. some 61440) 131072 61440 refl (omega arith) refl (omega arith)

abbrev heap : Immix
heap = record {
  los = record { allocations = []; current_live_mark = false };
  headers = λ a. none;
  immix = new_space.0;
  objects = λ a. record {
    header = record { vtable = record { raw = 4096 } };
    heap_size = 0;
    references = [];
    needs_finalization = false;
    finalizer = false;
  };
  slots = λ a. 0;
  words = λ a. 0;
  stack_bottom = 16384;
  stack_end = 8192;
  allocated = 0;
  threshold = 102400;
  current_live_mark = false;
  collect_roots_callback = [];
  collector = record { all_blocks = []; mark_histogram = empty_map };
  to_finalize = [];
}

type_at_4096 : IsHeader (Object.new 4096)
unfolding Object.new TaggedPointer.new TaggedPointer.untagged
type_at_4096 = record { in_word = omega arith; not_null = λ e. absurd (omega arith) }

has_block : (s : ImmixSpace) → new (λ size. some 61440) 131072 ≡ some s → HasBlock s
unfolding new BlockAllocator.new Mmap.new Mmap.aligned
has_block s e =
    subst (λ r. elim r as (λ r. Type 0) [ none ↦ Unit | some t ↦ HasBlock t ]) e (inr (omega arith))

-- The witness.
allocate_small_lem_example : SmallAllocated plain heap 48 4096 (allocate plain heap 40 4096)
unfolding align_usize
allocate_small_lem_example =
    allocate_small_lem plain heap 40 4096 [] type_at_4096 (omega arith) (omega arith) new_space.2
      (has_block new_space.0 new_space.1)
