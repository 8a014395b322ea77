-- ===== src/ImmixSpace/Fresh.antt =====
-- A new space.
use libimmixcons.Base.{ℕ, ◌%◌, ◌^◌, ◌≤◌, ◌<◌, ◌≡◌, refl, inl, inr, false, Option, some, [], arith}
use libimmixcons.Block
use libimmixcons.BlockAllocator.Inv.{new-IsValid}
use libimmixcons.SpaceBitmap
use libimmixcons.SpaceBitmap.Granules.{marked}
use libimmixcons.SpaceBitmap.Size.{create_lem}
use libimmixcons.Allocation.Allocators.{new_normal, new_overflow, new_evac}
use libimmixcons.ImmixSpace.{ImmixSpace, new}
use libimmixcons.ImmixSpace.Allocated.{IsImmixSpace}
use libimmixcons.ImmixSpace.Evacuate.{CanEvacuate}

-- A new space over a mapping of a multiple of 2 KiB, at least a block, is in order for allocation and for
-- evacuation; no block is in use and no object has a bit.
pub new-IsImmixSpace :
    (mmap : ℕ → Option ℕ) (heap_size start : ℕ)
    → mmap heap_size ≡ some start
    → 32768 ≤ heap_size
    → heap_size % 2048 ≡ 0
    → heap_size < 2 ^ 63
    → (s : ImmixSpace) × (new mmap heap_size ≡ some s)
      × IsImmixSpace s []
      × CanEvacuate s
      × ((g : ℕ) → marked s.bitmap g ≡ false)
unfolding new new_normal new_overflow new_evac SpaceBitmap.create
new-IsImmixSpace mmap heap_size start e large even fits =
    let (ba, run, valid, starts, ends) = new-IsValid mmap heap_size start e large in
    let (same_size, is_bitmap, covers, empty) = create_lem ba.mmap.start heap_size even fits in
    (
      record {
        space = record {
          block_allocator = ba;
          memory = Block.new;
          normal = new_normal;
          overflow = new_overflow;
          evac = new_evac;
        };
        bitmap = SpaceBitmap.create ba.mmap.start heap_size;
        current_live_mark = false;
      },
      rw run refl,
      record {
        normal = record {
          allocator = valid;
          headers = λ b h. absurd (omega arith);
          current = λ tp h. cc;
        };
        overflow = record { allocator = valid; current = λ tp h. cc };
        holds_used = λ b h. absurd (omega arith);
        bitmap = is_bitmap;
        same_begin = refl;
        covers_all = omega (arith, starts, ends, covers);
      },
      record {
        evac = record { headroom = λ b h. absurd (omega arith); current = λ tp h. cc };
        inside = λ b h. elim h [ inl k ↦ absurd (omega arith) | inr k ↦ absurd (omega arith) ];
        bitmap = is_bitmap;
        same_begin = refl;
        covers_all = omega (arith, starts, ends, covers);
      },
      empty,
    )
