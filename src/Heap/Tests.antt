-- ===== src/Heap/Tests.antt =====
-- A scan of four words.
use libimmixcons.Base.{
  zero, suc, ◌^◌, replicate, get_or, get_or-replicate, bit, bit-pow_self, bit-pow_ne, ℕ_discrete,
  Bool-cases, inl, inr, ℕ, ◌≡◌, ◌<◌, refl, true, false, not, none, some, [], ◌∷◌, ◌==◌,
  if◌then◌else◌, arith,
}
use libimmixcons.TaggedPointer
use libimmixcons.Align.{align_usize}
use libimmixcons.Object.Header.{IsHeader}
use libimmixcons.LargeObjectSpace
use libimmixcons.LargeObjectSpace.PreciseAllocation
use libimmixcons.LargeObjectSpace.{LargeObjectSpace, Headers}
use libimmixcons.LargeObjectSpace.Slices.{list_slice}
use libimmixcons.ImmixSpace
use libimmixcons.BlockAllocator
use libimmixcons.SpaceBitmap.Granules.{IsBitmap}
use libimmixcons.Tracing.Examples.{space}
use libimmixcons.Tracing.{Objects}
use libimmixcons.Heap.Roots.{Words, is_large_root, collect_roots}
use libimmixcons.Heap.Pinned.{Pinned}
use libimmixcons.ImmixSpace.Known.{HasBitmap, is_known}
use libimmixcons.Heap.Scan.{NotBound, roots_of_range, collect_roots_lem}

-- The object at 65920 has a finalizer, that at 66176 needs none.
abbrev objects : Objects
objects a = record {
  header = record { vtable = record { raw = if a == 65664 then 4097 else 4096 } };
  heap_size = 100;
  references = [];
  needs_finalization = not (a == 66176);
  finalizer = a == 65920;
}

untagged_run : (TaggedPointer.untagged 4096 ≡ 4096) × (TaggedPointer.untagged 4097 ≡ 4096)
unfolding TaggedPointer.untagged
untagged_run = (refl, refl)

objects-IsHeader : (o : ℕ) → IsHeader (objects o).header
objects-IsHeader o = elim (Bool-cases (o == 65664)) [
  | inl e ↦
      rw e (record {
        in_word = omega arith;
        not_null = λ z. absurd (omega (arith, z, untagged_run.1));
      })
  | inr e ↦
      rw e (record {
        in_word = omega arith;
        not_null = λ z. absurd (omega (arith, z, untagged_run.0));
      })
]

-- A space over 64 KiB whose bitmap has the object at 65664 only.
abbrev one_object : ImmixSpace.ImmixSpace
one_object = record space {
  space = record (space.space) {
    block_allocator = record {
      free_blocks = [];
      data_bound = 131072;
      data_next = 98304;
      mmap = record { start = 65536; finish = 131072; size = 65536 };
    };
  };
  bitmap = record {
    words = 256 ∷ replicate 63 0;
    bitmap_size = 512;
    heap_begin = 65536;
    heap_limit = 131072;
  };
}

abbrev no_large : LargeObjectSpace
no_large = record { allocations = []; current_live_mark = true }

one_object-IsBitmap : IsBitmap one_object.bitmap
one_object-IsBitmap = record { in_word = in_word }
  where
    in_word : (i : ℕ) → get_or (256 ∷ replicate 63 0) i 0 < 2 ^ 64
    in_word zero = omega arith
    in_word (suc i) = omega (arith, get_or-replicate {A = ℕ} 63 i 0)

first_word : (k : ℕ) → bit 256 k ≡ (if k == 8 then 1 else 0)
first_word k = elim (ℕ_discrete 8 k) [
  | yes e ↦ rw (← e) (bit-pow_self 8)
  | no ne ↦ ground (arith, bit-pow_ne 8 k ne)
]

one_object-HasBitmap : HasBitmap one_object
one_object-HasBitmap = record {
  bitmap = one_object-IsBitmap;
  same_begin = refl;
  covers_all = omega arith;
  bound_is_end = refl;
}

finds_no_large : (p : ℕ) → is_large_root list_slice one_object no_large (λ b. none) p ≡ some false
unfolding is_large_root LargeObjectSpace.contains
finds_no_large p = elim (Bool-cases (PreciseAllocation.is_precise p)) [
  | inl e ↦ rw e refl
  | inr e ↦ rw e refl
]

-- Four words, of which the second points at the object and the fourth behind its header.
abbrev words : Words
words a = if a == 1032 then 65664 else if a == 1048 then 65672 else if a == 1040 then 77 else 0

words-NotBound : (a : ℕ) → NotBound one_object (words a)
words-NotBound a = (λ e. ground arith, λ e. ground arith)

two_roots : roots_of_range (λ p. false) (is_known one_object) words 1056 1024 ≡ 65664 ∷ 65664 ∷ []
unfolding align_usize BlockAllocator.is_in_space
two_roots = rw (first_word 8) refl

-- The witness.
collect_roots_lem_example :
    (objects' : Objects) × (collect_roots list_slice one_object no_large
        (λ b. none)
        words
        1056
        1024
        (objects, [])
      ≡ some (objects', roots_of_range (λ p. false) (is_known one_object) words 1056 1024))
    × Pinned objects objects' (roots_of_range (λ p. false) (is_known one_object) words 1056 1024)
collect_roots_lem_example =
    collect_roots_lem list_slice one_object no_large (λ b. none) (λ p. false) words 1056 1024
      objects [] one_object-HasBitmap finds_no_large (λ a h. words-NotBound a)
      (λ o h. objects-IsHeader o)
