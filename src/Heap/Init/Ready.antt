-- ===== src/Heap/Init/Ready.antt =====
-- The heap that `immix_init` of src/lib.rs makes.
use libimmixcons.Base.{
  ℕ, ◌+◌, ◌%◌, ◌^◌, ◌<◌, ◌≡◌, refl, subst, Bool, true, false, none, some, [], ◌∷◌, arith,
}
use libimmixcons.Align.{align_usize, align_usize_bounds}
use libimmixcons.ImmixSpace
use libimmixcons.ImmixSpace.{ImmixSpace}
use libimmixcons.ImmixSpace.Allocated.{IsImmixSpace}
use libimmixcons.ImmixSpace.Evacuate.{CanEvacuate}
use libimmixcons.ImmixSpace.Fresh.{new-IsImmixSpace}
use libimmixcons.LargeObjectSpace
use libimmixcons.Collector
use libimmixcons.Heap.{Immix, init_sizes, register_ongc_callback}
use libimmixcons.Heap.Sizes.{init_sizes_lem}
use libimmixcons.Heap.Init.{Platform, new, immix_init}

-- The heap over a new space.
unfoldable fresh_heap : Platform → ImmixSpace → ℕ → ℕ → Immix
fresh_heap platform s threshold callback = record {
  los = LargeObjectSpace.new;
  headers = platform.headers;
  immix = s;
  objects = platform.objects;
  slots = platform.slots;
  words = platform.words;
  stack_bottom = platform.stack_origin;
  stack_end = 0;
  allocated = 0;
  threshold = threshold;
  current_live_mark = false;
  collect_roots_callback = callback ∷ [];
  collector = Collector.new;
  to_finalize = [];
}

-- A heap that is ready: its space is in order, nothing is allocated, and the callback is registered.
pub record IsReady (m : Immix) (callback : ℕ) : Type 0 where
  pub space : IsImmixSpace m.immix []
  pub evacuates : CanEvacuate m.immix
  pub nothing_allocated : m.allocated ≡ 0
  pub has_threshold : 0 < m.threshold
  pub callbacks : m.collect_roots_callback ≡ callback ∷ []
  pub no_finalizers : m.to_finalize ≡ []
  pub no_large : m.los.allocations ≡ []

fresh_heap-IsReady :
    (platform : Platform) (s : ImmixSpace) (threshold callback : ℕ)
    → IsImmixSpace s []
    → CanEvacuate s
    → 0 < threshold
    → IsReady (fresh_heap platform s threshold callback) callback
unfolding fresh_heap LargeObjectSpace.new
fresh_heap-IsReady platform s threshold callback valid evacuates positive = record {
  space = valid;
  evacuates = evacuates;
  nothing_allocated = refl;
  has_threshold = positive;
  callbacks = refl;
  no_finalizers = refl;
  no_large = refl;
}

init_sizes-small :
    (heap_size threshold : ℕ) → heap_size < 2 ^ 60 → (init_sizes heap_size threshold).0 < 2 ^ 60
unfolding init_sizes
init_sizes-small heap_size threshold h = ground arith

-- The run of `immix_init` when the space can be made.
immix_init-run :
    (platform : Platform) (heap_size threshold callback : ℕ) (s : ImmixSpace)
    → ImmixSpace.new platform.mmap
        (align_usize ((init_sizes heap_size threshold).0 + 32768) platform.page_size)
      ≡ some s
    → immix_init platform false heap_size threshold callback
        (record { initialized = false; heap = none })
      ≡ some (record {
        initialized = true;
        heap = some (fresh_heap platform s (init_sizes heap_size threshold).1 callback);
      })
unfolding immix_init new register_ongc_callback fresh_heap
immix_init-run platform heap_size threshold callback s e = rw e refl

-- With pages of 4 KiB and a mapping for the size that it settles on, the first call of `immix_init` makes a
-- heap that is ready, when its exchange does not fail. No later call changes the heap.
pub immix_init-IsReady :
    (platform : Platform) (heap_size threshold callback start : ℕ) (fails : Bool)
    → platform.page_size ≡ 4096
    → heap_size < 2 ^ 60
    → platform.mmap (align_usize ((init_sizes heap_size threshold).0 + 32768) platform.page_size)
      ≡ some start
    → (m : Immix) × (immix_init platform false heap_size threshold callback
          (record { initialized = false; heap = none })
        ≡ some (record { initialized = true; heap = some m }))
      × IsReady m callback
      × ((heap_size' threshold' callback' : ℕ)
          → immix_init platform fails heap_size' threshold' callback'
              (record { initialized = true; heap = some m })
            ≡ some (record { initialized = true; heap = some m }))
unfolding immix_init
immix_init-IsReady platform heap_size threshold callback start fails page small mapped =
    let sizes = init_sizes_lem heap_size threshold in
    let bounded = init_sizes-small heap_size threshold small in
    let size = (init_sizes heap_size threshold).0 in
    let b = align_usize_bounds (size + 32768) platform.page_size (omega arith) in
    let whole : align_usize (size + 32768) platform.page_size % 4096 ≡ 0 =
      subst (λ p. align_usize (size + 32768) platform.page_size % p ≡ 0) page b.2 in
    let (s, run, valid, evacuates, empty) =
      new-IsImmixSpace platform.mmap (align_usize (size + 32768) platform.page_size) start mapped
        (omega (arith, b.0, sizes.0)) (omega (arith, whole)) (omega (arith, b.1, bounded, page)) in
    (
      fresh_heap platform s (init_sizes heap_size threshold).1 callback,
      immix_init-run platform heap_size threshold callback s run,
      fresh_heap-IsReady platform s (init_sizes heap_size threshold).1 callback valid evacuates
          sizes.2,
      λ heap_size' threshold' callback'. refl,
    )
