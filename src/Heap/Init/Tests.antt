-- ===== src/Heap/Init/Tests.antt =====
-- Calls of `immix_init`.
use libimmixcons.Base.{ℕ, ◌≡◌, refl, true, false, none, some, [], arith}
use libimmixcons.Heap.{Immix}
use libimmixcons.Heap.Init.{Platform, immix_init}
use libimmixcons.Heap.Init.Ready.{IsReady, immix_init-IsReady}

abbrev linux : Platform
linux = record {
  mmap = λ size. some 61440;
  page_size = 4096;
  stack_origin = 140737488355328;
  headers = λ a. none;
  objects = λ a. record {
    header = record { vtable = record { raw = 4096 } };
    heap_size = 0;
    references = [];
    needs_finalization = false;
    finalizer = false;
  };
  slots = λ a. 0;
  words = λ a. 0;
}

-- An exchange that fails leaves the process without a heap.
spurious_lem :
    immix_init linux true 0 0 7 (record { initialized = false; heap = none })
    ≡ some (record { initialized = false; heap = none })
unfolding immix_init
spurious_lem = refl

-- The witness.
immix_init-IsReady_example :
    (m : Immix) × (immix_init linux false 0 0 7 (record { initialized = false; heap = none })
      ≡ some (record { initialized = true; heap = some m }))
    × IsReady m 7
    × ((heap_size' threshold' callback' : ℕ)
        → immix_init linux true heap_size' threshold' callback'
            (record { initialized = true; heap = some m })
          ≡ some (record { initialized = true; heap = some m }))
immix_init-IsReady_example = immix_init-IsReady linux 0 0 7 61440 true refl (omega arith) refl
