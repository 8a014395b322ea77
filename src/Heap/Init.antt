-- ===== src/Heap/Init.antt =====
-- `Immix::new` and `immix_init` of src/lib.rs without the feature `threaded`. Signal handlers, the timer and
-- the statistics are left out.
pub mod Ready
mod Tests
use libimmixcons.Base.{
  ℕ, ◌+◌, Bool, true, false, ◌||◌, Option, none, some, [], if◌then◌else◌, ◌>>=◌,
}
use libimmixcons.Constants.{block_size}
use libimmixcons.Align.{align_usize}
use libimmixcons.ImmixSpace
use libimmixcons.LargeObjectSpace
use libimmixcons.LargeObjectSpace.{Headers}
use libimmixcons.Collector
use libimmixcons.Tracing.{Objects, Slots}
use libimmixcons.Heap.{Immix, init_sizes, register_ongc_callback}
use libimmixcons.Heap.Roots.{Words}

-- What is outside: `mmap`, the size of a page, the origin of the stack, and what the memory holds.
pub record Platform : Type 0 where
  pub mmap : ℕ → Option ℕ
  pub page_size : ℕ
  pub stack_origin : ℕ
  pub headers : Headers
  pub objects : Objects
  pub slots : Slots
  pub words : Words

unfoldable pub new : Platform → ℕ → ℕ → Option Immix
new platform size threshold = do
  immix ← ImmixSpace.new platform.mmap (align_usize (size + block_size) platform.page_size)
  some (record {
    los = LargeObjectSpace.new;
    headers = platform.headers;
    immix = immix;
    objects = platform.objects;
    slots = platform.slots;
    words = platform.words;
    stack_bottom = 0;
    stack_end = 0;
    allocated = 0;
    threshold = threshold;
    current_live_mark = false;
    collect_roots_callback = [];
    collector = Collector.new;
    to_finalize = [];
  })

-- `INIT` and `SPACE`.
pub record Process : Type 0 where
  pub initialized : Bool
  pub heap : Option Immix

-- The exchange on `INIT` is weak; `fails` says that it fails for no reason.
unfoldable pub immix_init : Platform → Bool → ℕ → ℕ → ℕ → Process → Option Process
unfolding new
immix_init platform fails heap_size threshold callback p =
    let made =
      let (size, limit) = init_sizes heap_size threshold in
      new platform size limit >>= λ space. some (record {
        initialized = true;
        heap = some (record (register_ongc_callback space callback) {
          stack_bottom = platform.stack_origin;
        });
      }) in
    if p.initialized || fails then some p else made
