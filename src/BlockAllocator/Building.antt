-- ===== src/BlockAllocator/Building.antt =====
-- The loop of `build_block` (src/block_allocator.rs), run by any number of threads at once. The exchange
-- is weak: it may fail for no reason. In either case of failure the thread goes on with the value that it
-- was given.
pub mod Once
mod Tests
use libimmixcons.Base.{ℕ, ◌+◌, ◌%◌, ◌≡◌, Bool, Option, none, some, ◌==◌, ltb, if◌then◌else◌}
use libimmixcons.Constants.{block_size}

-- Where a thread is: before the load, with a value of `data` that leaves room for a block, returned, or
-- stopped by the assertion.
pub data Stage : Type 0 where
  at_load : Stage
  trying : ℕ → Stage
  returned : Option ℕ → Stage
  panicked : Stage

-- `data_next` is the field `data`.
pub record Building : Type 0 where
  pub data_next : ℕ
  pub point : ℕ → Stage

abbrev pub put_stage : (ℕ → Stage) → ℕ → Stage → ℕ → Stage
put_stage f i p j = if i == j then p else f j

abbrev pub start : ℕ → Building
start first = record { data_next = first; point = λ i. at_load }

-- The head of the loop, with `old`.
unfoldable pub after_read : ℕ → ℕ → Stage
after_read data_bound old = if ltb data_bound (old + block_size) then returned none else trying old

-- The end of the function, with the assertion.
unfoldable pub after_exchange : ℕ → Stage
after_exchange old = if old % block_size == 0 then returned (some old) else panicked

pub data Step (data_bound : ℕ) (s : Building) : Building → Type 0 where
  load :
      (i : ℕ)
      → s.point i ≡ at_load
      → Step data_bound s
          (record s { point = put_stage s.point i (after_read data_bound s.data_next) })
  exchange :
      (i old : ℕ)
      → s.point i ≡ trying old
      → s.data_next ≡ old
      → Step data_bound s (record {
        data_next = old + block_size;
        point = put_stage s.point i (after_exchange old);
      })
  fail :
      (i old : ℕ)
      → s.point i ≡ trying old
      → Step data_bound s
          (record s { point = put_stage s.point i (after_read data_bound s.data_next) })

pub data Reach (data_bound : ℕ) (s : Building) : Building → Type 0 where
  here : Reach data_bound s s
  next : {t u : Building} → Reach data_bound s t → Step data_bound t u → Reach data_bound s u
