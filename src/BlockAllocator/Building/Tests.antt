-- ===== src/BlockAllocator/Building/Tests.antt =====
-- Two threads in `build_block`: the first loads the cursor, the second takes the block, and the exchange
-- of the first fails.
use libimmixcons.Base.{ℕ, ◌+◌, ◌%◌, ◌≤◌, ◌<◌, ◌≡◌, ◌≢◌, refl, none, some, arith}
use libimmixcons.BlockAllocator.Building.{
  returned, panicked, Building, put_stage, start, after_read, after_exchange, load, exchange, fail,
  Reach, here, next,
}
use libimmixcons.BlockAllocator.Building.Once.{build_block_once}

abbrev moved : ℕ → Building → ℕ → Building
moved data_next s i = record {
  data_next = data_next;
  point = put_stage s.point i (after_exchange s.data_next);
}

abbrev read : Building → ℕ → Building
read s i = record s { point = put_stage s.point i (after_read 98304 s.data_next) }

abbrev raced : Building
raced = moved 98304 (read (moved 65536 (read (read (start 32768) 0) 1) 1) 0) 0

raced-Reach : Reach 98304 (start 32768) raced
unfolding after_read
raced-Reach =
    next
      (next (next (next (next here (load 0 refl)) (load 1 refl)) (exchange 1 32768 refl refl))
        (fail 0 32768 refl))
      (exchange 0 65536 refl refl)

raced_lem : (raced.point 0 ≡ returned (some 65536)) × (raced.point 1 ≡ returned (some 32768))
unfolding after_exchange
raced_lem = (refl, refl)

-- The witness.
build_block_once_example :
    (raced.data_next ≤ 98304)
    × ((i b : ℕ)
        → raced.point i ≡ returned (some b)
        → (32768 ≤ b) × (b + 32768 ≤ raced.data_next) × (b % 32768 ≡ 0))
    × ((i j b : ℕ) → raced.point i ≡ returned (some b) → raced.point j ≡ returned (some b) → i ≡ j)
    × ((i : ℕ) → raced.point i ≡ returned none → 98304 < raced.data_next + 32768)
    × ((i : ℕ) → raced.point i ≢ panicked)
build_block_once_example = build_block_once 32768 98304 raced (omega arith) refl raced-Reach
