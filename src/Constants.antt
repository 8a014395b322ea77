-- ===== src/Constants.antt =====
-- src/constants.rs. Sizes are in bytes, on a 64-bit target.
use Prim.Native.Nat.{ℕ, ◌*◌, ◌/◌}

abbrev pub size_of_usize : ℕ
size_of_usize = 8

abbrev pub block_size : ℕ
block_size = 32 * 1024

abbrev pub line_size : ℕ
line_size = 128

abbrev pub num_lines_per_block : ℕ
num_lines_per_block = block_size / line_size

abbrev pub medium_object : ℕ
medium_object = line_size

abbrev pub large_object : ℕ
large_object = 8 * 1024

abbrev pub evac_headroom : ℕ
evac_headroom = 5
