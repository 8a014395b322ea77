-- ===== src/SpaceBitmap/Size.antt =====
-- The size of the bitmap of a heap.
use libimmixcons.Base.{
  ℕ, ◌+◌, ◌-◌, ◌*◌, ◌/◌, ◌%◌, ◌^◌, ◌<◌, ◌≡◌, refl, arith, bit-ten, bit_and-bit_not,
  get_or-replicate, length, length-replicate, false, bit-zero,
}
use libimmixcons.LineMap.{round_down, round_up}
use libimmixcons.SpaceBitmap.{compute_bitmap_size, compute_heap_size, create}
use libimmixcons.SpaceBitmap.Granules.{IsBitmap, marked}

rounded :
    (capacity : ℕ)
    → capacity % 2048 ≡ 0
    → capacity < 2 ^ 63
    → round_up capacity 1024 ≡ capacity + 1023
unfolding round_up round_down
rounded capacity even fits =
    let e : capacity + 1024 - 1 ≡ capacity + 1023 = omega arith in
    rw e (
      bit_and-bit_not (capacity + 1023) 10 (omega arith) (omega arith)
        (omega (arith, bit-ten (capacity + 1023))))

size-eq :
    (capacity : ℕ)
    → capacity % 2048 ≡ 0
    → capacity < 2 ^ 63
    → compute_bitmap_size capacity ≡ capacity / 1024 * 8
unfolding compute_bitmap_size
size-eq capacity even fits = rw (rounded capacity even fits) (omega arith)

-- For a capacity that is a multiple of 2 KiB the bitmap has one bit for each 16 bytes: its size stands
-- for exactly that capacity, and the bitmap created with it covers every granule and is empty.
pub create_lem :
    (heap_begin capacity : ℕ)
    → capacity % 2048 ≡ 0
    → capacity < 2 ^ 63
    → (compute_heap_size (compute_bitmap_size capacity) ≡ capacity)
      × IsBitmap (create heap_begin capacity)
      × (length ((create heap_begin capacity).words) * 64 ≡ capacity / 16)
      × ((g : ℕ) → marked (create heap_begin capacity) g ≡ false)
unfolding create compute_heap_size
create_lem heap_begin capacity even fits = (
  omega (arith, size-eq capacity even fits),
  record {
    in_word = λ i. omega (arith, get_or-replicate {A = ℕ} (compute_bitmap_size capacity / 8) i 0);
  },
  omega (
    arith,
    size-eq capacity even fits,
    length-replicate {A = ℕ} (compute_bitmap_size capacity / 8) 0,
  ),
  λ g.
      rw (get_or-replicate {A = ℕ} (compute_bitmap_size capacity / 8) (g / 64) 0, bit-zero (g % 64))
        refl,
)
