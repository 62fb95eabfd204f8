-- ===== src/Bitmap/Query/Tests.antt =====
-- A bitmap of 12 bits in two bytes: runs of the operations, and the theorems at it.
use mini_unix.Base.{
  ℕ, zero, suc, ◌+◌, ◌<◌, ◌≤◌, ◌≡◌, ◌↔◌, refl, true, false, not, Option, some, List, [], ◌∷◌, arith,
  get_or, ◌*◌, ◌⊎◌,
}
use mini_unix.Bitmap.{
  Bitmap, bitmap, bitmap_error, bitmap_size, bitmap_zero, bitmap_fill, bitmap_set, bitmap_test,
  is_set, bitmap_set_range, bitmap_clear_range,
}
use mini_unix.Bitmap.Bits.{Storage, IsValid, array_bit}
use mini_unix.Bitmap.Laws.{bitmap_range_lem}
use mini_unix.Bitmap.Fill.{bitmap_fill_lem}
use mini_unix.Bitmap.Query.{
  bitmap_find_first_clear, bitmap_find_first_set, bitmap_find_next_clear, bitmap_find_next_set,
  bitmap_find_zero_area, bitmap_count_set, bitmap_count_clear, bitmap_empty, bitmap_full,
  bitmap_test_range, bitmap_test_range_clear, find_next, scan, area_loop, count_loop,
}
use mini_unix.Bitmap.Query.Search.{FirstFrom, bitmap_find_lem}
use mini_unix.Bitmap.Query.Ranges.{Within, bitmap_test_range_lem, bitmap_test_range_clear_wraps}
use mini_unix.Bitmap.Query.Area.{FirstArea, bitmap_find_zero_area_lem}
use mini_unix.Bitmap.Query.Count.{count_below, bitmap_count_lem, bitmap_count_set-bitmap_set}

-- bits 0, 2, 5, 7 and 8 are set
abbrev bytes : List ℕ
bytes = 0xa5 ∷ 0x01 ∷ []

abbrev sample : Option Bitmap
sample = bitmap bytes 12

sample_byte : (i : ℕ) → get_or bytes i 0 < 256
sample_byte zero = omega arith
sample_byte (suc zero) = omega arith
sample_byte (suc (suc i)) = omega arith

sample-Storage : Storage bytes 12
sample-Storage = record { fits = omega arith; small = omega arith; byte = sample_byte }

bitmap_range_example :
    (is_set (bitmap_set_range sample 6 4) 9 ≡ true)
    × (is_set (bitmap_clear_range sample 6 4) 9 ≡ false)
    × IsValid (bitmap_set_range sample 6 4)
    × IsValid (bitmap_clear_range sample 6 4)
bitmap_range_example = bitmap_range_lem sample 6 4 9 sample-Storage (omega arith)

bitmap_fill_example :
    (is_set (bitmap_zero sample) 13 ≡ false)
    × (is_set (bitmap_fill sample) 13 ≡ false)
    × (13 < 8 * bitmap_size 12 → array_bit (bitmap_fill sample) 13 ≡ false)
bitmap_fill_example = bitmap_fill_lem sample-Storage 13

bitmap_find_example :
    FirstFrom (is_set sample) 3 12 (bitmap_find_next_set sample 3)
    × FirstFrom (λ i. not (is_set sample i)) 3 12 (bitmap_find_next_clear sample 3)
    × FirstFrom (is_set sample) 0 12 (bitmap_find_first_set sample)
    × FirstFrom (λ i. not (is_set sample i)) 0 12 (bitmap_find_first_clear sample)
bitmap_find_example = bitmap_find_lem bytes 12 3

bitmap_find_zero_area_example :
    (0 < 3 → 3 ≤ 12 → FirstArea (is_set sample) 3 12 (bitmap_find_zero_area sample 3))
    × ((◌≡◌ {A = ℕ} 3 0) ⊎ (12 < 3) → bitmap_find_zero_area sample 3 ≡ bitmap_error)
bitmap_find_zero_area_example = bitmap_find_zero_area_lem bytes 12 3

bitmap_count_example :
    (bitmap_count_set sample ≡ count_below (is_set sample) 12)
    × (bitmap_count_set sample + bitmap_count_clear sample ≡ 12)
    × ((bitmap_empty sample ≡ 1) ↔ ((j : ℕ) → j < 12 → is_set sample j ≡ false))
    × ((bitmap_full sample ≡ 1) ↔ ((j : ℕ) → j < 12 → is_set sample j ≡ true))
bitmap_count_example = bitmap_count_lem bytes 12 (omega arith)

bitmap_count_set-bitmap_set_example :
    bitmap_count_set (bitmap_set sample 3) ≡ bitmap_count_set sample + 1
unfolding is_set bitmap_test
bitmap_count_set-bitmap_set_example = bitmap_count_set-bitmap_set 3 sample-Storage

abbrev twelve : Bitmap
twelve = record { bytes = some bytes; bits = 12 }

bitmap_test_range_example :
    ((bitmap_test_range sample 9 3 ≡ 1) ↔ ((12 ≤ 12) × Within (is_set sample) true 9 3))
    × ((bitmap_test_range_clear sample 9 3 ≡ 1) ↔ ((12 ≤ 12) × Within (is_set sample) false 9 3))
bitmap_test_range_example = bitmap_test_range_lem twelve 9 3 (omega arith)

bitmap_test_range_clear_wraps_example : bitmap_test_range_clear sample 0xffff_fffe 2 ≡ 1
bitmap_test_range_clear_wraps_example =
    bitmap_test_range_clear_wraps twelve 0xffff_fffe 2 (omega arith) (omega arith)

-- Runs.
find_runs :
    (bitmap_find_next_set sample 3 ≡ 5)
    × (bitmap_find_next_clear sample 7 ≡ 9)
    × (bitmap_find_zero_area sample 3 ≡ 9)
    × (bitmap_find_zero_area sample 4 ≡ 12)
    × (bitmap_count_set sample ≡ 5)
    × (bitmap_count_clear sample ≡ 7)
unfolding bitmap_find_next_set bitmap_find_next_clear bitmap_find_zero_area bitmap_count_set
    bitmap_count_clear find_next scan area_loop count_loop is_set bitmap_test
find_runs = (refl, refl, refl, refl, refl, refl)
