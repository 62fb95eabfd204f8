-- ===== src/Bitmap/Query.antt =====
-- The functions of bitmap.c that search, count and compare bits. A loop
-- `for (i = start; i < bitmap_bits(bitmap); i++)` recurs on the `bits - start` rounds left.
pub mod Search
pub mod Ranges
pub mod Area
pub mod Count
mod Tests
use mini_unix.Base.{
  ℕ, zero, suc, ◌+◌, ◌-◌, ◌%◌, Bool, true, false, not, ◌||◌, Option, none, some, ltb, leb, ◌==◌,
  if◌then◌else◌,
}
use mini_unix.Bitmap.{Bitmap, size_mod, bitmap_error, is_set}

-- `if (test(i)) return i;` in each round, and `return bits;` behind the loop
pub scan : (ℕ → Bool) → ℕ → ℕ → ℕ → ℕ
scan test zero i bits = bits
scan test (suc n) i bits = let rest = scan test n (i + 1) bits in if test i then i else rest

pub find_next : (ℕ → Bool) → Option Bitmap → ℕ → ℕ
find_next test none start = bitmap_error
find_next test (some b) start = elim b.bytes [
  | none ↦ bitmap_error
  | some _ ↦ scan test (b.bits - start) start b.bits
]

pub bitmap_find_first_clear : Option Bitmap → ℕ
bitmap_find_first_clear p = find_next (λ i. not (is_set p i)) p 0

pub bitmap_find_first_set : Option Bitmap → ℕ
bitmap_find_first_set p = find_next (is_set p) p 0

pub bitmap_find_next_clear : Option Bitmap → ℕ → ℕ
bitmap_find_next_clear p start = find_next (λ i. not (is_set p i)) p start

pub bitmap_find_next_set : Option Bitmap → ℕ → ℕ
bitmap_find_next_set p start = find_next (is_set p) p start

-- The loop of `bitmap_find_zero_area`: `run` is `current_zeros`, `first` is `start_idx`.
pub area_loop : Option Bitmap → ℕ → ℕ → ℕ → ℕ → ℕ → ℕ → ℕ
area_loop p count zero i run first bits = bits
area_loop p count (suc n) i run first bits =
    let first' = if run == 0 then i else first in
    let broken = area_loop p count n (i + 1) 0 first bits in
    let longer = area_loop p count n (i + 1) (run + 1) first' bits in
    if is_set p i then broken else if run + 1 == count then first' else longer

pub bitmap_find_zero_area : Option Bitmap → ℕ → ℕ
bitmap_find_zero_area none count = bitmap_error
bitmap_find_zero_area (some b) count = elim b.bytes [
  | none ↦ bitmap_error
  | some _ ↦
      if (count == 0) || ltb b.bits count
      then bitmap_error
      else area_loop (some b) count b.bits 0 0 0 b.bits
]

pub count_loop : (ℕ → Bool) → ℕ → ℕ → ℕ → ℕ
count_loop test zero i count = count
count_loop test (suc n) i count = count_loop test n (i + 1) (if test i then count + 1 else count)

pub bitmap_count_set : Option Bitmap → ℕ
bitmap_count_set none = bitmap_error
bitmap_count_set (some b) = elim b.bytes [
  | none ↦ bitmap_error
  | some _ ↦ count_loop (is_set (some b)) b.bits 0 0
]

-- `size_t` subtraction wraps.
pub bitmap_count_clear : Option Bitmap → ℕ
bitmap_count_clear none = bitmap_error
bitmap_count_clear (some b) = (b.bits + size_mod - bitmap_count_set (some b)) % size_mod

pub bitmap_empty : Option Bitmap → ℕ
bitmap_empty none = 1
bitmap_empty (some b) = if bitmap_count_set (some b) == 0 then 1 else 0

pub bitmap_full : Option Bitmap → ℕ
bitmap_full none = 0
bitmap_full (some b) = if bitmap_count_clear (some b) == 0 then 1 else 0

-- `if (test(start + i)) return 0;` in each round, and `return 1;` behind the loop
pub range_test_loop : (ℕ → Bool) → ℕ → ℕ → ℕ → ℕ
range_test_loop test zero start i = 1
range_test_loop test (suc n) start i =
    let rest = range_test_loop test n start (i + 1) in
    if test ((start + i) % size_mod) then 0 else rest

pub bitmap_test_range : Option Bitmap → ℕ → ℕ → ℕ
bitmap_test_range none start count = 0
bitmap_test_range (some b) start count =
    if ltb b.bits ((start + count) % size_mod)
    then 0
    else range_test_loop (λ i. not (is_set (some b) i)) count start 0

pub bitmap_test_range_clear : Option Bitmap → ℕ → ℕ → ℕ
bitmap_test_range_clear none start count = 0
bitmap_test_range_clear (some b) start count =
    if ltb b.bits ((start + count) % size_mod)
    then 0
    else range_test_loop (is_set (some b)) count start 0
