-- ===== src/Bitmap/Query/Search.antt =====
-- `bitmap_find_first_*`, `bitmap_find_next_*` return the first index that they look for.
use mini_unix.Base.{
  ℕ, zero, suc, ◌+◌, ◌-◌, ◌≤◌, ◌<◌, ◌≡◌, Bool, true, false, not, Option, some, List, inl, inr,
  arith, ◌==◌, Bool-cases,
}
use mini_unix.Bitmap.{Bitmap, is_set}
use mini_unix.Bitmap.Query.{
  scan, find_next, bitmap_find_first_clear, bitmap_find_first_set, bitmap_find_next_clear,
  bitmap_find_next_set,
}

-- `r` is the first index from `start` on at which the test holds, or `bits` where there is none.
pub record FirstFrom (test : ℕ → Bool) (start bits r : ℕ) : Type 0 where
  pub bounded : r ≤ bits
  pub none_before : (j : ℕ) → start ≤ j → j < r → test j ≡ false
  pub hit : r < bits → (start ≤ r) × (test r ≡ true)

scan-FirstFrom :
    (test : ℕ → Bool) (n i bits : ℕ)
    → bits ≤ i + n
    → n ≤ bits - i
    → FirstFrom test i bits (scan test n i bits)
unfolding scan
scan-FirstFrom test zero i bits h k = record {
  bounded = omega arith;
  none_before = λ j a b. absurd (omega arith);
  hit = λ a. absurd (omega arith);
}
scan-FirstFrom test (suc n) i bits h k = elim (Bool-cases (test i)) [
  | inl here ↦ rw here (record {
    bounded = omega arith;
    none_before = λ j a b. absurd (omega arith);
    hit = λ a. (omega arith, here);
  })
  | inr on ↦
      let ih = scan-FirstFrom test n (i + 1) bits (omega arith) (omega arith) in
      rw on (record {
        bounded = ih.bounded;
        none_before = λ j a b. elim (Bool-cases (i == j)) [
          | inl e ↦ ground arith
          | inr e ↦ ih.none_before j (ground arith) b
        ];
        hit = λ a. ground (arith, ih.hit a);
      })
]

find_next_storage :
    (test : ℕ → Bool) (d : List ℕ) (bits start : ℕ)
    → FirstFrom test start bits
        (find_next test (some (record { bytes = some d; bits = bits })) start)
unfolding find_next
find_next_storage test d bits start =
    scan-FirstFrom test (bits - start) start bits (omega arith) (omega arith)

module _ (d : List ℕ) (bits start : ℕ) where
  abbrev shown : Option Bitmap
  shown = some (record { bytes = some d; bits = bits })

  -- On a bitmap with an array, `bitmap_find_next_set` and `bitmap_find_next_clear` return the first
  -- set, or clear, index from `start` on, or the number of bits where there is none;
  -- `bitmap_find_first_set` and `bitmap_find_first_clear` do so from index 0 on.
  pub bitmap_find_lem :
      FirstFrom (is_set shown) start bits (bitmap_find_next_set shown start)
      × FirstFrom (λ i. not (is_set shown i)) start bits (bitmap_find_next_clear shown start)
      × FirstFrom (is_set shown) 0 bits (bitmap_find_first_set shown)
      × FirstFrom (λ i. not (is_set shown i)) 0 bits (bitmap_find_first_clear shown)
  unfolding bitmap_find_next_set bitmap_find_next_clear bitmap_find_first_set
      bitmap_find_first_clear
  bitmap_find_lem = (
    find_next_storage _ d bits start,
    find_next_storage _ d bits start,
    find_next_storage _ d bits 0,
    find_next_storage _ d bits 0,
  )
