-- ===== src/Bitmap/Query/Count.antt =====
-- `bitmap_count_set`, `bitmap_count_clear`, `bitmap_empty` and `bitmap_full`.
use mini_unix.Base.{
  ℕ, zero, suc, ◌+◌, ◌^◌, ◌≤◌, ◌<◌, ◌≡◌, ◌↔◌, refl, Bool, true, false, List, inl, inr, arith, ◌==◌,
  if◌then◌else◌, Bool-cases, ==_eq, ◌≢◌,
}
use mini_unix.Base.{◌||◌, ◌&&◌, not, leb, ltb, ltb→lt, set, get_or, bit_or}
use mini_unix.Bitmap.{byte_idx, bit_mask, bitmap_set, change_bit}
use mini_unix.Bitmap.Bits.{Storage}
use mini_unix.Bitmap.Laws.{is_set-bitmap_set}
use native.Mathlib.Numerals.{add-one}
use mini_unix.Bitmap.{bitmap, is_set}
use mini_unix.Bitmap.Query.{
  count_loop, bitmap_count_set, bitmap_count_clear, bitmap_empty, bitmap_full,
}

-- how many numbers below `n` pass the test
unfoldable pub count_below : (ℕ → Bool) → ℕ → ℕ
count_below f zero = 0
count_below f (suc n) = count_below f n + (if f n then 1 else 0)

count_below-le : (f : ℕ → Bool) (n : ℕ) → count_below f n ≤ n
unfolding count_below
count_below-le f zero = omega arith
count_below-le f (suc n) = ground (arith, count_below-le f n)

count_below-none : (f : ℕ → Bool) (n : ℕ) → ((j : ℕ) → j < n → f j ≡ false) → count_below f n ≡ 0
unfolding count_below
count_below-none f zero h = refl
count_below-none f (suc n) h =
    ground (arith, h n (omega arith), count_below-none f n (λ j l. h j (omega arith)))

none_of_count : (f : ℕ → Bool) (n : ℕ) → count_below f n ≡ 0 → (j : ℕ) → j < n → f j ≡ false
unfolding count_below
none_of_count f zero e j l = absurd (omega arith)
none_of_count f (suc n) e j l = elim (Bool-cases (j == n)) [
  | inl last ↦ ground arith
  | inr before ↦ none_of_count f n (ground arith) j (ground arith)
]

count_below-all : (f : ℕ → Bool) (n : ℕ) → ((j : ℕ) → j < n → f j ≡ true) → count_below f n ≡ n
unfolding count_below
count_below-all f zero h = refl
count_below-all f (suc n) h =
    ground (arith, h n (omega arith), count_below-all f n (λ j l. h j (omega arith)))

all_of_count : (f : ℕ → Bool) (n : ℕ) → count_below f n ≡ n → (j : ℕ) → j < n → f j ≡ true
unfolding count_below
all_of_count f zero e j l = absurd (omega arith)
all_of_count f (suc n) e j l = elim (Bool-cases (j == n)) [
  | inl last ↦ ground (arith, count_below-le f n)
  | inr before ↦ all_of_count f n (ground (arith, count_below-le f n)) j (ground arith)
]

count_below-same :
    (f g : ℕ → Bool) (n : ℕ) → ((j : ℕ) → j < n → g j ≡ f j) → count_below g n ≡ count_below f n
unfolding count_below
count_below-same f g zero same = refl
count_below-same f g (suc n) same =
    ground (arith, same n (omega arith), count_below-same f g n (λ j l. same j (omega arith)))

-- To change a test at one number changes the count by that number.
count_below-change :
    (f g : ℕ → Bool) (n i : ℕ)
    → ((j : ℕ) → j ≢ i → g j ≡ f j)
    → i < n
    → count_below g n + (if f i then 1 else 0) ≡ count_below f n + (if g i then 1 else 0)
unfolding count_below
count_below-change f g zero i same lt = absurd (omega arith)
count_below-change f g (suc n) i same lt = elim (Bool-cases (i == n)) [
  | inl last ↦
      let e = ==_eq i n last in
      rw e (omega (arith, count_below-same f g n (λ j l. same j (omega arith))))
  | inr before ↦
      ground (arith, same n (ground arith), count_below-change f g n i same (ground arith))
]

count_loop-count_below :
    (f : ℕ → Bool) (n i j c : ℕ)
    → i + n ≡ j
    → count_loop f n i c + count_below f i ≡ c + count_below f j
unfolding count_loop
count_loop-count_below f zero i j c e = ground arith
count_loop-count_below f (suc n) i j c e =
    ground
      (arith, count_loop-count_below f n (i + 1) j (if f i then c + 1 else c) (omega arith), step)
  where
    step : count_below f (i + 1) ≡ count_below f i + (if f i then 1 else 0)
    step = rw add-one (unfold count_below in refl)

bitmap_count_set-count_below :
    (d : List ℕ) (bits : ℕ)
    → bitmap_count_set (bitmap d bits) ≡ count_below (is_set (bitmap d bits)) bits
unfolding bitmap_count_set count_below
bitmap_count_set-count_below d bits =
    ground (arith, count_loop-count_below (is_set (bitmap d bits)) bits 0 bits 0 (omega arith))

module _ (d : List ℕ) (bits : ℕ) where
  -- On a bitmap of fewer than 2^32 bits with an array, `bitmap_count_set` counts the set bits,
  -- `bitmap_count_clear` the others, and `bitmap_empty` and `bitmap_full` return 1 exactly when
  -- every bit is clear, or set.
  pub bitmap_count_lem :
      bits < 2 ^ 32
      → let p = bitmap d bits in
        (bitmap_count_set p ≡ count_below (is_set p) bits)
        × (bitmap_count_set p + bitmap_count_clear p ≡ bits)
        × ((bitmap_empty p ≡ 1) ↔ ((j : ℕ) → j < bits → is_set p j ≡ false))
        × ((bitmap_full p ≡ 1) ↔ ((j : ℕ) → j < bits → is_set p j ≡ true))
  unfolding bitmap_count_clear bitmap_empty bitmap_full
  bitmap_count_lem small =
      let p = bitmap d bits in
      let counted = bitmap_count_set-count_below d bits in
      let bound = count_below-le (is_set p) bits in
      (
        counted,
        omega (arith, counted, bound),
        (
          λ e. none_of_count (is_set p) bits (ground (arith, counted)),
          λ h. ground (arith, counted, count_below-none (is_set p) bits h),
        ),
        (
          λ e. all_of_count (is_set p) bits (ground (arith, counted, bound)),
          λ h. ground (arith, counted, count_below-all (is_set p) bits h),
        ),
      )

-- Writing one bit of a bitmap leaves a bitmap of the same size behind.
bitmap_set-bitmap :
    (d : List ℕ) (bits i : ℕ) → (d' : List ℕ) × (bitmap_set (bitmap d bits) i ≡ bitmap d' bits)
unfolding bitmap_set change_bit
bitmap_set-bitmap d bits i = elim (Bool-cases ((bits == 0) || leb bits i)) [
  | inl out ↦ (d, ground arith)
  | inr within ↦ (set d (byte_idx i) (bit_or (get_or d (byte_idx i) 0) (bit_mask i)), ground arith)
]

-- On a valid bitmap with an array, setting a bit that is in range and clear raises
-- `bitmap_count_set` by one; setting any other leaves the count as it is.
pub bitmap_count_set-bitmap_set :
    {d : List ℕ} {bits : ℕ} (i : ℕ)
    → Storage d bits
    → bitmap_count_set (bitmap_set (bitmap d bits) i)
      ≡ bitmap_count_set (bitmap d bits)
        + (if ltb i bits && not (is_set (bitmap d bits) i) then 1 else 0)
bitmap_count_set-bitmap_set {d} {bits} i v =
    let p = bitmap d bits in
    let (d', e) = bitmap_set-bitmap d bits i in
    let bit = λ (j : ℕ). is_set-bitmap_set p i j v in
    let after : bitmap_count_set (bitmap_set p i) ≡ count_below (is_set (bitmap_set p i)) bits =
      rw e (bitmap_count_set-count_below d' bits) in
    rw (after, bitmap_count_set-count_below d bits)
      (elim (Bool-cases (ltb i bits)) [
        | inl within ↦ ground (
          arith,
          bit i,
          count_below-change (is_set p) (is_set (bitmap_set p i)) bits i
              (λ j ne. ground (arith, bit j)) (ltb→lt i bits within),
        )
        | inr out ↦ ground (
          arith,
          count_below-same (is_set p) (is_set (bitmap_set p i)) bits (λ j l. ground (arith, bit j)),
        )
      ])
