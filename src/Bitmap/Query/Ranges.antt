-- ===== src/Bitmap/Query/Ranges.antt =====
-- `bitmap_test_range` and `bitmap_test_range_clear` decide whether a range is set or clear.
use mini_unix.Base.{
  ℕ, zero, suc, ◌+◌, ◌%◌, ◌^◌, ◌≤◌, ◌<◌, ◌≡◌, ◌↔◌, refl, ap, Bool, true, false, not, some, inl, inr,
  arith, ltb, ◌==◌, Bool-cases,
}
use mini_unix.Bitmap.{Bitmap, is_set}
use mini_unix.Bitmap.Bits.{is_set-out}
use mini_unix.Bitmap.Query.{range_test_loop, bitmap_test_range, bitmap_test_range_clear}

-- The loop that ends with 1 has met no index in the range at which the test holds.
range_test_loop_sound :
    (test : ℕ → Bool) (n start i j : ℕ)
    → start + (i + n) ≤ 2 ^ 32
    → range_test_loop test n start i ≡ 1
    → start + i ≤ j
    → j < start + (i + n)
    → test j ≡ false
unfolding range_test_loop
range_test_loop_sound test zero start i j fits e lo hi = absurd (omega arith)
range_test_loop_sound test (suc n) start i j fits e lo hi =
    let here : (start + i) % 2 ^ 32 ≡ start + i = omega arith in
    elim (Bool-cases (test (start + i))) [
      | inl bad ↦ absurd (ground (arith, bad))
      | inr good ↦ elim (Bool-cases (start + i == j)) [
        | inl at ↦ ground arith
        | inr later ↦
            range_test_loop_sound test n start (i + 1) j (omega arith) (rw (here, good) at e)
              (ground arith) (omega arith)
      ]
    ]

range_test_loop_complete :
    (test : ℕ → Bool) (n start i : ℕ)
    → start + (i + n) ≤ 2 ^ 32
    → ((j : ℕ) → start + i ≤ j → j < start + (i + n) → test j ≡ false)
    → range_test_loop test n start i ≡ 1
unfolding range_test_loop
range_test_loop_complete test zero start i fits h = refl
range_test_loop_complete test (suc n) start i fits h =
    let here : (start + i) % 2 ^ 32 ≡ start + i = omega arith in
    rw (here, h (start + i) (omega arith) (omega arith))
      (range_test_loop_complete test n start (i + 1) (omega arith)
        λ j lo hi. h j (omega arith) (omega arith))

abbrev pub Within : (ℕ → Bool) → Bool → ℕ → ℕ → Type 0
Within test b start count = (j : ℕ) → start ≤ j → j < start + count → test j ≡ b

range_test_loop_iff :
    (test : ℕ → Bool) (start count : ℕ)
    → start + count ≤ 2 ^ 32
    → (range_test_loop test count start 0 ≡ 1) ↔ Within test false start count
range_test_loop_iff test start count fits = (
  λ e j lo hi.
      range_test_loop_sound test count start 0 j (omega arith) e (omega arith) (omega arith),
  λ h.
      range_test_loop_complete test count start 0 (omega arith)
        λ j lo hi. h j (omega arith) (omega arith),
)

not-false : (b : Bool) → not b ≡ false → b ≡ true
not-false b h = ground arith

module _ (b : Bitmap) (start count : ℕ) where
  -- Where `start + count` is below 2^32, `bitmap_test_range` (`bitmap_test_range_clear`) returns 1
  -- exactly when the range ends within the bitmap and all its bits are set (clear).
  pub bitmap_test_range_lem :
      start + count < 2 ^ 32
      → ((bitmap_test_range (some b) start count ≡ 1)
          ↔ ((start + count ≤ b.bits) × Within (is_set (some b)) true start count))
        × ((bitmap_test_range_clear (some b) start count ≡ 1)
            ↔ ((start + count ≤ b.bits) × Within (is_set (some b)) false start count))
  unfolding bitmap_test_range bitmap_test_range_clear
  bitmap_test_range_lem small =
      let sum : (start + count) % 2 ^ 32 ≡ start + count = omega arith in
      let all_set = range_test_loop_iff (λ i. not (is_set (some b) i)) start count (omega arith) in
      let all_clear = range_test_loop_iff (is_set (some b)) start count (omega arith) in
      rw sum (elim (Bool-cases (ltb b.bits (start + count))) [
        | inl out ↦ rw out (
          (λ e. absurd (omega arith), λ h. absurd (ground (arith, h.0))),
          (λ e. absurd (omega arith), λ h. absurd (ground (arith, h.0))),
        )
        | inr within ↦ rw within (
          (
            λ e. (ground arith, λ j lo hi. not-false _ (all_set.0 e j lo hi)),
            λ h. all_set.1 (λ j lo hi. ap not (h.1 j lo hi)),
          ),
          (λ e. (ground arith, all_clear.0 e), λ h. all_clear.1 h.1),
        )
      ])

  -- Where `start + count` is 2^32, it wraps to 0, and `bitmap_test_range_clear` calls the range
  -- clear even if all of it lies past the end of the bitmap.
  pub bitmap_test_range_clear_wraps :
      b.bits ≤ start → start + count ≡ 2 ^ 32 → bitmap_test_range_clear (some b) start count ≡ 1
  unfolding bitmap_test_range_clear
  bitmap_test_range_clear_wraps out wraps =
      let sum : (start + count) % 2 ^ 32 ≡ 0 = omega arith in
      let passes : ltb b.bits 0 ≡ false = ground arith in
      rw (sum, passes)
        ((range_test_loop_iff (is_set (some b)) start count (omega arith)).1
          λ j lo hi. is_set-out b j (omega arith))
