-- ===== src/Bitmap/Query/Area.antt =====
-- `bitmap_find_zero_area` returns the first run of clear bits that is long enough.
use mini_unix.Base.{
  ℕ, zero, suc, ◌+◌, ◌-◌, ◌≤◌, ◌<◌, ◌≡◌, ◌≢◌, refl, Bool, true, false, ◌||◌, Option, List, inl, inr,
  arith, ltb, ◌==◌, if◌then◌else◌, Bool-cases, ==_eq, ◌⊎◌,
}
use mini_unix.Bitmap.{Bitmap, bitmap, bitmap_error, is_set}
use mini_unix.Bitmap.Query.{area_loop, bitmap_find_zero_area}

-- `[s, s + count)` is clear.
abbrev pub IsArea : (ℕ → Bool) → ℕ → ℕ → Type 0
IsArea bit count s = (j : ℕ) → s ≤ j → j < s + count → bit j ≡ false

-- `r` starts the first clear area within `bits`, or is `bits` where there is none.
pub record FirstArea (bit : ℕ → Bool) (count bits r : ℕ) : Type 0 where
  pub none_before : (s : ℕ) → s < r → s + count ≤ bits → ¬ IsArea bit count s
  pub found : r ≢ bits → (r + count ≤ bits) × IsArea bit count r

-- Before round `i` the last `run` bits are clear, one bit before them is set, and no area has
-- ended yet.
record Scanned (bit : ℕ → Bool) (count i run first : ℕ) : Type 0 where
  short : run < count
  seen : run ≤ i
  clear : (j : ℕ) → i ≤ j + run → j < i → bit j ≡ false
  edge : (j : ℕ) → j + run + 1 ≡ i → bit j ≡ true
  start : run ≢ 0 → first + run ≡ i
  no_area : (s : ℕ) → s + count ≤ i → ¬ IsArea bit count s

true≢false_at : {b : Bool} → b ≡ true → ¬ (b ≡ false)
true≢false_at t f = cc

-- The value that `start_idx` has after a clear bit.
abbrev first_of_run : ℕ → ℕ → ℕ → ℕ
first_of_run i run first = if run == 0 then i else first

module _ (p : Option Bitmap) (count bits : ℕ) where
  first_of_run-add :
      (i run first : ℕ) → Scanned (is_set p) count i run first → first_of_run i run first + run ≡ i
  first_of_run-add i run first c = ground (arith, c.start)

  Scanned-set :
      (i run first : ℕ)
      → Scanned (is_set p) count i run first
      → is_set p i ≡ true
      → Scanned (is_set p) count (i + 1) 0 first
  Scanned-set i run first c e = record {
    short = omega (arith, c.short);
    seen = omega arith;
    clear = λ j a b. absurd (omega arith);
    edge = λ j a. ground arith;
    start = λ ne. absurd (ne refl);
    no_area = λ s h area. elim (Bool-cases (s + count == i + 1)) [
      | inl ends ↦ true≢false_at e (area i (ground arith) (ground arith))
      | inr before ↦ c.no_area s (ground arith) area
    ];
  }

  clear_up_to :
      (i run first : ℕ)
      → Scanned (is_set p) count i run first
      → is_set p i ≡ false
      → (j : ℕ) → i ≤ j + run
      → j < i + 1
      → is_set p j ≡ false
  clear_up_to i run first c e j a b = elim (Bool-cases (i == j)) [
    | inl here ↦ ground arith
    | inr before ↦ c.clear j a (ground arith)
  ]

  Scanned-clear :
      (i run first : ℕ)
      → Scanned (is_set p) count i run first
      → is_set p i ≡ false
      → (run + 1 == count) ≡ false
      → Scanned (is_set p) count (i + 1) (run + 1) (first_of_run i run first)
  Scanned-clear i run first c e ne = record {
    short = ground (arith, c.short);
    seen = omega (arith, c.seen);
    clear = λ j a b. clear_up_to i run first c e j (omega arith) b;
    edge = λ j a. c.edge j (omega arith);
    start = λ _. omega (arith, first_of_run-add i run first c);
    no_area = λ s h area. elim (Bool-cases (s + count == i + 1)) [
      | inl ends ↦
          true≢false_at (c.edge (i - run - 1) (ground (arith, c.short)))
            (area (i - run - 1) (ground (arith, c.short)) (ground (arith, c.short)))
      | inr before ↦ c.no_area s (ground arith) area
    ];
  }

  found-FirstArea :
      (i run first : ℕ)
      → i < bits
      → Scanned (is_set p) count i run first
      → is_set p i ≡ false
      → run + 1 ≡ count
      → FirstArea (is_set p) count bits (first_of_run i run first)
  found-FirstArea i run first lt c e full =
      let begins = first_of_run-add i run first c in
      record {
        none_before = λ s before fits. c.no_area s (omega arith);
        found =
            λ _. (omega arith, λ j a b. clear_up_to i run first c e j (omega arith) (omega arith));
      }

  area_loop-FirstArea :
      (n i run first : ℕ)
      → i + n ≡ bits
      → Scanned (is_set p) count i run first
      → FirstArea (is_set p) count bits (area_loop p count n i run first bits)
  unfolding area_loop
  area_loop-FirstArea zero i run first e c = record {
    none_before = λ s lt fits. c.no_area s (omega arith);
    found = λ ne. absurd (ne refl);
  }
  area_loop-FirstArea (suc n) i run first e c = elim (Bool-cases (is_set p i)) [
    | inl used ↦
        rw used
          (area_loop-FirstArea n (i + 1) 0 first (omega arith) (Scanned-set i run first c used))
    | inr free ↦ rw free (elim (Bool-cases (run + 1 == count)) [
      | inl full ↦
          rw full (found-FirstArea i run first (omega arith) c free (==_eq (run + 1) count full))
      | inr short ↦ rw short (
          area_loop-FirstArea n (i + 1) (run + 1) (first_of_run i run first) (omega arith)
            (Scanned-clear i run first c free short))
    ])
  ]

  Scanned-start : 0 < count → Scanned (is_set p) count 0 0 0
  Scanned-start pos = record {
    short = pos;
    seen = omega arith;
    clear = λ j a b. absurd (omega arith);
    edge = λ j a. absurd (omega arith);
    start = λ ne. absurd (ne refl);
    no_area = λ s h area. omega arith;
  }

-- For a count between 1 and the number of bits of a bitmap with an array, `bitmap_find_zero_area`
-- returns the start of the first run of `count` clear bits within the bitmap, and the number of
-- bits if there is none; for any other count it returns `BITMAP_ERROR`.
pub bitmap_find_zero_area_lem :
    (d : List ℕ) (bits count : ℕ)
    → let p = bitmap d bits in
      (0 < count → count ≤ bits → FirstArea (is_set p) count bits (bitmap_find_zero_area p count))
      × ((count ≡ 0) ⊎ (bits < count) → bitmap_find_zero_area p count ≡ bitmap_error)
unfolding bitmap_find_zero_area
bitmap_find_zero_area_lem d bits count = (
  λ pos fits.
      let given : ((count == 0) || ltb bits count) ≡ false = ground arith in
      rw given (
        area_loop-FirstArea _ count bits bits 0 0 0 (omega arith) (Scanned-start _ count bits pos)),
  λ h. ground arith,
)
