-- ===== src/Bitmap/Laws.antt =====
-- What each writing operation of bitmap.c does to every bit.
use mini_unix.Base.{
  ℕ, zero, suc, ◌+◌, ◌%◌, ◌^◌, ◌≤◌, ◌≡◌, refl, Bool, true, false, not, ◌&&◌, Option, none, some,
  arith, ltb, leb, ◌==◌, if◌then◌else◌,
}
use mini_unix.Bitmap.{
  Bitmap, change_bit, bitmap_set, bitmap_clear, bitmap_toggle, is_set, bitmap_assign,
  bitmap_test_clear, range_loop, bitmap_set_range, bitmap_clear_range,
}
use mini_unix.Bitmap.{and_not}
use mini_unix.Base.{bit_or}
use mini_unix.Bitmap.Byte.{or-ByteOp, and_not-ByteOp, xor-ByteOp}
use mini_unix.Bitmap.Bits.{IsValid, reach, change_bit-IsValid, is_set-change_bit}

reach-change_storage :
    (op : ℕ → ℕ → ℕ) (b : Bitmap) (i : ℕ) → reach (change_bit op (some b) i) ≡ reach (some b)
unfolding change_bit
reach-change_storage op b i = ground arith

reach-change_bit :
    (op : ℕ → ℕ → ℕ) (p : Option Bitmap) (i : ℕ) → reach (change_bit op p i) ≡ reach p
unfolding change_bit
reach-change_bit op none i = refl
reach-change_bit op (some b) i = reach-change_storage op b i

module _ (p : Option Bitmap) (i j : ℕ) (v : IsValid p) where
  -- On a valid bitmap `bitmap_set` sets the bit at its index, if that is in range, and changes no
  -- other bit; out of range or behind NULL it changes none.
  pub is_set-bitmap_set :
      is_set (bitmap_set p i) j ≡ (if (i == j) && ltb i (reach p) then true else is_set p j)
  unfolding bitmap_set
  is_set-bitmap_set = is_set-change_bit or-ByteOp p i j v

  -- The same for `bitmap_clear`.
  pub is_set-bitmap_clear :
      is_set (bitmap_clear p i) j ≡ (if (i == j) && ltb i (reach p) then false else is_set p j)
  unfolding bitmap_clear
  is_set-bitmap_clear = is_set-change_bit and_not-ByteOp p i j v

  -- The same for `bitmap_toggle`.
  pub is_set-bitmap_toggle :
      is_set (bitmap_toggle p i) j
      ≡ (if (i == j) && ltb i (reach p) then not (is_set p j) else is_set p j)
  unfolding bitmap_toggle
  is_set-bitmap_toggle = is_set-change_bit xor-ByteOp p i j v

  pub is_set-bitmap_assign :
      (value : ℕ)
      → is_set (bitmap_assign p i value) j
        ≡ (if (i == j) && ltb i (reach p) then not (value == 0) else is_set p j)
  unfolding bitmap_assign
  is_set-bitmap_assign value = ground (arith, is_set-bitmap_set, is_set-bitmap_clear)

  pub bitmap_test_clear_lem :
      let (was, p') = bitmap_test_clear p i in
      (not (was == 0) ≡ is_set p i)
      × (is_set p' j ≡ (if (i == j) && ltb i (reach p) then false else is_set p j))
  unfolding bitmap_test_clear is_set
  bitmap_test_clear_lem = (refl, is_set-bitmap_clear)

module _ (op : Option Bitmap → ℕ → Option Bitmap) (to : Bool)
    (keep : (p : Option Bitmap) (i : ℕ) → IsValid p → IsValid (op p i))
    (same : (p : Option Bitmap) (i : ℕ) → reach (op p i) ≡ reach p)
    (bit : (p : Option Bitmap) (i j : ℕ)
      → IsValid p
      → is_set (op p i) j ≡ (if (i == j) && ltb i (reach p) then to else is_set p j)) where
  is_set-range_loop :
      (n : ℕ) (p : Option Bitmap) (start i j : ℕ)
      → IsValid p
      → start + (i + n) ≤ 2 ^ 32
      → is_set (range_loop op n p start i) j ≡ (
          if leb (start + i) j && ltb j (start + (i + n)) && ltb j (reach p)
          then to
          else is_set p j)
  unfolding range_loop
  is_set-range_loop zero p start i j v fits = ground arith
  is_set-range_loop (suc n) p start i j v fits = ground (
    arith,
    is_set-range_loop n (op p ((start + i) % 2 ^ 32)) start (i + 1) j
        (keep p ((start + i) % 2 ^ 32) v) (omega arith),
    same p ((start + i) % 2 ^ 32),
    bit p ((start + i) % 2 ^ 32) j v,
  )

  range_loop-IsValid :
      (n : ℕ) (p : Option Bitmap) (start i : ℕ) → IsValid p → IsValid (range_loop op n p start i)
  unfolding range_loop
  range_loop-IsValid zero p start i v = v
  range_loop-IsValid (suc n) p start i v =
      range_loop-IsValid n (op p ((start + i) % 2 ^ 32)) start (i + 1)
        (keep p ((start + i) % 2 ^ 32) v)

pub bitmap_set-IsValid : (p : Option Bitmap) (i : ℕ) → IsValid p → IsValid (bitmap_set p i)
unfolding bitmap_set
bitmap_set-IsValid p i v = change_bit-IsValid or-ByteOp p i v

pub bitmap_clear-IsValid : (p : Option Bitmap) (i : ℕ) → IsValid p → IsValid (bitmap_clear p i)
unfolding bitmap_clear
bitmap_clear-IsValid p i v = change_bit-IsValid and_not-ByteOp p i v

pub reach-bitmap_set : (p : Option Bitmap) (i : ℕ) → reach (bitmap_set p i) ≡ reach p
unfolding bitmap_set
reach-bitmap_set p i = reach-change_bit bit_or p i

pub reach-bitmap_clear : (p : Option Bitmap) (i : ℕ) → reach (bitmap_clear p i) ≡ reach p
unfolding bitmap_clear
reach-bitmap_clear p i = reach-change_bit and_not p i

-- If `start + count` does not pass 2^32, `bitmap_set_range` sets and `bitmap_clear_range` clears
-- the bits of `[start, start + count)` that are in range and changes no other bit; both keep the
-- bitmap valid.
pub bitmap_range_lem :
    (p : Option Bitmap) (start count j : ℕ)
    → IsValid p
    → start + count ≤ 2 ^ 32
    → let at = leb start j && ltb j (start + count) && ltb j (reach p) in
      (is_set (bitmap_set_range p start count) j ≡ (if at then true else is_set p j))
      × (is_set (bitmap_clear_range p start count) j ≡ (if at then false else is_set p j))
      × IsValid (bitmap_set_range p start count)
      × IsValid (bitmap_clear_range p start count)
unfolding bitmap_set_range bitmap_clear_range
bitmap_range_lem p start count j v fits = (
  ground (
    arith,
    is_set-range_loop bitmap_set true bitmap_set-IsValid reach-bitmap_set is_set-bitmap_set count p
        start 0 j v (omega arith),
  ),
  ground (
    arith,
    is_set-range_loop bitmap_clear false bitmap_clear-IsValid reach-bitmap_clear is_set-bitmap_clear
        count p start 0 j v (omega arith),
  ),
  range_loop-IsValid bitmap_set true bitmap_set-IsValid reach-bitmap_set is_set-bitmap_set count p
      start 0 v,
  range_loop-IsValid bitmap_clear false bitmap_clear-IsValid reach-bitmap_clear is_set-bitmap_clear
      count p start 0 v,
)
