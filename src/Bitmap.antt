-- ===== src/Bitmap.antt =====
-- kernel/lib/bitmap.c and include/lib/bitmap.h. A `struct bitmap *` is an `Option Bitmap`, `none` for
-- NULL; the array behind `data` is a list of bytes, `none` for NULL. An operation that writes through
-- its pointer returns what the pointer shows afterwards. `size_t` has 32 bits (the kernel is built
-- with -m32).
pub mod Byte
pub mod Bits
pub mod Laws
pub mod Fill
pub mod Query
use mini_unix.Base.{
  ℕ, zero, suc, ◌+◌, ◌-◌, ◌*◌, ◌/◌, ◌%◌, ◌^◌, Bool, true, false, not, ◌||◌, Option, none, some,
  List, bit_and, bit_or, bit_xor, ltb, leb, ◌==◌, if◌then◌else◌, get_or, set,
}

pub record Bitmap : Type 0 where
  pub bytes : Option (List ℕ)
  pub bits : ℕ

-- A pointer to a bitmap that has an array.
abbrev pub bitmap : List ℕ → ℕ → Option Bitmap
bitmap d bits = some (record { bytes = some d; bits = bits })

abbrev pub size_mod : ℕ
size_mod = 2 ^ 32

-- `BITMAP_ERROR`, which is `SIZE_MAX`
abbrev pub bitmap_error : ℕ
bitmap_error = 2 ^ 32 - 1

abbrev pub byte_idx : ℕ → ℕ
byte_idx bit = bit / 8

-- `1 << BIT_OFFSET(bit)`
abbrev pub bit_mask : ℕ → ℕ
bit_mask bit = 2 ^ (bit % 8)

unfoldable pub bitmap_size : ℕ → ℕ
bitmap_size bits = (bits + 7) % size_mod / 8

pub bitmap_init : Option Bitmap → Option (List ℕ) → ℕ → Option Bitmap
bitmap_init none d bits = none
bitmap_init (some b) d bits = some (record { bytes = d; bits = bits })

-- `for (i = 0; i < bytes; i++) data[i] = v`, with `n` rounds left
fill_loop : ℕ → ℕ → ℕ → List ℕ → List ℕ
fill_loop zero i v d = d
fill_loop (suc n) i v d = fill_loop n (i + 1) v (set d i v)

pub bitmap_zero : Option Bitmap → Option Bitmap
bitmap_zero none = none
bitmap_zero (some b) = some (elim b.bytes [
  | none ↦ b
  | some d ↦
      if b.bits == 0 then b else record b { bytes = some (fill_loop (bitmap_size b.bits) 0 0 d) }
])

-- `if (remainder != 0) data[bytes-1] &= (1 << remainder) - 1`
trim : ℕ → List ℕ → List ℕ
trim bits d =
    let last = bitmap_size bits - 1 in
    if bits % 8 == 0 then d else set d last (bit_and (get_or d last 0) (2 ^ (bits % 8) - 1))

pub bitmap_fill : Option Bitmap → Option Bitmap
bitmap_fill none = none
bitmap_fill (some b) = some (elim b.bytes [
  | none ↦ b
  | some d ↦
      if b.bits == 0
      then b
      else record b { bytes = some (trim b.bits (fill_loop (bitmap_size b.bits) 0 0xff d)) }
])

-- The guards and the write that `bitmap_set`, `bitmap_clear` and `bitmap_toggle` share: `op` gets
-- `data[BYTE_IDX(index)]` and `1 << BIT_OFFSET(index)`.
unfoldable pub change_bit : (ℕ → ℕ → ℕ) → Option Bitmap → ℕ → Option Bitmap
change_bit op none index = none
change_bit op (some b) index = some (elim b.bytes [
  | none ↦ b
  | some d ↦ if b.bits == 0 then b else if leb b.bits index then b else record b {
    bytes = some (set d (byte_idx index) (op (get_or d (byte_idx index) 0) (bit_mask index)));
  }
])

unfoldable pub bitmap_set : Option Bitmap → ℕ → Option Bitmap
bitmap_set = change_bit bit_or

-- `byte & ~mask`, stored back into a `uint8_t`
abbrev pub and_not : ℕ → ℕ → ℕ
and_not byte mask = bit_and byte (255 - mask)

pub bitmap_clear : Option Bitmap → ℕ → Option Bitmap
bitmap_clear = change_bit and_not

pub bitmap_toggle : Option Bitmap → ℕ → Option Bitmap
bitmap_toggle = change_bit bit_xor

pub bitmap_test : Option Bitmap → ℕ → ℕ
bitmap_test none index = 0
bitmap_test (some b) index = elim b.bytes [
  | none ↦ 0
  | some d ↦
      if b.bits == 0
      then 0
      else if leb b.bits index
      then 0
      else bit_and (get_or d (byte_idx index) 0) (bit_mask index)
]

-- The result of `bitmap_test` as a condition.
unfoldable pub is_set : Option Bitmap → ℕ → Bool
is_set p index = not (bitmap_test p index == 0)

pub bitmap_assign : Option Bitmap → ℕ → ℕ → Option Bitmap
bitmap_assign p index value = if value == 0 then bitmap_clear p index else bitmap_set p index

pub bitmap_test_clear : Option Bitmap → ℕ → ℕ × Option Bitmap
bitmap_test_clear p index = (bitmap_test p index, bitmap_clear p index)

-- `for (i = 0; i < count; i++) op(bitmap, start + i)`, with `n` rounds left. The sum wraps.
pub range_loop : (Option Bitmap → ℕ → Option Bitmap) → ℕ → Option Bitmap → ℕ → ℕ → Option Bitmap
range_loop op zero p start i = p
range_loop op (suc n) p start i = range_loop op n (op p ((start + i) % size_mod)) start (i + 1)

pub bitmap_set_range : Option Bitmap → ℕ → ℕ → Option Bitmap
bitmap_set_range p start count = range_loop bitmap_set count p start 0

pub bitmap_clear_range : Option Bitmap → ℕ → ℕ → Option Bitmap
bitmap_clear_range p start count = range_loop bitmap_clear count p start 0
