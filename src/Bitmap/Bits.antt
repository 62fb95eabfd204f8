-- ===== src/Bitmap/Bits.antt =====
-- The operations of bitmap.c on one bit, seen through `bitmap_test`.
use mini_unix.Base.{
  ℕ, ◌+◌, ◌*◌, ◌/◌, ◌%◌, ◌^◌, ◌≤◌, ◌<◌, ◌≡◌, Bool, false, ◌&&◌, Option, none, some, List, inl, inr,
  arith, ltb, leb, ◌==◌, if◌then◌else◌, Bool-cases, length, get_or, set, length-set,
  get_or-set_self, get_or-set_ne, get_or-set-lt, ==_eq, ltb→lt,
}
use mini_unix.Bitmap.{Bitmap, byte_idx, bit_mask, change_bit, bitmap_test, is_set}
use mini_unix.Bitmap.Byte.{byte_bit, ByteOp}

-- What the caller of `bitmap_init` owes: an array of bytes that is long enough for `bits`, and a
-- number of bits for which `bits + 7` does not wrap.
pub record Storage (d : List ℕ) (bits : ℕ) : Type 0 where
  pub fits : bits ≤ 8 * length d
  pub small : bits + 7 < 2 ^ 32
  pub byte : (i : ℕ) → get_or d i 0 < 256

abbrev pub StorageOf : Option (List ℕ) → ℕ → Type 0
StorageOf none bits = Unit {0}
StorageOf (some d) bits = Storage d bits

abbrev pub IsValid : Option Bitmap → Type 0
IsValid none = Unit {0}
IsValid (some b) = StorageOf b.bytes b.bits

abbrev pub bits_of : Option (List ℕ) → ℕ → ℕ
bits_of none bits = 0
bits_of (some d) bits = bits

-- The number of bits that the operations can reach: none behind a NULL pointer.
abbrev pub reach : Option Bitmap → ℕ
reach none = 0
reach (some b) = bits_of b.bytes b.bits

abbrev pub raw_bit : List ℕ → ℕ → Bool
raw_bit d j = byte_bit (get_or d (byte_idx j) 0) (j % 8)

-- bit `j` of the array, in range or not
abbrev pub array_bit : Option Bitmap → ℕ → Bool
array_bit none j = false
array_bit (some b) j = elim b.bytes [ none ↦ false | some d ↦ raw_bit d j ]

pub is_set_lem :
    (d : List ℕ) (bits j : ℕ)
    → is_set (some (record { bytes = some d; bits = bits })) j ≡ (ltb j bits && raw_bit d j)
unfolding is_set bitmap_test
is_set_lem d bits j = ground arith

-- An index past the end tests as clear.
pub is_set-out : (b : Bitmap) (j : ℕ) → b.bits ≤ j → is_set (some b) j ≡ false
unfolding is_set bitmap_test
is_set-out b j out = ground arith

module _ {op : ℕ → ℕ → ℕ} {f : Bool → Bool} (l : ByteOp op f) where
  raw_bit-set :
      (d : List ℕ) (i j : ℕ)
      → i < 8 * length d
      → get_or d (byte_idx i) 0 < 256
      → raw_bit (set d (byte_idx i) (op (get_or d (byte_idx i) 0) (bit_mask i))) j
        ≡ (if i == j then f (raw_bit d j) else raw_bit d j)
  raw_bit-set d i j lt byte = elim (Bool-cases (i / 8 == j / 8)) [
    | inl same ↦
        let e = ==_eq (i / 8) (j / 8) same in
        rw (← e, get_or-set_self d (i / 8) (op (get_or d (i / 8) 0) (bit_mask i)) 0 (omega arith))
          (ground (arith, l.bit (get_or d (i / 8) 0) (i % 8) (j % 8)))
    | inr other ↦
        rw (get_or-set_ne d (i / 8) (j / 8) (op (get_or d (i / 8) 0) (bit_mask i)) 0 (ground arith))
          (ground arith)
  ]

  Storage-set :
      {d : List ℕ} {bits : ℕ} (i : ℕ)
      → Storage d bits
      → Storage (set d (byte_idx i) (op (get_or d (byte_idx i) 0) (bit_mask i))) bits
  Storage-set {d} i v = record {
    fits =
        omega
          (arith, v.fits, length-set d (byte_idx i) (op (get_or d (byte_idx i) 0) (bit_mask i)));
    small = v.small;
    byte =
        get_or-set-lt d (byte_idx i) (op (get_or d (byte_idx i) 0) (bit_mask i)) 256
          (l.in_range (get_or d (byte_idx i) 0) (i % 8) (v.byte (byte_idx i)) (omega arith)) v.byte;
  }

  change_bit-storage :
      (bytes : Option (List ℕ)) (bits i : ℕ)
      → StorageOf bytes bits
      → IsValid (change_bit op (some (record { bytes = bytes; bits = bits })) i)
  unfolding change_bit
  change_bit-storage none bits i v = tt
  change_bit-storage (some d) bits i v = elim (Bool-cases (bits == 0)) [
    | inl no_bits ↦ rw no_bits v
    | inr some_bits ↦ rw some_bits (elim (Bool-cases (leb bits i)) [
      | inl out ↦ rw out v
      | inr within ↦ rw within (Storage-set i v)
    ])
  ]

  pub change_bit-IsValid : (p : Option Bitmap) (i : ℕ) → IsValid p → IsValid (change_bit op p i)
  unfolding change_bit
  change_bit-IsValid none i v = tt
  change_bit-IsValid (some b) i v = change_bit-storage b.bytes b.bits i v

  is_set-change_storage :
      (bytes : Option (List ℕ)) (bits i j : ℕ)
      → StorageOf bytes bits
      → let b : Bitmap = record { bytes = bytes; bits = bits } in
        is_set (change_bit op (some b) i) j ≡ (
          if (i == j) && ltb i (bits_of bytes bits)
          then f (is_set (some b) j)
          else is_set (some b) j)
  unfolding change_bit
  is_set-change_storage none bits i j v = ground arith
  is_set-change_storage (some d) bits i j v = elim (Bool-cases (ltb i bits)) [
    | inr out ↦ ground arith
    | inl within ↦
        let nonzero : (bits == 0) ≡ false = ground arith in
        let below : leb bits i ≡ false = ground arith in
        rw (nonzero, below, is_set_lem)
          (rw is_set_lem (
            ground (
              arith,
              raw_bit-set d i j (omega (arith, ltb→lt i bits within, v.fits)) (v.byte (byte_idx i)),
            )))
  ]

  pub is_set-change_bit :
      (p : Option Bitmap) (i j : ℕ)
      → IsValid p
      → is_set (change_bit op p i) j
        ≡ (if (i == j) && ltb i (reach p) then f (is_set p j) else is_set p j)
  unfolding change_bit
  is_set-change_bit none i j v = ground arith
  is_set-change_bit (some b) i j v = is_set-change_storage b.bytes b.bits i j v
