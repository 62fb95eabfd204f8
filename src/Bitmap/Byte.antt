-- ===== src/Bitmap/Byte.antt =====
-- One byte of a bitmap: what `|=`, `&= ~`, `^=` and the mask of `bitmap_fill` do to its bits.
use mini_unix.Base.{
  check_from, ℕ, ◌^◌, ◌<◌, ◌≡◌, refl, Bool, true, false, not, ◌&&◌, bit_and, bit_or, bit_xor, arith,
  ltb, ◌==◌, if◌then◌else◌, agree, checked, checked_lem,
}
use mini_unix.Bitmap.{and_not}

-- bit `j` of a byte
abbrev pub byte_bit : ℕ → ℕ → Bool
byte_bit b j = not (bit_and b (2 ^ j) == 0)

-- `op` acts on the bit of the mask by `f` and on no other.
unfoldable acts_by : (ℕ → ℕ → ℕ) → (Bool → Bool) → ℕ → ℕ → ℕ → Bool
acts_by op f b o j =
    ltb (op b (2 ^ o)) 256
    && agree (byte_bit (op b (2 ^ o)) j) (if o == j then f (byte_bit b j) else byte_bit b j)

table : (ℕ → ℕ → ℕ) → (Bool → Bool) → Bool
table op f = checked 256 λ b. checked 8 λ o. checked 8 λ j. acts_by op f b o j

-- An operation on a byte and a mask that keeps bytes bytes and changes the bit of the mask alone.
pub record ByteOp (op : ℕ → ℕ → ℕ) (f : Bool → Bool) : Type 0 where
  pub in_range : (b o : ℕ) → b < 256 → o < 8 → op b (2 ^ o) < 256
  pub bit :
      (b o j : ℕ)
      → b < 256
      → o < 8
      → j < 8
      → byte_bit (op b (2 ^ o)) j ≡ (if o == j then f (byte_bit b j) else byte_bit b j)

module _ (op : ℕ → ℕ → ℕ) (f : Bool → Bool) (checked : table op f ≡ true) where
  table-acts_by : (b o j : ℕ) → b < 256 → o < 8 → j < 8 → acts_by op f b o j ≡ true
  unfolding table
  table-acts_by b o j hb ho hj =
      checked_lem 8 _ j (checked_lem 8 _ o (checked_lem 256 _ b checked hb) ho) hj

  table-ByteOp : ByteOp op f
  unfolding acts_by
  table-ByteOp = record {
    in_range = λ b o hb ho. ground (arith, table-acts_by b o 0 hb ho (omega arith));
    bit = λ b o j hb ho hj. ground (arith, table-acts_by b o j hb ho hj);
  }

or_table : table bit_or (λ _. true) ≡ true
unfolding table acts_by check_from
or_table = refl

and_not-table : table and_not (λ _. false) ≡ true
unfolding table acts_by check_from
and_not-table = refl

xor_table : table bit_xor not ≡ true
unfolding table acts_by check_from
xor_table = refl

pub or-ByteOp : ByteOp bit_or (λ _. true)
or-ByteOp = table-ByteOp _ _ or_table

pub and_not-ByteOp : ByteOp and_not (λ _. false)
and_not-ByteOp = table-ByteOp _ _ and_not-table

pub xor-ByteOp : ByteOp bit_xor not
xor-ByteOp = table-ByteOp _ _ xor_table
