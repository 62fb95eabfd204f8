-- ===== src/Bitmap/Fill.antt =====
-- `bitmap_zero` and `bitmap_fill`.
use mini_unix.Base.{
  check_from, ℕ, zero, suc, ◌+◌, ◌-◌, ◌*◌, ◌/◌, ◌%◌, ◌^◌, ◌≤◌, ◌<◌, ◌≡◌, ◌∙◌, refl, true, false,
  not, ◌&&◌, List, inl, inr, bit_and, arith, ltb, leb, agree, ◌==◌, if◌then◌else◌, Bool-cases,
  length, get_or, set, length-set, get_or-set_self, get_or-set_ne, ==_eq, checked, checked_lem,
}
use mini_unix.Bitmap.{bitmap, bitmap_size, fill_loop, trim, bitmap_zero, bitmap_fill, is_set}
use mini_unix.Bitmap.Byte.{byte_bit}
use mini_unix.Bitmap.Bits.{Storage, raw_bit, array_bit, is_set_lem}

length-fill_loop : (n i v : ℕ) (d : List ℕ) → length (fill_loop n i v d) ≡ length d
unfolding fill_loop
length-fill_loop zero i v d = refl
length-fill_loop (suc n) i v d =
    omega (arith, length-fill_loop n (i + 1) v (set d i v), length-set d i v)

get_or-set_if :
    (d : List ℕ) (i k v : ℕ)
    → i < length d
    → get_or (set d i v) k 0 ≡ (if i == k then v else get_or d k 0)
get_or-set_if d i k v lt = elim (Bool-cases (i == k)) [
  | inl e ↦ rw (e, ← ==_eq i k e) (get_or-set_self d i v 0 lt)
  | inr e ↦ rw e (get_or-set_ne d i k v 0 (ground arith))
]

-- The loop writes the `n` entries from `i` on, and no other.
get_or-fill_loop :
    (n i v k : ℕ) (d : List ℕ)
    → i + n ≤ length d
    → get_or (fill_loop n i v d) k 0 ≡ (if leb i k && ltb k (i + n) then v else get_or d k 0)
unfolding fill_loop
get_or-fill_loop zero i v k d fits = ground arith
get_or-fill_loop (suc n) i v k d fits = ground (
  arith,
  get_or-fill_loop n (i + 1) v k (set d i v) (omega (arith, length-set d i v)),
  get_or-set_if d i k v (omega arith),
)

low_table :
    checked 8 (λ r. checked 8 λ j.
      agree (byte_bit (bit_and 0xff (2 ^ r - 1)) j) (ltb j r) && ltb (bit_and 0xff (2 ^ r - 1)) 256)
    ≡ true
unfolding check_from
low_table = refl

-- The mask of `bitmap_fill` keeps the low bits of a full byte.
low_bits_lem : (r j : ℕ) → r < 8 → j < 8 → byte_bit (bit_and 0xff (2 ^ r - 1)) j ≡ ltb j r
low_bits_lem r j hr hj = ground (arith, checked_lem 8 _ j (checked_lem 8 _ r low_table hr) hj)

full_table : checked 8 (λ j. byte_bit 0xff j && not (byte_bit 0 j)) ≡ true
unfolding check_from
full_table = refl

module _ {d : List ℕ} {bits : ℕ} (v : Storage d bits) (j : ℕ) where
  size_lem : bitmap_size bits ≡ (bits + 7) / 8
  unfolding bitmap_size
  size_lem = omega (arith, v.small)

  fits-size : bitmap_size bits ≤ length d
  fits-size = omega (arith, size_lem, v.fits)

  full_bit : byte_bit 0xff (j % 8) ≡ true
  full_bit = ground (arith, checked_lem 8 _ (j % 8) full_table (omega arith))

  empty_bit : byte_bit 0 (j % 8) ≡ false
  empty_bit = ground (arith, checked_lem 8 _ (j % 8) full_table (omega arith))

  get_or-filled :
      (x k : ℕ)
      → get_or (fill_loop (bitmap_size bits) 0 x d) k 0
        ≡ (if ltb k (bitmap_size bits) then x else get_or d k 0)
  get_or-filled x k =
      ground (arith, get_or-fill_loop (bitmap_size bits) 0 x k d (omega (arith, fits-size)))

  raw_bit-zero : j < bits → raw_bit (fill_loop (bitmap_size bits) 0 0 d) j ≡ false
  raw_bit-zero lt =
      let within : ltb (j / 8) (bitmap_size bits) ≡ true = ground (arith, size_lem) in
      rw (get_or-filled 0 (j / 8), within) empty_bit

  -- Behind `bitmap_fill` the raw bits of the array are set up to `bits` and clear in the rest of the
  -- last byte.
  raw_bit-trim :
      j < 8 * bitmap_size bits
      → raw_bit (trim bits (fill_loop (bitmap_size bits) 0 0xff d)) j ≡ ltb j bits
  unfolding trim
  raw_bit-trim lt =
      let filled = fill_loop (bitmap_size bits) 0 0xff d in
      let last = bitmap_size bits - 1 in
      let mask = 2 ^ (bits % 8) - 1 in
      let cell : get_or filled (j / 8) 0 ≡ 0xff = ground (arith, get_or-filled 0xff (j / 8)) in
      elim (Bool-cases (bits % 8 == 0)) [
        | inl whole ↦ rw (whole, cell) (ground (arith, full_bit, size_lem))
        | inr part ↦ rw part (elim (Bool-cases (last == j / 8)) [
          | inl at ↦
              let e : last ≡ j / 8 = ==_eq last (j / 8) at in
              rw
                (
                  e,
                  get_or-set_self filled (j / 8) (bit_and (get_or filled (j / 8) 0) mask) 0 fits,
                  cell,
                )
                (low_bits_lem (bits % 8) (j % 8) (omega arith) (omega arith)
                  ∙ ground (arith, size_lem))
          | inr before ↦
              rw
                (
                  get_or-set_ne filled last (j / 8) (bit_and (get_or filled last 0) mask) 0
                      (ground arith),
                  cell,
                )
                (ground (arith, full_bit, size_lem))
        ])
      ]
    where
      fits : j / 8 < length (fill_loop (bitmap_size bits) 0 0xff d)
      fits = omega (arith, length-fill_loop (bitmap_size bits) 0 0xff d, fits-size)

  -- On a valid bitmap with an array, `bitmap_zero` clears every bit and `bitmap_fill` sets every bit
  -- in range; in the bytes that hold the bitmap `bitmap_fill` leaves no other bit set.
  pub bitmap_fill_lem :
      (is_set (bitmap_zero (bitmap d bits)) j ≡ false)
      × (is_set (bitmap_fill (bitmap d bits)) j ≡ ltb j bits)
      × (j < 8 * bitmap_size bits → array_bit (bitmap_fill (bitmap d bits)) j ≡ ltb j bits)
  unfolding bitmap_zero bitmap_fill
  bitmap_fill_lem = elim (Bool-cases (bits == 0)) [
    | inl empty ↦ rw empty (
      ground (arith, is_set_lem d bits j),
      ground (arith, is_set_lem d bits j),
      λ lt. absurd (ground (arith, size_lem)),
    )
    | inr given ↦ rw given (
      rw is_set_lem (ground (arith, raw_bit-zero)),
      rw is_set_lem (ground (arith, raw_bit-trim, size_lem)),
      raw_bit-trim,
    )
  ]
