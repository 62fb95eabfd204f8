-- ===== src/Print/Numbers.antt =====
-- What `print_unsigned` prints of a number reads back as the number.
use mini_unix.Base.{
  ==_eq, ℕ, zero, suc, ◌+◌, ◌-◌, ◌*◌, ◌/◌, ◌%◌, ◌^◌, ◌<◌, ◌≤◌, ◌≡◌, refl, sym, ◌∙◌, ap, inl, inr,
  true, List, [], ◌∷◌, some, arith, ltb, ◌==◌, if◌then◌else◌, Bool-cases,
}
use native.Mathlib.Nat.{div-add-mod', mod-lt, div-lt_iff_lt-mul, mul-le-mul_left, pow-suc}
use mini_unix.Screen.{Screen}
use mini_unix.Print.{digit_char, digits_loop, put_all, print_unsigned}

-- the digit that a character stands for
abbrev pub digit_value : ℕ → ℕ
digit_value c = if ltb c 58 then c - 48 else c - 87

-- the number that the characters behind those for `acc` make up
abbrev pub read_number : (base acc : ℕ) → List ℕ → ℕ
read_number base acc [] = acc
read_number base acc (c ∷ text) = read_number base (acc * base + digit_value c) text

digit_value-digit_char : (d : ℕ) → d < 16 → digit_value (digit_char d) ≡ d
digit_value-digit_char d lt = ground arith

smaller : (value base n : ℕ) → 2 ≤ base → value < 2 ^ suc n → value / base < 2 ^ n
smaller value base n two lt =
    let more : 2 ^ n * 2 ≤ 2 ^ n * base = mul-le-mul_left (2 ^ n) two in
    (div-lt_iff_lt-mul {k = base} {x = value} {y = 2 ^ n} (omega arith)).1
      (omega (arith, pow-suc 2 n, more))

-- One round puts the last digit in front.
read_number-round :
    (value base : ℕ) (buffer : List ℕ)
    → 2 ≤ base
    → base ≤ 16
    → read_number base (value / base) (digit_char (value % base) ∷ buffer)
      ≡ read_number base value buffer
read_number-round value base buffer two sixteen =
    let d = value % base in
    let small : d < base = mod-lt value {m = base} (omega arith) in
    let digit : digit_value (digit_char d) ≡ d = digit_value-digit_char d (omega (arith, small)) in
    let whole : value / base * base + digit_value (digit_char d) ≡ value =
      rw digit (div-add-mod' value base) in
    ap (λ acc. read_number base acc buffer) whole

digits_loop-done :
    (n value base : ℕ) (buffer : List ℕ)
    → 2 ≤ base
    → base ≤ 16
    → value / base ≡ 0
    → (text : List ℕ) × (digits_loop (suc n) value base buffer ≡ some text)
      × (read_number base 0 text ≡ read_number base value buffer)
unfolding digits_loop
digits_loop-done n value base buffer two sixteen done =
    let buffer' = digit_char (value % base) ∷ buffer in
    let last_round : (value / base == 0) ≡ true = ground (arith, done) in
    (
      buffer',
      rw last_round refl,
      ap (λ q. read_number base q buffer') (sym done)
          ∙ read_number-round value base buffer two sixteen,
    )

-- With room for as many digits as the value has in base 2, the loop ends, and what it leaves in the
-- buffer reads as the value in front of what was there.
pub digits_loop_lem :
    (n value base : ℕ) (buffer : List ℕ)
    → 2 ≤ base
    → base ≤ 16
    → value < 2 ^ suc n
    → (text : List ℕ) × (digits_loop (suc n) value base buffer ≡ some text)
      × (read_number base 0 text ≡ read_number base value buffer)
unfolding digits_loop
digits_loop_lem zero value base buffer two sixteen lt =
    let none_left = smaller value base 0 two lt in
    digits_loop-done 0 value base buffer two sixteen (omega (arith, none_left))
digits_loop_lem (suc n) value base buffer two sixteen lt = elim (Bool-cases (value / base == 0)) [
  | inl done ↦ digits_loop-done (suc n) value base buffer two sixteen (==_eq (value / base) 0 done)
  | inr more ↦
      let buffer' = digit_char (value % base) ∷ buffer in
      let (text, run, reads) =
        digits_loop_lem n (value / base) base buffer' two sixteen
          (smaller value base (suc n) two lt) in
      (text, rw more run, reads ∙ read_number-round value base buffer two sixteen)
]

-- `print_unsigned` of a 32-bit value in a base from 2 to 16 stays within its buffer of 32 characters,
-- and prints characters that read as the value in that base.
pub print_unsigned-read_number :
    (value base : ℕ) (s : Screen)
    → value < 2 ^ 32
    → 2 ≤ base
    → base ≤ 16
    → (text : List ℕ) × (print_unsigned value base s ≡ some (put_all text s))
      × (read_number base 0 text ≡ value)
unfolding print_unsigned
print_unsigned-read_number value base s lt two sixteen =
    let (text, run, reads) = digits_loop_lem 31 value base [] two sixteen lt in
    (text, rw (run, print_unsigned) refl, reads)
