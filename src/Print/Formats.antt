-- ===== src/Print/Formats.antt =====
-- What `vkprintf` prints for a format that is written out of pieces, each with its argument.
use mini_unix.Base.{
  ℕ, ◌+◌, ◌-◌, ◌%◌, ◌^◌, ◌<◌, ◌≤◌, ◌≡◌, refl, ◌∙◌, inl, inr, false, List, [], ◌∷◌, none, some,
  arith, leb, ◌==◌, if◌then◌else◌, Bool-cases,
}
use mini_unix.Text.{Str}
use mini_unix.Heap.{word}
use mini_unix.Screen.{Screen, tty_putchar, tty_write}
use mini_unix.Print.{digits_loop, put_all, print_unsigned, print_signed, null_text, vkprintf}
use mini_unix.Print.Numbers.{digits_loop_lem}

-- a character, `%%`, or a conversion and its argument
pub data Piece : Type 0 where
  literal : (c : ℕ) → Piece
  percent_sign : Piece
  character string signed unsigned hex : (argument : ℕ) → Piece

abbrev pub format : List Piece → Str
format [] = []
format (literal c ∷ pieces) = c ∷ format pieces
format (percent_sign ∷ pieces) = 37 ∷ 37 ∷ format pieces
format (character a ∷ pieces) = 37 ∷ 99 ∷ format pieces
format (string a ∷ pieces) = 37 ∷ 115 ∷ format pieces
format (signed a ∷ pieces) = 37 ∷ 100 ∷ format pieces
format (unsigned a ∷ pieces) = 37 ∷ 117 ∷ format pieces
format (hex a ∷ pieces) = 37 ∷ 120 ∷ format pieces

abbrev pub values : List Piece → List ℕ
values [] = []
values (literal c ∷ pieces) = values pieces
values (percent_sign ∷ pieces) = values pieces
values (character a ∷ pieces) = a ∷ values pieces
values (string a ∷ pieces) = a ∷ values pieces
values (signed a ∷ pieces) = a ∷ values pieces
values (unsigned a ∷ pieces) = a ∷ values pieces
values (hex a ∷ pieces) = a ∷ values pieces

-- the characters in front of a NUL
abbrev pub up_to_nul : Str → Str
up_to_nul [] = []
up_to_nul (c ∷ str) = let rest = up_to_nul str in if c == 0 then [] else c ∷ rest

-- the digits of a number
abbrev pub digits : (base value : ℕ) → Str
digits base value = elim (digits_loop 32 value base []) [ none ↦ [] | some text ↦ text ]

module _ (string_at : ℕ → Str) where
  abbrev pub text : Piece → Str
  text (literal c) = c ∷ []
  text percent_sign = 37 ∷ []
  text (character a) = a % 256 ∷ []
  text (string a) = up_to_nul (if a == 0 then null_text else string_at a)
  text (signed a) = if leb (2 ^ 31) a then 45 ∷ digits 10 (2 ^ 32 - a) else digits 10 a
  text (unsigned a) = digits 10 a
  text (hex a) = digits 16 a

  abbrev pub put_pieces : List Piece → Screen → Screen
  put_pieces [] s = s
  put_pieces (piece ∷ pieces) s = put_pieces pieces (put_all (text piece) s)

-- Literal characters are neither NUL nor `%`, numbers are 32-bit words.
abbrev pub WellFormed : List Piece → Type 0
WellFormed [] = Unit {0}
WellFormed (literal c ∷ pieces) = ((c == 0) ≡ false) × ((c == 37) ≡ false) × WellFormed pieces
WellFormed (percent_sign ∷ pieces) = WellFormed pieces
WellFormed (character a ∷ pieces) = WellFormed pieces
WellFormed (string a ∷ pieces) = WellFormed pieces
WellFormed (signed a ∷ pieces) = (a < 2 ^ 32) × WellFormed pieces
WellFormed (unsigned a ∷ pieces) = (a < 2 ^ 32) × WellFormed pieces
WellFormed (hex a ∷ pieces) = (a < 2 ^ 32) × WellFormed pieces

tty_write-up_to_nul : (str : Str) (s : Screen) → tty_write str s ≡ put_all (up_to_nul str) s
unfolding tty_write
tty_write-up_to_nul [] s = refl
tty_write-up_to_nul (c ∷ str) s =
    let rest = tty_write-up_to_nul str (tty_putchar c s) in
    elim (Bool-cases (c == 0)) [ inl nul ↦ rw nul refl | inr other ↦ rw other rest ]

print_unsigned-digits :
    (value base : ℕ) (s : Screen)
    → value < 2 ^ 32
    → 2 ≤ base
    → base ≤ 16
    → print_unsigned value base s ≡ some (put_all (digits base value) s)
unfolding print_unsigned
print_unsigned-digits value base s lt two sixteen =
    let (text, run, reads) = digits_loop_lem 31 value base [] two sixteen lt in
    rw (run, print_unsigned, digits) refl

print_signed-digits :
    (value : ℕ) (s : Screen)
    → value < 2 ^ 32
    → print_signed value s
      ≡ some (
          put_all
            (if leb (2 ^ 31) value then 45 ∷ digits 10 (2 ^ 32 - value) else digits 10 value)
            s)
unfolding print_signed
print_signed-digits value s lt = elim (Bool-cases (leb (2 ^ 31) value)) [
  | inl minus ↦
      let size : word (2 ^ 32 - 1 - value + 1) ≡ 2 ^ 32 - value = ground arith in
      rw (minus, size)
        (print_unsigned-digits (2 ^ 32 - value) 10 (tty_putchar 45 s) (ground arith) (omega arith)
          (omega arith))
  | inr plus ↦ rw plus (print_unsigned-digits value 10 s lt (omega arith) (omega arith))
]

module _ (string_at : ℕ → Str) where
  -- A literal character in front of a format prints itself.
  vkprintf-literal :
      (c : ℕ) (fmt : Str) (args : List ℕ) (s : Screen)
      → (c == 0) ≡ false
      → (c == 37) ≡ false
      → vkprintf string_at (c ∷ fmt) args s ≡ vkprintf string_at fmt args (tty_putchar c s)
  unfolding vkprintf
  vkprintf-literal c [] args s set plain = rw (set, plain) refl
  vkprintf-literal c (d ∷ fmt) args s set plain = rw (set, plain) refl

  -- For every list of pieces with words as numbers and with literal characters other than NUL and `%`,
  -- `vkprintf` of their format and values prints the text of each of them in turn.
  pub vkprintf-format :
      (pieces : List Piece) (s : Screen)
      → WellFormed pieces
      → vkprintf string_at (format pieces) (values pieces) s ≡ some (put_pieces string_at pieces s)
  unfolding vkprintf
  vkprintf-format [] s w = refl
  vkprintf-format (literal c ∷ pieces) s w =
      vkprintf-literal c (format pieces) (values pieces) s w.0 w.1
      ∙ vkprintf-format pieces (tty_putchar c s) w.2
  vkprintf-format (percent_sign ∷ pieces) s w = vkprintf-format pieces (tty_putchar 37 s) w
  vkprintf-format (character a ∷ pieces) s w = vkprintf-format pieces (tty_putchar (a % 256) s) w
  vkprintf-format (string a ∷ pieces) s w =
      let str = if a == 0 then null_text else string_at a in
      rw (tty_write-up_to_nul str s) (vkprintf-format pieces (put_all (up_to_nul str) s) w)
  vkprintf-format (signed a ∷ pieces) s w =
      rw (print_signed-digits a s w.0)
        (vkprintf-format pieces (put_all (text string_at (signed a)) s) w.1)
  vkprintf-format (unsigned a ∷ pieces) s w =
      rw (print_unsigned-digits a 10 s w.0 (omega arith) (omega arith))
        (vkprintf-format pieces (put_all (digits 10 a) s) w.1)
  vkprintf-format (hex a ∷ pieces) s w =
      rw (print_unsigned-digits a 16 s w.0 (omega arith) (omega arith))
        (vkprintf-format pieces (put_all (digits 16 a) s) w.1)
