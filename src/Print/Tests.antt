-- ===== src/Print/Tests.antt =====
-- An empty screen: runs, and the theorems at it.
use mini_unix.Base.{ℕ, ◌-◌, ◌^◌, ◌≡◌, refl, List, [], ◌∷◌, none, some, arith}
use mini_unix.Text.{Str}
use mini_unix.Screen.{Screen}
use mini_unix.Print.{digits_loop, put_all, print_unsigned, vkprintf}
use mini_unix.Print.Numbers.{read_number, print_unsigned-read_number}
use mini_unix.Print.Formats.{
  Piece, literal, percent_sign, string, signed, hex, put_pieces, digits, WellFormed,
  vkprintf-format,
}

abbrev screen : Screen
screen = record { cells = λ p. 0; tty_x = 0; tty_y = 0 }

print_unsigned_example :
    (text : List ℕ) × (print_unsigned 48879 16 screen ≡ some (put_all text screen))
    × (read_number 16 0 text ≡ 48879)
print_unsigned_example =
    print_unsigned-read_number 48879 16 screen (omega arith) (omega arith) (omega arith)

beef : digits 16 48879 ≡ 98 ∷ 101 ∷ 101 ∷ 102 ∷ []
unfolding digits_loop
beef = refl

abbrev string_at : ℕ → Str
string_at p = 104 ∷ 105 ∷ 0 ∷ 120 ∷ []

-- "=%s%%%d%x"
abbrev pieces : List Piece
pieces = literal 61 ∷ string 512 ∷ percent_sign ∷ signed (2 ^ 32 - 7) ∷ hex 255 ∷ []

pieces-WellFormed : WellFormed pieces
pieces-WellFormed = (refl, refl, (omega arith, (omega arith, tt)))

vkprintf_example :
    vkprintf string_at
      (61 ∷ 37 ∷ 115 ∷ 37 ∷ 37 ∷ 37 ∷ 100 ∷ 37 ∷ 120 ∷ [])
      (512 ∷ 4294967289 ∷ 255 ∷ [])
      screen
    ≡ some (put_pieces string_at pieces screen)
vkprintf_example = vkprintf-format string_at pieces screen pieces-WellFormed

-- A format that ends with a `%`.
open_format : vkprintf string_at (37 ∷ []) [] screen ≡ none
unfolding vkprintf
open_format = refl
