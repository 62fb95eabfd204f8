-- ===== src/Print.antt =====
-- kernel/lib/print.c: formatted output. The arguments behind the format are a list of 32-bit words; to
-- ask for more of them than there are ends with `none`. The strings in memory are the parameter
-- `string_at`, an address to a string, 0 for NULL. The characters go to the screen.
pub mod Numbers
pub mod Formats
mod Tests
use mini_unix.Base.{
  not, ◌||◌, ℕ, zero, suc, ◌+◌, ◌-◌, ◌/◌, ◌%◌, ◌^◌, Bool, true, false, List, [], ◌∷◌, Option, none,
  some, ltb, leb, ◌==◌, if◌then◌else◌,
}
use mini_unix.Text.{Str}
use mini_unix.Heap.{word}
use mini_unix.Screen.{Screen, tty_putchar, tty_write}

abbrev pub digit_char : ℕ → ℕ
digit_char digit = if ltb digit 10 then 48 + digit else 97 + digit - 10

-- The `do` loop of `print_unsigned`, with room for `n` characters left in the buffer; the last of them
-- comes first. `none` is for a write past the end of the buffer.
unfoldable pub digits_loop : (n value base : ℕ) → List ℕ → Option (List ℕ)
digits_loop zero value base buffer = none
digits_loop (suc n) value base buffer =
    let buffer' = digit_char (value % base) ∷ buffer in
    let rest = digits_loop n (value / base) base buffer' in
    if value / base == 0 then some buffer' else rest

-- `while (i--) tty_putchar(buffer[i]);`
abbrev pub put_all : List ℕ → Screen → Screen
put_all [] s = s
put_all (c ∷ buffer) s = put_all buffer (tty_putchar c s)

unfoldable pub print_unsigned : (value base : ℕ) → Screen → Option Screen
print_unsigned value base s = elim (digits_loop 32 value base []) [
  | none ↦ none
  | some buffer ↦ some (put_all buffer s)
]

-- The value is an `int`, as a word.
unfoldable pub print_signed : (value : ℕ) → Screen → Option Screen
print_signed value s =
    if leb (2 ^ 31) value
    then print_unsigned (word (2 ^ 32 - 1 - value + 1)) 10 (tty_putchar 45 s)
    else print_unsigned value 10 s

abbrev pub kprint : Option Str → Screen → Screen
kprint none s = s
kprint (some str) s = tty_write str s

-- "(null)"
abbrev pub null_text : Str
null_text = 40 ∷ 110 ∷ 117 ∷ 108 ∷ 108 ∷ 41 ∷ []

-- `%` with the characters c, s, d, u and x
abbrev pub percent : ℕ
percent = 37

module _ (string_at : ℕ → Str) where
  -- the conversions with an argument, from the character behind the `%`: `none` for another character
  abbrev pub convert : (conversion argument : ℕ) → Screen → Option Screen
  convert conversion argument s =
      if conversion == 99
      then some (tty_putchar (argument % 256) s)
      else if conversion == 115
      then some (tty_write (if argument == 0 then null_text else string_at argument) s)
      else if conversion == 100
      then print_signed argument s
      else if conversion == 117
      then print_unsigned argument 10 s
      else print_unsigned argument 16 s

  abbrev pub takes_argument : (conversion : ℕ) → Bool
  takes_argument conversion =
      (conversion == 99)
      || (conversion == 115)
      || (conversion == 100)
      || (conversion == 117)
      || (conversion == 120)

  abbrev pub with_argument : (conversion : ℕ) → List ℕ → Screen → Option (List ℕ × Screen)
  with_argument conversion [] s = none
  with_argument conversion (a ∷ args) s = elim (convert conversion a s) [
    | none ↦ none
    | some s' ↦ some (args, s')
  ]

  -- the `switch` on the character behind a `%`; behind the end of the format the loop goes on: `none`
  abbrev pub directive : (conversion : ℕ) → List ℕ → Screen → Option (List ℕ × Screen)
  directive conversion args s =
      if conversion == percent
      then some (args, tty_putchar percent s)
      else if conversion == 0
      then none
      else if takes_argument conversion
      then with_argument conversion args s
      else some (args, tty_putchar conversion (tty_putchar percent s))

  unfoldable pub vkprintf : (fmt : Str) (args : List ℕ) → Screen → Option Screen
  vkprintf [] args s = some s
  vkprintf (c ∷ []) args s =
      if c == 0 then some s else if c == percent then none else some (tty_putchar c s)
  vkprintf (c ∷ d ∷ fmt) args s =
      let plain = vkprintf (d ∷ fmt) args (tty_putchar c s) in
      let behind : List ℕ → Screen → Option Screen = vkprintf fmt in
      if c == 0
      then some s
      else if not (c == percent)
      then plain
      else elim (directive d args s) [ none ↦ none | some (args', s') ↦ behind args' s' ]

  unfoldable pub kprintf : (fmt : Str) (args : List ℕ) → Screen → Option Screen
  kprintf [] args s = some s
  kprintf (c ∷ fmt) args s = if c == 0 then some s else vkprintf (c ∷ fmt) args s
