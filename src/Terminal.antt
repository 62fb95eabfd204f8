-- ===== src/Terminal.antt =====
-- kernel/dev/terminal.c: the line that is typed, and the commands. `buffer` is the array with the memory
-- behind it: the cells from `command_buffer_size` on lie past its end. A character is an unsigned byte.
-- `print_buffer`, which nothing calls, is not modelled.
pub mod Line
mod Tests
use mini_unix.Base.{
  ℕ, zero, suc, ◌+◌, ◌-◌, ◌%◌, Bool, true, false, List, [], ◌∷◌, Option, none, some, ◌==◌,
  if◌then◌else◌,
}
use mini_unix.Base.Int.{is_zero}
use mini_unix.Text.{Str, strcmp, strncmp}
use mini_unix.Screen.{Screen, tty_init, tty_putchar, tty_write}
use mini_unix.Keyboard.{Keyboard, keyboard_getchar}

abbrev pub command_buffer_size : ℕ
command_buffer_size = 128

pub record Terminal : Type 0 where
  pub buffer : ℕ → ℕ
  pub len : ℕ
  pub screen : Screen

abbrev pub store_at : (i c : ℕ) → (ℕ → ℕ) → ℕ → ℕ
store_at i c buffer j = if j == i then c else buffer j

unfoldable pub put_at_buffer : (c : ℕ) → Terminal → Terminal
put_at_buffer c t = record {
  buffer = store_at (t.len + 1) 0 (store_at t.len c t.buffer);
  len = t.len + 1;
  screen = tty_putchar c t.screen;
}

unfoldable pub clear_buffer : Terminal → Terminal
clear_buffer t = record t { buffer = store_at 0 0 t.buffer; len = 0 }

-- "> "
abbrev pub shell_prompt : Terminal → Terminal
shell_prompt t = record t { screen = tty_write (62 ∷ 32 ∷ []) t.screen }

unfoldable pub buffer_backspace : Terminal → Terminal
buffer_backspace t = if t.len == 0 then t else record {
  buffer = store_at (t.len - 1) 0 t.buffer;
  len = t.len - 1;
  screen = tty_putchar 8 t.screen;
}

abbrev pub help : Str
help = 104 ∷ 101 ∷ 108 ∷ 112 ∷ []

abbrev pub clear : Str
clear = 99 ∷ 108 ∷ 101 ∷ 97 ∷ 114 ∷ []

-- "echo "
abbrev pub echo : Str
echo = 101 ∷ 99 ∷ 104 ∷ 111 ∷ 32 ∷ []

abbrev pub newline : Str
newline = 10 ∷ []

-- "Commands: help, clear, echo <text>"
abbrev pub commands_text : Str
commands_text =
    67 ∷ 111 ∷ 109 ∷ 109 ∷ 97 ∷ 110 ∷ 100 ∷ 115 ∷ 58 ∷ 32 ∷ 104 ∷ 101 ∷ 108 ∷ 112 ∷ 44 ∷ 32 ∷ 99
    ∷ 108 ∷ 101 ∷ 97 ∷ 114 ∷ 44 ∷ 32 ∷ 101 ∷ 99 ∷ 104 ∷ 111 ∷ 32 ∷ 60 ∷ 116 ∷ 101 ∷ 120 ∷ 116 ∷ 62
    ∷ []

-- "Unknown command: "
abbrev pub unknown_text : Str
unknown_text =
    85 ∷ 110 ∷ 107 ∷ 110 ∷ 111 ∷ 119 ∷ 110 ∷ 32 ∷ 99 ∷ 111 ∷ 109 ∷ 109 ∷ 97 ∷ 110 ∷ 100 ∷ 58 ∷ 32
    ∷ []

-- `s + n`
abbrev pub behind : ℕ → Str → Str
behind zero s = s
behind (suc n) [] = []
behind (suc n) (c ∷ s) = behind n s

unfoldable pub command_execute : (command : Str) → Screen → Screen
command_execute command s =
    if is_zero (strcmp command [])
    then s
    else if is_zero (strcmp command help)
    then tty_write newline (tty_write commands_text s)
    else if is_zero (strcmp command clear)
    then tty_init s
    else if is_zero (strncmp command echo 5)
    then tty_write newline (tty_write (behind 5 command) s)
    else tty_write newline (tty_write command (tty_write unknown_text s))

-- the cells below `n`, in front of `rest`
abbrev pub cells_below : ℕ → (ℕ → ℕ) → Str → Str
cells_below zero buffer rest = rest
cells_below (suc n) buffer rest = cells_below n buffer (buffer n ∷ rest)

-- The string in the buffer ends at `len` at the latest, where a NUL was just stored.
unfoldable pub command_buffer_submit : Terminal → Terminal
command_buffer_submit t =
    let buffer' = store_at t.len 0 t.buffer in
    let t' : Terminal = record t {
      buffer = buffer';
      screen = command_execute (cells_below t.len buffer' []) (tty_putchar 10 t.screen);
    } in
    shell_prompt (clear_buffer t')

-- what the loop of `shell_launch` does with a character
unfoldable pub shell_key : (c : ℕ) → Terminal → Terminal
shell_key c t =
    if c == 10
    then command_buffer_submit t
    else if c == 8
    then buffer_backspace t
    else put_at_buffer c t

-- a round of the loop
unfoldable pub shell_round : Terminal × Keyboard → Terminal × Keyboard
shell_round (t, k) =
    let (c, k') = keyboard_getchar k in elim c [ none ↦ (t, k') | some key ↦ (shell_key key t, k') ]

-- `shell_launch` with `n` rounds
unfoldable pub shell_launch : (n : ℕ) → Terminal × Keyboard → Terminal × Keyboard
shell_launch n (t, k) = rounds n (shell_prompt t, k)
  where
    rounds : ℕ → Terminal × Keyboard → Terminal × Keyboard
    rounds zero st = st
    rounds (suc n) st = rounds n (shell_round st)
