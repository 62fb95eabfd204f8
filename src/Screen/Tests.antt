-- ===== src/Screen/Tests.antt =====
-- A cursor in the last row: a run, and the theorem at it.
use mini_unix.Base.{ℕ, ◌<◌, ◌≤◌, ◌≡◌, refl, arith}
use mini_unix.Screen.{Screen, vga_entry, tty_putchar}
use mini_unix.Screen.Cursor.{OnScreen, tty_putchar_lem}

abbrev last_row : Screen
last_row = record { cells = λ i. 0; tty_x = 79; tty_y = 24 }

last_row-OnScreen : OnScreen last_row
last_row-OnScreen = record { column = omega arith; row = omega arith }

tty_putchar_example :
    (OnScreen (tty_putchar 65 last_row)
      × ((i : ℕ) → 2000 ≤ i → (tty_putchar 65 last_row).cells i ≡ last_row.cells i))
    × (last_row.tty_y ≡ 24
        → let s' = tty_putchar 65 (tty_putchar 10 last_row) in
          ((tty_putchar 10 last_row).tty_y ≡ 25)
          × (s'.cells 2000 ≡ vga_entry 65)
          × ((i : ℕ) → i < 2000 → s'.cells i ≡ vga_entry 32)
          × (s'.tty_x ≡ 0)
          × (s'.tty_y ≡ 0))
tty_putchar_example = tty_putchar_lem 65 last_row last_row-OnScreen refl refl

-- Runs.
newline_run : (tty_putchar 10 last_row).tty_y ≡ 25
unfolding tty_putchar
newline_run = refl

backspace_run : (tty_putchar 8 (record { cells = λ i. 0; tty_x = 0; tty_y = 3 })).tty_x ≡ 80
unfolding tty_putchar
backspace_run = refl
