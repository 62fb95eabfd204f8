-- ===== src/Screen.antt =====
-- kernel/dev/tty.c and the cells of kernel/dev/vga.c. The cursor and the cells are the state; what is
-- sent to the ports of the cursor is not. `tty_x` and `tty_y` are not negative. The video memory is a
-- function from the number of a cell, also of cells past the last of the screen.
pub mod Cursor
pub mod Hardware
mod Tests
use mini_unix.Base.{
  ℕ, zero, suc, ◌+◌, ◌-◌, ◌*◌, ◌%◌, ◌<◌, Bool, true, false, List, [], ◌∷◌, ltb, leb, ◌==◌,
  if◌then◌else◌,
}

abbrev pub vga_width : ℕ
vga_width = 80

abbrev pub vga_height : ℕ
vga_height = 25

-- `VGA_MEMORY`, `tty_x` and `tty_y`
pub record Screen : Type 0 where
  pub cells : ℕ → ℕ
  pub tty_x : ℕ
  pub tty_y : ℕ

-- the character with the colour 0x0F
abbrev pub vga_entry : ℕ → ℕ
vga_entry c = c % 256 + 0x0f00

abbrev pub vga_putchar_at : ℕ → ℕ → ℕ → (ℕ → ℕ) → ℕ → ℕ
vga_putchar_at c x y cells i = if i == y * vga_width + x then vga_entry c else cells i

-- one row of `vga_init_and_clear`, and the loop over the rows
pub clear_row : ℕ → ℕ → ℕ → (ℕ → ℕ) → ℕ → ℕ
clear_row zero x y cells = cells
clear_row (suc n) x y cells = clear_row n (x + 1) y (vga_putchar_at 32 x y cells)

pub clear_rows : ℕ → ℕ → (ℕ → ℕ) → ℕ → ℕ
clear_rows zero y cells = cells
clear_rows (suc n) y cells = clear_rows n (y + 1) (clear_row vga_width 0 y cells)

pub vga_init_and_clear : (ℕ → ℕ) → ℕ → ℕ
vga_init_and_clear cells = clear_rows vga_height 0 cells

pub tty_init : Screen → Screen
tty_init s = record { cells = vga_init_and_clear s.cells; tty_x = 0; tty_y = 0 }

-- the cursor one to the left, or from the start of a row to the end of the row above
abbrev pub step_back : Screen → Screen
step_back s =
    if ltb 0 s.tty_x
    then record s { tty_x = s.tty_x - 1 }
    else if ltb 0 s.tty_y
    then record s { tty_x = vga_width; tty_y = s.tty_y - 1 }
    else s

-- the cursor one to the right, and to the next row behind the last column
abbrev pub step_on : Screen → Screen
step_on s =
    if leb vga_width (s.tty_x + 1)
    then record s { tty_x = 0; tty_y = s.tty_y + 1 }
    else record s { tty_x = s.tty_x + 1 }

-- a blank at the cursor
abbrev pub erase : Screen → Screen
erase s = record s { cells = vga_putchar_at 32 s.tty_x s.tty_y s.cells }

-- the character `c`, a newline (10) or a backspace (8)
unfoldable pub tty_putchar : ℕ → Screen → Screen
tty_putchar c s =
    if c == 10
    then record s { tty_x = 0; tty_y = s.tty_y + 1 }
    else if c == 8
    then erase (step_back s)
    else let n = step_on (record s { cells = vga_putchar_at c s.tty_x s.tty_y s.cells }) in
      if leb vga_height n.tty_y then tty_init n else n

-- the characters of a string up to its end
unfoldable pub tty_write : List ℕ → Screen → Screen
tty_write [] s = s
tty_write (c ∷ str) s = if c == 0 then s else tty_write str (tty_putchar c s)
