-- ===== src/Screen/Cursor.antt =====
-- The cursor of the tty and the cells of the screen.
use mini_unix.Base.{
  ℕ, zero, suc, ◌+◌, ◌*◌, ◌<◌, ◌≤◌, ◌≡◌, refl, ◌∙◌, inl, inr, true, false, arith, leb, ltb, ◌==◌,
  ◌&&◌, if◌then◌else◌, Bool-cases,
}
use mini_unix.Screen.{
  Screen, vga_width, vga_height, vga_entry, vga_putchar_at, clear_row, clear_rows,
  vga_init_and_clear, tty_init, tty_putchar,
}

pub record OnScreen (s : Screen) : Type 0 where
  pub column : s.tty_x < 80
  pub row : s.tty_y < 25

clear_row-outside :
    (n x y : ℕ) (cells : ℕ → ℕ) (i : ℕ)
    → x + n ≤ 80
    → y < 25
    → 2000 ≤ i
    → clear_row n x y cells i ≡ cells i
unfolding clear_row
clear_row-outside zero x y cells i h hy out = refl
clear_row-outside (suc n) x y cells i h hy out =
    clear_row-outside n (x + 1) y (vga_putchar_at 32 x y cells) i (omega arith) hy out
    ∙ ground arith

clear_rows-outside :
    (n y : ℕ) (cells : ℕ → ℕ) (i : ℕ) → y + n ≤ 25 → 2000 ≤ i → clear_rows n y cells i ≡ cells i
unfolding clear_rows
clear_rows-outside zero y cells i h out = refl
clear_rows-outside (suc n) y cells i h out =
    clear_rows-outside n (y + 1) (clear_row vga_width 0 y cells) i (omega arith) out
    ∙ clear_row-outside vga_width 0 y cells i (omega arith) (omega arith) out

cleared-outside : (cells : ℕ → ℕ) (i : ℕ) → 2000 ≤ i → vga_init_and_clear cells i ≡ cells i
unfolding vga_init_and_clear
cleared-outside cells i out = clear_rows-outside vga_height 0 cells i (omega arith) out

-- Clearing a row fills its cells with blanks.
clear_row-inside :
    (n x y : ℕ) (cells : ℕ → ℕ) (i : ℕ)
    → clear_row n x y cells i
      ≡ (if leb (y * 80 + x) i && ltb i (y * 80 + x + n) then vga_entry 32 else cells i)
unfolding clear_row
clear_row-inside zero x y cells i = ground arith
clear_row-inside (suc n) x y cells i =
    clear_row-inside n (x + 1) y (vga_putchar_at 32 x y cells) i ∙ ground arith

clear_rows-inside :
    (n y : ℕ) (cells : ℕ → ℕ) (i : ℕ)
    → clear_rows n y cells i
      ≡ (if leb (y * 80) i && ltb i ((y + n) * 80) then vga_entry 32 else cells i)
unfolding clear_rows
clear_rows-inside zero y cells i = ground arith
clear_rows-inside (suc n) y cells i =
    clear_rows-inside n (y + 1) (clear_row vga_width 0 y cells) i
    ∙ ground (arith, clear_row-inside vga_width 0 y cells i)

cleared-inside : (cells : ℕ → ℕ) (i : ℕ) → i < 2000 → vga_init_and_clear cells i ≡ vga_entry 32
unfolding vga_init_and_clear
cleared-inside cells i inside =
    let there : (leb (0 * 80) i && ltb i ((0 + vga_height) * 80)) ≡ true = ground arith in
    clear_rows-inside vga_height 0 cells i ∙ rw there refl

module _ (c : ℕ) (s : Screen) (line : (c == 10) ≡ false) (back : (c == 8) ≡ false) where
  tty_putchar-OnScreen :
      OnScreen s
      → OnScreen (tty_putchar c s) × ((i : ℕ) → 2000 ≤ i → (tty_putchar c s).cells i ≡ s.cells i)
  unfolding tty_putchar tty_init
  tty_putchar-OnScreen on = elim (Bool-cases (leb 80 (s.tty_x + 1))) [
    | inr inner ↦
        let kept : leb 25 s.tty_y ≡ false = ground arith in
        rw (line, back, inner, kept)
          (record { column = ground arith; row = on.row }, λ i out. ground arith)
    | inl edge ↦ elim (Bool-cases (leb 25 (s.tty_y + 1))) [
      | inl bottom ↦
          rw (line, back, edge, bottom)
            (
              record { column = omega arith; row = omega arith },
              λ i out. cleared-outside _ i out ∙ ground arith,
            )
      | inr above ↦
          rw (line, back, edge, above)
            (record { column = omega arith; row = ground arith }, λ i out. ground arith)
    ]
  ]

  tty_putchar-below :
      s.tty_y ≡ 24
      → let s' = tty_putchar c (tty_putchar 10 s) in
        ((tty_putchar 10 s).tty_y ≡ 25)
        × (s'.cells 2000 ≡ vga_entry c)
        × ((i : ℕ) → i < 2000 → s'.cells i ≡ vga_entry 32)
        × (s'.tty_x ≡ 0)
        × (s'.tty_y ≡ 0)
  unfolding tty_putchar tty_init
  tty_putchar-below e =
      let bottom : leb 25 (s.tty_y + 1) ≡ true = ground arith in
      rw (line, back, bottom)
        (
          ground arith,
          cleared-outside _ 2000 (omega arith) ∙ ground arith,
          λ i inside. cleared-inside _ i inside,
          refl,
          refl,
        )

-- Printing a character other than a newline and a backspace with the cursor on the screen leaves the
-- cursor on the screen and writes no cell past the last one. After a newline in the last row the
-- cursor is in the row 25, below the screen: the next such character is written past the last cell, and
-- then every cell of the screen is blank and the cursor at the top left.
pub tty_putchar_lem :
    (c : ℕ) (s : Screen)
    → OnScreen s
    → (c == 10) ≡ false
    → (c == 8) ≡ false
    → (OnScreen (tty_putchar c s) × ((i : ℕ) → 2000 ≤ i → (tty_putchar c s).cells i ≡ s.cells i))
      × (s.tty_y ≡ 24
          → let s' = tty_putchar c (tty_putchar 10 s) in
            ((tty_putchar 10 s).tty_y ≡ 25)
            × (s'.cells 2000 ≡ vga_entry c)
            × ((i : ℕ) → i < 2000 → s'.cells i ≡ vga_entry 32)
            × (s'.tty_x ≡ 0)
            × (s'.tty_y ≡ 0))
tty_putchar_lem c s on line back =
    (tty_putchar-OnScreen c s line back on, tty_putchar-below c s line back)
