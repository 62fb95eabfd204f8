-- ===== src/Screen/Hardware.antt =====
-- `vga_update_cursor` of kernel/dev/vga.c: the cursor that the screen shows.
use mini_unix.Base.{ℕ, ◌+◌, ◌*◌, ◌/◌, ◌%◌, ◌^◌}
use mini_unix.Pic.{Ports, outb}
use mini_unix.Screen.{vga_width}

abbrev pub vga_ctrl_register : ℕ
vga_ctrl_register = 0x3D4

abbrev pub vga_data_register : ℕ
vga_data_register = 0x3D5

unfoldable pub vga_update_cursor : (x y : ℕ) → Ports → Ports
vga_update_cursor x y p0 =
    let pos = (y * vga_width + x) % 2 ^ 16 in
    let p1 = outb vga_ctrl_register 0x0F p0 in
    let p2 = outb vga_data_register (pos % 2 ^ 8) p1 in
    let p3 = outb vga_ctrl_register 0x0E p2 in outb vga_data_register (pos / 2 ^ 8 % 2 ^ 8) p3
