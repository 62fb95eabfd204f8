-- ===== src/Pic.antt =====
-- kernel/arch/x86/pic.c: the two interrupt controllers behind the ports 0x20, 0x21, 0xA0 and 0xA1. The
-- state is the list of the writes to ports so far, the last one first. What a port reads as is up to the
-- device: `inb` is a parameter, a function of the writes and the port.
pub mod Masks
pub mod Latch
mod Tests
use mini_unix.Base.{
  ℕ, ◌+◌, ◌-◌, ◌%◌, ◌^◌, Bool, List, [], ◌∷◌, ltb, leb, if◌then◌else◌, bit_and, bit_or,
}
use mini_unix.Bitmap.{and_not}

-- the writes of `outb`: a port and a byte
abbrev pub Ports : Type 0
Ports = List (ℕ × ℕ)

abbrev pub outb : (port value : ℕ) → Ports → Ports
outb port value ports = (port, value) ∷ ports

abbrev pub pic1_command : ℕ
pic1_command = 0x20

abbrev pub pic1_data : ℕ
pic1_data = 0x21

abbrev pub pic2_command : ℕ
pic2_command = 0xA0

abbrev pub pic2_data : ℕ
pic2_data = 0xA1

abbrev pub pic_eoi : ℕ
pic_eoi = 0x20

-- `ICW1_INIT | ICW1_ICW4`
abbrev pub icw1 : ℕ
icw1 = 0x11

abbrev pub io_wait : Ports → Ports
io_wait ports = outb 0x80 0 ports

unfoldable pub pic_init : Ports → Ports
pic_init p0 =
    let p1 = outb pic1_data 0xFF p0 in
    let p2 = outb pic2_data 0xFF p1 in
    let p3 = io_wait (outb pic1_command icw1 p2) in
    let p4 = io_wait (outb pic2_command icw1 p3) in
    let p5 = io_wait (outb pic1_data 0x20 p4) in
    let p6 = io_wait (outb pic2_data 0x28 p5) in
    let p7 = io_wait (outb pic1_data 4 p6) in
    let p8 = io_wait (outb pic2_data 2 p7) in
    let p9 = io_wait (outb pic1_data 1 p8) in
    let p10 = io_wait (outb pic2_data 1 p9) in outb pic2_data 0xFF (outb pic1_data 0xFF p10)

unfoldable pub pic_send_eoi : (irq : ℕ) → Ports → Ports
pic_send_eoi irq ports =
    let ports' = if leb 8 irq then outb pic2_command pic_eoi ports else ports in
    outb pic1_command pic_eoi ports'

-- the port with the mask of a line
abbrev pub data_port : ℕ → ℕ
data_port irq = if ltb irq 8 then pic1_data else pic2_data

-- `1 << irq`, the line counted within its controller
abbrev pub line_bit : ℕ → ℕ
line_bit irq = if ltb irq 8 then 2 ^ irq else 2 ^ (irq - 8)

module _ (inb : Ports → (port : ℕ) → ℕ) where
  -- The mask is stored in a `uint8_t`.
  unfoldable pub pic_unmask_irq : (irq : ℕ) → Ports → Ports
  pic_unmask_irq irq ports =
      let port = data_port irq in
      let mask = and_not (inb ports port) (line_bit irq) % 2 ^ 8 in outb port mask ports

  unfoldable pub pic_mask_irq : (irq : ℕ) → Ports → Ports
  pic_mask_irq irq ports =
      let port = data_port irq in
      let mask = bit_or (inb ports port) (line_bit irq) % 2 ^ 8 in outb port mask ports
