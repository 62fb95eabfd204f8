-- ===== src/Gdt.antt =====
-- kernel/arch/x86/gdt.c: the table of segment descriptors. Its base address is a parameter; that the
-- processor loads the table (`gdt_flush`) is not modelled.
pub mod Segments
mod Tests
use mini_unix.Base.{ℕ, ◌+◌, ◌-◌, ◌*◌, ◌/◌, ◌%◌, ◌^◌, ◌==◌, if◌then◌else◌}

pub record GdtEntry : Type 0 where
  pub limit_low : ℕ
  pub base_low : ℕ
  pub base_middle : ℕ
  pub access : ℕ
  pub limit_high : ℕ
  pub flags : ℕ
  pub base_high : ℕ

pub record GdtPtr : Type 0 where
  pub limit : ℕ
  pub base : ℕ

abbrev pub Gdt : Type 0
Gdt = ℕ → GdtEntry

-- sizeof(gdt)
abbrev pub gdt_size : ℕ
gdt_size = 64

-- The arguments are a `uint32_t` for `base` and `limit`, and a `uint8_t` for `access` and `flags`.
unfoldable pub gdt_set_gate : (num base limit access flags : ℕ) → Gdt → Gdt
gdt_set_gate num base limit access flags gdt i =
    if i == num
    then record {
      limit_low = limit % 2 ^ 16;
      limit_high = limit / 2 ^ 16 % 2 ^ 4;
      base_low = base % 2 ^ 16;
      base_middle = base / 2 ^ 16 % 2 ^ 8;
      base_high = base / 2 ^ 24 % 2 ^ 8;
      access = access;
      flags = flags % 2 ^ 4;
    }
    else gdt i

-- the table and the pointer to it
unfoldable pub gdt_init : (gdt_at : ℕ) → Gdt → Gdt × GdtPtr
gdt_init gdt_at gdt =
    let g0 = gdt_set_gate 0 0 0 0 0 gdt in
    let g1 = gdt_set_gate 1 0 0xFFFFF 0x9A 0xC g0 in
    let g2 = gdt_set_gate 2 0 0xFFFFF 0x92 0xC g1 in
    let g3 = gdt_set_gate 3 0 0xFFFFF 0x92 0xC g2 in
    let g4 = gdt_set_gate 4 0 0xFFFFF 0xFA 0xC g3 in
    let g5 = gdt_set_gate 5 0 0xFFFFF 0xF2 0xC g4 in
    let g6 = gdt_set_gate 6 0 0xFFFFF 0xF2 0xC g5 in
    (gdt_set_gate 7 0 0 0 0 g6, record { limit = gdt_size - 1; base = gdt_at })
