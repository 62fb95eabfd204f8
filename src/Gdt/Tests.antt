-- ===== src/Gdt/Tests.antt =====
-- A table that is blank at first: the theorems at it.
use mini_unix.Base.{◌+◌, ◌*◌, ◌%◌, ◌^◌, ◌≡◌, refl, true, false, ◌||◌, arith}
use mini_unix.Gdt.{Gdt, gdt_set_gate, gdt_init}
use mini_unix.Gdt.Segments.{
  base_of, limit_of, Selects, is_code, base_of-gdt_set_gate, gdt_init-Selects,
}

abbrev blank : Gdt
blank i = record {
  limit_low = 0;
  base_low = 0;
  base_middle = 0;
  access = 0;
  limit_high = 0;
  flags = 0;
  base_high = 0;
}

gdt_set_gate_example :
    let gdt' = gdt_set_gate 7 0x12345678 0xABCDEF 0x89 4 blank in
    (base_of (gdt' 7) ≡ 0x12345678)
    × (limit_of (gdt' 7) ≡ 0xABCDEF % 2 ^ 20)
    × ((gdt' 7).access ≡ 0x89)
    × ((gdt' 7).flags ≡ 4)
    × (gdt' 3 ≡ blank 3)
gdt_set_gate_example =
    base_of-gdt_set_gate 7 0x12345678 0xABCDEF 0x89 4 3 blank (omega arith) (omega arith)
      (omega arith) refl

gdt_init_example :
    let (gdt', ptr) = gdt_init 4096 blank in
    (ptr.limit + 1 ≡ 8 * 8)
    × (Selects gdt' 0x08 8 × Selects gdt' 0x10 8 × Selects gdt' 0x18 8)
    × (Selects gdt' 0x23 8 × Selects gdt' 0x2B 8 × Selects gdt' 0x33 8)
    × (is_code (gdt' 1) ≡ true)
    × (is_code (gdt' 4) ≡ true)
    × ((is_code (gdt' 2) || is_code (gdt' 3) || is_code (gdt' 5) || is_code (gdt' 6)) ≡ false)
gdt_init_example = gdt_init-Selects 4096 blank
