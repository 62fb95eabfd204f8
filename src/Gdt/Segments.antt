-- ===== src/Gdt/Segments.antt =====
-- The descriptors as the processor reads them.
use mini_unix.Base.{
  ◌||◌, ℕ, ◌+◌, ◌*◌, ◌/◌, ◌%◌, ◌^◌, ◌<◌, ◌≡◌, refl, Bool, true, false, arith, ◌==◌, ==_refl, leb,
  if◌then◌else◌,
}
use mini_unix.Gdt.{GdtEntry, Gdt, gdt_set_gate, gdt_init}

abbrev pub base_of : GdtEntry → ℕ
base_of e = e.base_low + e.base_middle * 2 ^ 16 + e.base_high * 2 ^ 24

abbrev pub limit_of : GdtEntry → ℕ
limit_of e = e.limit_low + e.limit_high * 2 ^ 16

-- `gdt_set_gate` and reading the fields of the descriptor give back a 32-bit base, a limit of 20 bits,
-- the access byte and 4 bits of flags; of a longer limit the upper bits are lost. The other descriptors
-- stay as they are.
pub base_of-gdt_set_gate :
    (num base limit access flags other : ℕ) (gdt : Gdt)
    → base < 2 ^ 32
    → limit < 2 ^ 32
    → flags < 2 ^ 4
    → (other == num) ≡ false
    → let gdt' = gdt_set_gate num base limit access flags gdt in
      (base_of (gdt' num) ≡ base)
      × (limit_of (gdt' num) ≡ limit % 2 ^ 20)
      × ((gdt' num).access ≡ access)
      × ((gdt' num).flags ≡ flags)
      × (gdt' other ≡ gdt other)
unfolding gdt_set_gate
base_of-gdt_set_gate num base limit access flags other gdt b l f ne =
    rw (==_refl num, ne) (omega arith, omega arith, refl, omega arith, refl)

-- The bytes that a segment spans: the limit counts pages of 4096 if bit 3 of the flags is set.
abbrev pub span : GdtEntry → ℕ
span e = if leb 8 e.flags then (limit_of e + 1) * 4096 else limit_of e + 1

-- the privilege level of a descriptor, whether it is present, and whether it holds code
abbrev pub privilege : GdtEntry → ℕ
privilege e = e.access / 32 % 4

abbrev pub is_present : GdtEntry → Bool
is_present e = leb 128 e.access

abbrev pub is_code : GdtEntry → Bool
is_code e = e.access / 8 % 2 == 1

-- The selector `s` names one of the first `n` descriptors: one that is present, spans all of the 32-bit
-- addresses, and has the privilege level that the selector asks for.
abbrev pub Selects : Gdt → (s n : ℕ) → Type 0
Selects gdt s n =
    let e = gdt (s / 8) in
    (s / 8 < n)
    × (is_present e ≡ true)
    × (base_of e ≡ 0)
    × (span e ≡ 2 ^ 32)
    × (privilege e ≡ s % 4)

-- Whatever the table held, after `gdt_init` the pointer to it covers exactly 8 descriptors; the
-- selectors for kernel code, data and stack (0x08, 0x10 and 0x18) and for user code, data and stack
-- (0x23, 0x2B and 0x33) each name one of them that is present, spans all 2^32 addresses and has the
-- privilege level in the selector's lowest bits; and of these the two for code are those that hold code.
pub gdt_init-Selects :
    (gdt_at : ℕ) (gdt : Gdt)
    → let (gdt', ptr) = gdt_init gdt_at gdt in
      (ptr.limit + 1 ≡ 8 * 8)
      × (Selects gdt' 0x08 8 × Selects gdt' 0x10 8 × Selects gdt' 0x18 8)
      × (Selects gdt' 0x23 8 × Selects gdt' 0x2B 8 × Selects gdt' 0x33 8)
      × (is_code (gdt' 1) ≡ true)
      × (is_code (gdt' 4) ≡ true)
      × ((is_code (gdt' 2) || is_code (gdt' 3) || is_code (gdt' 5) || is_code (gdt' 6)) ≡ false)
unfolding gdt_init gdt_set_gate
gdt_init-Selects gdt_at gdt = (
  refl,
  (
    (omega arith, refl, refl, refl, refl),
    (omega arith, refl, refl, refl, refl),
    (omega arith, refl, refl, refl, refl),
  ),
  (
    (omega arith, refl, refl, refl, refl),
    (omega arith, refl, refl, refl, refl),
    (omega arith, refl, refl, refl, refl),
  ),
  refl,
  refl,
  refl,
)
