-- ===== src/Pic/Masks.antt =====
-- Which lines the interrupt controllers mask.
use mini_unix.Base.{
  ℕ, ◌-◌, ◌%◌, ◌^◌, ◌<◌, ◌≡◌, refl, sym, ◌∙◌, ap, inl, inr, Bool, true, false, arith, ◌==◌, ltb,
  if◌then◌else◌, Bool-cases, bit_or, ==_eq,
}
use mini_unix.Bitmap.{and_not}
use mini_unix.Bitmap.Byte.{byte_bit, ByteOp, or-ByteOp, and_not-ByteOp}
use mini_unix.Pic.{Ports, outb, data_port, line_bit, pic_unmask_irq, pic_mask_irq}

-- A data port reads as the byte that was written to it last; a write to another port does not change it.
pub record Latched (inb : Ports → (port : ℕ) → ℕ) : Type 0 where
  pub is_byte : (ports : Ports) (port : ℕ) → inb ports port < 256
  pub last_written :
      (ports : Ports) (irq v : ℕ) → v < 256 → inb (outb (data_port irq) v ports) (data_port irq) ≡ v
  pub unaffected :
      (ports : Ports) (irq port v : ℕ)
      → (data_port irq == port) ≡ false
      → inb (outb port v ports) (data_port irq) ≡ inb ports (data_port irq)

-- the place of a line within its controller
abbrev pub line : ℕ → ℕ
line irq = if ltb irq 8 then irq else irq - 8

module _ (inb : Ports → (port : ℕ) → ℕ) where
  abbrev pub masked : ℕ → Ports → Bool
  masked irq ports = byte_bit (inb ports (data_port irq)) (line irq)

  line_lem : (irq : ℕ) → irq < 16 → (line irq < 8) × (line_bit irq ≡ 2 ^ line irq)
  line_lem irq lt = elim (Bool-cases (ltb irq 8)) [
    | inl low ↦ rw low (ground arith, refl)
    | inr high ↦ rw high (ground arith, refl)
  ]

  same_line :
      (irq other : ℕ)
      → irq < 16
      → other < 16
      → (data_port other == data_port irq) ≡ true
      → (line irq == line other) ≡ (other == irq)
  same_line irq other a b same = ground arith

  written :
      (op : ℕ → ℕ → ℕ) (f : Bool → Bool)
      → ByteOp op f
      → Latched inb
      → (irq other : ℕ) (ports : Ports) → irq < 16
      → other < 16
      → masked other
          (outb (data_port irq) (op (inb ports (data_port irq)) (line_bit irq) % 2 ^ 8) ports)
        ≡ (if other == irq then f (masked irq ports) else masked other ports)
  written op f by latched irq other ports a b =
      let (lt, bit_is) = line_lem irq a in
      let (lt', _) = line_lem other b in
      let old = inb ports (data_port irq) in
      let small : op old (2 ^ line irq) < 256 =
        by.in_range old (line irq) (latched.is_byte ports (data_port irq)) lt in
      let new : op old (line_bit irq) % 2 ^ 8 ≡ op old (2 ^ line irq) =
        ap (λ m. op old m % 2 ^ 8) bit_is ∙ omega (arith, small) in
      rw new (elim (Bool-cases (data_port other == data_port irq)) [
        | inl same ↦
            let here = ==_eq (data_port other) (data_port irq) same in
            ap
              (λ p.
                byte_bit (inb (outb (data_port irq) (op old (2 ^ line irq)) ports) p) (line other))
              here
            ∙ ap (λ v. byte_bit v (line other))
                (latched.last_written ports irq (op old (2 ^ line irq)) small)
            ∙ by.bit old (line irq) (line other) (latched.is_byte ports (data_port irq)) lt lt'
            ∙ elim (Bool-cases (other == irq)) [
              | inl e ↦
                  rw (same_line irq other a b same, e)
                    (ap (λ l. f (byte_bit old l)) (ap line (==_eq other irq e)))
              | inr ne ↦
                  rw (same_line irq other a b same, ne)
                    (ap (λ p. byte_bit (inb ports p) (line other)) (sym here))
            ]
        | inr away ↦
            let ne : (other == irq) ≡ false = ground arith in
            rw ne (
              ap (λ v. byte_bit v (line other))
                (latched.unaffected ports other (data_port irq) (op old (2 ^ line irq)) away))
      ])

  -- If a data port reads as what was written to it last, `pic_mask_irq` masks a line below 16,
  -- `pic_unmask_irq` unmasks it, and neither changes whether another line is masked.
  pub pic_mask_irq-pic_unmask_irq :
      Latched inb
      → (irq other : ℕ) (ports : Ports) → irq < 16
      → other < 16
      → (masked other (pic_mask_irq inb irq ports)
          ≡ (if other == irq then true else masked other ports))
        × (masked other (pic_unmask_irq inb irq ports)
            ≡ (if other == irq then false else masked other ports))
  unfolding pic_mask_irq pic_unmask_irq
  pic_mask_irq-pic_unmask_irq latched irq other ports a b = (
    written bit_or (λ _. true) or-ByteOp latched irq other ports a b,
    written and_not (λ _. false) and_not-ByteOp latched irq other ports a b,
  )
