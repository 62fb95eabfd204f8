-- ===== src/Interrupts/Idt.antt =====
-- kernel/arch/x86/idt.c: the table of interrupt gates. The entry points written in assembly are the
-- parameters `isr`, `irq` and `isr128`; that the table is loaded is not modelled.
use mini_unix.Base.{
  subst, none, some, Option, ℕ, zero, suc, ◌+◌, ◌-◌, ◌*◌, ◌/◌, ◌%◌, ◌^◌, ◌<◌, ◌≤◌, ◌≡◌, refl, sym,
  ◌∙◌, inl, inr, Bool, true, false, ◌&&◌, arith, ◌==◌, ltb, leb, if◌then◌else◌, Bool-cases,
}

abbrev pub idt_entries : ℕ
idt_entries = 256

abbrev pub kernel_code_selector : ℕ
kernel_code_selector = 0x08

abbrev pub idt_interrupt_gate : ℕ
idt_interrupt_gate = 0x8E

abbrev pub syscall_vector : ℕ
syscall_vector = 0x80

pub record IdtEntry : Type 0 where
  pub offset_low : ℕ
  pub selector : ℕ
  pub reserved : ℕ
  pub flags : ℕ
  pub offset_high : ℕ

abbrev pub Idt : Type 0
Idt = ℕ → IdtEntry

abbrev pub gate : (handler selector flags : ℕ) → IdtEntry
gate handler selector flags = record {
  offset_low = handler % 2 ^ 16;
  selector = selector;
  reserved = 0;
  flags = flags;
  offset_high = handler / 2 ^ 16 % 2 ^ 16;
}

-- The vector is a `uint8_t`.
unfoldable pub idt_set_gate : (vector handler selector flags : ℕ) → Idt → Idt
idt_set_gate vector handler selector flags idt v =
    if v == vector % 2 ^ 8 then gate handler selector flags else idt v

-- a loop of `idt_init` over the vectors from `base + i` on, with `n` rounds left
unfoldable pub gates_loop : (n i base : ℕ) (handler : ℕ → ℕ) (selector flags : ℕ) → Idt → Idt
gates_loop zero i base handler selector flags idt = idt
gates_loop (suc n) i base handler selector flags idt =
    gates_loop n (i + 1) base handler selector flags
      (idt_set_gate (base + i) (handler i) selector flags idt)

unfoldable pub idt_init : (isr irq : ℕ → ℕ) (isr128 : ℕ) → Idt → Idt
idt_init isr irq isr128 idt =
    let blank = gates_loop idt_entries 0 0 (λ i. 0) 0 0 idt in
    let exceptions = gates_loop 32 0 0 isr kernel_code_selector idt_interrupt_gate blank in
    let irqs = gates_loop 16 0 32 irq kernel_code_selector idt_interrupt_gate exceptions in
    idt_set_gate syscall_vector isr128 kernel_code_selector idt_interrupt_gate irqs

-- the address that the processor jumps to
abbrev pub offset : IdtEntry → ℕ
offset e = e.offset_low + e.offset_high * 2 ^ 16

abbrev pub is_present : IdtEntry → Bool
is_present e = leb 128 e.flags

gates_loop_lem :
    (n i base : ℕ) (handler : ℕ → ℕ) (selector flags : ℕ) (idt : Idt) (v : ℕ)
    → base + i + n ≤ 256
    → gates_loop n i base handler selector flags idt v ≡ (
        if leb (base + i) v && ltb v (base + i + n)
        then gate (handler (v - base)) selector flags
        else idt v)
unfolding gates_loop idt_set_gate
gates_loop_lem zero i base handler selector flags idt v fits =
    let none_in : (leb (base + i) v && ltb v (base + i + 0)) ≡ false = ground arith in
    rw none_in refl
gates_loop_lem (suc n) i base handler selector flags idt v fits =
    let rest =
      gates_loop_lem n (i + 1) base handler selector flags
        (idt_set_gate (base + i) (handler i) selector flags idt) v (omega arith) in
    let low : (base + i) % 2 ^ 8 ≡ base + i = omega arith in
    rest ∙ elim (Bool-cases (v == base + i)) [
      | inl here ↦
          let later : (leb (base + (i + 1)) v && ltb v (base + (i + 1) + n)) ≡ false =
            ground arith in
          let within : (leb (base + i) v && ltb v (base + i + suc n)) ≡ true = ground arith in
          let at : v - base ≡ i = ground arith in rw (later, within, low, here, at) refl
      | inr away ↦
          let same : (leb (base + (i + 1)) v && ltb v (base + (i + 1) + n))
              ≡ (leb (base + i) v && ltb v (base + i + suc n)) =
            ground arith in
          rw (same, low, away) refl
    ]

-- the handler that a vector below 256 is for, `none` for a vector without one
abbrev pub entry_point : (isr irq : ℕ → ℕ) (isr128 v : ℕ) → Option ℕ
entry_point isr irq isr128 v =
    if v == 128
    then some isr128
    else if ltb v 32
    then some (isr v)
    else if ltb v 48
    then some (irq (v - 32))
    else none

offset-gate : (handler selector flags : ℕ) → offset (gate handler selector flags) ≡ handler % 2 ^ 32
offset-gate handler selector flags = omega arith

abbrev gate_of : Option ℕ → IdtEntry
gate_of none = gate 0 0 0
gate_of (some handler) = gate handler kernel_code_selector idt_interrupt_gate

idt_init-gate_of :
    (isr irq : ℕ → ℕ) (isr128 : ℕ) (idt : Idt) (v : ℕ)
    → v < 256
    → idt_init isr irq isr128 idt v ≡ gate_of (entry_point isr irq isr128 v)
unfolding idt_init idt_set_gate
idt_init-gate_of isr irq isr128 idt v lt =
    let blank = gates_loop idt_entries 0 0 (λ i. 0) 0 0 idt in
    let exceptions = gates_loop 32 0 0 isr kernel_code_selector idt_interrupt_gate blank in
    let b = gates_loop_lem 256 0 0 (λ i. 0) 0 0 idt v (omega arith) in
    let e =
      gates_loop_lem 32 0 0 isr kernel_code_selector idt_interrupt_gate blank v (omega arith) in
    let q =
      gates_loop_lem 16 0 32 irq kernel_code_selector idt_interrupt_gate exceptions v
        (omega arith) in
    elim (Bool-cases (v == 128)) [
      | inl syscall ↦ rw syscall refl
      | inr other ↦
          let all : ltb v 256 ≡ true = ground arith in
          let from_start : leb (0 + 0) v ≡ true = ground arith in
          let whole : v - 0 ≡ v = omega arith in
          rw other (
            q
            ∙ rw (e, b, all, from_start, whole)
                (elim (Bool-cases (ltb v 32)) [
                  | inl exception ↦
                      let lower : (leb 32 v && ltb v 48) ≡ false = ground arith in
                      rw (exception, lower) refl
                  | inr above ↦
                      let upper : leb 32 v ≡ true = ground arith in
                      elim (Bool-cases (ltb v 48)) [
                        | inl line ↦ rw (above, upper, line) refl
                        | inr beyond ↦ rw (above, upper, beyond) refl
                      ]
                ]))
    ]

-- A gate is present, and leads to the 32-bit address of a handler in the code segment of the kernel; or
-- it is not present.
abbrev pub LeadsTo : Option ℕ → IdtEntry → Type 0
LeadsTo none e = is_present e ≡ false
LeadsTo (some handler) e =
    (is_present e ≡ true) × (offset e ≡ handler % 2 ^ 32) × (e.selector ≡ kernel_code_selector)

gate_of-LeadsTo : (handler : Option ℕ) → LeadsTo handler (gate_of handler)
gate_of-LeadsTo none = refl
gate_of-LeadsTo (some handler) =
    (refl, offset-gate handler kernel_code_selector idt_interrupt_gate, refl)

-- After `idt_init`, whatever the table held, the gate of a vector below 256 is present exactly if the
-- vector is one of the 32 exceptions, the 16 interrupt lines behind them or the system call; and then
-- it leads to the entry point for the vector, a 32-bit address, in the code segment of the kernel.
pub idt_init-LeadsTo :
    (isr irq : ℕ → ℕ) (isr128 : ℕ) (idt : Idt) (v : ℕ)
    → v < 256
    → LeadsTo (entry_point isr irq isr128 v) (idt_init isr irq isr128 idt v)
idt_init-LeadsTo isr irq isr128 idt v lt =
    subst (LeadsTo (entry_point isr irq isr128 v)) (sym (idt_init-gate_of isr irq isr128 idt v lt))
      (gate_of-LeadsTo (entry_point isr irq isr128 v))
