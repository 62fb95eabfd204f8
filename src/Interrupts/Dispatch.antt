-- ===== src/Interrupts/Dispatch.antt =====
-- `interrupts_init`, and what `interrupt_dispatch` does with an interrupt.
use mini_unix.Base.{
  ℕ, zero, suc, ◌+◌, ◌-◌, ◌<◌, ◌≡◌, refl, ◌∙◌, inl, inr, false, ◌&&◌, arith, ◌==◌, ltb, leb,
  if◌then◌else◌, Bool-cases,
}
use mini_unix.Pic.{pic_send_eoi}
use mini_unix.Interrupts.Idt.{Idt, LeadsTo, entry_point, idt_init, idt_init-LeadsTo}
use mini_unix.Interrupts.{
  interrupt_vector_count, clear_handlers, Frame, Machine, resumed, end_of_interrupt,
}

-- the machine once the interrupt of a vector is acknowledged
abbrev pub acknowledged : {Own : Type 0} → (vector : ℕ) → Machine Own → Machine Own
acknowledged vector m =
    if leb 32 vector && ltb vector 48
    then record m { ports = pic_send_eoi (vector - 32) m.ports }
    else m

pub end_of_interrupt-resumed :
    (Own : Type 0) (vector : ℕ) (frame : Frame) (m : Machine Own)
    → end_of_interrupt vector (resumed frame m) ≡ resumed frame (acknowledged vector m)
unfolding end_of_interrupt
end_of_interrupt-resumed Own vector frame m = elim (Bool-cases (leb 32 vector && ltb vector 48)) [
  | inl line ↦ rw line refl
  | inr other ↦ rw other refl
]

unfoldable pub interrupts_init :
    {Own : Type 0} → (isr irq : ℕ → ℕ) (isr128 : ℕ) → Machine Own × Idt → Machine Own × Idt
interrupts_init isr irq isr128 (m, idt) = (
  record m { handlers = clear_handlers interrupt_vector_count 0 m.handlers },
  idt_init isr irq isr128 idt,
)

clear_handlers_lem :
    (n i : ℕ) (handlers : ℕ → ℕ) (v : ℕ)
    → clear_handlers n i handlers v ≡ (if leb i v && ltb v (i + n) then 0 else handlers v)
unfolding clear_handlers
clear_handlers_lem zero i handlers v =
    let none_in : (leb i v && ltb v (i + 0)) ≡ false = ground arith in rw none_in refl
clear_handlers_lem (suc n) i handlers v =
    let rest = clear_handlers_lem n (i + 1) (λ w. if w == i then 0 else handlers w) v in
    rest ∙ ground arith

-- After `interrupts_init` no vector below 256 has a handler. Its gate is present exactly if the vector
-- is one of the 32 exceptions, the 16 interrupt lines behind them or the system call; and then it leads
-- to the entry point for the vector, a 32-bit address, in the code segment of the kernel.
pub interrupts_init-LeadsTo :
    (Own : Type 0) (isr irq : ℕ → ℕ) (isr128 : ℕ) (m : Machine Own) (idt : Idt) (v : ℕ)
    → v < 256
    → let (m', idt') = interrupts_init isr irq isr128 (m, idt) in
      (m'.handlers v ≡ 0) × LeadsTo (entry_point isr irq isr128 v) (idt' v)
unfolding interrupts_init
interrupts_init-LeadsTo Own isr irq isr128 m idt v lt =
    (clear_handlers_lem 256 0 m.handlers v ∙ ground arith, idt_init-LeadsTo isr irq isr128 idt v lt)
