-- ===== src/Boot/Handlers.antt =====
-- The tables and masks that the start of the kernel leaves.
use mini_unix.Base.{
  ℕ, ◌+◌, ◌<◌, ◌≡◌, refl, ◌∙◌, ap, inl, inr, true, false, ◌||◌, not, arith, checked_lem, check_from,
  ltb, ◌==◌, if◌then◌else◌, Bool-cases,
}
use mini_unix.Bitmap.Byte.{byte_bit}
use mini_unix.Pic.{Ports, outb, data_port, pic1_data, pic2_data, pic_init, pic_unmask_irq}
use mini_unix.Pic.Masks.{Latched, line, masked, pic_mask_irq-pic_unmask_irq}
use mini_unix.Interrupts.{Machine, interrupt_register_handler}
use mini_unix.Interrupts.Idt.{Idt, LeadsTo, entry_point}
use mini_unix.Interrupts.Dispatch.{interrupts_init, interrupts_init-LeadsTo}
use mini_unix.Interrupts.Timer.{pit_channel0_port, pit_command_port, timer_init}
use mini_unix.Keyboard.Start.{keyboard_init}
use mini_unix.Boot.{blank_screen, Linked, Driven, System, start_devices, kmain}

-- the handler that the kernel has for a vector, 0 for none
abbrev pub handler_for : Linked → (v : ℕ) → ℕ
handler_for linked v =
    if v == 33
    then linked.keyboard_handler_at
    else if v == 32
    then linked.timer_handler_at
    else if v == 128
    then linked.syscall_dispatch_at
    else 0

pub start_devices-LeadsTo :
    (inb : Ports → ℕ → ℕ) (linked : Linked) (m : Machine Driven) (idt : Idt) (v : ℕ)
    → v < 256
    → let (m', idt') = start_devices inb linked (m, idt) in
      (m'.handlers v ≡ handler_for linked v)
      × LeadsTo (entry_point linked.isr linked.irq linked.isr128 v) (idt' v)
unfolding start_devices interrupts_init interrupt_register_handler timer_init keyboard_init
start_devices-LeadsTo inb linked m idt v lt =
    let (cleared, leads) =
      interrupts_init-LeadsTo Driven linked.isr linked.irq linked.isr128 m idt v lt in
    (rw cleared refl, leads)

all_ones : (l : ℕ) → l < 8 → byte_bit 0xFF l ≡ true
unfolding check_from
all_ones l lt = checked_lem 8 (λ j. byte_bit 0xFF j) l refl lt

module _ (inb : Ports → (port : ℕ) → ℕ) (latched : Latched inb) where
  pic_init-inb : (irq : ℕ) (ports : Ports) → inb (pic_init ports) (data_port irq) ≡ 0xFF
  unfolding pic_init
  pic_init-inb irq ports = elim (Bool-cases (ltb irq 8)) [
    | inl low ↦
        rw low
          (latched.unaffected _ 0 pic2_data 0xFF refl ∙ latched.last_written _ 0 0xFF (omega arith))
    | inr high ↦ rw high (latched.last_written _ 8 0xFF (omega arith))
  ]

  pic_init-masked : (irq : ℕ) (ports : Ports) → irq < 16 → masked inb irq (pic_init ports) ≡ true
  pic_init-masked irq ports lt = rw (pic_init-inb irq ports) (all_ones (line irq) (ground arith))

  masked-outb :
      (irq port v : ℕ) (ports : Ports)
      → (port == pic1_data) ≡ false
      → (port == pic2_data) ≡ false
      → masked inb irq (outb port v ports) ≡ masked inb irq ports
  masked-outb irq port v ports first second =
      ap (λ b. byte_bit b (line irq)) (latched.unaffected ports irq port v (ground arith))

  start_devices-masked :
      (linked : Linked) (m : Machine Driven) (idt : Idt) (irq : ℕ)
      → irq < 16
      → masked inb irq (start_devices inb linked (m, idt)).0.ports ≡ not ((irq == 0) || (irq == 1))
  unfolding start_devices interrupts_init interrupt_register_handler timer_init keyboard_init
  start_devices-masked linked m idt irq lt =
      let programmed : Ports =
        outb pit_channel0_port 46
          (outb pit_channel0_port 155 (outb pit_command_port 54 (pic_init m.ports))) in
      let all_masked : masked inb irq programmed ≡ true =
        masked-outb irq pit_channel0_port 46 _ refl refl
        ∙ masked-outb irq pit_channel0_port 155 _ refl refl
        ∙ masked-outb irq pit_command_port 54 _ refl refl
        ∙ pic_init-masked irq m.ports lt in
      let keyboard =
        (pic_mask_irq-pic_unmask_irq inb latched 1 irq (pic_unmask_irq inb 0 programmed)
          (omega arith) lt).1 in
      let clock = (pic_mask_irq-pic_unmask_irq inb latched 0 irq programmed (omega arith) lt).1 in
      keyboard ∙ rw (clock, all_masked) (ground arith)

-- If the data ports read as what was written to them last, and no handler of an interrupt line is at
-- address 0, then after the calls of `kmain` up to the shell, whatever the tables held before: a vector
-- below 256 has the handler that the kernel has for it, and none otherwise; its gate leads to its entry
-- point, or is not present where it has none; an interrupt line is masked exactly if its vector has no
-- handler; and interrupts are enabled.
pub kmain-LeadsTo :
    (inb : Ports → ℕ → ℕ) (linked : Linked) (s : System) (v irq : ℕ)
    → Latched inb
    → (linked.timer_handler_at == 0) ≡ false
    → (linked.keyboard_handler_at == 0) ≡ false
    → v < 256
    → irq < 16
    → let s' = kmain inb linked s in
      (s'.machine.handlers v ≡ handler_for linked v)
      × LeadsTo (entry_point linked.isr linked.irq linked.isr128 v) (s'.idt v)
      × (masked inb irq s'.machine.ports ≡ (s'.machine.handlers (32 + irq) == 0))
      × (s'.enabled ≡ true)
unfolding kmain
kmain-LeadsTo inb linked s v irq latched has_timer has_keyboard lt line_lt =
    let (handler, leads) = start_devices-LeadsTo inb linked (blank_screen s.machine) s.idt v lt in
    let (of_line, _) =
      start_devices-LeadsTo inb linked (blank_screen s.machine) s.idt (32 + irq) (omega arith) in
    (
      handler,
      leads,
      start_devices-masked inb latched linked (blank_screen s.machine) s.idt irq line_lt
          ∙ rw of_line (ground arith),
      refl,
    )
