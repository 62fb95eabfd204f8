-- ===== src/Keyboard/Start.antt =====
-- `keyboard_init` of kernel/dev/keyboard.c, and its interrupt handler as one that the kernel dispatches
-- to. What a port reads as is the parameter `inb`.
use mini_unix.Base.{ℕ}
use mini_unix.Pic.{Ports, pic_unmask_irq}
use mini_unix.Interrupts.{Machine, Handler, interrupt_register_handler}
use mini_unix.Keyboard.{Keyboard, empty_buffer, keyboard_irq_handler}

abbrev pub keyboard_irq : ℕ
keyboard_irq = 1

abbrev pub keyboard_vector : ℕ
keyboard_vector = 33

module _ (inb : Ports → (port : ℕ) → ℕ) where
  abbrev pub kb_scancode : Ports → ℕ
  kb_scancode ports = inb ports 0x60

  abbrev pub kb_status : Ports → ℕ
  kb_status ports = inb ports 0x64

  -- the handler with the bytes that it reads
  abbrev pub keyboard_handler : Handler Keyboard
  keyboard_handler frame m = (
    frame,
    record m { own = keyboard_irq_handler (kb_status m.ports) (kb_scancode m.ports) m.own },
  )

  -- `handler` is the address of the handler.
  unfoldable pub keyboard_init :
      {Own : Type 0} → (handler : ℕ) → Keyboard × Machine Own → Keyboard × Machine Own
  keyboard_init handler (k, m) =
      let m' = interrupt_register_handler keyboard_vector handler m in
      (empty_buffer k, record m' { ports = pic_unmask_irq inb keyboard_irq m'.ports })
