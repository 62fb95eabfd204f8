-- ===== src/Boot.antt =====
-- kernel/init/kernel.c: the start of the kernel, up to the call of `shell_launch`, and `syscalls_init` of
-- kernel/proc/syscalls.c. What the linker and the assembly decide is the parameter `Linked`, and what a
-- port reads as is the parameter `inb`.
pub mod Handlers
pub mod Devices
pub mod Storage
mod Tests
use mini_unix.Base.{ℕ, Bool, true}
use mini_unix.Screen.{tty_init}
use mini_unix.Screen.Hardware.{vga_update_cursor}
use mini_unix.Pic.{Ports, pic_init}
use mini_unix.Gdt.{Gdt, GdtPtr, gdt_init}
use mini_unix.Interrupts.{Frame, Machine, Handler, interrupt_register_handler}
use mini_unix.Interrupts.Idt.{Idt, syscall_vector}
use mini_unix.Interrupts.Dispatch.{interrupts_init}
use mini_unix.Interrupts.Timer.{Clock, timer_irq_handler, timer_init}
use mini_unix.Keyboard.{Keyboard}
use mini_unix.Keyboard.Start.{keyboard_handler, keyboard_init}
use mini_unix.Vfs.{Table}
use mini_unix.Vfs.Calls.{vfs_init}
use mini_unix.Tmpfs.{TmpfsState, tmpfs_init}

-- the addresses of the functions that are called through tables, and of the table of segments
pub record Linked : Type 0 where
  pub isr : ℕ → ℕ
  pub irq : ℕ → ℕ
  pub isr128 : ℕ
  pub gdt_at : ℕ
  pub timer_handler_at : ℕ
  pub keyboard_handler_at : ℕ
  pub syscall_dispatch_at : ℕ
  pub tmpfs_mount_at : ℕ

-- what the handlers of the two devices keep
pub record Driven : Type 0 where
  pub clock : Clock
  pub keyboard : Keyboard

-- `enabled` is the interrupt flag of the processor.
pub record System : Type 0 where
  pub machine : Machine Driven
  pub idt : Idt
  pub gdt : Gdt
  pub gdt_ptr : GdtPtr
  pub table : Table
  pub state : TmpfsState
  pub enabled : Bool

abbrev pub with_own : {A B : Type 0} → B → Machine A → Machine B
with_own own m = record { handlers = m.handlers; ports = m.ports; screen = m.screen; own = own }

-- a handler that sees its own device alone
abbrev pub on_clock : Handler Clock → Handler Driven
on_clock handler frame m =
    let (frame', m') = handler frame (with_own m.own.clock m) in
    (frame', with_own (record m.own { clock = m'.own }) m')

abbrev pub on_keyboard : Handler Keyboard → Handler Driven
on_keyboard handler frame m =
    let (frame', m') = handler frame (with_own m.own.keyboard m) in
    (frame', with_own (record m.own { keyboard = m'.own }) m')

abbrev pub syscalls_init : {Own : Type 0} → (handler : ℕ) → Machine Own → Machine Own
syscalls_init handler m = interrupt_register_handler syscall_vector handler m

-- `interrupt_enable`
abbrev pub interrupt_enable : System → System
interrupt_enable s = record s { enabled = true }

-- the machine after `tty_init`, with the cursor that it shows
abbrev pub blank_screen : {Own : Type 0} → Machine Own → Machine Own
blank_screen m =
    let screen' = tty_init m.screen in
    record m { screen = screen'; ports = vga_update_cursor screen'.tty_x screen'.tty_y m.ports }

module _ (inb : Ports → (port : ℕ) → ℕ) (linked : Linked) where
  -- the calls from `interrupts_init` to `keyboard_init`
  unfoldable pub start_devices : Machine Driven × Idt → Machine Driven × Idt
  start_devices (m, idt) =
      let (m1, idt') = interrupts_init linked.isr linked.irq linked.isr128 (m, idt) in
      let m2 = syscalls_init linked.syscall_dispatch_at m1 in
      let m3 = record m2 { ports = pic_init m2.ports } in
      let m4 = timer_init inb linked.timer_handler_at 100 m3 in
      let (keyboard', m5) = keyboard_init inb linked.keyboard_handler_at (m4.own.keyboard, m4) in
      (record m5 { own = record m5.own { keyboard = keyboard' } }, idt')

  -- Neither `vfs_init` nor `tmpfs_init` has its result looked at.
  unfoldable pub kmain : System → System
  kmain s =
      let (gdt', gdt_ptr') = gdt_init linked.gdt_at s.gdt in
      let (m', idt') = start_devices (blank_screen s.machine, s.idt) in
      let (table', state') = vfs_init (s.table, s.state) in
      let (_, table'') = tmpfs_init linked.tmpfs_mount_at table' in
      interrupt_enable record {
        machine = m';
        idt = idt';
        gdt = gdt';
        gdt_ptr = gdt_ptr';
        table = table'';
        state = state';
        enabled = s.enabled;
      }
