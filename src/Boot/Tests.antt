-- ===== src/Boot/Tests.antt =====
-- A start from a machine with every byte 0, and ports that read as what was written to them last.
use mini_unix.Base.{
  ℕ, ◌+◌, ◌*◌, ◌%◌, ◌^◌, ◌≡◌, refl, true, false, List, [], ◌∷◌, ◌++◌, Option, none, some, arith,
  ◌==◌, if◌then◌else◌,
}
use mini_unix.Errno.{enomem, err}
use mini_unix.Heap.{kmalloc}
use mini_unix.Files.{fresh_file}
use mini_unix.Vfs.{slash, Lookup, vfs_find_fs}
use mini_unix.Vfs.Calls.{MountFn, blank_vnode, vfs_mount}
use mini_unix.Tmpfs.{tmpfs_name, Inodes, tmpfs_file, new_inode, tmpfs_fs, tmpfs_mount}
use mini_unix.Pic.{pic_init, pic_unmask_irq}
use mini_unix.Pic.Latch.{latch, latch-Latched}
use mini_unix.Pic.Masks.{masked}
use mini_unix.Interrupts.{
  Frame, Machine, Handler, resumed, interrupt_register_handler, interrupt_dispatch,
}
use mini_unix.Interrupts.Idt.{LeadsTo, entry_point, gate}
use mini_unix.Interrupts.Timer.{timer_irq_handler, timer_init}
use mini_unix.Interrupts.Dispatch.{interrupts_init}
use mini_unix.Screen.Hardware.{vga_update_cursor}
use mini_unix.Keyboard.{empty_buffer}
use mini_unix.Keyboard.Queue.{window, contents}
use mini_unix.Keyboard.Runs.{taken_in}
use mini_unix.Keyboard.Start.{keyboard_init, keyboard_handler, kb_status, kb_scancode}
use mini_unix.Boot.{Linked, Driven, System, on_clock, on_keyboard, start_devices, kmain}
use mini_unix.Boot.Handlers.{handler_for, kmain-LeadsTo}
use mini_unix.Boot.Devices.{Loaded, Served, ready, pressed, after_tick, after_press, kmain-Served}
use mini_unix.Boot.Storage.{kmain-vfs_mount}

abbrev linked : Linked
linked = record {
  isr = λ i. 65536 + 16 * i;
  irq = λ i. 69632 + 16 * i;
  isr128 = 73728;
  gdt_at = 77824;
  timer_handler_at = 81920;
  keyboard_handler_at = 86016;
  syscall_dispatch_at = 90112;
  tmpfs_mount_at = 94208;
}

-- The keyboard's ports read as if the key of the letter a had been pressed.
abbrev off : System
off = record {
  machine = record {
    handlers = λ v. 0;
    ports = (0x64, 1) ∷ (0x60, 30) ∷ [];
    screen = record { cells = λ i. 0; tty_x = 0; tty_y = 0 };
    own = record {
      clock = record { ticks = 0 };
      keyboard = record { key_buffer = λ i. 0; key_buffer_head = 0; key_buffer_tail = 0 };
    };
  };
  idt = λ v. gate 0 0 0;
  gdt = λ i. record {
    limit_low = 0;
    base_low = 0;
    base_middle = 0;
    access = 0;
    limit_high = 0;
    flags = 0;
    base_high = 0;
  };
  gdt_ptr = record { limit = 0; base = 0 };
  table = λ i. none;
  state = record {
    store = record {
      vnodes = λ p. blank_vnode;
      mounts = λ p. record { mountpoint = 0; root = 0; fs = none; device = 0 };
      root_vnode = 98304;
    };
    opened = record {
      files = λ p. fresh_file 0 0;
      references = λ p. 0;
      heap = record { heap_start = 0; heap_current = 0; heap_end = 0; bytes = λ p. 0 };
    };
    own = λ p. new_inode tmpfs_file [] 0;
  };
  enabled = false;
}

kmain-LeadsTo_example :
    let s' = kmain latch linked off in
    (s'.machine.handlers 33 ≡ handler_for linked 33)
    × LeadsTo (entry_point linked.isr linked.irq linked.isr128 33) (s'.idt 33)
    × (masked latch 7 s'.machine.ports ≡ (s'.machine.handlers (32 + 7) == 0))
    × (s'.enabled ≡ true)
kmain-LeadsTo_example =
    kmain-LeadsTo latch linked off 33 7 latch-Latched refl refl (omega arith) (omega arith)

abbrev handler_at : ℕ → Handler Driven
handler_at a =
    if a == 81920 then on_clock timer_irq_handler else on_keyboard (keyboard_handler latch)

handler_at-Loaded : Loaded latch linked handler_at
handler_at-Loaded = record {
  timer_set = refl;
  keyboard_set = refl;
  timer_runs = refl;
  keyboard_runs = refl;
}

abbrev frame : Frame
frame = record {
  gs = 0;
  fs = 0;
  es = 0;
  ds = 0;
  edi = 0;
  esi = 0;
  ebp = 0;
  esp = 0;
  ebx = 0;
  edx = 0;
  ecx = 0;
  eax = 0;
  vector = 0;
  error_code = 0;
  eip = 0;
  cs = 8;
  eflags = 0;
}

abbrev started_machine : Machine Driven
started_machine = (kmain latch linked off).machine

abbrev typed_machine : Machine Driven
typed_machine = after_press latch linked handler_at started_machine

abbrev a_key : List ℕ
a_key =
    taken_in (kb_status latch started_machine.ports) (kb_scancode latch started_machine.ports)
      started_machine.own.keyboard

one_press : Served latch linked handler_at started_machine 0 a_key [] typed_machine
one_press =
    let (_, _, _, dispatched) =
      kmain-Served latch linked handler_at off 0 [] [] started_machine frame handler_at-Loaded
        (omega arith) ready in
    pressed frame (record frame { vector = 33 }) ready dispatched

kmain-Served_example :
    (typed_machine.own.clock.ticks ≡ (off.machine.own.clock.ticks + 0) % 2 ^ 32)
    × ([] ++ contents typed_machine.own.keyboard ≡ a_key)
    × (interrupt_dispatch handler_at (record frame { vector = 32 }) typed_machine
        ≡ resumed (record frame { vector = 32 }) (after_tick latch linked handler_at typed_machine))
    × (interrupt_dispatch handler_at (record frame { vector = 33 }) typed_machine
        ≡ resumed
            (record frame { vector = 33 })
            (after_press latch linked handler_at typed_machine))
kmain-Served_example =
    kmain-Served latch linked handler_at off 0 a_key [] typed_machine frame handler_at-Loaded
      (omega arith) one_press

abbrev no_lookup : ℕ → Option Lookup
no_lookup ops = none

abbrev mount_of : ℕ → MountFn Inodes
mount_of a = tmpfs_mount 102400

kmain-vfs_mount_example :
    let s' = kmain latch linked off in
    (vfs_find_fs (some tmpfs_name) s'.table ≡ some (tmpfs_fs linked.tmpfs_mount_at))
    × ((kmalloc 16 s'.state.opened.heap).0 ≡ none)
    × (vfs_mount no_lookup mount_of s'.table (some (slash ∷ [])) (some tmpfs_name) 0 s'.state
        ≡ some (err enomem, s'.state))
kmain-vfs_mount_example =
    kmain-vfs_mount latch linked no_lookup mount_of 102400 0 16 off refl refl refl
      record { no_start = refl; no_end = refl }

a_key_runs : a_key ≡ 97 ∷ []
unfolding kmain start_devices timer_init keyboard_init pic_init pic_unmask_irq vga_update_cursor
    interrupts_init interrupt_register_handler empty_buffer window
a_key_runs = refl
