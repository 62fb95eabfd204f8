-- ===== src/Interrupts/Tests.antt =====
-- A machine whose handlers are all the one of the clock, at 4096: runs, and the theorems at it.
use mini_unix.Base.{ℕ, ◌+◌, ◌*◌, ◌%◌, ◌^◌, ◌<◌, ◌≤◌, ◌≡◌, refl, [], some, arith}
use mini_unix.Pic.{Ports}
use mini_unix.Interrupts.{Frame, Machine, Handler, resumed}
use mini_unix.Interrupts.Idt.{LeadsTo, gate}
use mini_unix.Interrupts.Dispatch.{interrupts_init, interrupts_init-LeadsTo}
use mini_unix.Interrupts.Timer.{
  Clock, timer_irq_handler, timer_ticks, timer_init, pit_base_frequency, clock_interrupts, eois,
  reload, timer_init-timer_ticks, timer_init-reload,
}

abbrev frame : Frame
frame = record {
  gs = 0;
  fs = 0;
  es = 0;
  ds = 0;
  edi = 0;
  esi = 0;
  ebp = 0;
  esp = 0;
  ebx = 0;
  edx = 0;
  ecx = 0;
  eax = 0;
  vector = 32;
  error_code = 0;
  eip = 0;
  cs = 8;
  eflags = 0;
}

abbrev machine : Machine Clock
machine = record {
  handlers = λ v. 0;
  ports = [];
  screen = record { cells = λ p. 0; tty_x = 0; tty_y = 0 };
  own = record { ticks = 4294967295 };
}

abbrev handler_at : ℕ → Handler Clock
handler_at address = timer_irq_handler

abbrev inb : Ports → ℕ → ℕ
inb ports port = 255

interrupts_init_example :
    let (m', idt') =
      interrupts_init (λ i. 2048 + i * 16) (λ i. 4096 + i * 16) 8192 (machine, λ v. gate 0 0 0) in
    (m'.handlers 33 ≡ 0) × LeadsTo (some 4112) (idt' 33)
interrupts_init_example =
    interrupts_init-LeadsTo Clock (λ i. 2048 + i * 16) (λ i. 4096 + i * 16) 8192 machine
      (λ v. gate 0 0 0) 33 (omega arith)

timer_ticks_example :
    let m' = timer_init inb 4096 100 machine in
    (m'' : Machine Clock) × (clock_interrupts handler_at 3 frame m' ≡ resumed frame m'')
    × (timer_ticks m'' ≡ (timer_ticks machine + 3) % 2 ^ 32)
    × (m''.ports ≡ eois 3 m'.ports)
timer_ticks_example =
    timer_init-timer_ticks inb handler_at 4096 100 3 frame machine refl refl (omega arith)

timer_reload_example :
    let divisor = reload (timer_init inb 4096 1000 machine).ports in
    (1 ≤ divisor)
    × (divisor * 1000 ≤ pit_base_frequency)
    × (pit_base_frequency < (divisor + 1) * 1000)
    × (reload (timer_init inb 4096 0 machine).ports
        ≡ reload (timer_init inb 4096 100 machine).ports)
timer_reload_example = timer_init-reload inb 4096 1000 machine (omega arith) (omega arith)
