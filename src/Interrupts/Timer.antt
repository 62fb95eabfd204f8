-- ===== src/Interrupts/Timer.antt =====
-- kernel/dev/timer.c: the clock. Its count of ticks is a part of what the kernel keeps.
use mini_unix.Base.{
  ℕ, zero, suc, ◌+◌, ◌*◌, ◌/◌, ◌%◌, ◌^◌, ◌<◌, ◌≤◌, ◌≡◌, refl, ◌∙◌, false, ◌∷◌, arith, ◌==◌,
  if◌then◌else◌,
}
use native.Mathlib.Nat.{div-mul-le_self, le-div_iff_mul-le, div-lt_iff_lt-mul, lt-div-mul-add}
use mini_unix.Heap.{word}
use mini_unix.Pic.{Ports, outb, pic_send_eoi, pic_unmask_irq}
use mini_unix.Interrupts.{
  halted, end_of_interrupt, interrupt_dispatch, resumed, Outcome, Frame, Machine, Handler, irq_base,
  interrupt_register_handler,
}

abbrev pub pit_command_port : ℕ
pit_command_port = 0x43

abbrev pub pit_channel0_port : ℕ
pit_channel0_port = 0x40

abbrev pub pit_base_frequency : ℕ
pit_base_frequency = 1193182

-- `ticks`
pub record Clock : Type 0 where
  pub ticks : ℕ

abbrev pub timer_irq_handler : Handler Clock
timer_irq_handler frame m = (frame, record m { own = record { ticks = word (m.own.ticks + 1) } })

abbrev pub timer_ticks : Machine Clock → ℕ
timer_ticks m = m.own.ticks

-- `PIT_BASE_FREQUENCY / frequency`, with the two values that are replaced
abbrev pub divisor_for : (frequency : ℕ) → ℕ
divisor_for frequency =
    let f = if frequency == 0 then 100 else frequency in
    let divisor = pit_base_frequency / f in if divisor == 0 then 1 else divisor

-- `handler` is the address of `timer_irq_handler`.
unfoldable pub timer_init :
    {Own : Type 0} → (inb : Ports → ℕ → ℕ) (handler frequency : ℕ) → Machine Own → Machine Own
timer_init inb handler frequency m =
    let divisor = divisor_for frequency in
    let m' = interrupt_register_handler irq_base handler m in
    let p1 = outb pit_command_port 0x36 m'.ports in
    let p2 = outb pit_channel0_port (divisor % 2 ^ 8) p1 in
    let p3 = outb pit_channel0_port (divisor / 2 ^ 8 % 2 ^ 8) p2 in
    record m' { ports = pic_unmask_irq inb 0 p3 }

-- `n` interrupts of the clock, one after the other
abbrev pub clock_interrupts :
    (handler_at : ℕ → Handler Clock) → ℕ → Frame → Machine Clock → Outcome Clock
clock_interrupts handler_at zero frame m = resumed frame m
clock_interrupts handler_at (suc n) frame m =
    elim (interrupt_dispatch handler_at (record frame { vector = irq_base }) m) [
      | halted m' ↦ halted m'
      | resumed frame' m' ↦ clock_interrupts handler_at n frame' m'
    ]

abbrev pub eois : ℕ → Ports → Ports
eois zero ports = ports
eois (suc n) ports = eois n ((0x20, 0x20) ∷ ports)

one_tick :
    (handler_at : ℕ → Handler Clock) (handler : ℕ) (frame : Frame) (m : Machine Clock)
    → handler_at handler ≡ timer_irq_handler
    → (handler == 0) ≡ false
    → m.handlers 32 ≡ handler
    → interrupt_dispatch handler_at (record frame { vector = irq_base }) m
      ≡ resumed
          (record frame { vector = irq_base })
          (record m {
            ports = (0x20, 0x20) ∷ m.ports;
            own = record { ticks = word (m.own.ticks + 1) };
          })
unfolding interrupt_dispatch end_of_interrupt pic_send_eoi
one_tick handler_at handler frame m runs set registered = rw (registered, set, runs) refl

clock_interrupts_lem :
    (handler_at : ℕ → Handler Clock) (handler n : ℕ) (frame : Frame) (m : Machine Clock)
    → handler_at handler ≡ timer_irq_handler
    → (handler == 0) ≡ false
    → m.handlers 32 ≡ handler
    → m.own.ticks < 2 ^ 32
    → clock_interrupts handler_at n (record frame { vector = irq_base }) m
      ≡ resumed
          (record frame { vector = irq_base })
          (record m { ports = eois n m.ports; own = record { ticks = word (m.own.ticks + n) } })
clock_interrupts_lem handler_at handler zero frame m runs set registered small =
    let same : word (m.own.ticks + 0) ≡ m.own.ticks = omega arith in rw same refl
clock_interrupts_lem handler_at handler (suc n) frame m runs set registered small =
    let m' : Machine Clock = record m {
      ports = (0x20, 0x20) ∷ m.ports;
      own = record { ticks = word (m.own.ticks + 1) };
    } in
    let later =
      clock_interrupts_lem handler_at handler n frame m' runs set registered (omega arith) in
    let sum : word (word (m.own.ticks + 1) + n) ≡ word (m.own.ticks + suc n) = omega arith in
    rw (one_tick handler_at handler frame m runs set registered, clock_interrupts)
      (later ∙ rw sum refl)

-- After `timer_init` with the handler of the timer, `n` interrupts of the clock leave `timer_ticks` `n`
-- higher, counted modulo 2^32, and each of them is acknowledged once at the first controller.
pub timer_init-timer_ticks :
    (inb : Ports → ℕ → ℕ) (handler_at : ℕ → Handler Clock) (handler frequency n : ℕ) (frame : Frame)
    (m : Machine Clock)
    → handler_at handler ≡ timer_irq_handler
    → (handler == 0) ≡ false
    → m.own.ticks < 2 ^ 32
    → let m' = timer_init inb handler frequency m in
      (m'' : Machine Clock) × (clock_interrupts handler_at n (record frame { vector = irq_base }) m'
        ≡ resumed (record frame { vector = irq_base }) m'')
      × (timer_ticks m'' ≡ (timer_ticks m + n) % 2 ^ 32)
      × (m''.ports ≡ eois n m'.ports)
unfolding timer_init interrupt_register_handler
timer_init-timer_ticks inb handler_at handler frequency n frame m runs set small =
    let m' = timer_init inb handler frequency m in
    let m'' : Machine Clock = record m' {
      ports = eois n m'.ports;
      own = record { ticks = word (m'.own.ticks + n) };
    } in
    (m'', clock_interrupts_lem handler_at handler n frame m' runs set refl small, refl, refl)

-- the value that the two bytes written to the port of channel 0 make up
abbrev pub reload : Ports → ℕ
reload (mask ∷ high ∷ low ∷ ports) = low.1 + high.1 * 2 ^ 8
reload _ = 0

-- For a frequency of at least 19 and at most 1193182, the bytes that `timer_init` writes for the clock
-- make up a divisor of at least 1 by which the base frequency is at least the one asked for, and that
-- is the greatest such divisor. For 0 they do so for 100.
pub timer_init-reload :
    (inb : Ports → ℕ → ℕ) (handler frequency : ℕ) (m : Machine Clock)
    → 19 ≤ frequency
    → frequency ≤ pit_base_frequency
    → let divisor = reload (timer_init inb handler frequency m).ports in
      (1 ≤ divisor)
      × (divisor * frequency ≤ pit_base_frequency)
      × (pit_base_frequency < (divisor + 1) * frequency)
      × (reload (timer_init inb handler 0 m).ports ≡ reload (timer_init inb handler 100 m).ports)
unfolding timer_init pic_unmask_irq
timer_init-reload inb handler frequency m lo hi =
    let d = pit_base_frequency / frequency in
    let has_frequency : (frequency == 0) ≡ false = ground arith in
    let positive : 1 ≤ d =
      (le-div_iff_mul-le {k = frequency} {x = 1} {y = pit_base_frequency} (omega arith)).1
        (omega arith) in
    let small : d < 2 ^ 16 =
      (div-lt_iff_lt-mul {k = frequency} {x = pit_base_frequency} {y = 2 ^ 16} (omega arith)).1
        (omega arith) in
    let has_divisor : (d == 0) ≡ false = ground arith in
    let loaded : d % 2 ^ 8 + d / 2 ^ 8 % 2 ^ 8 * 2 ^ 8 ≡ d = omega (arith, small) in
    let above = lt-div-mul-add {a = pit_base_frequency} {b = frequency} (omega arith) in
    rw (has_frequency, has_divisor, loaded)
      (positive, div-mul-le_self pit_base_frequency frequency, omega (arith, above), refl)
