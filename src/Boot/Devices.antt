-- ===== src/Boot/Devices.antt =====
-- The interrupts of the clock and the keyboard once the kernel has started, in any order.
use mini_unix.Base.{
  ℕ, suc, ◌+◌, ◌%◌, ◌^◌, ◌<◌, ◌≡◌, refl, sym, ◌∙◌, ap, subst, false, List, [], ◌∷◌, ◌++◌, arith,
  ◌==◌,
}
use mini_unix.Heap.{word}
use mini_unix.Pic.{Ports, pic_send_eoi}
use mini_unix.Interrupts.{
  Frame, Machine, Handler, Outcome, resumed, halted, end_of_interrupt, interrupt_dispatch,
  interrupt_register_handler,
}
use mini_unix.Interrupts.Dispatch.{interrupts_init}
use mini_unix.Interrupts.Timer.{timer_irq_handler, timer_init}
use mini_unix.Keyboard.{keyboard_getchar, keyboard_irq_handler}
use mini_unix.Keyboard.Queue.{contents}
use mini_unix.Keyboard.Runs.{
  taken_in, handed_out, Run, started, interrupted, polled, Run-contents, empty_buffer-IsValid,
}
use mini_unix.Keyboard.Start.{kb_status, kb_scancode, keyboard_handler, keyboard_init}
use mini_unix.Boot.{
  blank_screen, Linked, Driven, System, on_clock, on_keyboard, start_devices, kmain,
}
use mini_unix.Boot.Handlers.{start_devices-LeadsTo}

-- What stands at the addresses of the two handlers.
pub record Loaded (inb : Ports → (port : ℕ) → ℕ) (linked : Linked) (handler_at : ℕ → Handler Driven)
    : Type 0 where
  pub timer_set : (linked.timer_handler_at == 0) ≡ false
  pub keyboard_set : (linked.keyboard_handler_at == 0) ≡ false
  pub timer_runs : handler_at linked.timer_handler_at ≡ on_clock timer_irq_handler
  pub keyboard_runs : handler_at linked.keyboard_handler_at ≡ on_keyboard (keyboard_handler inb)

module _ (inb : Ports → (port : ℕ) → ℕ) (linked : Linked) (handler_at : ℕ → Handler Driven) where
  -- From `m`, `n` interrupts of the clock, interrupts of the keyboard that took in the characters `typed`,
  -- and calls of `keyboard_getchar` that returned `read` have led to a machine, in some order.
  pub data Served (m : Machine Driven)
      : (n : ℕ) (typed read : List ℕ) → Machine Driven → Type 0 where
    ready : Served m 0 [] [] m
    ticked :
        {n : ℕ} {typed read : List ℕ} {m1 m2 : Machine Driven} (frame frame' : Frame)
        → Served m n typed read m1
        → interrupt_dispatch handler_at (record frame { vector = 32 }) m1 ≡ resumed frame' m2
        → Served m (suc n) typed read m2
    pressed :
        {n : ℕ} {typed read : List ℕ} {m1 m2 : Machine Driven} (frame frame' : Frame)
        → Served m n typed read m1
        → interrupt_dispatch handler_at (record frame { vector = 33 }) m1 ≡ resumed frame' m2
        → Served m n
            (typed ++ taken_in (kb_status inb m1.ports) (kb_scancode inb m1.ports) m1.own.keyboard)
            read
            m2
    fetched :
        {n : ℕ} {typed read : List ℕ} {m1 : Machine Driven}
        → Served m n typed read m1
        → Served m n typed
            (read ++ handed_out (keyboard_getchar m1.own.keyboard).0)
            (record m1 { own = record m1.own { keyboard = (keyboard_getchar m1.own.keyboard).1 } })

  abbrev pub after_tick : Machine Driven → Machine Driven
  after_tick m = record m {
    ports = (0x20, 0x20) ∷ m.ports;
    own = record m.own { clock = record { ticks = word (m.own.clock.ticks + 1) } };
  }

  abbrev pub after_press : Machine Driven → Machine Driven
  after_press m = record m {
    ports = (0x20, 0x20) ∷ m.ports;
    own = record m.own {
      keyboard =
          keyboard_irq_handler (kb_status inb m.ports) (kb_scancode inb m.ports) m.own.keyboard;
    };
  }

  module _ (loaded : Loaded inb linked handler_at) where
    dispatch-tick :
        (frame : Frame) (m : Machine Driven)
        → m.handlers 32 ≡ linked.timer_handler_at
        → interrupt_dispatch handler_at (record frame { vector = 32 }) m
          ≡ resumed (record frame { vector = 32 }) (after_tick m)
    unfolding interrupt_dispatch end_of_interrupt pic_send_eoi
    dispatch-tick frame m registered = rw (registered, loaded.timer_set, loaded.timer_runs) refl

    dispatch-press :
        (frame : Frame) (m : Machine Driven)
        → m.handlers 33 ≡ linked.keyboard_handler_at
        → interrupt_dispatch handler_at (record frame { vector = 33 }) m
          ≡ resumed (record frame { vector = 33 }) (after_press m)
    unfolding interrupt_dispatch end_of_interrupt pic_send_eoi
    dispatch-press frame m registered =
        rw (registered, loaded.keyboard_set, loaded.keyboard_runs) refl

    abbrev machine_of : Machine Driven → Outcome Driven → Machine Driven
    machine_of m (halted m') = m
    machine_of m (resumed frame m') = m'

    -- What a run leaves of the two devices.
    record Kept (m : Machine Driven) (n : ℕ) (typed read : List ℕ) (m' : Machine Driven)
        : Type 0 where
      same_handlers : m'.handlers ≡ m.handlers
      ticks_are : m'.own.clock.ticks ≡ word (m.own.clock.ticks + n)
      runs : Run m.own.keyboard typed read m'.own.keyboard

    module _ (m : Machine Driven) (timer : m.handlers 32 ≡ linked.timer_handler_at)
        (keyboard : m.handlers 33 ≡ linked.keyboard_handler_at)
        (small : m.own.clock.ticks < 2 ^ 32) where
      Served-Kept :
          {n : ℕ} {typed read : List ℕ} {m' : Machine Driven}
          → Served m n typed read m'
          → Kept m n typed read m'
      Served-Kept ready = record { same_handlers = refl; ticks_are = omega arith; runs = started }
      Served-Kept (ticked {n} {typed} {read} {m1} {m2} frame frame' before e) =
          let kept = Served-Kept before in
          let here = dispatch-tick frame m1 (ap (λ h. h 32) kept.same_handlers ∙ timer) in
          subst (Kept m (suc n) typed read) (ap (machine_of m) (sym here ∙ e)) record {
            same_handlers = kept.same_handlers;
            ticks_are = omega (arith, kept.ticks_are);
            runs = kept.runs;
          }
      Served-Kept (pressed {n} {typed} {read} {m1} {m2} frame frame' before e) =
          let kept = Served-Kept before in
          let here = dispatch-press frame m1 (ap (λ h. h 33) kept.same_handlers ∙ keyboard) in
          subst
            (Kept m n
              (typed
                ++ taken_in (kb_status inb m1.ports) (kb_scancode inb m1.ports) m1.own.keyboard)
              read)
            (ap (machine_of m) (sym here ∙ e))
            record {
              same_handlers = kept.same_handlers;
              ticks_are = kept.ticks_are;
              runs = interrupted (kb_status inb m1.ports) (kb_scancode inb m1.ports) kept.runs;
            }
      Served-Kept (fetched {n} {typed} {read} {m1} before) =
          let kept = Served-Kept before in
          record {
            same_handlers = kept.same_handlers;
            ticks_are = kept.ticks_are;
            runs = polled kept.runs;
          }

-- Once `kmain` has started the devices, from a count of ticks below 2^32, with the handlers of the clock and
-- the keyboard at their addresses, which are not 0, and whatever the order of their interrupts and of the calls of `keyboard_getchar`: the
-- count of ticks has grown by the number of the clock's interrupts, modulo 2^32; the characters
-- returned and then those that wait are exactly those of the keys pressed while fewer than 127 characters
-- waited, in their order, since a key pressed while 127 wait is lost; and the next interrupt of either
-- device is dispatched to its handler, acknowledged at the first controller and comes back.
pub kmain-Served :
    (inb : Ports → (port : ℕ) → ℕ) (linked : Linked) (handler_at : ℕ → Handler Driven) (s : System)
    (n : ℕ) (typed read : List ℕ) (m : Machine Driven) (frame : Frame)
    → Loaded inb linked handler_at
    → s.machine.own.clock.ticks < 2 ^ 32
    → Served inb linked handler_at (kmain inb linked s).machine n typed read m
    → (m.own.clock.ticks ≡ (s.machine.own.clock.ticks + n) % 2 ^ 32)
      × (read ++ contents m.own.keyboard ≡ typed)
      × (interrupt_dispatch handler_at (record frame { vector = 32 }) m
          ≡ resumed (record frame { vector = 32 }) (after_tick inb linked handler_at m))
      × (interrupt_dispatch handler_at (record frame { vector = 33 }) m
          ≡ resumed (record frame { vector = 33 }) (after_press inb linked handler_at m))
unfolding kmain start_devices timer_init keyboard_init interrupt_register_handler interrupts_init
kmain-Served inb linked handler_at s n typed read m frame loaded small served =
    let (timer, _) =
      start_devices-LeadsTo inb linked (blank_screen s.machine) s.idt 32 (omega arith) in
    let (keyboard, _) =
      start_devices-LeadsTo inb linked (blank_screen s.machine) s.idt 33 (omega arith) in
    let kept =
      Served-Kept inb linked handler_at loaded (kmain inb linked s).machine timer keyboard small
        served in
    let (valid, empty) = empty_buffer-IsValid s.machine.own.keyboard in
    let (_, same) = Run-contents kept.runs valid in
    (
      kept.ticks_are,
      same ∙ rw empty refl,
      dispatch-tick inb linked handler_at loaded frame m
          (ap (λ h. h 32) kept.same_handlers ∙ timer),
      dispatch-press inb linked handler_at loaded frame m
          (ap (λ h. h 33) kept.same_handlers ∙ keyboard),
    )
