-- ===== src/Interrupts.antt =====
-- kernel/arch/x86/interrupts.c and kernel/dev/timer.c: the table of handlers and the dispatch of an
-- interrupt. Handlers are addresses, 0 for NULL; what the function at an address does to the frame and
-- the machine is the parameter `handler_at`. `Idt` has the gates that lead here.
pub mod Idt
pub mod Timer
pub mod Dispatch
mod Tests
use mini_unix.Base.{
  ℕ, zero, suc, ◌+◌, ◌-◌, ◌*◌, ◌/◌, ◌%◌, ◌^◌, Bool, true, false, not, ◌&&◌, List, [], ◌∷◌, ◌++◌,
  ltb, leb, ◌==◌, if◌then◌else◌,
}
use mini_unix.Pic.{Ports, pic_send_eoi}
use mini_unix.Screen.{Screen, tty_putchar, tty_write}

abbrev pub interrupt_vector_count : ℕ
interrupt_vector_count = 256

abbrev pub irq_base : ℕ
irq_base = 32

abbrev pub pic_irq_count : ℕ
pic_irq_count = 16

pub record Frame : Type 0 where
  pub gs : ℕ
  pub fs : ℕ
  pub es : ℕ
  pub ds : ℕ
  pub edi : ℕ
  pub esi : ℕ
  pub ebp : ℕ
  pub esp : ℕ
  pub ebx : ℕ
  pub edx : ℕ
  pub ecx : ℕ
  pub eax : ℕ
  pub vector : ℕ
  pub error_code : ℕ
  pub eip : ℕ
  pub cs : ℕ
  pub eflags : ℕ

-- the handlers, the ports, the screen, and what else the kernel keeps
pub record Machine (Own : Type 0) : Type 0 where
  pub handlers : ℕ → ℕ
  pub ports : Ports
  pub screen : Screen
  pub own : Own

abbrev pub Handler : Type 0 → Type 0
Handler Own = Frame → Machine Own → Frame × Machine Own

-- The kernel goes on with the frame, or halts.
pub data Outcome (Own : Type 0) : Type 0 where
  resumed : Frame → Machine Own → Outcome Own
  halted : Machine Own → Outcome Own

abbrev pub hex_digit : ℕ → ℕ
hex_digit d = if ltb d 10 then 48 + d else 55 + d

-- The loop of `write_hex32` with `n` digits left.
unfoldable pub hex_loop : ℕ → (value : ℕ) → Screen → Screen
hex_loop zero value s = s
hex_loop (suc n) value s = hex_loop n value (tty_putchar (hex_digit (value / 2 ^ (4 * n) % 16)) s)

unfoldable pub write_hex32 : (value : ℕ) → Screen → Screen
write_hex32 value s = hex_loop 8 value (tty_write (48 ∷ 120 ∷ []) s)

-- The first loop of `write_dec`: the characters in `buf`, the last one first, with `n` places left.
unfoldable pub dec_loop : ℕ → (value : ℕ) → List ℕ → List ℕ
dec_loop zero value buf = buf
dec_loop (suc n) value buf =
    let rest = dec_loop n (value / 10) ((48 + value % 10) ∷ buf) in if value == 0 then buf else rest

-- The second loop: the buffer from its end to its start.
abbrev pub put_all : List ℕ → Screen → Screen
put_all [] s = s
put_all (c ∷ buf) s = put_all buf (tty_putchar c s)

unfoldable pub write_dec : (value : ℕ) → Screen → Screen
write_dec value s = if value == 0 then tty_putchar 48 s else put_all (dec_loop 10 value []) s

-- "\nUnhandled CPU exception ", " error=" and " eip="
abbrev pub unhandled_text : List ℕ
unhandled_text =
    10 ∷ 85 ∷ 110 ∷ 104 ∷ 97 ∷ 110 ∷ 100 ∷ 108 ∷ 101 ∷ 100 ∷ 32 ∷ 67 ∷ 80 ∷ 85 ∷ 32 ∷ 101 ∷ 120 ∷ 99
    ∷ 101 ∷ 112 ∷ 116 ∷ 105 ∷ 111 ∷ 110 ∷ 32 ∷ []

abbrev pub error_text : List ℕ
error_text = 32 ∷ 101 ∷ 114 ∷ 114 ∷ 111 ∷ 114 ∷ 61 ∷ []

abbrev pub eip_text : List ℕ
eip_text = 32 ∷ 101 ∷ 105 ∷ 112 ∷ 61 ∷ []

abbrev pub unhandled : Frame → Screen → Screen
unhandled frame s =
    let s1 = write_dec frame.vector (tty_write unhandled_text s) in
    let s2 = write_hex32 frame.error_code (tty_write error_text s1) in
    let s3 = write_hex32 frame.eip (tty_write eip_text s2) in tty_write (10 ∷ []) s3

-- `for (i = 0; i < INTERRUPT_VECTOR_COUNT; i++) handlers[i] = 0;` with `n` rounds left
unfoldable pub clear_handlers : ℕ → ℕ → (ℕ → ℕ) → ℕ → ℕ
clear_handlers zero i handlers = handlers
clear_handlers (suc n) i handlers = clear_handlers n (i + 1) (λ v. if v == i then 0 else handlers v)

module _ {Own : Type 0} where
  unfoldable pub interrupt_register_handler : (vector handler : ℕ) → Machine Own → Machine Own
  interrupt_register_handler vector handler m = record m {
    handlers = λ v. if v == vector then handler else m.handlers v;
  }

  -- the last lines of `interrupt_dispatch`; `vector` was read before the handler ran
  unfoldable pub end_of_interrupt : (vector : ℕ) → Outcome Own → Outcome Own
  end_of_interrupt vector (halted m) = halted m
  end_of_interrupt vector (resumed frame m) =
      if leb irq_base vector && ltb vector (irq_base + pic_irq_count)
      then resumed frame (record m { ports = pic_send_eoi (vector - irq_base) m.ports })
      else resumed frame m

  module _ (handler_at : ℕ → Handler Own) where
    unfoldable pub interrupt_dispatch : Frame → Machine Own → Outcome Own
    interrupt_dispatch frame m =
        let vector = frame.vector in
        let handler = m.handlers vector in
        let (frame', m') = handler_at handler frame m in
        end_of_interrupt vector (
          if ltb vector interrupt_vector_count && not (handler == 0)
          then resumed frame' m'
          else if ltb vector irq_base
          then halted (record m { screen = unhandled frame m.screen })
          else resumed frame m)
