-- ===== src/Keyboard.antt =====
-- kernel/dev/keyboard.c: the buffer between the keyboard's interrupt handler and its reader, and the
-- translation of scancodes. The table `kbdus` is a list; the entries that the source leaves out are 0.
-- The two bytes that the handler reads from the ports are arguments.
pub mod Queue
pub mod Interrupt
pub mod Runs
pub mod Start
mod Tests
use mini_unix.Base.{
  ℕ, zero, suc, ◌+◌, ◌%◌, ◌/◌, bit_and, Bool, true, false, ◌||◌, not, ◌^◌, List, [], ◌∷◌, ◌++◌,
  Option, none, some, ltb, leb, ◌==◌, if◌then◌else◌, get_or, replicate,
}

abbrev pub keyboard_buffer_size : ℕ
keyboard_buffer_size = 128

pub record Keyboard : Type 0 where
  pub key_buffer : ℕ → ℕ
  pub key_buffer_head : ℕ
  pub key_buffer_tail : ℕ

-- a row of the table per line of the keyboard; 0 where a key has no character
abbrev pub kbdus : List ℕ
kbdus =
    0
    ∷ 27
    ∷ 49
    ∷ 50
    ∷ 51
    ∷ 52
    ∷ 53
    ∷ 54
    ∷ 55
    ∷ 56
    ∷ 57
    ∷ 48
    ∷ 45
    ∷ 61
    ∷ 8
    ∷ 9
    ∷ 113
    ∷ 119
    ∷ 101
    ∷ 114
    ∷ 116
    ∷ 121
    ∷ 117
    ∷ 105
    ∷ 111
    ∷ 112
    ∷ 91
    ∷ 93
    ∷ 10
    ∷ 0
    ∷ 97
    ∷ 115
    ∷ 100
    ∷ 102
    ∷ 103
    ∷ 104
    ∷ 106
    ∷ 107
    ∷ 108
    ∷ 59
    ∷ 39
    ∷ 96
    ∷ 0
    ∷ 92
    ∷ 122
    ∷ 120
    ∷ 99
    ∷ 118
    ∷ 98
    ∷ 110
    ∷ 109
    ∷ 44
    ∷ 46
    ∷ 47
    ∷ 0
    ∷ 42
    ∷ 0
    ∷ 32
    ∷ 0
    ∷ 0
    ∷ 0
    ∷ 0
    ∷ 0
    ∷ 0
    ∷ 0
    ∷ 0
    ∷ 0
    ∷ 0
    ∷ 0
    ∷ 0
    ∷ 0
    ∷ 55
    ∷ 56
    ∷ 57
    ∷ 45
    ∷ 52
    ∷ 53
    ∷ 54
    ∷ 43
    ∷ 49
    ∷ 50
    ∷ 51
    ∷ 48
    ∷ 46
    ∷ replicate 44 0

-- a write into the buffer
abbrev pub put : (ℕ → ℕ) → ℕ → ℕ → ℕ → ℕ
put buffer at c i = if i == at then c else buffer i

unfoldable pub keyboard_buffer_push : ℕ → Keyboard → Keyboard
keyboard_buffer_push c k =
    let next = (k.key_buffer_head + 1) % keyboard_buffer_size in
    if next == k.key_buffer_tail then k else record {
      key_buffer = put k.key_buffer k.key_buffer_head c;
      key_buffer_head = next;
      key_buffer_tail = k.key_buffer_tail;
    }

-- `none` for -1
unfoldable pub keyboard_decode_scancode : ℕ → Option ℕ
keyboard_decode_scancode scancode =
    if not (bit_and scancode 0x80 == 0)
    then none
    else if leb 128 scancode
    then none
    else if get_or kbdus scancode 0 == 0
    then none
    else some (get_or kbdus scancode 0)

unfoldable pub keyboard_irq_handler : (status scancode : ℕ) → Keyboard → Keyboard
keyboard_irq_handler status scancode k =
    if bit_and status 1 == 0 then k else elim (keyboard_decode_scancode scancode) [
      | none ↦ k
      | some c ↦ keyboard_buffer_push (c % 2 ^ 8) k
    ]

-- `key_buffer_head = 0; key_buffer_tail = 0;`
unfoldable pub empty_buffer : Keyboard → Keyboard
empty_buffer k = record { key_buffer = k.key_buffer; key_buffer_head = 0; key_buffer_tail = 0 }

unfoldable pub keyboard_getchar : Keyboard → Option ℕ × Keyboard
keyboard_getchar k = if k.key_buffer_head == k.key_buffer_tail then (none, k) else (
  some (k.key_buffer k.key_buffer_tail),
  record k { key_buffer_tail = (k.key_buffer_tail + 1) % keyboard_buffer_size },
)
