-- ===== src/Keyboard/Tests.antt =====
-- A buffer of two characters that has wrapped around: runs, and the theorems at it.
use mini_unix.Base.{
  ℕ, ◌<◌, ◌≤◌, ◌≡◌, ◌≢◌, ◌⊎◌, refl, true, false, none, some, [], ◌∷◌, ◌++◌, arith, length, get_or,
  ◌==◌, if◌then◌else◌,
}
use mini_unix.Keyboard.{
  Keyboard, kbdus, empty_buffer, keyboard_buffer_push, keyboard_decode_scancode,
  keyboard_irq_handler, keyboard_getchar,
}
use mini_unix.Keyboard.Queue.{
  IsValid, contents, window, keyboard_buffer_push_lem, keyboard_getchar_lem,
}
use mini_unix.Keyboard.Runs.{started, interrupted, polled, handed_out, taken_in, Run-contents}
use mini_unix.Keyboard.Interrupt.{accepted, keyboard_irq_handler_lem}

abbrev wrapped : Keyboard
wrapped = record {
  key_buffer = λ i. if i == 127 then 97 else 98;
  key_buffer_head = 1;
  key_buffer_tail = 127;
}

wrapped-IsValid : IsValid wrapped
wrapped-IsValid = record { head = omega arith; tail = omega arith }

keyboard_buffer_push_example :
    let k' = keyboard_buffer_push 99 wrapped in
    IsValid k'
    × (length (contents wrapped) < 127 → contents k' ≡ contents wrapped ++ 99 ∷ [])
    × (127 ≤ length (contents wrapped) → k' ≡ wrapped)
keyboard_buffer_push_example = keyboard_buffer_push_lem wrapped 99 wrapped-IsValid

keyboard_getchar_example :
    let (r, k') = keyboard_getchar wrapped in
    IsValid k'
    × (contents wrapped ≡ [] → (r ≡ none) × (k' ≡ wrapped))
    × (contents wrapped ≢ [] → (c : ℕ) × (r ≡ some c) × (contents wrapped ≡ c ∷ contents k'))
keyboard_getchar_example = keyboard_getchar_lem wrapped wrapped-IsValid

-- scancode 30 is the key of the letter a
keyboard_irq_handler_example :
    let k' = keyboard_irq_handler 1 30 wrapped in
    IsValid k'
    × (get_or kbdus 30 0 < 128)
    × (accepted 1 30 ≡ true
        → length (contents wrapped) < 127
        → contents k' ≡ contents wrapped ++ get_or kbdus 30 0 ∷ [])
    × ((accepted 1 30 ≡ false) ⊎ (127 ≤ length (contents wrapped)) → k' ≡ wrapped)
keyboard_irq_handler_example = keyboard_irq_handler_lem 1 30 wrapped wrapped-IsValid

-- a key is typed, then a character is read
Run-contents_example :
    let k = keyboard_irq_handler 1 30 wrapped in
    let (r, k') = keyboard_getchar k in
    IsValid k' × (handed_out r ++ contents k' ≡ contents wrapped ++ taken_in 1 30 wrapped)
Run-contents_example = Run-contents (polled (interrupted 1 30 started)) wrapped-IsValid

-- Runs.
keyboard_runs :
    (contents wrapped ≡ 97 ∷ 98 ∷ [])
    × (contents (keyboard_buffer_push 99 wrapped) ≡ 97 ∷ 98 ∷ 99 ∷ [])
    × (contents (keyboard_irq_handler 1 30 (empty_buffer wrapped)) ≡ 97 ∷ [])
    × (contents (keyboard_irq_handler 1 158 wrapped) ≡ 97 ∷ 98 ∷ [])
    × ((keyboard_getchar wrapped).0 ≡ some 97)
unfolding window keyboard_buffer_push keyboard_irq_handler keyboard_decode_scancode empty_buffer
    keyboard_getchar
keyboard_runs = (refl, refl, refl, refl, refl)
