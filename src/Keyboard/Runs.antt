-- ===== src/Keyboard/Runs.antt =====
-- The interrupt handler and the reader of the keyboard in any order.
use mini_unix.Base.{
  append-nil, append_assoc, ℕ, ◌≡◌, refl, sym, ◌∙◌, ap, inl, inr, ◌&&◌, List, [], ◌∷◌, ◌++◌, Option,
  none, some, arith, ltb, if◌then◌else◌, Bool-cases, length, get_or,
}
use mini_unix.Keyboard.{Keyboard, kbdus, empty_buffer, keyboard_irq_handler, keyboard_getchar}
use mini_unix.Keyboard.Queue.{window, IsValid, contents, keyboard_getchar_lem}
use mini_unix.Keyboard.Interrupt.{accepted, keyboard_irq_handler_lem}

-- the character that an interrupt adds to those that wait, if it adds one
abbrev pub taken_in : (status scancode : ℕ) → Keyboard → List ℕ
taken_in status scancode k =
    if accepted status scancode && ltb (length (contents k)) 127
    then get_or kbdus scancode 0 ∷ []
    else []

abbrev pub handed_out : Option ℕ → List ℕ
handed_out none = []
handed_out (some c) = c ∷ []

-- From `k`, interrupts that took in the characters `typed` and calls of `keyboard_getchar` that returned
-- `read` have led to a keyboard, in some order.
pub data Run (k : Keyboard) : (typed read : List ℕ) → Keyboard → Type 0 where
  started : Run k [] [] k
  interrupted :
      {typed read : List ℕ} {k' : Keyboard} (status scancode : ℕ)
      → Run k typed read k'
      → Run k (typed ++ taken_in status scancode k') read (keyboard_irq_handler status scancode k')
  polled :
      {typed read : List ℕ} {k' : Keyboard}
      → Run k typed read k'
      → Run k typed (read ++ handed_out (keyboard_getchar k').0) (keyboard_getchar k').1

contents-interrupted :
    (status scancode : ℕ) (k : Keyboard)
    → IsValid k
    → contents (keyboard_irq_handler status scancode k) ≡ contents k ++ taken_in status scancode k
contents-interrupted status scancode k v =
    let (_, _, adds, keeps) = keyboard_irq_handler_lem status scancode k v in
    elim (Bool-cases (accepted status scancode)) [
      | inr refused ↦ rw refused (ap contents (keeps (inl refused)) ∙ sym (append-nil (contents k)))
      | inl typed ↦ elim (Bool-cases (ltb (length (contents k)) 127)) [
        | inl room ↦ rw (typed, room) (adds typed (ground arith))
        | inr used ↦
            rw (typed, used)
              (ap contents (keeps (inr (ground arith))) ∙ sym (append-nil (contents k)))
      ]
    ]

contents-polled :
    (k : Keyboard)
    → IsValid k
    → handed_out (keyboard_getchar k).0 ++ contents (keyboard_getchar k).1 ≡ contents k
contents-polled k v = by_contents (contents k) refl
  where
    by_contents :
        (xs : List ℕ)
        → contents k ≡ xs
        → handed_out (keyboard_getchar k).0 ++ contents (keyboard_getchar k).1 ≡ contents k
    by_contents [] e =
        let (_, none_left, _) = keyboard_getchar_lem k v in
        let (r, same) = none_left e in rw (r, same) refl
    by_contents (x ∷ xs) e =
        let (_, _, some_left) = keyboard_getchar_lem k v in
        let (c, r, rest) = some_left (λ nothing. absurd (cc (e, nothing))) in rw r (sym rest)

pub empty_buffer-IsValid :
    (k : Keyboard) → IsValid (empty_buffer k) × (contents (empty_buffer k) ≡ [])
unfolding empty_buffer window
empty_buffer-IsValid k = (record { head = omega arith; tail = omega arith }, refl)

-- From a keyboard whose indices are in range, whatever the order of the interrupts and of the calls of
-- `keyboard_getchar`, the indices stay in range, and the characters returned so far and then those that
-- wait are the ones that waited at first and then the ones taken in: none is lost, repeated or moved.
pub Run-contents :
    {k k' : Keyboard} {typed read : List ℕ}
    → Run k typed read k'
    → IsValid k
    → IsValid k' × (read ++ contents k' ≡ contents k ++ typed)
Run-contents {k} started v = (v, sym (append-nil (contents k)))
Run-contents {k} (interrupted {typed} {read} {k' = before} status scancode run) v =
    let (valid, same) = Run-contents run v in
    (
      (keyboard_irq_handler_lem status scancode before valid).0,
      ap (λ xs. read ++ xs) (contents-interrupted status scancode before valid)
          ∙ sym (append_assoc read (contents before) (taken_in status scancode before))
          ∙ ap (λ xs. xs ++ taken_in status scancode before) same
          ∙ append_assoc (contents k) typed (taken_in status scancode before),
    )
Run-contents {k} (polled {typed} {read} {k' = before} run) v =
    let (valid, same) = Run-contents run v in
    (
      (keyboard_getchar_lem before valid).0,
      append_assoc read (handed_out (keyboard_getchar before).0)
            (contents (keyboard_getchar before).1)
          ∙ ap (λ xs. read ++ xs) (contents-polled before valid)
          ∙ same,
    )
