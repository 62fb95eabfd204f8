-- ===== src/Keyboard/Interrupt.antt =====
-- What the keyboard's interrupt handler adds to the queue.
use mini_unix.Base.{
  check_from, ℕ, zero, suc, ◌%◌, ◌<◌, ◌≤◌, ◌≡◌, ◌⊎◌, refl, ap, bit_and, inl, inr, Bool, true, false,
  not, List, [], ◌∷◌, ◌++◌, arith, ltb, leb, ◌==◌, if◌then◌else◌, Bool-cases, ltb→lt, checked_lem,
  ◌&&◌, length, get_or,
}
use mini_unix.Keyboard.{
  Keyboard, kbdus, keyboard_buffer_push, keyboard_decode_scancode, keyboard_irq_handler,
}
use mini_unix.Keyboard.Queue.{IsValid, contents, keyboard_buffer_push_lem}

get_or-beyond : (xs : List ℕ) (i : ℕ) → length xs ≤ i → get_or xs i 0 ≡ 0
get_or-beyond [] i le = refl
get_or-beyond (x ∷ xs) zero le = absurd (omega arith)
get_or-beyond (x ∷ xs) (suc i) le = get_or-beyond xs i (omega arith)

-- Each character of the table is an ASCII character.
kbdus-lt : (i : ℕ) → get_or kbdus i 0 < 128
unfolding check_from
kbdus-lt i = elim (Bool-cases (ltb i 128)) [
  | inl inside ↦
      ltb→lt _ _ (checked_lem 128 (λ j. ltb (get_or kbdus j 0) 128) i refl (ltb→lt i 128 inside))
  | inr beyond ↦
      let le : 128 ≤ i = ground arith in
      let e : get_or kbdus i 0 ≡ 0 = get_or-beyond kbdus i le in omega (arith, e)
]

-- The handler accepts a byte: the status says that there is one, a key has been pressed and not
-- released, and the key has a character.
abbrev pub accepted : ℕ → ℕ → Bool
accepted status scancode =
    not (bit_and status 1 == 0) && (bit_and scancode 128 == 0) && not (get_or kbdus scancode 0 == 0)

byte_of_key : (i : ℕ) → get_or kbdus i 0 % 256 ≡ get_or kbdus i 0
byte_of_key i = let lt = kbdus-lt i in omega (arith, lt)

leb-typed : (i : ℕ) → (get_or kbdus i 0 == 0) ≡ false → leb 128 i ≡ false
leb-typed i ne = elim (Bool-cases (leb 128 i)) [
  | inl beyond ↦
      let le : 128 ≤ i = ground arith in
      let e : get_or kbdus i 0 ≡ 0 = get_or-beyond kbdus i le in
      absurd (cc (ne, ap (λ c. c == 0) e))
  | inr inside ↦ inside
]

irq-push :
    (status scancode : ℕ) (k : Keyboard)
    → keyboard_irq_handler status scancode k
      ≡ (if accepted status scancode then keyboard_buffer_push (get_or kbdus scancode 0) k else k)
unfolding keyboard_irq_handler keyboard_decode_scancode
irq-push status scancode k = elim (Bool-cases (bit_and status 1 == 0)) [
  | inl idle ↦ rw idle refl
  | inr ready ↦ elim (Bool-cases (bit_and scancode 128 == 0)) [
    | inr released ↦ rw (ready, released) refl
    | inl pressed ↦ elim (Bool-cases (get_or kbdus scancode 0 == 0)) [
      | inl silent ↦
          rw (ready, pressed, silent)
            elim (Bool-cases (leb 128 scancode)) [ inl w ↦ rw w refl | inr w ↦ rw w refl ]
      | inr typed ↦ rw (ready, pressed, typed, leb-typed scancode typed, byte_of_key scancode) refl
    ]
  ]
]

-- In a buffer whose indices are in range, an interrupt appends the character of the key that has been
-- pressed to those that wait, if these are fewer than 127, and changes nothing otherwise, nor if the
-- status byte is even, the scancode has bit 7 set or the key has no character. The indices stay in
-- range, and what is appended is an ASCII character.
pub keyboard_irq_handler_lem :
    (status scancode : ℕ) (k : Keyboard)
    → IsValid k
    → let k' = keyboard_irq_handler status scancode k in
      let c = get_or kbdus scancode 0 in
      IsValid k'
      × (c < 128)
      × (accepted status scancode ≡ true
          → length (contents k) < 127
          → contents k' ≡ contents k ++ c ∷ [])
      × ((accepted status scancode ≡ false) ⊎ (127 ≤ length (contents k)) → k' ≡ k)
keyboard_irq_handler_lem status scancode k v =
    let (pv, room, full) = keyboard_buffer_push_lem k (get_or kbdus scancode 0) v in
    elim (Bool-cases (accepted status scancode)) [
      | inl taken ↦
          rw (irq-push status scancode k, taken)
            (
              pv,
              kbdus-lt scancode,
              λ _ lt. room lt,
              λ h. elim h [ inl e ↦ absurd (cc e) | inr le ↦ full le ],
            )
      | inr dropped ↦
          rw (irq-push status scancode k, dropped)
            (v, kbdus-lt scancode, λ e. absurd (cc (e)), λ _. refl)
    ]
