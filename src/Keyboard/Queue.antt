-- ===== src/Keyboard/Queue.antt =====
-- The buffer of the keyboard is a queue of at most 127 characters.
use mini_unix.Base.{
  ℕ, zero, suc, ◌+◌, ◌-◌, ◌%◌, ◌<◌, ◌≤◌, ◌≡◌, ◌≢◌, refl, sym, ◌∙◌, ap, ap₂, subst, inl, inr, false,
  List, [], ◌∷◌, ◌++◌, none, some, arith, leb, ◌==◌, if◌then◌else◌, Bool-cases, ==_eq, length,
}
use mini_unix.Keyboard.{Keyboard, put, keyboard_buffer_push, keyboard_getchar}

pub record IsValid (k : Keyboard) : Type 0 where
  pub head : k.key_buffer_head < 128
  pub tail : k.key_buffer_tail < 128

-- the number of characters that wait
abbrev pub waiting : Keyboard → ℕ
waiting k =
    if leb k.key_buffer_tail k.key_buffer_head
    then k.key_buffer_head - k.key_buffer_tail
    else k.key_buffer_head + 128 - k.key_buffer_tail

-- `n` characters of the buffer from index `i` on, around its end
unfoldable pub window : (ℕ → ℕ) → ℕ → ℕ → List ℕ
window b i zero = []
window b i (suc n) = b i ∷ window b ((i + 1) % 128) n

-- the characters that wait, the oldest first
abbrev pub contents : Keyboard → List ℕ
contents k = window k.key_buffer k.key_buffer_tail (waiting k)

window-put :
    (n i m c : ℕ) (b : ℕ → ℕ)
    → i < 128
    → n ≤ m
    → m < 128
    → window (put b ((i + m) % 128) c) i n ≡ window b i n
unfolding window
window-put zero i m c b lt le small = refl
window-put (suc n) i m c b lt le small =
    let next : (i + m) % 128 ≡ ((i + 1) % 128 + (m - 1)) % 128 = omega arith in
    ap₂ ◌∷◌ (ground arith) (
      subst (λ at. window (put b at c) ((i + 1) % 128) n ≡ window b ((i + 1) % 128) n) (sym next)
        (window-put n ((i + 1) % 128) (m - 1) c b (omega arith) (omega arith) (omega arith)))

window-snoc :
    (n i : ℕ) (b : ℕ → ℕ) → i < 128 → window b i (suc n) ≡ window b i n ++ b ((i + n) % 128) ∷ []
unfolding window
window-snoc zero i b lt = ap (λ x. b x ∷ []) (omega arith)
window-snoc (suc n) i b lt =
    let next : (i + suc n) % 128 ≡ ((i + 1) % 128 + n) % 128 = omega arith in
    ap (λ xs. b i ∷ xs) (rw next (window-snoc n ((i + 1) % 128) b (omega arith)))

length-window : (n i : ℕ) (b : ℕ → ℕ) → length (window b i n) ≡ n
unfolding window
length-window zero i b = refl
length-window (suc n) i b = ap suc (length-window n ((i + 1) % 128) b)

module _ (k : Keyboard) (v : IsValid k) where
  waiting-lt : waiting k < 128
  waiting-lt = ground arith

  head_eq : k.key_buffer_head ≡ (k.key_buffer_tail + waiting k) % 128
  head_eq = ground arith

  contents-length : length (contents k) ≡ waiting k
  contents-length = length-window (waiting k) k.key_buffer_tail k.key_buffer

  waiting-push :
      (k.key_buffer_head + 1) % 128 ≢ k.key_buffer_tail
      → (waiting k < 127)
        × (waiting (record k { key_buffer_head = (k.key_buffer_head + 1) % 128 }) ≡ suc (waiting k))
  waiting-push ne = ground arith

  waiting-full : (k.key_buffer_head + 1) % 128 ≡ k.key_buffer_tail → waiting k ≡ 127
  waiting-full e = ground arith

  contents-push :
      (c : ℕ)
      → window (put k.key_buffer k.key_buffer_head c) k.key_buffer_tail (suc (waiting k))
        ≡ contents k ++ c ∷ []
  contents-push c =
      let b = put k.key_buffer k.key_buffer_head c in
      window-snoc (waiting k) k.key_buffer_tail b v.tail
      ∙ ap₂ (λ xs x. xs ++ x ∷ [])
          (subst
            (λ at.
              window (put k.key_buffer at c) k.key_buffer_tail (waiting k)
              ≡ window k.key_buffer k.key_buffer_tail (waiting k))
            (sym head_eq)
            (window-put (waiting k) k.key_buffer_tail (waiting k) c k.key_buffer v.tail
              (omega arith) waiting-lt))
          (ground (arith, head_eq))

  contents-empty : k.key_buffer_head ≡ k.key_buffer_tail → contents k ≡ []
  unfolding window
  contents-empty e =
      let zero_left : waiting k ≡ 0 = ground arith in
      ap (window k.key_buffer k.key_buffer_tail) zero_left

  contents-pop :
      k.key_buffer_head ≢ k.key_buffer_tail
      → contents k
        ≡ k.key_buffer k.key_buffer_tail
          ∷ contents (record k { key_buffer_tail = (k.key_buffer_tail + 1) % 128 })
  unfolding window
  contents-pop ne =
      let one_less : waiting k
          ≡ suc (waiting (record k { key_buffer_tail = (k.key_buffer_tail + 1) % 128 })) =
        ground arith in
      ap (window k.key_buffer k.key_buffer_tail) one_less

-- In a buffer whose indices are in range, a character is appended to those that wait, if these are
-- fewer than 127, and is dropped otherwise; the indices stay in range.
pub keyboard_buffer_push_lem :
    (k : Keyboard) (c : ℕ)
    → IsValid k
    → let k' = keyboard_buffer_push c k in
      IsValid k'
      × (length (contents k) < 127 → contents k' ≡ contents k ++ c ∷ [])
      × (127 ≤ length (contents k) → k' ≡ k)
unfolding keyboard_buffer_push
keyboard_buffer_push_lem k c v =
    let len = contents-length k v in
    let more : ((k.key_buffer_head + 1) % 128 == k.key_buffer_tail) ≡ false
        → window (put k.key_buffer k.key_buffer_head c) k.key_buffer_tail
            (waiting (record k { key_buffer_head = (k.key_buffer_head + 1) % 128 }))
          ≡ window (put k.key_buffer k.key_buffer_head c) k.key_buffer_tail (suc (waiting k)) =
      λ room.
        ap (window (put k.key_buffer k.key_buffer_head c) k.key_buffer_tail)
          (waiting-push k v (ground arith)).1 in
    elim (Bool-cases ((k.key_buffer_head + 1) % 128 == k.key_buffer_tail)) [
      | inl full ↦
          rw full
            (v, λ lt. absurd (omega (arith, waiting-full k v (==_eq _ _ full), len)), λ le. refl)
      | inr room ↦ rw room (
        record { head = omega arith; tail = v.tail },
        λ lt. more room ∙ contents-push k v c,
        λ le. absurd (omega (arith, (waiting-push k v (ground arith)).0, len)),
      )
    ]

-- From a buffer whose indices are in range, `keyboard_getchar` takes the character that has waited
-- longest; it returns -1 and changes nothing exactly when none waits; the indices stay in range.
pub keyboard_getchar_lem :
    (k : Keyboard)
    → IsValid k
    → let (r, k') = keyboard_getchar k in
      IsValid k'
      × (contents k ≡ [] → (r ≡ none) × (k' ≡ k))
      × (contents k ≢ [] → (c : ℕ) × (r ≡ some c) × (contents k ≡ c ∷ contents k'))
unfolding keyboard_getchar
keyboard_getchar_lem k v = elim (Bool-cases (k.key_buffer_head == k.key_buffer_tail)) [
  | inl none_left ↦
      rw none_left
        (v, λ e. (refl, refl), λ ne. absurd (ne (contents-empty k v (==_eq _ _ none_left))))
  | inr some_left ↦
      let taken = contents-pop k v (ground arith) in
      rw some_left (
        record { head = v.head; tail = omega arith },
        λ e. absurd (cc (e, taken)),
        λ ne. (k.key_buffer k.key_buffer_tail, refl, taken),
      )
]
