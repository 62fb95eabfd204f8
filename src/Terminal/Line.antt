-- ===== src/Terminal/Line.antt =====
-- The line in the buffer of the terminal, as a list: the last character that was typed comes first.
use mini_unix.Base.{
  subst, ℕ, ◌+◌, ◌-◌, ◌<◌, ◌≤◌, ◌≡◌, refl, sym, ◌∙◌, ap, inl, inr, true, false, List, [], ◌∷◌,
  arith, ◌==◌, ==_refl, if◌then◌else◌, Bool-cases, length,
}
use mini_unix.Screen.{tty_putchar, tty_write}
use mini_unix.Terminal.{
  Terminal, store_at, put_at_buffer, buffer_backspace, clear_buffer, command_execute, cells_below,
  command_buffer_submit, shell_key,
}

-- The buffer holds the characters of the line.
abbrev pub Holds : (buffer : ℕ → ℕ) (line : List ℕ) → Type 0
Holds buffer [] = Unit {0}
Holds buffer (c ∷ line) = (buffer (length line) ≡ c) × Holds buffer line

pub record IsLine (t : Terminal) (line : List ℕ) : Type 0 where
  pub length_is : t.len ≡ length line
  pub holds : Holds t.buffer line

-- a key other than newline, and the keys in turn
abbrev pub edit : (key : ℕ) (line : List ℕ) → List ℕ
edit key [] = if key == 8 then [] else key ∷ []
edit key (c ∷ line) = if key == 8 then line else key ∷ c ∷ line

abbrev pub edited : List ℕ → (line : List ℕ) → List ℕ
edited [] line = line
edited (key ∷ keys) line = edited keys (edit key line)

-- the line from its first character on, in front of `rest`
abbrev pub in_order : (line rest : List ℕ) → List ℕ
in_order [] rest = rest
in_order (c ∷ line) rest = in_order line (c ∷ rest)

abbrev pub shell_keys : List ℕ → Terminal → Terminal
shell_keys [] t = t
shell_keys (key ∷ keys) t = shell_keys keys (shell_key key t)

-- none of the keys is a newline
abbrev pub NoNewline : List ℕ → Type 0
NoNewline [] = Unit {0}
NoNewline (key ∷ keys) = ((key == 10) ≡ false) × NoNewline keys

Holds-frame :
    (b b' : ℕ → ℕ) (line : List ℕ)
    → ((i : ℕ) → i < length line → b' i ≡ b i)
    → Holds b line
    → Holds b' line
Holds-frame b b' [] same h = tt
Holds-frame b b' (c ∷ line) same h = (
  same (length line) (omega arith) ∙ h.0,
  Holds-frame b b' line (λ i lt. same i (omega arith)) h.1,
)

cells_below-Holds :
    (buffer : ℕ → ℕ) (line rest : List ℕ)
    → Holds buffer line
    → cells_below (length line) buffer rest ≡ in_order line rest
cells_below-Holds buffer [] rest h = refl
cells_below-Holds buffer (c ∷ line) rest h =
    ap (λ q. cells_below (length line) buffer (q ∷ rest)) h.0
    ∙ cells_below-Holds buffer line (c ∷ rest) h.1

put_at_buffer-IsLine :
    (t : Terminal) (key : ℕ) (line : List ℕ)
    → IsLine t line
    → IsLine (put_at_buffer key t) (key ∷ line)
unfolding put_at_buffer
put_at_buffer-IsLine t key line l =
    let len = t.len in
    let at : length line ≡ len = sym l.length_is in
    let below : (len == len + 1) ≡ false = ground arith in
    record {
      length_is = omega (arith, l.length_is);
      holds = (
        rw (at, below, ==_refl len) refl,
        Holds-frame t.buffer (store_at (len + 1) 0 (store_at len key t.buffer)) line
            (λ i lt.
              let not_end : (i == len + 1) ≡ false = ground (arith, l.length_is) in
              let not_last : (i == len) ≡ false = ground (arith, l.length_is) in
              rw (not_end, not_last) refl)
            l.holds,
      );
    }

buffer_backspace-IsLine :
    (t : Terminal) (c : ℕ) (line : List ℕ) → IsLine t (c ∷ line) → IsLine (buffer_backspace t) line
unfolding buffer_backspace
buffer_backspace-IsLine t c line l =
    let len = t.len in
    let some_left : (len == 0) ≡ false = ground (arith, l.length_is) in
    record {
      length_is = rw some_left (omega (arith, l.length_is));
      holds = rw some_left (
          Holds-frame t.buffer (store_at (len - 1) 0 t.buffer) line
            (λ i lt.
              let not_last : (i == len - 1) ≡ false = ground (arith, l.length_is) in
              rw not_last refl)
            l.holds.1);
    }

buffer_backspace-empty : (t : Terminal) → IsLine t [] → buffer_backspace t ≡ t
unfolding buffer_backspace
buffer_backspace-empty t l =
    let none_left : (t.len == 0) ≡ true = ground (arith, l.length_is) in rw none_left refl

shell_key-IsLine :
    (t : Terminal) (key : ℕ) (line : List ℕ)
    → IsLine t line
    → (key == 10) ≡ false
    → IsLine (shell_key key t) (edit key line)
unfolding shell_key
shell_key-IsLine t key [] l other = elim (Bool-cases (key == 8)) [
  | inl back ↦ rw (other, back) (subst (λ u. IsLine u []) (sym (buffer_backspace-empty t l)) l)
  | inr typed ↦ rw (other, typed) (put_at_buffer-IsLine t key [] l)
]
shell_key-IsLine t key (c ∷ line) l other = elim (Bool-cases (key == 8)) [
  | inl back ↦ rw (other, back) (buffer_backspace-IsLine t c line l)
  | inr typed ↦ rw (other, typed) (put_at_buffer-IsLine t key (c ∷ line) l)
]

shell_keys-IsLine :
    (t : Terminal) (keys line : List ℕ)
    → IsLine t line
    → NoNewline keys
    → IsLine (shell_keys keys t) (edited keys line)
shell_keys-IsLine t [] line l n = l
shell_keys-IsLine t (key ∷ keys) line l n =
    shell_keys-IsLine (shell_key key t) keys (edit key line) (shell_key-IsLine t key line l n.0) n.1

-- A key changes no cell from the one two behind the line on.
shell_key-frame :
    (t : Terminal) (key i : ℕ)
    → (key == 10) ≡ false
    → t.len + 1 < i
    → ((shell_key key t).buffer i ≡ t.buffer i) × ((shell_key key t).len ≤ t.len + 1)
unfolding shell_key put_at_buffer buffer_backspace
shell_key-frame t key i other above = elim (Bool-cases (key == 8)) [
  | inl back ↦ elim (Bool-cases (t.len == 0)) [
    | inl none_left ↦ rw (other, back, none_left) (refl, omega arith)
    | inr some_left ↦
        let not_last : (i == t.len - 1) ≡ false = ground arith in
        rw (other, back, some_left) (rw not_last refl, omega arith)
  ]
  | inr typed ↦
      let not_end : (i == t.len + 1) ≡ false = ground arith in
      let not_last : (i == t.len) ≡ false = ground arith in
      rw (other, typed) (rw (not_end, not_last) refl, omega arith)
]

shell_keys-frame :
    (t : Terminal) (keys : List ℕ) (i : ℕ)
    → NoNewline keys
    → t.len + length keys < i
    → (shell_keys keys t).buffer i ≡ t.buffer i
shell_keys-frame t [] i n above = refl
shell_keys-frame t (key ∷ keys) i n above =
    let (same, more) = shell_key-frame t key i n.0 (omega arith) in
    shell_keys-frame (shell_key key t) keys i n.1 (omega (arith, more)) ∙ same

-- From an empty line on, fewer than 128 keys without a newline write no cell past the end of the
-- buffer. The newline behind them executes the characters that are left of them once each backspace has
-- taken back the one in front of it, shows the prompt, and leaves an empty line.
pub shell_keys-command_execute :
    (t : Terminal) (keys : List ℕ) (i : ℕ)
    → t.len ≡ 0
    → NoNewline keys
    → length keys < 128
    → 128 ≤ i
    → let t' = shell_keys keys t in
      let t'' = shell_key 10 t' in
      (t''.screen
        ≡ tty_write
            (62 ∷ 32 ∷ [])
            (command_execute (in_order (edited keys []) []) (tty_putchar 10 t'.screen)))
      × (t''.len ≡ 0)
      × (t'.buffer i ≡ t.buffer i)
unfolding shell_key command_buffer_submit clear_buffer
shell_keys-command_execute t keys i empty n few beyond =
    let t' = shell_keys keys t in
    let line = edited keys [] in
    let l : IsLine t' line =
      shell_keys-IsLine t keys [] (record { length_is = empty; holds = tt }) n in
    let ended : Holds (store_at t'.len 0 t'.buffer) line =
      Holds-frame t'.buffer (store_at t'.len 0 t'.buffer) line
        (λ j lt.
          let not_end : (j == t'.len) ≡ false = ground (arith, l.length_is) in rw not_end refl)
        l.holds in
    let command : cells_below t'.len (store_at t'.len 0 t'.buffer) [] ≡ in_order line [] =
      ap (λ m. cells_below m (store_at t'.len 0 t'.buffer) []) l.length_is
      ∙ cells_below-Holds (store_at t'.len 0 t'.buffer) line [] ended in
    (
      ap (λ str. tty_write (62 ∷ 32 ∷ []) (command_execute str (tty_putchar 10 t'.screen))) command,
      refl,
      shell_keys-frame t keys i n (omega (arith, empty)),
    )
