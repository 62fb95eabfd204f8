-- ===== src/Panic/Report.antt =====
-- What a failed assertion leaves on the screen.
use mini_unix.Base.{
  ℕ, ◌^◌, ◌<◌, ◌≡◌, refl, subst, inl, inr, Bool, true, false, List, [], ◌∷◌, Option, some, ◌==◌,
  if◌then◌else◌, Bool-cases,
}
use mini_unix.Text.{Str}
use mini_unix.Screen.{Screen, tty_write}
use mini_unix.Print.{kprintf}
use mini_unix.Print.Formats.{
  Piece, literal, string, signed, put_pieces, WellFormed, vkprintf-format,
}
use mini_unix.Panic.{
  Console, goes_on, halted, banner, assertion_format, location_format, function_format, last_words,
  line_if, panic, assert_failure, assert,
}

abbrev pub literals : Str → List Piece → List Piece
literals [] pieces = pieces
literals (c ∷ str) pieces = literal c ∷ literals str pieces

-- neither NUL nor `%`
abbrev plain : Str → Bool
plain [] = true
plain (c ∷ str) = let rest = plain str in if c == 0 then false else if c == 37 then false else rest

literals-WellFormed :
    (str : Str) (pieces : List Piece)
    → plain str ≡ true
    → WellFormed pieces
    → WellFormed (literals str pieces)
literals-WellFormed [] pieces p w = w
literals-WellFormed (c ∷ str) pieces p w = elim (Bool-cases (c == 0)) [
  | inl nul ↦ let fails : plain (c ∷ str) ≡ false = rw nul refl in absurd (cc (p, fails))
  | inr set ↦ elim (Bool-cases (c == 37)) [
    | inl percent ↦
        let fails : plain (c ∷ str) ≡ false = rw (set, percent) refl in absurd (cc (p, fails))
    | inr other ↦
        let same : plain (c ∷ str) ≡ plain str = rw (set, other) refl in
        (set, other, literals-WellFormed str pieces (subst (λ b. b ≡ true) same p) w)
  ]
]

-- "Assertion failed: "
abbrev assertion_words : Str
assertion_words =
    65 ∷ 115 ∷ 115 ∷ 101 ∷ 114 ∷ 116 ∷ 105 ∷ 111 ∷ 110 ∷ 32 ∷ 102 ∷ 97 ∷ 105 ∷ 108 ∷ 101 ∷ 100 ∷ 58
    ∷ 32 ∷ []

-- "Assertion failed: ", the expression and the end of the line
abbrev pub assertion_line : (expr : ℕ) → List Piece
assertion_line expr = literals assertion_words (string expr ∷ literal 10 ∷ [])

-- "Location: "
abbrev location_words : Str
location_words = 76 ∷ 111 ∷ 99 ∷ 97 ∷ 116 ∷ 105 ∷ 111 ∷ 110 ∷ 58 ∷ 32 ∷ []

-- "Location: ", the file, a colon, the line's number and the end of the line
abbrev pub location_line : (file line : ℕ) → List Piece
location_line file line =
    literals location_words (string file ∷ literal 58 ∷ signed line ∷ literal 10 ∷ [])

-- "Function: "
abbrev function_words : Str
function_words = 70 ∷ 117 ∷ 110 ∷ 99 ∷ 116 ∷ 105 ∷ 111 ∷ 110 ∷ 58 ∷ 32 ∷ []

-- "Function: ", the name and the end of the line
abbrev pub function_line : (func : ℕ) → List Piece
function_line func = literals function_words (string func ∷ literal 10 ∷ [])

shown :
    (null : Bool) {printed : Option Screen} {s' : Screen} (s : Screen)
    → printed ≡ some s'
    → (if null then some s else printed) ≡ some (if null then s else s')
shown true s e = refl
shown false s e = e

module _ (string_at : ℕ → Str) where
  abbrev pub shown_if : (pointer : ℕ) (pieces : List Piece) → Screen → Screen
  shown_if pointer pieces s = if pointer == 0 then s else put_pieces string_at pieces s

  -- the whole report
  abbrev pub report : (expr file line func : ℕ) → Screen → Screen
  report expr file line func s = tty_write last_words (
      shown_if func (function_line func) (
        shown_if file (location_line file line)
          (shown_if expr (assertion_line expr) (tty_write banner s))))

  line_if-assertion :
      (expr : ℕ) (s : Screen)
      → line_if string_at expr assertion_format (expr ∷ []) s
        ≡ some (shown_if expr (assertion_line expr) s)
  unfolding kprintf
  line_if-assertion expr s = shown (expr == 0) s (
      vkprintf-format string_at (assertion_line expr) s
        (literals-WellFormed assertion_words (string expr ∷ literal 10 ∷ []) refl (refl, refl, tt)))

  line_if-location :
      (file line : ℕ) (s : Screen)
      → line < 2 ^ 32
      → line_if string_at file location_format (file ∷ line ∷ []) s
        ≡ some (shown_if file (location_line file line) s)
  unfolding kprintf
  line_if-location file line s small = shown (file == 0) s (
      vkprintf-format string_at (location_line file line) s (
        literals-WellFormed location_words
          (string file ∷ literal 58 ∷ signed line ∷ literal 10 ∷ []) refl
          (refl, refl, (small, (refl, refl, tt)))))

  line_if-function :
      (func : ℕ) (s : Screen)
      → line_if string_at func function_format (func ∷ []) s
        ≡ some (shown_if func (function_line func) s)
  unfolding kprintf
  line_if-function func s = shown (func == 0) s (
      vkprintf-format string_at (function_line func) s
        (literals-WellFormed function_words (string func ∷ literal 10 ∷ []) refl (refl, refl, tt)))

  -- `ASSERT` of a condition that holds changes nothing and goes on. If it does not hold, the processor
  -- halts with its interrupts off, and the screen has the banner, the expression, the file and the
  -- number of the line, the function and the last words, each part that has a pointer in this order.
  -- The number of the line is a 32-bit word.
  pub assert_lem :
      (holds : Bool) (expr file line func : ℕ) (c : Console)
      → line < 2 ^ 32
      → assert string_at holds expr file line func c
        ≡ some (
            if holds
            then goes_on c
            else halted record { screen = report expr file line func c.screen; enabled = false })
  unfolding assert assert_failure panic
  assert_lem true expr file line func c small = refl
  assert_lem false expr file line func c small =
      let s0 = tty_write banner c.screen in
      let s1 = shown_if expr (assertion_line expr) s0 in
      let s2 = shown_if file (location_line file line) s1 in
      rw (line_if-assertion expr s0, line_if-location file line s1 small, line_if-function func s2)
        refl
