-- ===== src/Vfs/Names.antt =====
-- The components of a path, and that `next_component` goes through them.
use mini_unix.Base.{
  ℕ, zero, suc, ◌+◌, ◌≤◌, ◌<◌, ◌≡◌, refl, sym, ◌∙◌, inl, inr, Bool, true, false, not, ◌||◌, List,
  [], ◌∷◌, Option, none, some, arith, ltb, ◌==◌, if◌then◌else◌, Bool-cases, length,
}
use mini_unix.Text.{Str}
use mini_unix.Text.Laws.{prefix}
use mini_unix.Vfs.{slash, vfs_max_name, skip_slashes, take_name, at_end, next_component}

abbrev pub cons_first : ℕ → List Str → List Str
cons_first c [] = (c ∷ []) ∷ []
cons_first c (w ∷ ws) = (c ∷ w) ∷ ws

-- a path up to its NUL, split at each slash
abbrev pub words : Str → List Str
words [] = [] ∷ []
words (c ∷ s) =
    if c == 0 then [] ∷ [] else if c == slash then [] ∷ words s else cons_first c (words s)

-- empty words left out, the others cut after 255 characters
abbrev pub keep : List Str → List Str
keep [] = []
keep ([] ∷ ws) = keep ws
keep ((c ∷ w) ∷ ws) = prefix vfs_max_name (c ∷ w) ∷ keep ws

abbrev pub components : Str → List Str
components path = keep (words path)

-- the first word and what follows it
abbrev until : Str → Str
until [] = []
until (c ∷ s) = if (c == 0) || (c == slash) then [] else c ∷ until s

abbrev after : Str → Str
after [] = []
after (c ∷ s) = if (c == 0) || (c == slash) then c ∷ s else after s

abbrev later_words : Str → List Str
later_words [] = []
later_words (c ∷ s) = if c == 0 then [] else words s

take_name_lem :
    (len room : ℕ) (s : Str)
    → len + room ≡ vfs_max_name
    → take_name len s ≡ (prefix room (until s), after s)
take_name_lem len zero [] e = refl
take_name_lem len (suc room) [] e = refl
take_name_lem len zero (c ∷ s) e =
    let cut : ltb len 255 ≡ false = ground arith in
    elim (Bool-cases ((c == 0) || (c == slash))) [
      | inl stop ↦ rw stop refl
      | inr go ↦ rw (go, cut, take_name_lem len zero s e) refl
    ]
take_name_lem len (suc room) (c ∷ s) e =
    let fits : ltb len 255 ≡ true = ground arith in
    elim (Bool-cases ((c == 0) || (c == slash))) [
      | inl stop ↦ rw stop refl
      | inr go ↦ rw (go, fits, take_name_lem (len + 1) room s (omega arith)) refl
    ]

words-until : (s : Str) → words s ≡ until s ∷ later_words (after s)
words-until [] = refl
words-until (c ∷ s) = elim (Bool-cases (c == 0)) [
  | inl nul ↦ rw nul (rw nul refl)
  | inr some_char ↦ elim (Bool-cases (c == slash)) [
    | inl sep ↦ rw (some_char, sep) (rw some_char refl)
    | inr letter ↦ rw (some_char, letter, words-until s) refl
  ]
]

components-later : (s : Str) → components (after s) ≡ keep (later_words (after s))
components-later [] = refl
components-later (c ∷ s) = elim (Bool-cases (c == 0)) [
  | inl nul ↦ rw nul (rw nul refl)
  | inr some_char ↦ elim (Bool-cases (c == slash)) [
    | inl sep ↦ rw (some_char, sep) (rw (some_char, sep) refl)
    | inr letter ↦ rw (some_char, letter) (components-later s)
  ]
]

components-skip_slashes : (s : Str) → components (skip_slashes s) ≡ components s
components-skip_slashes [] = refl
components-skip_slashes (c ∷ s) = elim (Bool-cases (c == slash)) [
  | inl sep ↦
      let char : (c == 0) ≡ false = ground arith in rw (sep, char) (components-skip_slashes s)
  | inr letter ↦ rw letter (rw letter refl)
]

length-skip_slashes : (s : Str) → length (skip_slashes s) ≤ length s
length-skip_slashes [] = omega arith
length-skip_slashes (c ∷ s) = ground (arith, length-skip_slashes s)

length-after : (s : Str) → length (after s) ≤ length s
length-after [] = omega arith
length-after (c ∷ s) = ground (arith, length-after s)

-- no slash in front
abbrev starts_word : Str → Bool
starts_word [] = true
starts_word (c ∷ s) = not (c == slash)

skip_slashes-starts_word : (s : Str) → starts_word (skip_slashes s) ≡ true
skip_slashes-starts_word [] = refl
skip_slashes-starts_word (c ∷ s) = ground (arith, skip_slashes-starts_word s)

components-word :
    (s : Str)
    → starts_word s ≡ true
    → at_end s ≡ false
    → (components s ≡ prefix vfs_max_name (until s) ∷ components (after s))
      × (length (after s) < length s)
components-word [] starts more = absurd (cc more)
components-word (c ∷ s) starts more =
    let letter : (c == slash) ≡ false = ground arith in
    (
      rw (more, letter, words-until s, components-later s) refl,
      rw (more, letter) (omega (arith, length-after s)),
    )

components-end : (s : Str) → at_end s ≡ true → components s ≡ []
components-end [] e = refl
components-end (c ∷ s) e = rw e refl

-- How a path goes on.
pub data Next (path : Str) : Option (Str × Str) → Type 0 where
  last : components path ≡ [] → Next path none
  step :
      (name rest : Str)
      → components path ≡ name ∷ components rest
      → length rest < length path
      → Next path (some (name, rest))

pub next_component-Next : (path : Str) → Next path (next_component path)
unfolding next_component
next_component-Next path =
    let s = skip_slashes path in
    let same : components s ≡ components path = components-skip_slashes path in
    elim (Bool-cases (at_end s)) [
      | inl over ↦ rw over (last (sym same ∙ components-end s over))
      | inr more ↦
          let (e, lt) = components-word s (skip_slashes-starts_word path) more in
          rw (more, take_name_lem 0 vfs_max_name s refl)
            (step (prefix vfs_max_name (until s)) (after s) (sym same ∙ e)
              (omega (arith, lt, length-skip_slashes path)))
    ]
