-- ===== src/Shell/Blocks.antt =====
-- A line, and its words, in a block that grows.
use mini_unix.Base.{
  ℕ, ◌+◌, ◌<◌, ◌≡◌, ◌⊎◌, refl, sym, ◌∙◌, subst, inl, inr, Bool, true, false, List, [], ◌∷◌, Option,
  none, some, arith, ltb, leb, ◌==◌, ==_refl, if◌then◌else◌, Bool-cases,
}
use mini_unix.Shell.{Filled, filled, exited, fault, store_at, block_loop, fill, shell_read_line}

-- `realloc` keeps the cells that the block had.
abbrev pub Keeps : {A : Type 0} → ((old size : ℕ) → (ℕ → A) → Option (ℕ → A)) → Type 0
Keeps {A = A} realloc =
    (old size : ℕ) (block block' : ℕ → A)
    → realloc old size block ≡ some block'
    → (i : ℕ) → i < old
    → block' i ≡ block i

module _ {A : Type 0} (ends : A → Bool) where
  -- what stands in front of the first end, and what stands behind it
  abbrev pub up_to_end : List A → List A
  up_to_end [] = []
  up_to_end (a ∷ input) = let rest = up_to_end input in if ends a then [] else a ∷ rest

  abbrev pub behind_end : List A → List A
  behind_end [] = []
  behind_end (a ∷ input) = let rest = behind_end input in if ends a then input else rest

module _ {A : Type 0} (nul : A) where
  -- The cells from `i` on hold the entries and then the terminator.
  abbrev pub Holds : (block : ℕ → A) (i : ℕ) → List A → Type 0
  Holds block i [] = block i ≡ nul
  Holds block i (a ∷ text) = (block i ≡ a) × Holds block (i + 1) text

-- The loop ends with the entries in front of the first end from `position` on, and leaves the cells in
-- front of these as they were; or there was no memory for a larger block. It writes to no cell past the
-- end.
abbrev pub Fills :
    {A : Type 0} → (A → Bool) → A → List A → (position : ℕ) → (block : ℕ → A) → Filled A → Type 0
Fills ends nul input position block (filled block' position' rest) =
    Holds nul block' position (up_to_end ends input)
    × (rest ≡ behind_end ends input)
    × ((i : ℕ) → i < position → block' i ≡ block i)
Fills ends nul input position block exited = Unit {0}
Fills ends nul input position block fault = true ≡ false

Option-cases : {B : Type 0} (x : Option B) → (x ≡ none) ⊎ ((b : B) × (x ≡ some b))
Option-cases none = inl refl
Option-cases (some b) = inr (b, refl)

abbrev pub is_filled : {A : Type 0} → Filled A → Bool
is_filled (filled block position rest) = true
is_filled exited = false
is_filled fault = false

module _ (A : Type 0) (malloc : (size : ℕ) → Option (ℕ → A))
    (realloc : (old size : ℕ) → (ℕ → A) → Option (ℕ → A)) (ends : A → Bool) (nul : A) (chunk : ℕ)
    (keeps : Keeps realloc) (has_chunk : 0 < chunk) where
  Fills-step :
      (a : A) (input : List A) (position : ℕ) (block block' : ℕ → A) (r : Filled A)
      → ends a ≡ false
      → block' position ≡ a
      → ((i : ℕ) → i < position → block' i ≡ block i)
      → Fills ends nul input (position + 1) block' r
      → Fills ends nul (a ∷ input) position block r
  Fills-step a input position block block' (filled b p rest) goes_on stored same f =
      let (holds, left, before) = f in
      rw goes_on (
        (before position (omega arith) ∙ stored, holds),
        left,
        λ i lt. before i (omega arith) ∙ same i lt,
      )
  Fills-step a input position block block' exited goes_on stored same f = tt
  Fills-step a input position block block' fault goes_on stored same f = f

  -- Storing the terminator ends the text.
  Fills-end :
      (input rest : List A) (position : ℕ) (block : ℕ → A)
      → up_to_end ends input ≡ []
      → rest ≡ behind_end ends input
      → Fills ends nul input position block (filled (store_at position nul block) position rest)
  Fills-end input rest position block empty left = (
    subst (Holds nul (store_at position nul block) position) (sym empty)
        (rw (==_refl position) refl),
    left,
    λ i lt. let before : (i == position) ≡ false = ground arith in rw before refl,
  )

  block_loop-Fills :
      (input : List A) (size position : ℕ) (block : ℕ → A)
      → position < size
      → Fills ends nul input position block
          (block_loop malloc realloc ends nul chunk input size position block)
  unfolding block_loop
  block_loop-Fills [] size position block lt =
      let inside : ltb position size ≡ true = ground arith in
      rw inside (Fills-end [] [] position block refl refl)
  block_loop-Fills (a ∷ input) size position block lt =
      let inside : ltb position size ≡ true = ground arith in
      let block' = store_at position a block in
      let stored : block' position ≡ a = rw (==_refl position) refl in
      let same : (i : ℕ) → i < position → block' i ≡ block i =
        λ i below. let before : (i == position) ≡ false = ground arith in rw before refl in
      elim (Bool-cases (ends a)) [
        | inl end ↦
            rw (inside, end)
              (Fills-end (a ∷ input) input position block (rw end refl) (rw end refl))
        | inr goes_on ↦ elim (Bool-cases (leb size (position + 1))) [
          | inl used ↦ elim (Option-cases (realloc size (size + chunk) block')) [
            | inl missing ↦ rw (inside, goes_on, used, missing) tt
            | inr (block'', given) ↦
                let old = keeps size (size + chunk) block' block'' given in
                rw (inside, goes_on, used, given)
                  (Fills-step a input position block block'' _ goes_on (old position lt ∙ stored)
                    (λ i below. old i (omega arith) ∙ same i below)
                    (block_loop-Fills input (size + chunk) (position + 1) block'' (omega arith)))
          ]
          | inr room ↦
              rw (inside, goes_on, room)
                (Fills-step a input position block block' _ goes_on stored same
                  (block_loop-Fills input size (position + 1) block' (ground arith)))
        ]
      ]

  -- While there is memory, the loop ends with a block.
  block_loop-is_filled :
      (input : List A) (size position : ℕ) (block : ℕ → A)
      → position < size
      → ((old new : ℕ) (b : ℕ → A) → (b' : ℕ → A) × (realloc old new b ≡ some b'))
      → is_filled (block_loop malloc realloc ends nul chunk input size position block) ≡ true
  unfolding block_loop
  block_loop-is_filled [] size position block lt memory =
      let inside : ltb position size ≡ true = ground arith in rw inside refl
  block_loop-is_filled (a ∷ input) size position block lt memory =
      let inside : ltb position size ≡ true = ground arith in
      let block' = store_at position a block in
      elim (Bool-cases (ends a)) [
        | inl end ↦ rw (inside, end) refl
        | inr goes_on ↦ elim (Bool-cases (leb size (position + 1))) [
          | inl used ↦
              let (block'', given) = memory size (size + chunk) block' in
              rw (inside, goes_on, used, given)
                (block_loop-is_filled input (size + chunk) (position + 1) block'' (omega arith)
                  memory)
          | inr room ↦
              rw (inside, goes_on, room)
                (block_loop-is_filled input size (position + 1) block' (ground arith) memory)
        ]
      ]

  pub fill-Fills :
      (input : List A) (block : ℕ → A)
      → malloc chunk ≡ some block
      → Fills ends nul input 0 block (fill malloc realloc ends nul chunk input)
  unfolding fill
  fill-Fills input block given = rw (given, fill) (block_loop-Fills input chunk 0 block has_chunk)

  pub fill-is_filled :
      (input : List A) (block : ℕ → A)
      → malloc chunk ≡ some block
      → ((old new : ℕ) (b : ℕ → A) → (b' : ℕ → A) × (realloc old new b ≡ some b'))
      → is_filled (fill malloc realloc ends nul chunk input) ≡ true
  unfolding fill
  fill-is_filled input block given memory =
      rw (given, fill) (block_loop-is_filled input chunk 0 block has_chunk memory)

-- the block of a loop that ended with one
abbrev pub FilledWith : {A : Type 0} → (A → Bool) → A → List A → Filled A → Type 0
FilledWith ends nul input (filled block position rest) =
    Holds nul block 0 (up_to_end ends input) × (rest ≡ behind_end ends input)
FilledWith ends nul input exited = true ≡ false
FilledWith ends nul input fault = true ≡ false

is_filled-FilledWith :
    (A : Type 0) (ends : A → Bool) (nul : A) (input : List A) (block : ℕ → A) (r : Filled A)
    → Fills ends nul input 0 block r
    → is_filled r ≡ true
    → FilledWith ends nul input r
is_filled-FilledWith A ends nul input block (filled b p rest) f e = (f.0, f.1)
is_filled-FilledWith A ends nul input block exited f e = sym e
is_filled-FilledWith A ends nul input block fault f e = sym e

-- If `malloc` and every `realloc` give a block, and `realloc` keeps the cells that it had,
-- `shell_read_line` ends with a block that holds the characters up to the first newline, or up to EOF
-- where there is none, and then a NUL; what is behind the newline is left to be read. It writes to no
-- cell past the end of the block, however long the line is.
pub shell_read_line-FilledWith :
    (malloc : (size : ℕ) → Option (ℕ → ℕ)) (realloc : (old size : ℕ) → (ℕ → ℕ) → Option (ℕ → ℕ))
    (input : List ℕ) (block : ℕ → ℕ)
    → Keeps realloc
    → malloc 1024 ≡ some block
    → ((old new : ℕ) (b : ℕ → ℕ) → (b' : ℕ → ℕ) × (realloc old new b ≡ some b'))
    → FilledWith (λ c. c == 10) 0 input (shell_read_line malloc realloc input)
shell_read_line-FilledWith malloc realloc input block keeps given memory =
    let ends : ℕ → Bool = λ c. c == 10 in
    is_filled-FilledWith ℕ ends 0 input block (shell_read_line malloc realloc input)
      (fill-Fills ℕ malloc realloc ends 0 1024 keeps (omega arith) input block given)
      (fill-is_filled ℕ malloc realloc ends 0 1024 keeps (omega arith) input block given memory)
