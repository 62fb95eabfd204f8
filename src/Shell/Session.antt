-- ===== src/Shell/Session.antt =====
-- `shell_loop` comes to an end.
use mini_unix.Base.{ℕ, ◌≤◌, ◌≡◌, Bool, false, List, Option, some, ◌==◌, length}
use mini_unix.Base.Int.{is_zero}
use mini_unix.Text.{Str}
use mini_unix.Shell.{Ended, finished, stopped, replaced, crashed}
use mini_unix.Shell.Blocks.{Keeps, Holds}
use mini_unix.Shell.Endings.{Finite}
use mini_unix.Shell.Loop.{Setting}

abbrev pub newline : ℕ → Bool
newline c = c == 10

-- What the C library promises: memory, `strtok` that finds no more words in a line than there are
-- characters, and finite directories, files and children.
pub record Promises {St : Type 0} (on : Setting St) (Fine : St → Type 0) : Type 0 where
  pub block : ℕ → ℕ
  pub given : on.malloc 1024 ≡ some block
  pub keeps : Keeps on.realloc
  pub memory : (old new : ℕ) (b : ℕ → ℕ) → (b' : ℕ → ℕ) × (on.realloc old new b ≡ some b')
  pub word_block : ℕ → Option Str
  pub words_given : on.malloc_words 64 ≡ some word_block
  pub words_keep : Keeps on.realloc_words
  pub words_memory :
      (old new : ℕ) (b : ℕ → Option Str)
      → (b' : ℕ → Option Str) × (on.realloc_words old new b ≡ some b')
  pub words_of :
      (line : ℕ → ℕ) (text : List ℕ)
      → Holds 0 line 0 text
      → length (on.strtok_all line) ≤ length text
  pub finite : Finite on.libc on.headers on.fuel Fine

-- The loop has ended: a status other than 0, or the end of the process.
abbrev pub Final : {St : Type 0} → Ended St → Type 0
Final (finished status st) = is_zero status ≡ false
Final (stopped st) = Unit {0}
Final (replaced st) = Unit {0}
Final crashed = Unit {0}
