-- ===== src/Shell/Loop.antt =====
-- `shell_launch` and `shell_loop` of user/shell.c.
use mini_unix.Base.{ℕ, zero, suc, Bool, ◌||◌, List, [], ◌∷◌, Option, none, some, if◌then◌else◌}
use mini_unix.Base.Int.{ℤ, pos, is_zero}
use mini_unix.Text.{Str}
use mini_unix.Shell.{
  filled, exited, fault, shell_read_line, shell_split_line, Ended, finished, stopped, replaced,
  crashed, Commands, shell_execute,
}
use mini_unix.Shell.Execute.{tokens}
use mini_unix.Shell.Libc.{Libc, Headers}
use mini_unix.Shell.Builtins.{is_minus_one, below_zero, builtins}

-- "shell" and "lsh"
abbrev pub shell_text : Str
shell_text = 115 ∷ 104 ∷ 101 ∷ 108 ∷ 108 ∷ []

abbrev pub lsh_text : Str
lsh_text = 108 ∷ 115 ∷ 104 ∷ []

-- "unknown command: %s\n"
abbrev pub unknown_format : Str
unknown_format =
    117 ∷ 110 ∷ 107 ∷ 110 ∷ 111 ∷ 119 ∷ 110 ∷ 32 ∷ 99 ∷ 111 ∷ 109 ∷ 109 ∷ 97 ∷ 110 ∷ 100 ∷ 58 ∷ 32
    ∷ 37 ∷ 115 ∷ 10 ∷ []

-- "> "
abbrev pub prompt : Str
prompt = 62 ∷ 32 ∷ []

-- what `printf` gets for a word that `args` has
abbrev pub words_at : Option Str → List Str
words_at none = []
words_at (some s) = s ∷ []

module _ {St : Type 0} (libc : Libc St) (headers : Headers) where
  -- `do { waitpid(...); } while (...);` Fuel counts the rounds.
  unfoldable pub wait_loop : (fuel : ℕ) (pid : ℤ) → St → Option St
  wait_loop zero pid st = none
  wait_loop (suc fuel) pid st =
      let (status, st') = libc.waitpid pid headers.wuntraced st in
      let again = wait_loop fuel pid st' in
      if headers.wifexited status || headers.wifsignaled status then some st' else again

  -- the child: the program, or a report and the end of the process
  abbrev pub run_program : (args : ℕ → Option Str) → St → Ended St
  run_program args st = elim (libc.execvp (args 0) args st) [
    | none ↦ replaced st
    | some (r, st') ↦ stopped (if is_minus_one r then libc.perror shell_text st' else st')
  ]

  unfoldable pub shell_launch : (fuel : ℕ) (args : ℕ → Option Str) → St → Option (Ended St)
  shell_launch fuel args st =
      let (pid, st') = libc.fork st in
      if is_zero pid
      then some (run_program args st')
      else if below_zero pid
      then some (finished (pos 0) (libc.perror lsh_text st'))
      else elim (wait_loop fuel pid st') [ none ↦ none | some st'' ↦ some (finished (pos 0) st'') ]

  -- the end of `shell_execute`, for a word that is no command
  abbrev pub launch : (fuel : ℕ) (args : ℕ → Option Str) → St → Option (Ended St)
  launch fuel args st =
      shell_launch fuel args (libc.fprintf_stderr unknown_format (words_at (args 0)) st)

-- What `shell_loop` runs on: the C library, its memory for characters and for words, what `strtok` finds
-- in a line, whether an argument is the address of the literal of `cmd_echo`, and the fuel of the loops.
pub record Setting (St : Type 0) : Type 0 where
  pub libc : Libc St
  pub headers : Headers
  pub malloc : (size : ℕ) → Option (ℕ → ℕ)
  pub realloc : (old size : ℕ) → (ℕ → ℕ) → Option (ℕ → ℕ)
  pub malloc_words : (size : ℕ) → Option (ℕ → Option Str)
  pub realloc_words : (old size : ℕ) → (ℕ → Option Str) → Option (ℕ → Option Str)
  pub strtok_all : (line : ℕ → ℕ) → List Str
  pub at_literal : Option Str → Bool
  pub fuel : ℕ

-- how the loop goes on after a line
abbrev pub after_line :
    {St : Type 0} → Option (Ended St) → (St → Option (Ended St)) → Option (Ended St)
after_line none again = none
after_line (some (finished status st)) again =
    if is_zero status then again st else some (finished status st)
after_line (some (stopped st)) again = some (stopped st)
after_line (some (replaced st)) again = some (replaced st)
after_line (some crashed) again = some crashed

module _ {St : Type 0} (on : Setting St) where
  abbrev pub own_launch : (args : ℕ → Option Str) → St → Option (Ended St)
  own_launch = launch on.libc on.headers on.fuel

  abbrev pub own_commands : Commands St
  own_commands = builtins on.libc on.headers on.fuel on.at_literal

  unfoldable pub run_line : (line : ℕ → ℕ) → St → Option (Ended St)
  run_line line st =
      elim (shell_split_line on.malloc_words on.realloc_words (tokens (on.strtok_all line))) [
        | exited ↦ some (stopped st)
        | fault ↦ some crashed
        | filled args n rest ↦ shell_execute own_launch own_commands on.fuel args st
      ]

  -- `input` is what `getchar` has still to return; `none` is for too few rounds.
  unfoldable pub shell_loop : (rounds : ℕ) (input : List ℕ) → St → Option (Ended St)
  shell_loop zero input st = none
  shell_loop (suc rounds) input st =
      let st' = on.libc.printf prompt [] st in
      elim (shell_read_line on.malloc on.realloc input) [
        | exited ↦ some (stopped st')
        | fault ↦ some crashed
        | filled line n rest ↦ after_line (run_line line st') (shell_loop rounds rest)
      ]
