-- ===== src/Shell/Tests.antt =====
-- A library whose blocks hold 7 at first: runs, and the theorem at it.
use mini_unix.Base.{◌+◌, sym, ap, ℕ, ◌≡◌, refl, List, [], ◌∷◌, Option, none, some, ◌==◌}
use mini_unix.Text.{Str, strcmp}
use mini_unix.Shell.{pos, Ended, finished, shell_read_line, find_command, Command, Commands}
use mini_unix.Shell.Execute.{run_words}
use mini_unix.Shell.Blocks.{Keeps, FilledWith, shell_read_line-FilledWith}

abbrev malloc : (size : ℕ) → Option (ℕ → ℕ)
malloc size = some (λ i. 7)

abbrev realloc : (old size : ℕ) → (ℕ → ℕ) → Option (ℕ → ℕ)
realloc old size block = some block

realloc-Keeps : Keeps realloc
realloc-Keeps old size block block' given i lt =
    ap (λ b. elim b [ none ↦ block i | some c ↦ c i ]) (sym given)

-- "ls", a newline, "x"
shell_read_line_example :
    FilledWith
      (λ c. c == 10)
      0
      (108 ∷ 115 ∷ 10 ∷ 120 ∷ [])
      (shell_read_line malloc realloc (108 ∷ 115 ∷ 10 ∷ 120 ∷ []))
shell_read_line_example =
    shell_read_line-FilledWith malloc realloc (108 ∷ 115 ∷ 10 ∷ 120 ∷ []) (λ i. 7) realloc-Keeps
      refl (λ old new b. (b, refl))

abbrev malloc_words : (size : ℕ) → Option (ℕ → Option Str)
malloc_words size = some (λ i. some [])

abbrev realloc_words : (old size : ℕ) → (ℕ → Option Str) → Option (ℕ → Option Str)
realloc_words old size block = some block

abbrev succeeds : Command ℕ
succeeds argc argv st = some (finished (pos 0) (st + argc))

abbrev some_commands : Commands ℕ
some_commands = record {
  cmd_ls = succeeds;
  cmd_pwd = succeeds;
  cmd_cd = succeeds;
  cmd_echo = succeeds;
  cmd_cat = succeeds;
  cmd_help = succeeds;
}

abbrev launch : (ℕ → Option Str) → ℕ → Option (Ended ℕ)
launch args st = some (finished (pos 0) st)

-- "cd a"
abbrev words : List Str
words = (99 ∷ 100 ∷ []) ∷ (97 ∷ []) ∷ []

cd_runs : run_words launch some_commands words (λ i. none) 5 ≡ some (finished (pos 0) 7)
unfolding strcmp
cd_runs = refl

found : find_command {F = ℕ} ((108 ∷ [], 1) ∷ (112 ∷ [], 2) ∷ []) (112 ∷ []) ≡ some 2
unfolding strcmp
found = refl
