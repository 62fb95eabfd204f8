-- ===== src/Shell/Execute.antt =====
-- From the words of a line to the command that runs.
use mini_unix.Base.{
  ℕ, zero, suc, ◌+◌, ◌<◌, ◌≡◌, refl, ◌∙◌, ap, List, [], ◌∷◌, Option, none, some, arith, length,
}
use mini_unix.Base.Int.{pos}
use mini_unix.Text.{Str}
use mini_unix.Shell.{
  find_command, Ended, finished, Command, Commands, commands, argc_loop, shell_execute,
}
use mini_unix.Shell.Blocks.{Holds}

-- what `strtok` returns for the words of a line, without the NULL at the end
abbrev pub tokens : List Str → List (Option Str)
tokens [] = []
tokens (word ∷ words) = some word ∷ tokens words

-- the words as arguments of the command that the first of them names
abbrev pub run_words :
    {St : Type 0}
    → (launch : (ℕ → Option Str) → St → Option (Ended St)) (cs : Commands St) (words : List Str)
      (args : ℕ → Option Str) (st : St)
    → Option (Ended St)
run_words launch cs [] args st = some (finished (pos 1) st)
run_words launch cs (name ∷ words) args st = elim (find_command (commands cs) name) [
  | none ↦ launch args st
  | some fn ↦ fn (length (name ∷ words)) args st
]

argc_loop-Holds :
    (fuel i : ℕ) (args : ℕ → Option Str) (words : List Str)
    → Holds none args i (tokens words)
    → length words < fuel
    → argc_loop fuel i args ≡ some (i + length words)
unfolding argc_loop
argc_loop-Holds zero i args words h lt = absurd (omega arith)
argc_loop-Holds (suc fuel) i args [] h lt =
    let at : i ≡ i + 0 = omega arith in rw (h, argc_loop) (ap some at)
argc_loop-Holds (suc fuel) i args (word ∷ words) h lt =
    let at : i + 1 + length words ≡ i + suc (length words) = omega arith in
    rw (h.0, argc_loop) (argc_loop-Holds fuel (i + 1) args words h.1 (omega arith) ∙ ap some at)

run_found :
    {St : Type 0} {n n' : ℕ} (launch : (ℕ → Option Str) → St → Option (Ended St))
    (args : ℕ → Option Str) (st : St) (x : Option (Command St))
    → n ≡ n'
    → elim x as (λ _. Option (Ended St)) [ none ↦ launch args st | some fn ↦ fn n args st ]
      ≡ elim x as (λ _. Option (Ended St)) [ none ↦ launch args st | some fn ↦ fn n' args st ]
run_found launch args st none same = refl
run_found launch args st (some fn) same = ap (λ q. fn q args st) same

pub shell_execute-Holds :
    (St : Type 0) (launch : (ℕ → Option Str) → St → Option (Ended St)) (cs : Commands St) (fuel : ℕ)
    (args : ℕ → Option Str) (st : St) (words : List Str)
    → Holds none args 0 (tokens words)
    → length words < fuel
    → shell_execute launch cs fuel args st ≡ run_words launch cs words args st
unfolding shell_execute
shell_execute-Holds St launch cs fuel args st [] h lt = rw (h, shell_execute) refl
shell_execute-Holds St launch cs fuel args st (name ∷ words) h lt =
    let count = argc_loop-Holds fuel 0 args (name ∷ words) h lt in
    let at : 0 + length (name ∷ words) ≡ length (name ∷ words) = omega arith in
    rw (h.0, count, shell_execute) (run_found launch args st (find_command (commands cs) name) at)
