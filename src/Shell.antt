-- ===== src/Shell.antt =====
-- user/shell.c: reading a line, splitting it into its words, and finding the command. `malloc`, `realloc`
-- and `strtok` are of the C library and parameters here: a block is a function from its cells, and its
-- size is kept beside it; `none` is for NULL. The commands are parameters here, too: Shell/Builtins
-- has those of user/commands.c, and Shell/Loop starts programs and goes from line to line. The sizes
-- are taken not to reach 2^31.
pub mod Blocks
pub mod Execute
pub mod Libc
pub mod Builtins
pub mod Output
pub mod Loop
pub mod Endings
pub mod Session
mod BuiltinTests
mod Tests
use mini_unix.Base.{
  ℕ, zero, suc, ◌+◌, Bool, true, false, List, [], ◌∷◌, Option, none, some, ltb, leb, ◌==◌,
  if◌then◌else◌, length,
}
use mini_unix.Base.Int.{ℤ, pos, is_zero}
use mini_unix.Text.{Str, strcmp}

abbrev pub shell_rl_bufsize : ℕ
shell_rl_bufsize = 1024

abbrev pub shell_tok_bufsize : ℕ
shell_tok_bufsize = 64

-- How a loop that fills a block ends: with the block, how many cells of it are in use, and what is left
-- of the input; with `exit(EXIT_FAILURE)`; or with a write past the end of the block.
pub data Filled (A : Type 0) : Type 0 where
  filled : (block : ℕ → A) (position : ℕ) (rest : List A) → Filled A
  exited : Filled A
  fault : Filled A

abbrev pub store_at : {A : Type 0} → ℕ → A → (ℕ → A) → ℕ → A
store_at i a block j = if j == i then a else block j

module _ {A : Type 0} (malloc : (size : ℕ) → Option (ℕ → A))
    (realloc : (old size : ℕ) → (ℕ → A) → Option (ℕ → A)) (ends : A → Bool) (nul : A)
    (chunk : ℕ) where
  -- `block[position] = a`, and how the loop goes on behind it
  abbrev pub within : (position size : ℕ) → Filled A → Filled A
  within position size next = if ltb position size then next else fault

  -- The loop from a position on: it stores what it reads up to an end, and makes the block larger by
  -- `chunk` cells once it is used up.
  unfoldable pub block_loop : List A → (size position : ℕ) → (block : ℕ → A) → Filled A
  block_loop [] size position block =
      within position size (filled (store_at position nul block) position [])
  block_loop (a ∷ input) size position block =
      let block' = store_at position a block in
      let later : ℕ → (ℕ → A) → Filled A = λ size' b. block_loop input size' (position + 1) b in
      let grown : Filled A = elim (realloc size (size + chunk) block') [
        | none ↦ exited
        | some block'' ↦ later (size + chunk) block''
      ] in
      within position size (
        if ends a
        then filled (store_at position nul block) position input
        else if leb size (position + 1)
        then grown
        else later size block')

  unfoldable pub fill : List A → Filled A
  fill input = elim (malloc chunk) [ none ↦ exited | some block ↦ block_loop input chunk 0 block ]

-- `input` is what `getchar` returns until EOF.
abbrev pub shell_read_line :
    (malloc : (size : ℕ) → Option (ℕ → ℕ)) (realloc : (old size : ℕ) → (ℕ → ℕ) → Option (ℕ → ℕ))
    (input : List ℕ)
    → Filled ℕ
shell_read_line malloc realloc input = fill malloc realloc (λ c. c == 10) 0 shell_rl_bufsize input

-- `tokens` is what `strtok` returns for the line until NULL.
abbrev pub shell_split_line :
    (malloc : (size : ℕ) → Option (ℕ → Option Str))
    (realloc : (old size : ℕ) → (ℕ → Option Str) → Option (ℕ → Option Str))
    (tokens : List (Option Str))
    → Filled (Option Str)
shell_split_line malloc realloc tokens =
    fill malloc realloc (λ t. false) none shell_tok_bufsize tokens

-- the loop of `shell_execute` over the commands: the one with the name
abbrev pub find_command : {F : Type 0} → List (Str × F) → Str → Option F
find_command [] name = none
find_command ((s, fn) ∷ commands) name =
    let rest = find_command commands name in if is_zero (strcmp name s) then some fn else rest

-- How a function of the shell ends: it returns its status; the process ends with `exit`; the process runs
-- another program from here on; or it reads through a NULL pointer.
pub data Ended (St : Type 0) : Type 0 where
  finished : (status : ℤ) (st : St) → Ended St
  stopped : (st : St) → Ended St
  replaced : (st : St) → Ended St
  crashed : Ended St

-- a command, with `argc` and `argv`; `none` is for too little fuel
abbrev pub Command : Type 0 → Type 0
Command St = (argc : ℕ) (argv : ℕ → Option Str) → St → Option (Ended St)

-- the functions of commands.c other than `cmd_exit`
pub record Commands (St : Type 0) : Type 0 where
  pub cmd_ls : Command St
  pub cmd_pwd : Command St
  pub cmd_cd : Command St
  pub cmd_echo : Command St
  pub cmd_cat : Command St
  pub cmd_help : Command St

abbrev pub cmd_exit : {St : Type 0} → Command St
cmd_exit argc argv st = some (finished (pos 1) st)

-- the table of commands.c: ls, pwd, cd, echo, cat, exit and help
abbrev pub commands : {St : Type 0} → Commands St → List (Str × Command St)
commands cs =
    (108 ∷ 115 ∷ [], cs.cmd_ls)
    ∷ (112 ∷ 119 ∷ 100 ∷ [], cs.cmd_pwd)
    ∷ (99 ∷ 100 ∷ [], cs.cmd_cd)
    ∷ (101 ∷ 99 ∷ 104 ∷ 111 ∷ [], cs.cmd_echo)
    ∷ (99 ∷ 97 ∷ 116 ∷ [], cs.cmd_cat)
    ∷ (101 ∷ 120 ∷ 105 ∷ 116 ∷ [], cmd_exit)
    ∷ (104 ∷ 101 ∷ 108 ∷ 112 ∷ [], cs.cmd_help)
    ∷ []

-- `while (args[argc] != NULL) argc++;` Fuel counts the rounds and the exit; `none` is for too little.
unfoldable pub argc_loop : (fuel argc : ℕ) (args : ℕ → Option Str) → Option ℕ
argc_loop zero argc args = none
argc_loop (suc fuel) argc args =
    let rest = argc_loop fuel (argc + 1) args in
    elim (args argc) [ none ↦ some argc | some word ↦ rest ]

-- `shell_launch` and what it prints about an unknown command are the parameter `launch`.
unfoldable pub shell_execute :
    {St : Type 0}
    → (launch : (ℕ → Option Str) → St → Option (Ended St)) (cs : Commands St) (fuel : ℕ)
      (args : ℕ → Option Str) (st : St)
    → Option (Ended St)
shell_execute launch cs fuel args st = elim (args 0) [
  | none ↦ some (finished (pos 1) st)
  | some name ↦ elim (argc_loop fuel 0 args) [
    | none ↦ none
    | some argc ↦ elim (find_command (commands cs) name) [
      | none ↦ launch args st
      | some fn ↦ fn argc args st
    ]
  ]
]
