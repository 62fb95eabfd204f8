-- ===== src/Shell/Endings.antt =====
-- The loops of the commands and of `shell_launch` come to an end, and with them every command, if
-- directories, files and the stops of a child are finite.
pub mod Commands
use mini_unix.Base.{
  Bool, ℕ, zero, suc, ◌<◌, ◌≤◌, ◌≡◌, refl, inl, inr, ◌⊎◌, false, ◌||◌, List, [], ◌∷◌, Option, some,
  arith, ltb, ◌==◌, if◌then◌else◌, Bool-cases, Option-cases,
}
use mini_unix.Base.Int.{ℤ, pos, is_zero}
use mini_unix.Text.{Str, strlen}
use mini_unix.Shell.{Command, commands, Ended, finished, stopped, replaced, crashed}
use mini_unix.Shell.Libc.{Libc, Headers}
use mini_unix.Shell.Builtins.{
  buffer_size, line_format, is_dots, dot, below_zero, is_minus_one, positive, ls_loop, cmd_ls,
  cmd_pwd, or_dot, change_to, cmd_cd, cmd_echo, cat_loop, cmd_cat, print_names, cmd_help, builtins,
  usage_ls, usage_pwd, usage_cd, cd_text, cat_text, pwd_text, home, empty_directory, help_first,
  help_second, name_format, help_last,
}
use mini_unix.Shell.Loop.{
  lsh_text, unknown_format, words_at, wait_loop, run_program, shell_launch, launch,
}

-- What the C library keeps: a set of states that no function of it leaves, in which directories have fewer
-- entries than `fuel`, files fewer bytes, and a child stops fewer times before it ends. What is left of
-- each gets less with every entry, block or stop that the library reports, and no output adds to it.
pub record Finite {St : Type 0} (libc : Libc St) (headers : Headers) (fuel : ℕ) (Fine : St → Type 0)
    : Type 0 where
  pub printf : (f : Str) (args : List Str) (st : St) → Fine st → Fine (libc.printf f args st)
  pub fprintf_stderr :
      (f : Str) (args : List Str) (st : St) → Fine st → Fine (libc.fprintf_stderr f args st)
  pub perror : (s : Str) (st : St) → Fine st → Fine (libc.perror s st)
  pub opendir : (path : Option Str) (st : St) → Fine st → Fine (libc.opendir path st).1
  pub readdir : (dir : ℕ) (st : St) → Fine st → Fine (libc.readdir dir st).1
  pub closedir : (dir : ℕ) (st : St) → Fine st → Fine (libc.closedir dir st)
  pub getcwd : (size : ℕ) (st : St) → Fine st → Fine (libc.getcwd size st).1
  pub getenv : (name : Str) (st : St) → Fine st → Fine (libc.getenv name st).1
  pub chdir : (path : Str) (st : St) → Fine st → Fine (libc.chdir path st).1
  pub open_file :
      (path : Option Str) (flags mode : ℕ) (st : St)
      → Fine st
      → Fine (libc.open_file path flags mode st).1
  pub write :
      (fd : ℤ) (buffer : Str) (count : ℕ) (st : St) → Fine st → Fine (libc.write fd buffer count st)
  pub read : (fd : ℤ) (count : ℕ) (st : St) → Fine st → Fine (libc.read fd count st).1
  pub close : (fd : ℤ) (st : St) → Fine st → Fine (libc.close fd st)
  pub fork : (st : St) → Fine st → Fine (libc.fork st).1
  pub waitpid : (pid : ℤ) (options : ℕ) (st : St) → Fine st → Fine (libc.waitpid pid options st).1
  pub entries_left : (dir : ℕ) → St → ℕ
  pub few_entries :
      (path : Option Str) (st : St)
      → Fine st
      → let (dir, st') = libc.opendir path st in entries_left dir st' < fuel
  pub fewer_entries :
      (dir : ℕ) (name : Str) (st : St)
      → (libc.readdir dir st).0 ≡ some name
      → entries_left dir (libc.readdir dir st).1 < entries_left dir st
  pub printing_keeps :
      (dir : ℕ) (word : Str) (st : St)
      → entries_left dir (libc.printf line_format (word ∷ []) st) ≤ entries_left dir st
  pub bytes_left : (fd : ℤ) → St → ℕ
  pub few_bytes :
      (path : Option Str) (st : St)
      → Fine st
      → let (fd, st') = libc.open_file path headers.o_rdonly 0 st in bytes_left fd st' < fuel
  pub fewer_bytes :
      (fd : ℤ) (n : ℕ) (st : St)
      → positive (libc.read fd buffer_size st).0.0 ≡ suc n
      → bytes_left fd (libc.read fd buffer_size st).1 < bytes_left fd st
  pub writing_keeps :
      (fd : ℤ) (buffer : Str) (n : ℕ) (st : St)
      → bytes_left fd (libc.write (pos 1) buffer n st) ≤ bytes_left fd st
  pub stops_left : (pid : ℤ) → St → ℕ
  pub few_stops : (st : St) → Fine st → let (pid, st') = libc.fork st in stops_left pid st' < fuel
  pub fewer_stops :
      (pid : ℤ) (st : St)
      → let (status, st') = libc.waitpid pid headers.wuntraced st in
        (headers.wifexited status || headers.wifsignaled status) ≡ false
        → stops_left pid st' < stops_left pid st

-- A run that comes to an end, in a state of the set if the process goes on.
abbrev pub Settled : {St : Type 0} → (St → Type 0) → Ended St → Type 0
Settled Fine (finished status st) = Fine st
Settled Fine (stopped st) = Unit {0}
Settled Fine (replaced st) = Unit {0}
Settled Fine crashed = Unit {0}

abbrev pub Ends : {St : Type 0} → (St → Type 0) → Option (Ended St) → Type 0
Ends {St} Fine run = (e : Ended St) × (run ≡ some e) × Settled Fine e

abbrev pub Complete : {St : Type 0} → (St → Type 0) → Command St → Type 0
Complete {St} Fine fn =
    (argc : ℕ) (argv : ℕ → Option Str) (st : St) → Fine st → Ends Fine (fn argc argv st)

abbrev pub AllComplete : {St : Type 0} → (St → Type 0) → List (Str × Command St) → Type 0
AllComplete Fine [] = Unit {0}
AllComplete Fine ((name, fn) ∷ table) = Complete Fine fn × AllComplete Fine table

count_cases : (n : ℕ) → (n ≡ 0) ⊎ ((m : ℕ) × (n ≡ suc m))
count_cases zero = inl refl
count_cases (suc m) = inr (m, refl)

module _ {St : Type 0} (libc : Libc St) (headers : Headers) (limit : ℕ) (Fine : St → Type 0)
    (finite : Finite libc headers limit Fine) where
  ls_loop-ends :
      (fuel dir : ℕ) (st : St)
      → Fine st
      → finite.entries_left dir st < fuel
      → (st' : St) × (ls_loop libc headers fuel dir st ≡ some st') × Fine st'
  unfolding ls_loop
  ls_loop-ends zero dir st fine lt = absurd (omega arith)
  ls_loop-ends (suc fuel) dir st fine lt =
      let st1 = (libc.readdir dir st).1 in
      let fine1 = finite.readdir dir st fine in
      elim (Option-cases (libc.readdir dir st).0) [
        | inl over ↦ (st1, rw (over, ls_loop) refl, fine1)
        | inr (name, given) ↦
            let fewer = finite.fewer_entries dir name st given in
            elim (Bool-cases (is_dots name)) [
              | inl dots ↦
                  let (st', run, fine') =
                    ls_loop-ends fuel dir st1 fine1 (omega (arith, lt, fewer)) in
                  (st', rw (given, ls_loop, dots) run, fine')
              | inr shown ↦
                  let kept = finite.printing_keeps dir name st1 in
                  let (st', run, fine') =
                    ls_loop-ends fuel dir (libc.printf line_format (name ∷ []) st1)
                      (finite.printf line_format (name ∷ []) st1 fine1)
                      (omega (arith, lt, fewer, kept)) in
                  (st', rw (given, ls_loop, shown) run, fine')
            ]
      ]

  cat_loop-ends :
      (fuel : ℕ) (fd : ℤ) (st : St)
      → Fine st
      → finite.bytes_left fd st < fuel
      → (st' : St) × (cat_loop libc headers fuel fd st ≡ some st') × Fine st'
  unfolding cat_loop
  cat_loop-ends zero fd st fine lt = absurd (omega arith)
  cat_loop-ends (suc fuel) fd st fine lt =
      let st1 = (libc.read fd buffer_size st).1 in
      let fine1 = finite.read fd buffer_size st fine in
      elim (count_cases (positive (libc.read fd buffer_size st).0.0)) [
        | inl over ↦ (st1, rw (over, cat_loop) refl, fine1)
        | inr (n, given) ↦
            let buffer = (libc.read fd buffer_size st).0.1 in
            let fewer = finite.fewer_bytes fd n st given in
            let kept = finite.writing_keeps fd buffer (suc n) st1 in
            let (st', run, fine') =
              cat_loop-ends fuel fd (libc.write (pos 1) buffer (suc n) st1)
                (finite.write (pos 1) buffer (suc n) st1 fine1) (omega (arith, lt, fewer, kept)) in
            (st', rw (given, cat_loop) run, fine')
      ]

  wait_loop-ends :
      (fuel : ℕ) (pid : ℤ) (st : St)
      → Fine st
      → finite.stops_left pid st < fuel
      → (st' : St) × (wait_loop libc headers fuel pid st ≡ some st') × Fine st'
  unfolding wait_loop
  wait_loop-ends zero pid st fine lt = absurd (omega arith)
  wait_loop-ends (suc fuel) pid st fine lt =
      let (status, st1) = libc.waitpid pid headers.wuntraced st in
      let fine1 = finite.waitpid pid headers.wuntraced st fine in
      elim (Bool-cases (headers.wifexited status || headers.wifsignaled status)) [
        | inl over ↦ (st1, rw (over, wait_loop) refl, fine1)
        | inr stopped_only ↦
            let fewer = finite.fewer_stops pid st stopped_only in
            let (st', run, fine') = wait_loop-ends fuel pid st1 fine1 (omega (arith, lt, fewer)) in
            (st', rw (stopped_only, wait_loop) run, fine')
      ]

  run_program-Settled :
      (args : ℕ → Option Str) (st : St) → Settled Fine (run_program libc headers args st)
  run_program-Settled args st = elim (Option-cases (libc.execvp (args 0) args st)) [
    | inl gone ↦ rw (gone, run_program) tt
    | inr ((r, st2), failed) ↦ rw (failed, run_program) tt
  ]

  pub launch-Ends :
      (args : ℕ → Option Str) (st : St) → Fine st → Ends Fine (launch libc headers limit args st)
  unfolding shell_launch
  launch-Ends args st fine =
      let st0 = libc.fprintf_stderr unknown_format (words_at (args 0)) st in
      let fine0 = finite.fprintf_stderr unknown_format (words_at (args 0)) st fine in
      let (pid, st1) = libc.fork st0 in
      let fine1 = finite.fork st0 fine0 in
      elim (Bool-cases (is_zero pid)) [
        | inl child ↦ (
          run_program libc headers args st1,
          rw (child, shell_launch) refl,
          run_program-Settled args st1,
        )
        | inr parent ↦ elim (Bool-cases (below_zero pid)) [
          | inl failed ↦ (
            finished (pos 0) (libc.perror lsh_text st1),
            rw (parent, failed, shell_launch) refl,
            finite.perror lsh_text st1 fine1,
          )
          | inr forked ↦
              let (st', run, fine') =
                wait_loop-ends limit pid st1 fine1 (finite.few_stops st0 fine0) in
              (finished (pos 0) st', rw (parent, forked, run, shell_launch) refl, fine')
        ]
      ]
