-- ===== src/Shell/Builtins.antt =====
-- The commands of user/commands.c.
use mini_unix.Base.{
  ℕ, zero, suc, Bool, true, false, not, ◌||◌, List, [], ◌∷◌, Option, none, some, ltb, ◌==◌,
  if◌then◌else◌,
}
use mini_unix.Base.Int.{ℤ, pos, negsuc, is_zero}
use mini_unix.Text.{Str, strcmp, strlen}
use mini_unix.Shell.{Ended, finished, crashed, Command, Commands, commands, cmd_exit}
use mini_unix.Shell.Libc.{Libc, Headers}

abbrev pub buffer_size : ℕ
buffer_size = 1024

-- "%s\n"
abbrev pub line_format : Str
line_format = 37 ∷ 115 ∷ 10 ∷ []

abbrev pub dot : Str
dot = 46 ∷ []

abbrev pub dot_dot : Str
dot_dot = 46 ∷ 46 ∷ []

-- "usage: ls {dir}\n" and "Empty directory"
abbrev pub usage_ls : Str
usage_ls =
    117 ∷ 115 ∷ 97 ∷ 103 ∷ 101 ∷ 58 ∷ 32 ∷ 108 ∷ 115 ∷ 32 ∷ 123 ∷ 100 ∷ 105 ∷ 114 ∷ 125 ∷ 10 ∷ []

abbrev pub empty_directory : Str
empty_directory =
    69 ∷ 109 ∷ 112 ∷ 116 ∷ 121 ∷ 32 ∷ 100 ∷ 105 ∷ 114 ∷ 101 ∷ 99 ∷ 116 ∷ 111 ∷ 114 ∷ 121 ∷ []

-- "usage: pwd\n" and "pwd"
abbrev pub usage_pwd : Str
usage_pwd = 117 ∷ 115 ∷ 97 ∷ 103 ∷ 101 ∷ 58 ∷ 32 ∷ 112 ∷ 119 ∷ 100 ∷ 10 ∷ []

abbrev pub pwd_text : Str
pwd_text = 112 ∷ 119 ∷ 100 ∷ []

-- "usage: cd [path]\n", "cd" and "HOME"
abbrev pub usage_cd : Str
usage_cd =
    117 ∷ 115 ∷ 97 ∷ 103 ∷ 101 ∷ 58 ∷ 32 ∷ 99 ∷ 100 ∷ 32 ∷ 91 ∷ 112 ∷ 97 ∷ 116 ∷ 104 ∷ 93 ∷ 10 ∷ []

abbrev pub cd_text : Str
cd_text = 99 ∷ 100 ∷ []

abbrev pub home : Str
home = 72 ∷ 79 ∷ 77 ∷ 69 ∷ []

-- "cat"
abbrev pub cat_text : Str
cat_text = 99 ∷ 97 ∷ 116 ∷ []

-- what `cmd_help` prints in front of the names, around each of them, and behind them
abbrev pub help_first : Str
help_first =
    84 ∷ 121 ∷ 112 ∷ 101 ∷ 32 ∷ 112 ∷ 114 ∷ 111 ∷ 103 ∷ 114 ∷ 97 ∷ 109 ∷ 32 ∷ 110 ∷ 97 ∷ 109 ∷ 101
    ∷ 115 ∷ 32 ∷ 97 ∷ 110 ∷ 100 ∷ 32 ∷ 97 ∷ 114 ∷ 103 ∷ 117 ∷ 109 ∷ 101 ∷ 110 ∷ 116 ∷ 115 ∷ 44 ∷ 32
    ∷ 97 ∷ 110 ∷ 100 ∷ 32 ∷ 104 ∷ 105 ∷ 116 ∷ 32 ∷ 101 ∷ 110 ∷ 116 ∷ 101 ∷ 114 ∷ 46 ∷ 10 ∷ []

abbrev pub help_second : Str
help_second =
    84 ∷ 104 ∷ 101 ∷ 32 ∷ 102 ∷ 111 ∷ 108 ∷ 108 ∷ 111 ∷ 119 ∷ 105 ∷ 110 ∷ 103 ∷ 32 ∷ 97 ∷ 114 ∷ 101
    ∷ 32 ∷ 98 ∷ 117 ∷ 105 ∷ 108 ∷ 116 ∷ 32 ∷ 105 ∷ 110 ∷ 58 ∷ 10 ∷ []

abbrev pub name_format : Str
name_format = 32 ∷ 32 ∷ 37 ∷ 115 ∷ 10 ∷ []

abbrev pub help_last : Str
help_last =
    85 ∷ 115 ∷ 101 ∷ 32 ∷ 116 ∷ 104 ∷ 101 ∷ 32 ∷ 109 ∷ 97 ∷ 110 ∷ 32 ∷ 99 ∷ 111 ∷ 109 ∷ 109 ∷ 97
    ∷ 110 ∷ 100 ∷ 32 ∷ 102 ∷ 111 ∷ 114 ∷ 32 ∷ 105 ∷ 110 ∷ 102 ∷ 111 ∷ 114 ∷ 109 ∷ 97 ∷ 116 ∷ 105
    ∷ 111 ∷ 110 ∷ 32 ∷ 111 ∷ 110 ∷ 32 ∷ 111 ∷ 116 ∷ 104 ∷ 101 ∷ 114 ∷ 32 ∷ 112 ∷ 114 ∷ 111 ∷ 103
    ∷ 114 ∷ 97 ∷ 109 ∷ 115 ∷ 46 ∷ 10 ∷ []

-- `strcmp(entry->d_name, ".") == 0 || strcmp(entry->d_name, "..") == 0`
abbrev pub is_dots : Str → Bool
is_dots name = is_zero (strcmp name dot) || is_zero (strcmp name dot_dot)

-- `fd < 0`
abbrev pub below_zero : ℤ → Bool
below_zero (pos n) = false
below_zero (negsuc n) = true

-- `fd == -1`
abbrev pub is_minus_one : ℤ → Bool
is_minus_one (pos n) = false
is_minus_one (negsuc n) = n == 0

-- a positive number, 0 for another
abbrev pub positive : ℤ → ℕ
positive (pos n) = n
positive (negsuc n) = 0

-- "." in place of NULL
abbrev pub or_dot : Option Str → Str
or_dot none = dot
or_dot (some path) = path

-- the names of a table of commands
abbrev pub names_of : {F : Type 0} → List (Str × F) → List Str
names_of [] = []
names_of ((name, fn) ∷ table) = name ∷ names_of table

module _ {St : Type 0} (libc : Libc St) (headers : Headers) where
  -- Fuel counts the rounds and the exit.
  unfoldable pub ls_loop : (fuel dir : ℕ) → St → Option St
  ls_loop zero dir st = none
  ls_loop (suc fuel) dir st =
      let (entry, st') = libc.readdir dir st in
      elim entry [
        | none ↦ some st'
        | some name ↦
            ls_loop fuel dir (if is_dots name then st' else libc.printf line_format (name ∷ []) st')
      ]

  unfoldable pub cmd_ls : (fuel : ℕ) → Command St
  cmd_ls fuel argc argv st =
      let path = if ltb 1 argc then argv 1 else some dot in
      let (dir, st') = libc.opendir path st in
      if ltb argc 2
      then some (finished (pos 1) (libc.fprintf_stderr usage_ls [] st))
      else if dir == 0
      then some (finished (pos 1) (libc.perror empty_directory st'))
      else elim (ls_loop fuel dir st') [
        | none ↦ none
        | some st'' ↦ some (finished (pos 0) (libc.closedir dir st''))
      ]

  unfoldable pub cmd_pwd : Command St
  cmd_pwd argc argv st =
      let (path, st') = libc.getcwd headers.filename_max st in
      if ltb 1 argc
      then some (finished (pos 1) (libc.fprintf_stderr usage_pwd [] st))
      else elim path [
        | none ↦ some (finished (pos 1) (libc.perror pwd_text st'))
        | some buffer ↦ some (finished (pos 0) (libc.printf line_format (buffer ∷ []) st'))
      ]

  -- `chdir(path)`, and a report if it fails
  abbrev pub change_to : Str → St → Option (Ended St)
  change_to path st =
      let (r, st') = libc.chdir path st in
      some (finished (pos 0) (if is_zero r then st' else libc.perror cd_text st'))

  unfoldable pub cmd_cd : Command St
  cmd_cd argc argv st =
      let (path, st') = if argc == 2 then (argv 1, st) else libc.getenv home st in
      if ltb 2 argc
      then some (finished (pos 0) (libc.fprintf_stderr usage_cd [] st))
      else change_to (or_dot path) st'

  -- a string that `printf` or `strlen` reads and that may be NULL
  abbrev pub with_string : Option Str → (Str → Option (Ended St)) → Option (Ended St)
  with_string none use_it = some crashed
  with_string (some s) use_it = use_it s

  -- `at_literal` tells whether an argument is the address of the literal ">", which the source compares it
  -- with; 420 is 0644.
  unfoldable pub cmd_echo : (at_literal : Option Str → Bool) → Command St
  cmd_echo at_literal argc argv st =
      let (fd, st') = libc.open_file (argv 3) headers.for_writing 420 st in
      if argc == 2
      then with_string (argv 1)
          (λ word. some (finished (pos 0) (libc.printf line_format (word ∷ []) st)))
      else if not (ltb 2 argc || at_literal (argv 2))
      then some (finished (pos 0) st)
      else if is_minus_one fd
      then some (finished (pos 1) st')
      else with_string (argv 1)
          (λ word. some (finished (pos 0) (libc.close fd (libc.write fd word (strlen word) st'))))

  -- Fuel counts the rounds and the exit.
  unfoldable pub cat_loop : (fuel : ℕ) (fd : ℤ) → St → Option St
  cat_loop zero fd st = none
  cat_loop (suc fuel) fd st =
      let ((bytes, buffer), st') = libc.read fd buffer_size st in
      elim (positive bytes) [
        | zero ↦ some st'
        | suc n ↦ cat_loop fuel fd (libc.write (pos 1) buffer (suc n) st')
      ]

  unfoldable pub cmd_cat : (fuel : ℕ) → Command St
  cmd_cat fuel argc argv st =
      let (fd, st') = libc.open_file (argv 1) headers.o_rdonly 0 st in
      if below_zero fd
      then some (finished (pos 0) (libc.perror cat_text st'))
      else elim (cat_loop fuel fd st') [
        | none ↦ none
        | some st'' ↦ some (finished (pos 0) (libc.close fd st''))
      ]

  abbrev pub print_names : List Str → St → St
  print_names [] st = st
  print_names (name ∷ names) st = print_names names (libc.printf name_format (name ∷ []) st)

  -- `names` are the names in the table.
  unfoldable pub cmd_help : (names : List Str) → Command St
  cmd_help names argc argv st =
      let st' = print_names names (libc.printf help_second [] (libc.printf help_first [] st)) in
      some (finished (pos 0) (libc.printf help_last [] st'))

  -- Which function stands at a name does not matter for the names.
  abbrev pub without_functions : Commands St
  without_functions = record {
    cmd_ls = cmd_exit;
    cmd_pwd = cmd_exit;
    cmd_cd = cmd_exit;
    cmd_echo = cmd_exit;
    cmd_cat = cmd_exit;
    cmd_help = cmd_exit;
  }

  abbrev pub builtins : (fuel : ℕ) (at_literal : Option Str → Bool) → Commands St
  builtins fuel at_literal = record {
    cmd_ls = cmd_ls fuel;
    cmd_pwd = cmd_pwd;
    cmd_cd = cmd_cd;
    cmd_echo = cmd_echo at_literal;
    cmd_cat = cmd_cat fuel;
    cmd_help = cmd_help (names_of (commands without_functions));
  }
