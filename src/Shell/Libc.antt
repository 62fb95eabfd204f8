-- ===== src/Shell/Libc.antt =====
-- The functions of the C library that the commands and the shell call. Each is a parameter: a field acts
-- on whatever state `St` the library and the system keep.
use mini_unix.Base.{ℕ, Bool, List, Option}
use mini_unix.Base.Int.{ℤ}
use mini_unix.Text.{Str}

-- A `char *` that may be NULL is an `Option Str`, and a `DIR *` an address, 0 for NULL. `readdir` gives the
-- name of the entry. `execvp` gives a result only if it fails. `read` gives the bytes that it stored, too,
-- and `waitpid` the status.
pub record Libc (St : Type 0) : Type 0 where
  pub printf : (format : Str) (args : List Str) → St → St
  pub fprintf_stderr : (format : Str) (args : List Str) → St → St
  pub perror : Str → St → St
  pub opendir : (path : Option Str) → St → ℕ × St
  pub readdir : (dir : ℕ) → St → Option Str × St
  pub closedir : (dir : ℕ) → St → St
  pub getcwd : (size : ℕ) → St → Option Str × St
  pub getenv : Str → St → Option Str × St
  pub chdir : Str → St → ℤ × St
  pub open_file : (path : Option Str) (flags mode : ℕ) → St → ℤ × St
  pub write : (fd : ℤ) (buffer : Str) (count : ℕ) → St → St
  pub read : (fd : ℤ) (count : ℕ) → St → (ℤ × Str) × St
  pub close : (fd : ℤ) → St → St
  pub fork : St → ℤ × St
  pub execvp : (file : Option Str) (argv : ℕ → Option Str) → St → Option (ℤ × St)
  pub waitpid : (pid : ℤ) (options : ℕ) → St → ℕ × St

-- The constants and macros of its headers. `for_writing` is `O_WRONLY | O_CREAT | O_TRUNC`.
pub record Headers : Type 0 where
  pub filename_max : ℕ
  pub o_rdonly : ℕ
  pub for_writing : ℕ
  pub wuntraced : ℕ
  pub wifexited : (status : ℕ) → Bool
  pub wifsignaled : (status : ℕ) → Bool
