-- ===== src/Process.antt =====
-- kernel/proc/process.c: the table of open files. `files` is the array with the memory behind it: the
-- entries from `open_max` on lie past its end. A `process_t *` is an `Option Process`, a `file_t *` an
-- address, 0 for NULL.
pub mod Descriptors
mod Tests
use mini_unix.Base.{
  ℕ, zero, suc, ◌+◌, ◌-◌, Bool, true, false, ◌||◌, Option, none, some, ltb, leb, ◌==◌,
  if◌then◌else◌,
}
use mini_unix.Base.Int.{ℤ, pos, negsuc}
use mini_unix.Errno.{Errno, einval, emfile, ebadf, Result, ok, err}

abbrev pub open_max : ℕ
open_max = 32

pub record Process : Type 0 where
  pub files : ℕ → ℕ

abbrev pub put : (ℕ → ℕ) → ℕ → ℕ → ℕ → ℕ
put files fd f i = if i == fd then f else files i

-- `for (i = 0; i < OPEN_MAX; i++) files[i] = NULL`, with `n` rounds left
init_loop : ℕ → ℕ → (ℕ → ℕ) → ℕ → ℕ
init_loop zero i files = files
init_loop (suc n) i files = init_loop n (i + 1) (put files i 0)

unfoldable pub process_init : Option Process → Option Process
unfolding init_loop
process_init none = none
process_init (some p) = some (record { files = init_loop open_max 0 p.files })

unfoldable pub alloc_loop : ℕ → ℕ → (ℕ → ℕ) → Result ℕ
alloc_loop zero i files = err emfile
alloc_loop (suc n) i files =
    let rest = alloc_loop n (i + 1) files in if files i == 0 then ok i else rest

unfoldable pub process_alloc_fd : Option Process → Result ℕ
process_alloc_fd none = err einval
process_alloc_fd (some p) = alloc_loop open_max 0 p.files

-- `fd <= 0 || fd > OPEN_MAX`
abbrev pub out_of_range : ℤ → Bool
out_of_range (pos fd) = (fd == 0) || ltb open_max fd
out_of_range (negsuc fd) = true

abbrev pub index : ℤ → ℕ
index (pos fd) = fd
index (negsuc fd) = 0

-- the file's address, 0 for NULL
unfoldable pub process_get_file : Option Process → ℤ → ℕ
process_get_file none fd = 0
process_get_file (some p) fd = if out_of_range fd then 0 else p.files (index fd)

unfoldable pub process_close_fd : Option Process → ℤ → Result ℕ × Option Process
process_close_fd none fd = (err einval, none)
process_close_fd (some p) fd =
    if out_of_range fd
    then (err einval, some p)
    else if p.files (index fd) == 0
    then (err ebadf, some p)
    else (ok 0, some (record { files = put p.files (index fd) 0 }))
