-- ===== src/Process/Tests.antt =====
-- A process with descriptors 0, 1 and 3 in use: runs, and the theorems at it.
use mini_unix.Base.{ℕ, ◌≡◌, ◌≢◌, refl, none, some, arith, if◌then◌else◌, ◌==◌, ltb}
use mini_unix.Base.Int.{pos, negsuc}
use mini_unix.Errno.{einval, ebadf, emfile, ok, err}
use mini_unix.Process.{
  Process, open_max, put, alloc_loop, process_init, process_alloc_fd, process_get_file,
  process_close_fd,
}
use mini_unix.Process.Descriptors.{
  Allocated, Accepted, Refused, process_alloc_fd-Allocated, process_close_fd_lem,
  descriptor_mismatch, process_init_lem,
}

abbrev three_open : Process
three_open = record { files = λ i. if i == 2 then 0 else if ltb i 4 then 4096 else 0 }

process_alloc_fd_example : Allocated three_open.files open_max (process_alloc_fd (some three_open))
process_alloc_fd_example = process_alloc_fd-Allocated three_open

process_close_fd_example :
    let (r, p') = process_close_fd (some three_open) (pos 3) in
    (process_get_file (some three_open) (pos 3) ≡ three_open.files 3)
    × (three_open.files 3 ≢ 0 → (r ≡ ok 0) × (process_get_file p' (pos 3) ≡ 0))
    × (three_open.files 3 ≡ 0 → (r ≡ err ebadf) × (p' ≡ some three_open))
    × (negsuc 0 ≢ pos 3
        → process_get_file p' (negsuc 0) ≡ process_get_file (some three_open) (negsuc 0))
process_close_fd_example = process_close_fd_lem three_open 3 (negsuc 0) (omega arith) (omega arith)

descriptor_mismatch_example :
    Allocated three_open.files 32 (process_alloc_fd (some three_open))
    × Accepted three_open 32
    × ((file : ℕ) → Refused (record { files = put three_open.files 0 file }) (pos 0))
    × Refused three_open (pos 33)
    × Refused three_open (negsuc 0)
descriptor_mismatch_example =
    descriptor_mismatch three_open 32 33 0 (omega arith) (omega arith) (omega arith)

process_init_example : (q : Process) × (process_init (some three_open) ≡ some q) × (q.files 3 ≡ 0)
process_init_example = process_init_lem three_open 3 (omega arith)

-- Runs.
process_runs :
    (process_alloc_fd (some three_open) ≡ ok 2)
    × (process_alloc_fd (some (record { files = λ i. 4096 })) ≡ err emfile)
    × (process_alloc_fd none ≡ err einval)
unfolding process_alloc_fd alloc_loop
process_runs = (refl, refl, refl)
