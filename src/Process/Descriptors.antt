-- ===== src/Process/Descriptors.antt =====
-- The descriptors that `process_alloc_fd` gives out, and what the other functions make of them.
use mini_unix.Base.{
  ℕ, zero, suc, ◌+◌, ◌<◌, ◌≤◌, ◌≡◌, ◌≢◌, inl, inr, refl, true, some, arith, ltb, leb, ◌==◌,
  Bool-cases, if◌then◌else◌,
}
use mini_unix.Base.Int.{ℤ, pos, negsuc}
use mini_unix.Errno.{einval, emfile, ebadf, Result, ok, err}
use mini_unix.Process.{
  Process, open_max, put, init_loop, process_init, alloc_loop, process_alloc_fd, process_get_file,
  process_close_fd,
}

-- How a search for a free slot among the first `n` ends.
pub data Allocated (files : ℕ → ℕ) (n : ℕ) (r : Result ℕ) : Type 0 where
  full : r ≡ err emfile → ((j : ℕ) → j < n → files j ≢ 0) → Allocated files n r
  free :
      (fd : ℕ)
      → r ≡ ok fd
      → fd < n
      → files fd ≡ 0
      → ((j : ℕ) → j < fd → files j ≢ 0)
      → Allocated files n r

alloc_loop-Allocated :
    (k i n : ℕ) (files : ℕ → ℕ)
    → i + k ≡ n
    → ((j : ℕ) → j < i → files j ≢ 0)
    → Allocated files n (alloc_loop k i files)
unfolding alloc_loop
alloc_loop-Allocated zero i n files e used = full refl λ j lt. used j (omega arith)
alloc_loop-Allocated (suc k) i n files e used = elim (Bool-cases (files i == 0)) [
  | inl empty ↦ rw empty (free i refl (omega arith) (ground arith) used)
  | inr taken ↦ rw taken (
      alloc_loop-Allocated k (i + 1) n files (omega arith) λ j lt. elim (Bool-cases (j == i)) [
        | inl here ↦ ground arith
        | inr before ↦ used j (ground arith)
      ])
]

-- `process_alloc_fd` returns the lowest free descriptor, and `EMFILE` exactly when none of the
-- `OPEN_MAX` slots is free.
pub process_alloc_fd-Allocated :
    (p : Process) → Allocated p.files open_max (process_alloc_fd (some p))
unfolding process_alloc_fd
process_alloc_fd-Allocated p =
    alloc_loop-Allocated open_max 0 open_max p.files (omega arith) λ j lt. absurd (omega arith)

init_loop_lem :
    (n i j : ℕ) (files : ℕ → ℕ)
    → init_loop n i files j ≡ (if leb i j then (if ltb j (i + n) then 0 else files j) else files j)
unfolding init_loop
init_loop_lem zero i j files = ground arith
init_loop_lem (suc n) i j files = ground (arith, init_loop_lem n (i + 1) j (put files i 0))

-- The slot of a file behind a descriptor between 1 and 31 can be read back and is cleared by
-- `process_close_fd`, which leaves the other descriptors alone; behind a free descriptor of that range
-- there is NULL, and closing it gives `EBADF` and changes nothing.
pub process_close_fd_lem :
    (p : Process) (fd : ℕ) (other : ℤ)
    → 0 < fd
    → fd < open_max
    → let (r, p') = process_close_fd (some p) (pos fd) in
      (process_get_file (some p) (pos fd) ≡ p.files fd)
      × (p.files fd ≢ 0 → (r ≡ ok 0) × (process_get_file p' (pos fd) ≡ 0))
      × (p.files fd ≡ 0 → (r ≡ err ebadf) × (p' ≡ some p))
      × (other ≢ pos fd → process_get_file p' other ≡ process_get_file (some p) other)
unfolding process_close_fd process_get_file
process_close_fd_lem p fd other lo hi = (
  ground arith,
  λ ne. (ground arith, ground arith),
  λ e. (ground arith, ground arith),
  λ ne. ground arith,
)

-- What the functions other than `process_alloc_fd` do with a descriptor: the slot of one that they accept,
-- and nothing for one that they refuse.
abbrev pub Accepted : Process → ℕ → Type 0
Accepted p fd =
    (process_get_file (some p) (pos fd) ≡ p.files fd)
    × (p.files fd ≡ 0 → process_close_fd (some p) (pos fd) ≡ (err ebadf, some p))
    × (p.files fd ≢ 0
        → process_close_fd (some p) (pos fd) ≡ (ok 0, some (record { files = put p.files fd 0 })))

abbrev pub Refused : Process → ℤ → Type 0
Refused p fd =
    (process_get_file (some p) fd ≡ 0) × (process_close_fd (some p) fd ≡ (err einval, some p))

open_max-Accepted : (p : Process) (fd : ℕ) → 1 ≤ fd → fd ≤ open_max → Accepted p fd
unfolding process_get_file process_close_fd
open_max-Accepted p fd lo hi = (ground arith, λ e. ground arith, λ ne. ground arith)

open_max-Refused : (p : Process) (fd : ℕ) → open_max < fd → Refused p (pos fd)
unfolding process_get_file process_close_fd
open_max-Refused p fd hi =
    let out : ltb open_max fd ≡ true = ground arith in
    elim (Bool-cases (fd == 0)) [ inl z ↦ rw z (refl, refl) | inr nz ↦ rw (nz, out) (refl, refl) ]

Refused-negative : (p : Process) (fd : ℕ) → Refused p (negsuc fd)
unfolding process_get_file process_close_fd
Refused-negative p fd = (refl, refl)

Refused-zero : (p : Process) → Refused p (pos 0)
unfolding process_get_file process_close_fd
Refused-zero p = (refl, refl)

-- The functions disagree on what a descriptor is. `process_alloc_fd` searches the slots 0 to 31: it gives
-- out the lowest of these that is free, and `EMFILE` exactly when none is. The other functions accept the
-- numbers 1 to 32, and refuse 0, every larger and every negative number: whatever file is put behind
-- descriptor 0, it reads as not open and cannot be closed. Behind an accepted number,
-- `process_get_file` returns what the slot holds, and `process_close_fd` gives `EBADF` if this is 0 and
-- sets it to 0 otherwise; for 32 that is the memory behind the array.
pub descriptor_mismatch :
    (p : Process) (fd large minus : ℕ)
    → 1 ≤ fd
    → fd ≤ 32
    → 32 < large
    → Allocated p.files 32 (process_alloc_fd (some p))
      × Accepted p fd
      × ((file : ℕ) → Refused (record { files = put p.files 0 file }) (pos 0))
      × Refused p (pos large)
      × Refused p (negsuc minus)
descriptor_mismatch p fd large minus lo hi beyond = (
  process_alloc_fd-Allocated p,
  open_max-Accepted p fd lo hi,
  λ file. Refused-zero (record { files = put p.files 0 file }),
  open_max-Refused p large beyond,
  Refused-negative p minus,
)

-- A process that `process_init` has set up has no open file: each slot is free.
pub process_init_lem :
    (p : Process) (j : ℕ)
    → j < open_max
    → (q : Process) × (process_init (some p) ≡ some q) × (q.files j ≡ 0)
unfolding process_init
process_init_lem p j lt = (
  record { files = init_loop open_max 0 p.files },
  refl,
  ground (arith, init_loop_lem open_max 0 j p.files),
)
