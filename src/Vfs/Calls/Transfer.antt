-- ===== src/Vfs/Calls/Transfer.antt =====
-- `vfs_read` and `vfs_write`: the checks in front of the call of the file system, and the offset.
use mini_unix.Base.{
  ℕ, ◌+◌, ◌^◌, ◌≡◌, refl, sym, subst, inl, inr, Bool, true, false, not, Option, none, some, ltb,
  ◌==◌, ==_refl, bit_and, if◌then◌else◌, Bool-cases,
}
use mini_unix.Base.Int.{ℤ}
use mini_unix.Errno.{eacces, enosys, Result, ok, err}
use mini_unix.Heap.{word}
use mini_unix.Process.{Process, process_get_file}
use mini_unix.Vfs.Calls.{State, TransferFn}
use mini_unix.Vfs.Calls.Streams.{advance, transfer, refused, vfs_read, vfs_write}

-- A file behind a descriptor whose vnode has operations.
pub record Ready {Own : Type 0} (p : Process) (fd : ℤ) (f : ℕ) (st : State Own) : Type 0 where
  pub found : process_get_file (some p) fd ≡ f
  pub exists : (f == 0) ≡ false
  pub has_node : ((st.opened.files f).node == 0) ≡ false
  pub has_ops : ((st.store.vnodes (st.opened.files f).node).ops == 0) ≡ false

-- How a transfer that the file system has carried out ends: the offset of the file moves on by what
-- was transferred, unless that is negative as an `ssize_t`, and all else stays as the file system left it;
-- an error is passed on.
abbrev pub Transferred : {Own : Type 0} → ℕ → Result ℕ × State Own → Result ℕ × State Own → Type 0
Transferred f (err e, st) (r, st') = (r ≡ err e) × (st' ≡ st)
Transferred f (ok n, st) (r, st') =
    let offset = (st.opened.files f).offset in
    (r ≡ ok n)
    × ((st'.opened.files f).offset ≡ (if ltb n (2 ^ 31) then word (offset + n) else offset))
    × ((other : ℕ) → (other == f) ≡ false → st'.opened.files other ≡ st.opened.files other)
    × (st'.store ≡ st.store)
    × (st'.opened.heap ≡ st.opened.heap)
    × (st'.own ≡ st.own)

transfer-Transferred :
    {Own : Type 0} (call : TransferFn Own) (f buffer count : ℕ) (st : State Own)
    (r : Result ℕ × State Own)
    → call (st.opened.files f).node (st.opened.files f).offset buffer count st ≡ r
    → Transferred f r (transfer call f buffer count st)
transfer-Transferred call f buffer count st (err e, st') eq =
    (rw (eq, transfer) refl, rw (eq, transfer) (rw eq refl))
transfer-Transferred call f buffer count st (ok n, st') eq = elim (Bool-cases (ltb n (2 ^ 31))) [
  | inl positive ↦
      let run : transfer call f buffer count st ≡ (ok n, advance f n st') =
        rw (eq, transfer, positive) (rw eq refl) in
      subst (Transferred f (ok n, st')) (sym run)
        (refl, rw (positive, ==_refl f) refl, λ other ne. rw ne refl, refl, refl, refl)
  | inr negative ↦
      let run : transfer call f buffer count st ≡ (ok n, st') =
        rw (eq, transfer, negative) (rw eq refl) in
      subst (Transferred f (ok n, st')) (sym run)
        (refl, rw negative refl, λ other ne. refl, refl, refl, refl)
]

-- The call of the file system that a permitted `vfs_read` or `vfs_write` comes to.
module _ {Own : Type 0} (call_of : ℕ → Option (TransferFn Own)) (call : TransferFn Own)
    (p : Process) (fd : ℤ) (f buffer count : ℕ) (st : State Own) (ready : Ready p fd f st)
    (has_buffer : (buffer == 0) ≡ false) (has_count : (count == 0) ≡ false)
    (given : call_of (st.store.vnodes (st.opened.files f).node).ops ≡ some call) where
  pub vfs_read-transfer :
      refused 0 (st.opened.files f).flags ≡ false
      → vfs_read call_of (some p) fd buffer count st ≡ some (transfer call f buffer count st)
  unfolding vfs_read
  vfs_read-transfer allowed =
      rw
        (
          ready.found, has_count, has_buffer, ready.exists, allowed, ready.has_node, ready.has_ops,
          given,
        )
        (rw ready.found refl)

  pub vfs_write-transfer :
      refused 1 (st.opened.files f).flags ≡ false
      → vfs_write call_of (some p) fd buffer count st ≡ some (transfer call f buffer count st)
  unfolding vfs_write
  vfs_write-transfer allowed =
      rw
        (
          ready.found, has_count, has_buffer, ready.exists, allowed, ready.has_node, ready.has_ops,
          given,
        )
        (rw ready.found refl)

-- The access modes of `open`: O_RDONLY, O_WRONLY, O_RDWR, and the value that stands for none of them.
pub data Mode : Type 0 where
  read_only write_only read_write no_mode : Mode

abbrev pub mode_bits : Mode → ℕ
mode_bits read_only = 0
mode_bits write_only = 1
mode_bits read_write = 2
mode_bits no_mode = 3

abbrev pub can_read : Mode → Bool
can_read read_only = true
can_read write_only = false
can_read read_write = true
can_read no_mode = false

abbrev pub can_write : Mode → Bool
can_write read_only = false
can_write write_only = true
can_write read_write = true
can_write no_mode = false

refused-can_read :
    (mode : Mode) (flags : ℕ)
    → bit_and flags 3 ≡ mode_bits mode
    → refused 0 flags ≡ not (can_read mode)
refused-can_read read_only flags e = rw e refl
refused-can_read write_only flags e = rw e refl
refused-can_read read_write flags e = rw e refl
refused-can_read no_mode flags e = rw e refl

refused-can_write :
    (mode : Mode) (flags : ℕ)
    → bit_and flags 3 ≡ mode_bits mode
    → refused 1 flags ≡ not (can_write mode)
refused-can_write read_only flags e = rw e refl
refused-can_write write_only flags e = rw e refl
refused-can_write read_write flags e = rw e refl
refused-can_write no_mode flags e = rw e refl

-- What a call on an open file comes to: `EACCES`, if the mode of the file does not allow it; `missing`, if
-- the file system has no function for it; and otherwise what that function makes of it at the file's
-- offset.
abbrev pub Answered :
    {Own : Type 0}
    → (allowed : Bool) (function : Option (TransferFn Own))
      (missing : Option (Result ℕ × State Own)) (f buffer count : ℕ) (st : State Own)
      (run : Option (Result ℕ × State Own))
    → Type 0
Answered false function missing f buffer count st run = run ≡ some (err eacces, st)
Answered true none missing f buffer count st run = run ≡ missing
Answered {Own} true (some call) missing f buffer count st run =
    let file = st.opened.files f in
    (r : Result ℕ × State Own) × (run ≡ some r)
    × Transferred f (call file.node file.offset buffer count st) r

module _ {Own : Type 0} (call_of : ℕ → Option (TransferFn Own)) (p : Process) (fd : ℤ)
    (f buffer count : ℕ) (st : State Own) (ready : Ready p fd f st)
    (has_buffer : (buffer == 0) ≡ false) (has_count : (count == 0) ≡ false) where
  vfs_read-Answered :
      (allowed : Bool) (function : Option (TransferFn Own))
      → refused 0 (st.opened.files f).flags ≡ not allowed
      → call_of (st.store.vnodes (st.opened.files f).node).ops ≡ function
      → Answered allowed function none f buffer count st
          (vfs_read call_of (some p) fd buffer count st)
  unfolding vfs_read
  vfs_read-Answered false function mode given =
      rw (ready.found, has_count, has_buffer, ready.exists, mode) refl
  vfs_read-Answered true none mode given =
      rw
        (
          ready.found, has_count, has_buffer, ready.exists, mode, ready.has_node, ready.has_ops,
          given,
        )
        refl
  vfs_read-Answered true (some call) mode given = (
    transfer call f buffer count st,
    vfs_read-transfer call_of call p fd f buffer count st ready has_buffer has_count given mode,
    transfer-Transferred call f buffer count st _ refl,
  )

  vfs_write-Answered :
      (allowed : Bool) (function : Option (TransferFn Own))
      → refused 1 (st.opened.files f).flags ≡ not allowed
      → call_of (st.store.vnodes (st.opened.files f).node).ops ≡ function
      → Answered allowed function
          (some (err enosys, st))
          f
          buffer
          count
          st
          (vfs_write call_of (some p) fd buffer count st)
  unfolding vfs_write
  vfs_write-Answered false function mode given =
      rw (ready.found, has_count, has_buffer, ready.exists, mode) refl
  vfs_write-Answered true none mode given =
      rw
        (
          ready.found, has_count, has_buffer, ready.exists, mode, ready.has_node, ready.has_ops,
          given,
        )
        refl
  vfs_write-Answered true (some call) mode given = (
    transfer call f buffer count st,
    vfs_write-transfer call_of call p fd f buffer count st ready has_buffer has_count given mode,
    transfer-Transferred call f buffer count st _ refl,
  )

-- For a file behind a descriptor whose vnode has operations, and a buffer and count that are not 0:
-- `vfs_read` of a file with the mode O_RDONLY or O_RDWR, and `vfs_write` of one with the mode O_WRONLY or
-- O_RDWR, call the function of the file system at the offset of the file, and pass on its error, or its
-- result together with what it did to the state. They move the offset of this file alone on by the result,
-- modulo 2^32, unless this is negative as an `ssize_t`. For every other mode they give `EACCES` and change
-- nothing. Where the mode is right but the file system has no `write`, `vfs_write` gives `ENOSYS`; where it
-- has no `read`, `vfs_read` calls through NULL.
pub vfs_read-vfs_write :
    {Own : Type 0} (read_of write_of : ℕ → Option (TransferFn Own)) (p : Process) (fd : ℤ)
    (f buffer count : ℕ) (mode : Mode) (st : State Own)
    → Ready p fd f st
    → (buffer == 0) ≡ false
    → (count == 0) ≡ false
    → bit_and (st.opened.files f).flags 3 ≡ mode_bits mode
    → let ops = (st.store.vnodes (st.opened.files f).node).ops in
      Answered
        (can_read mode)
        (read_of ops)
        none
        f
        buffer
        count
        st
        (vfs_read read_of (some p) fd buffer count st)
      × Answered
          (can_write mode)
          (write_of ops)
          (some (err enosys, st))
          f
          buffer
          count
          st
          (vfs_write write_of (some p) fd buffer count st)
vfs_read-vfs_write read_of write_of p fd f buffer count mode st ready has_buffer has_count is_mode =
    let flags = (st.opened.files f).flags in
    (
      vfs_read-Answered read_of p fd f buffer count st ready has_buffer has_count (can_read mode) _
          (refused-can_read mode flags is_mode) refl,
      vfs_write-Answered write_of p fd f buffer count st ready has_buffer has_count (can_write mode)
          _ (refused-can_write mode flags is_mode) refl,
    )
