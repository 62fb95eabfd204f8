-- ===== src/Vfs/Calls/Streams.antt =====
-- `vfs_read` and `vfs_write` of kernel/fs/vfs.c.
use mini_unix.Base.{
  ℕ, ◌+◌, ◌^◌, ltb, Bool, not, ◌&&◌, Option, none, some, ◌==◌, if◌then◌else◌, bit_and,
}
use mini_unix.Base.Int.{ℤ}
use mini_unix.Errno.{einval, ebadf, eacces, enosys, Result, ok, err}
use mini_unix.Heap.{word}
use mini_unix.Process.{Process, process_get_file}
use mini_unix.Vfs.Calls.{State, TransferFn, set_file}

-- `access_mode != mode && access_mode != O_RDWR`
abbrev pub refused : ℕ → ℕ → Bool
refused mode flags = not (bit_and flags 3 == mode) && not (bit_and flags 3 == 2)

module _ {Own : Type 0} where
  -- `file->offset += n`
  abbrev pub advance : ℕ → ℕ → State Own → State Own
  advance f n st = record st {
    opened =
        set_file st.opened f
          (record (st.opened.files f) { offset = word ((st.opened.files f).offset + n) });
  }

  -- The call of the file system and what follows it. Words from 2^31 on are negative: the offset stays.
  abbrev pub transfer : TransferFn Own → (f buffer count : ℕ) → State Own → Result ℕ × State Own
  transfer call f buffer count st =
      let file = st.opened.files f in
      let (r, st') = call file.node file.offset buffer count st in
      elim r [
        | err e ↦ (err e, st')
        | ok n ↦ if ltb n (2 ^ 31) then (ok n, advance f n st') else (ok n, st')
      ]

  module _ (call_of : ℕ → Option (TransferFn Own)) where
    unfoldable pub vfs_read :
        Option Process → ℤ → (buffer count : ℕ) → State Own → Option (Result ℕ × State Own)
    vfs_read none fd buffer count st = some (err einval, st)
    vfs_read (some p) fd buffer count st =
        let f = process_get_file (some p) fd in
        let file = st.opened.files f in
        if count == 0
        then some (ok 0, st)
        else if buffer == 0
        then some (err einval, st)
        else if f == 0
        then some (err ebadf, st)
        else if refused 0 file.flags
        then some (err eacces, st)
        else if file.node == 0
        then some (err einval, st)
        else if (st.store.vnodes file.node).ops == 0
        then none
        else elim (call_of (st.store.vnodes file.node).ops) [
          | none ↦ none
          | some read ↦ some (transfer read f buffer count st)
        ]

    -- Other than `vfs_read` it tests for a missing table or function.
    unfoldable pub vfs_write :
        Option Process → ℤ → (buffer count : ℕ) → State Own → Option (Result ℕ × State Own)
    vfs_write none fd buffer count st = some (err einval, st)
    vfs_write (some p) fd buffer count st =
        let f = process_get_file (some p) fd in
        let file = st.opened.files f in
        if count == 0
        then some (ok 0, st)
        else if buffer == 0
        then some (err einval, st)
        else if f == 0
        then some (err ebadf, st)
        else if refused 1 file.flags
        then some (err eacces, st)
        else if file.node == 0
        then some (err einval, st)
        else if (st.store.vnodes file.node).ops == 0
        then some (err enosys, st)
        else elim (call_of (st.store.vnodes file.node).ops) [
          | none ↦ some (err enosys, st)
          | some write ↦ some (transfer write f buffer count st)
        ]
