-- ===== src/Syscalls.antt =====
-- kernel/proc/syscalls.c: the dispatch of a system call to the calls of the file system. An `int` that
-- is returned is the 32-bit word that it is stored as. The strings in memory are the parameter
-- `string_at`; the numbers of the errors are a parameter too, as `ENOTEMPTY` has none in the source.
pub mod Answers
pub mod User
pub mod Storage
mod Tests
use mini_unix.Base.{
  ℕ, zero, suc, ◌+◌, ◌-◌, ◌%◌, ◌^◌, Bool, true, false, ◌||◌, List, Option, none, some, ltb, leb,
  ◌==◌, if◌then◌else◌,
}
use mini_unix.Base.Int.{ℤ, pos, negsuc, is_negative}
use mini_unix.Errno.{Errno, efault, Result, ok, err}
use mini_unix.Text.{Str}
use mini_unix.Heap.{word}
use mini_unix.Process.{Process}
use mini_unix.Vfs.{Lookup}
use mini_unix.Vfs.Calls.{State, TransferFn, vfs_open, vfs_close}
use mini_unix.Vfs.Calls.Streams.{vfs_read, vfs_write}
use mini_unix.Interrupts.{Frame}

-- -1
abbrev pub minus_1 : ℕ
minus_1 = 2 ^ 32 - 1

-- `(int)x`
abbrev pub signed : ℕ → ℤ
signed x = if ltb x (2 ^ 31) then pos x else negsuc (2 ^ 32 - 1 - x)

-- `x < 0`
abbrev pub is_minus : ℕ → Bool
is_minus x = leb (2 ^ 31) x

-- `args.raw`
pub record SysArgs : Type 0 where
  pub raw0 : ℕ
  pub raw1 : ℕ
  pub raw2 : ℕ
  pub raw3 : ℕ
  pub raw4 : ℕ
  pub raw5 : ℕ

-- what a handler returns, and what it stores in `retval`
pub record Returned : Type 0 where
  pub error : ℕ
  pub retval : ℕ

-- `kernel_proc` and what the file systems keep
pub record Kernel (Own : Type 0) : Type 0 where
  pub kernel_proc : Process
  pub state : State Own

-- A call that reads through a NULL pointer ends with `none`.
abbrev pub SysCall : Type 0 → Type 0
SysCall Own = SysArgs → Kernel Own → Option (Returned × Kernel Own)

pub record Sysent (Own : Type 0) : Type 0 where
  pub sys_narg : ℤ
  pub sys_call : SysCall Own

abbrev pub kept : Process → Option Process → Process
kept p none = p
kept p (some p') = p'

abbrev pub sys_nosys : {Own : Type 0} → SysCall Own
sys_nosys args k = some (record { error = minus_1; retval = minus_1 }, k)

abbrev pub arguments : Frame → SysArgs
arguments frame = record {
  raw0 = frame.ebx;
  raw1 = frame.ecx;
  raw2 = frame.edx;
  raw3 = frame.esi;
  raw4 = frame.edi;
  raw5 = frame.ebp;
}

module _ (error_number : Errno → ℕ) where
  -- an `int` or `ssize_t` result as a word
  abbrev pub word_of : Result ℕ → ℕ
  word_of (ok n) = word n
  word_of (err e) = 2 ^ 32 - error_number e

  -- `if (r < 0) { *retval = -1; return r; } *retval = r; return 0;`
  abbrev pub returned : Result ℕ → Returned
  returned r =
      let w = word_of r in
      if is_minus w
      then record { error = w; retval = minus_1 }
      else record { error = 0; retval = w }

  abbrev pub fault : Returned
  fault = record { error = 2 ^ 32 - error_number efault; retval = minus_1 }

  module _ {Own : Type 0} (string_at : ℕ → Str) (lookup_of : ℕ → Option Lookup)
      (read_of write_of : ℕ → Option (TransferFn Own)) where
    unfoldable pub sys_write : SysCall Own
    sys_write args k =
        if args.raw1 == 0
        then some (fault, k)
        else elim (vfs_write write_of (some k.kernel_proc) (signed args.raw0) args.raw1 args.raw2
            k.state) [
              | none ↦ none
              | some (written, st) ↦ some (returned written, record k { state = st })
            ]

    unfoldable pub sys_read : SysCall Own
    sys_read args k =
        if args.raw1 == 0
        then some (fault, k)
        else elim (vfs_read read_of (some k.kernel_proc) (signed args.raw0) args.raw1 args.raw2
            k.state) [
              | none ↦ none
              | some (bytes_read, st) ↦ some (returned bytes_read, record k { state = st })
            ]

    unfoldable pub sys_open : SysCall Own
    sys_open args k =
        if args.raw0 == 0
        then some (fault, k)
        else elim (vfs_open lookup_of (some k.kernel_proc) (some (string_at args.raw0)) args.raw1
            k.state) [
              | none ↦ none
              | some (fd, (p, st)) ↦
                  some (returned fd, record { kernel_proc = kept k.kernel_proc p; state = st })
            ]

    unfoldable pub sys_close : SysCall Own
    sys_close args k =
        let (r, st) = vfs_close (some k.kernel_proc) (signed args.raw0) k.state in
        let w = word_of r in
        some (
          (if is_minus w
              then record { error = w; retval = minus_1 }
              else record { error = 0; retval = 0 }),
          record k { state = st },
        )

    -- the table, for a number below 7
    abbrev pub sysent : (number : ℕ) → Sysent Own
    sysent number =
        if number == 1
        then record { sys_narg = pos 1; sys_call = sys_nosys }
        else if number == 3
        then record { sys_narg = pos 3; sys_call = sys_read }
        else if number == 4
        then record { sys_narg = pos 3; sys_call = sys_write }
        else if number == 5
        then record { sys_narg = pos 2; sys_call = sys_open }
        else if number == 6
        then record { sys_narg = pos 1; sys_call = sys_close }
        else record { sys_narg = pos 0; sys_call = sys_nosys }

    -- `sys_narg < 0 || sys_narg > 6`
    abbrev pub bad_narg : ℤ → Bool
    bad_narg (pos n) = ltb 6 n
    bad_narg (negsuc n) = true

    unfoldable pub syscall_dispatch : Frame → Kernel Own → Option (Frame × Kernel Own)
    syscall_dispatch frame k =
        let number = frame.eax in
        let failed = some (record frame { eax = minus_1 }, k) in
        if leb 7 number
        then failed
        else if bad_narg (sysent number).sys_narg
        then failed
        else elim ((sysent number).sys_call (arguments frame) k) [
          | none ↦ none
          | some (r, k') ↦
              some (record frame { eax = if r.error == 0 then r.retval else r.error }, k')
        ]
