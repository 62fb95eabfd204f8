-- ===== src/Syscalls/Tests.antt =====
-- A kernel with a root vnode at 100 and a process without open files: runs, and the theorems at it.
use mini_unix.Base.{
  ◌^◌, ℕ, ◌+◌, ◌-◌, ◌≡◌, refl, true, [], ◌∷◌, Option, none, some, arith, ◌==◌, if◌then◌else◌,
}
use mini_unix.Errno.{
  Errno, eperm, enoent, ebadf, enomem, eacces, efault, eexist, enodev, enotdir, einval, emfile,
  enospc, enosys, enotempty, ok,
}
use mini_unix.Text.{Str}
use mini_unix.Heap.{Heap, kmalloc}
use mini_unix.Process.{alloc_loop, process_alloc_fd}
use mini_unix.Files.{fresh_file, file_size}
use mini_unix.Vfs.{slash, Store, Lookup, next_component, lookup_loop, vfs_lookup}
use mini_unix.Vfs.Calls.{TransferFn, blank_vnode}
use mini_unix.Interrupts.{Frame}
use mini_unix.Syscalls.{Kernel, minus_1, syscall_dispatch}
use mini_unix.Syscalls.Answers.{AreNumbers, syscall_dispatch-perform}
use mini_unix.Syscalls.User.{user_open, user_close, user_open-user_close}

-- the numbers of errno.h, and 39 for `ENOTEMPTY`
abbrev pub error_number : Errno → ℕ
error_number eperm = 1
error_number enoent = 2
error_number ebadf = 9
error_number enomem = 12
error_number eacces = 13
error_number efault = 14
error_number eexist = 17
error_number enodev = 19
error_number enotdir = 20
error_number einval = 22
error_number emfile = 24
error_number enospc = 28
error_number enosys = 38
error_number enotempty = 39

pub error_number-AreNumbers : AreNumbers error_number
error_number-AreNumbers eperm = (omega arith, omega arith)
error_number-AreNumbers enoent = (omega arith, omega arith)
error_number-AreNumbers ebadf = (omega arith, omega arith)
error_number-AreNumbers enomem = (omega arith, omega arith)
error_number-AreNumbers eacces = (omega arith, omega arith)
error_number-AreNumbers efault = (omega arith, omega arith)
error_number-AreNumbers eexist = (omega arith, omega arith)
error_number-AreNumbers enodev = (omega arith, omega arith)
error_number-AreNumbers enotdir = (omega arith, omega arith)
error_number-AreNumbers einval = (omega arith, omega arith)
error_number-AreNumbers emfile = (omega arith, omega arith)
error_number-AreNumbers enospc = (omega arith, omega arith)
error_number-AreNumbers enosys = (omega arith, omega arith)
error_number-AreNumbers enotempty = (omega arith, omega arith)

abbrev heap_at : ℕ → Heap
heap_at p = record { heap_start = 1024; heap_current = p; heap_end = 4096; bytes = λ q. 0 }

abbrev store : Store
store = record {
  vnodes = λ p. record blank_vnode { ops = 1 };
  mounts = λ p. record { mountpoint = 0; root = 0; fs = none; device = 0 };
  root_vnode = 100;
}

abbrev kernel : Kernel ℕ
kernel = record {
  kernel_proc = record { files = λ i. if i == 0 then 1024 else 0 };
  state = record {
    store = store;
    opened = record { files = λ p. fresh_file 100 2; references = λ n. 1; heap = heap_at 2048 };
    own = 0;
  };
}

abbrev pub no_lookup : ℕ → Option Lookup
no_lookup ops = none

abbrev no_transfer : ℕ → Option (TransferFn ℕ)
no_transfer ops = none

abbrev pub root_at : ℕ → Str
root_at p = slash ∷ []

abbrev pub frame : Frame
frame = record {
  gs = 0;
  fs = 0;
  es = 0;
  ds = 0;
  edi = 0;
  esi = 0;
  ebp = 0;
  esp = 0;
  ebx = 1;
  edx = 8;
  ecx = 0;
  eax = 4;
  vector = 128;
  error_code = 0;
  eip = 0;
  cs = 8;
  eflags = 0;
}

-- a call of `write` with a NULL buffer
dispatch_example :
    syscall_dispatch error_number root_at no_lookup no_transfer no_transfer frame kernel
    ≡ some (record frame { eax = 2 ^ 32 - 14 }, kernel)
dispatch_example =
    syscall_dispatch-perform error_number root_at no_lookup no_transfer no_transfer
      error_number-AreNumbers frame kernel

root_found : vfs_lookup no_lookup (some (slash ∷ [])) true store ≡ some (ok 100, store)
unfolding vfs_lookup lookup_loop next_component
root_found = refl

one_free : process_alloc_fd (some kernel.kernel_proc) ≡ ok 1
unfolding process_alloc_fd alloc_loop
one_free = refl

file_fits : kmalloc file_size (heap_at 2048) ≡ (some 2048, heap_at 2064)
unfolding kmalloc
file_fits = refl

user_open_example :
    (k' k'' : Kernel ℕ) × (user_open error_number root_at no_lookup no_transfer no_transfer frame
        512 2 kernel
      ≡ some (1, k'))
    × (k'.state.opened.references 100 ≡ 1 + 1)
    × (user_close error_number root_at no_lookup no_transfer no_transfer frame 1 k' ≡ some (0, k''))
    × (k''.state.opened.references 100 ≡ 1)
user_open_example =
    user_open-user_close error_number root_at no_lookup no_transfer no_transfer frame
      error_number-AreNumbers kernel 512 2 100 1 2048 100 store (heap_at 2064) refl root_found
      one_free (omega arith) (omega arith) file_fits refl refl (omega arith)

unknown_number :
    syscall_dispatch error_number root_at no_lookup no_transfer no_transfer
      (record frame { eax = 7 })
      kernel
    ≡ some (record frame { eax = minus_1 }, kernel)
unfolding syscall_dispatch
unknown_number = refl
