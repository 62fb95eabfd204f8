-- ===== src/Vfs/Calls/Tests.antt =====
-- A root vnode at 100 and a process with descriptor 0 in use: runs, and the theorems at it.
use mini_unix.Base.{
  ℕ, ◌+◌, ◌≡◌, refl, true, [], ◌∷◌, Option, none, some, arith, ◌==◌, if◌then◌else◌,
}
use mini_unix.Base.Int.{pos}
use mini_unix.Errno.{enosys, ebadf, ok, err}
use mini_unix.Text.{Str}
use mini_unix.Heap.{Heap, word, kmalloc}
use mini_unix.Process.{Process, alloc_loop, process_alloc_fd, process_get_file}
use mini_unix.Files.{file_size, fresh_file}
use mini_unix.Vfs.{slash, Filesystem, Table, Store, Lookup, next_component, lookup_loop, vfs_lookup}
use mini_unix.Vfs.Calls.{State, MountFn, TransferFn, blank_vnode, vfs_open, vfs_close}
use mini_unix.Vfs.Calls.Streams.{transfer, vfs_read, vfs_write}
use mini_unix.Vfs.Calls.Open.{vfs_open-vfs_close, vfs_close-twice}
use mini_unix.Vfs.Calls.Transfer.{Ready, Answered, read_write, vfs_read-vfs_write}

abbrev heap_at : ℕ → Heap
heap_at free_from = record {
  heap_start = 1024;
  heap_current = free_from;
  heap_end = 4096;
  bytes = λ p. 0;
}

abbrev store : Store
store = record {
  vnodes = λ p. record blank_vnode { ops = 1 };
  mounts = λ p. record { mountpoint = 0; root = 0; fs = none; device = 0 };
  root_vnode = 100;
}

-- A file for vnode 100, open for reading and writing, stands at 1024.
abbrev start : State ℕ
start = record {
  store = store;
  opened = record { files = λ p. fresh_file 100 2; references = λ n. 1; heap = heap_at 2048 };
  own = 0;
}

abbrev process : Process
process = record { files = λ i. if i == 0 then 1024 else 0 }

abbrev reader : Process
reader = record { files = λ i. if i == 1 then 1024 else 0 }

abbrev no_lookup : ℕ → Option Lookup
no_lookup ops = none

abbrev root_path : Option Str
root_path = some (slash ∷ [])

root_found : vfs_lookup no_lookup root_path true store ≡ some (ok 100, store)
unfolding vfs_lookup lookup_loop next_component
root_found = refl

one_free : process_alloc_fd (some process) ≡ ok 1
unfolding process_alloc_fd alloc_loop
one_free = refl

file_fits : kmalloc file_size (heap_at 2048) ≡ (some 2048, heap_at 2064)
unfolding kmalloc
file_fits = refl

vfs_open_example :
    (p' : Option Process) × (st' : State ℕ) × (vfs_open no_lookup (some process) root_path 1 start
      ≡ some (ok 1, (p', st')))
    × (process_get_file p' (pos 1) ≡ 2048)
    × (st'.opened.files 2048 ≡ fresh_file 100 (word 1))
    × (st'.opened.references 100 ≡ 1 + 1)
    × ((vfs_close p' (pos 1) st').0 ≡ ok 0)
    × ((vfs_close p' (pos 1) st').1.opened.references 100 ≡ 1)
vfs_open_example =
    vfs_open-vfs_close ℕ no_lookup process root_path 1 100 1 2048 100 store (heap_at 2064) start
      root_found one_free (omega arith) (omega arith) file_fits refl refl (omega arith)

reader_file : process_get_file (some reader) (pos 1) ≡ 1024
unfolding process_get_file
reader_file = refl

vfs_close_example :
    let st' = (vfs_close (some reader) (pos 1) start).1 in
    ((vfs_close (some reader) (pos 1) start).0 ≡ ok 0)
    × ((vfs_close (some reader) (pos 1) st').0 ≡ ok 0)
    × ((vfs_close (some reader) (pos 1) st').1.opened.references 100 ≡ st'.opened.references 100)
vfs_close_example = vfs_close-twice (some reader) (pos 1) 1024 100 start reader_file refl refl

-- A file system whose files hold five bytes.
abbrev five : TransferFn ℕ
five node offset buffer size st = (ok 5, st)

abbrev call_of : ℕ → Option (TransferFn ℕ)
call_of ops = some five

reader-Ready : Ready reader (pos 1) 1024 start
reader-Ready = record { found = reader_file; exists = refl; has_node = refl; has_ops = refl }

-- The descriptor is for a file with the mode O_RDWR.
vfs_transfer_example :
    Answered true
      (some five)
      none
      1024
      512
      8
      start
      (vfs_read call_of (some reader) (pos 1) 512 8 start)
    × Answered true
        (some five)
        (some (err enosys, start))
        1024
        512
        8
        start
        (vfs_write call_of (some reader) (pos 1) 512 8 start)
vfs_transfer_example =
    vfs_read-vfs_write call_of call_of reader (pos 1) 1024 512 8 read_write start reader-Ready refl
      refl refl

abbrev disk : Filesystem
disk = record { name = some (100 ∷ []); mount = 4096 }

abbrev table : Table
table i = if i == 0 then some disk else none

abbrev mount_disk : MountFn ℕ
mount_disk device st = (ok 300, st)

-- A file system that reports success, but gives no root.
abbrev mount_nothing : MountFn ℕ
mount_nothing device st = (ok 0, st)

-- Runs.
read_run :
    (st : State ℕ) × (vfs_read call_of (some reader) (pos 1) 512 8 start ≡ some (ok 5, st))
    × ((st.opened.files 1024).offset ≡ 5)
unfolding vfs_read process_get_file
read_run = ((transfer five 1024 512 8 start).1, refl, refl)

bad_descriptor : vfs_write call_of (some reader) (pos 3) 512 8 start ≡ some (err ebadf, start)
unfolding vfs_write process_get_file
bad_descriptor = refl
