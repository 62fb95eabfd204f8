-- ===== src/Syscalls/Storage/Tests.antt =====
-- A file of tmpfs without contents, open twice: a write of 8 bytes and a read of them.
use mini_unix.Base.{
  ℕ, ◌+◌, ◌%◌, ◌^◌, ◌<◌, ◌≡◌, refl, inl, inr, [], ◌∷◌, Option, none, some, arith, ◌==◌,
  if◌then◌else◌,
}
use mini_unix.Heap.{krealloc, kmalloc}
use mini_unix.Files.{fresh_file}
use mini_unix.Process.{process_get_file}
use mini_unix.Vfs.{vnode_file}
use mini_unix.Vfs.Calls.{TransferFn, blank_vnode}
use mini_unix.Tmpfs.{Inodes, tmpfs_file, new_inode}
use mini_unix.Tmpfs.Contents.{grow, tmpfs_read, tmpfs_write}
use mini_unix.Tmpfs.Transfer.{Fresh}
use mini_unix.Tmpfs.Mounted.{Accepts}
use mini_unix.Syscalls.{Kernel}
use mini_unix.Syscalls.User.{user_write, user_read}
use mini_unix.Syscalls.Tests.{error_number, error_number-AreNumbers, no_lookup, root_at, frame}
use mini_unix.Syscalls.Storage.{Paired, user_write-user_read}

-- descriptor 3 is for the file at 1024, open for writing, and 4 for the one at 1040, open for reading
abbrev kernel : Kernel Inodes
kernel = record {
  kernel_proc = record { files = λ i. if i == 3 then 1024 else if i == 4 then 1040 else 0 };
  state = record {
    store = record {
      vnodes = λ p. record blank_vnode { kind = vnode_file; ops = 8; private_data = 300 };
      mounts = λ p. record { mountpoint = 0; root = 0; fs = none; device = 0 };
      root_vnode = 100;
    };
    opened = record {
      files = λ p. if p == 1024 then fresh_file 310 1 else fresh_file 310 0;
      references = λ n. 2;
      heap = record { heap_start = 1024; heap_current = 2048; heap_end = 4096; bytes = λ p. p + 1 };
    };
    own = λ p. new_inode tmpfs_file (97 ∷ []) 200;
  };
}

abbrev read_of : ℕ → Option (TransferFn Inodes)
read_of ops = some tmpfs_read

abbrev write_of : ℕ → Option (TransferFn Inodes)
write_of ops = some tmpfs_write

kernel-Paired : Paired kernel 3 4 1024 1040 310 0 8
unfolding process_get_file
kernel-Paired = record {
  small = omega arith;
  small' = omega arith;
  ready = record { found = refl; exists = refl; has_node = refl; has_ops = refl };
  ready' = record { found = refl; exists = refl; has_node = refl; has_ops = refl };
  two_files = refl;
  node_is = refl;
  node_is' = refl;
  offset_is = refl;
  offset_is' = refl;
  ops_are = refl;
  may_write = refl;
  may_read = refl;
}

first_write-Fresh : Fresh kernel.state 300 0 600 8
first_write-Fresh = record {
  no_data = refl;
  no_size = refl;
  valid = record { above = omega arith; below = omega arith; aligned = refl; low = omega arith };
  small = omega arith;
  fits = omega arith;
  buffer_below = omega arith;
}

first_write-Accepts : Accepts kernel.state 310 0 600 8 700
unfolding tmpfs_write grow krealloc kmalloc
first_write-Accepts = record {
  inode = 300;
  is_file = record { is_set = refl; own_inode = refl; is_file = refl };
  has_buffer = refl;
  has_count = refl;
  positive = omega arith;
  has_to = refl;
  carried_out = inr first_write-Fresh;
  can_copy = inl (omega arith);
}

user_write_example :
    (k' k'' : Kernel Inodes) × (user_write error_number root_at no_lookup read_of write_of frame 3
        600 8 kernel
      ≡ some (8, k'))
    × (user_read error_number root_at no_lookup read_of write_of frame 4 700 8 k' ≡ some (8, k''))
    × ((i : ℕ)
        → i < 8
        → k''.state.opened.heap.bytes (700 + i) ≡ kernel.state.opened.heap.bytes (600 + i))
    × ((k''.state.opened.files 1024).offset ≡ (0 + 8) % 2 ^ 32)
    × ((k''.state.opened.files 1040).offset ≡ (0 + 8) % 2 ^ 32)
user_write_example =
    user_write-user_read error_number root_at no_lookup read_of write_of frame kernel 3 4 1024 1040
      310 0 8 600 8 700 error_number-AreNumbers kernel-Paired refl refl first_write-Accepts
