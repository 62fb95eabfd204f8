-- ===== src/Tmpfs/FirstFile/Tests.antt =====
-- tmpfs in the first slot of the table, a root vnode at 100 and a heap of 1024 bytes: the file "ab".
use mini_unix.Base.{ℕ, ◌≡◌, refl, true, [], ◌∷◌, Option, none, some, arith, ◌==◌, if◌then◌else◌}
use mini_unix.Errno.{ok}
use mini_unix.Text.{Str, strcmp}
use mini_unix.Files.{fresh_file}
use mini_unix.Vfs.{slash, Table, Lookup, find_loop, mounted_root, vfs_find_fs, vfs_lookup}
use mini_unix.Vfs.Calls.{MountFn, blank_vnode, vfs_mount}
use mini_unix.Tmpfs.{
  tmpfs_name, Inodes, TmpfsState, tmpfs_file, new_inode, tmpfs_fs, tmpfs_mount, tmpfs_create,
}
use mini_unix.Tmpfs.Directory.{Proper}
use mini_unix.Tmpfs.Root.{tmpfs_lookups}
use mini_unix.Tmpfs.FirstFile.{Bootable, vfs_mount-tmpfs_create}

abbrev ab : Str
ab = 97 ∷ 98 ∷ []

abbrev table : Table
table i = if i == 0 then some (tmpfs_fs 512) else none

abbrev no_lookup : ℕ → Option Lookup
no_lookup ops = none

abbrev mount_of : ℕ → MountFn Inodes
mount_of at = tmpfs_mount 64

abbrev start : TmpfsState
start = record {
  store = record {
    vnodes = λ p. blank_vnode;
    mounts = λ p. record { mountpoint = 0; root = 0; fs = none; device = 0 };
    root_vnode = 100;
  };
  opened = record {
    files = λ p. fresh_file 0 0;
    references = λ n. 1;
    heap = record { heap_start = 1024; heap_current = 1024; heap_end = 2048; bytes = λ p. 0 };
  };
  own = λ p. new_inode tmpfs_file [] 0;
}

start-Bootable : Bootable 512 1024 table start
unfolding vfs_find_fs find_loop strcmp
start-Bootable = record {
  registered = refl;
  has_root = refl;
  free = refl;
  behind = omega arith;
  next_free = refl;
  room = omega arith;
  low = omega arith;
}

ab-Proper : Proper ab
unfolding strcmp
ab-Proper = (refl, refl)

vfs_mount-tmpfs_create_example :
    (st1 st2 : TmpfsState) × (v : ℕ) × (vfs_mount no_lookup mount_of table
        (some (slash ∷ []))
        (some tmpfs_name)
        0
        start
      ≡ some (ok 0, st1))
    × (tmpfs_create 64 1 (mounted_root st1.store st1.store.root_vnode) (some ab) true st1
        ≡ some (ok v, st2))
    × (vfs_lookup (tmpfs_lookups 64 2 st2.own) (some (slash ∷ ab)) true st2.store
        ≡ some (ok v, st2.store))
vfs_mount-tmpfs_create_example =
    vfs_mount-tmpfs_create no_lookup mount_of table 64 512 0 1024 ab start start-Bootable refl refl
      refl ab-Proper refl
