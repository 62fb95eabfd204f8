-- ===== src/Tmpfs/Growth/Tests.antt =====
-- A file with four bytes 9 and memory that is 0 in front of it and behind: a write that makes it longer.
use mini_unix.Base.{
  ℕ, ◌+◌, ◌<◌, ◌≡◌, refl, ◌&&◌, ◌||◌, [], ◌∷◌, none, arith, ltb, leb, if◌then◌else◌,
}
use mini_unix.Errno.{ok}
use mini_unix.Heap.{krealloc, kmalloc, kfree}
use mini_unix.Memory.{memcpy, copy_up}
use mini_unix.Files.{fresh_file}
use mini_unix.Vfs.{vnode_file}
use mini_unix.Vfs.Calls.{blank_vnode}
use mini_unix.Tmpfs.{TmpfsState, tmpfs_file, new_inode}
use mini_unix.Tmpfs.Contents.{grow, tmpfs_write}
use mini_unix.Tmpfs.Transfer.{IsFile, content}
use mini_unix.Tmpfs.Growth.{Grows, tmpfs_write-content}

abbrev start : TmpfsState
start = record {
  store = record {
    vnodes = λ p. record blank_vnode { kind = vnode_file; private_data = 300 };
    mounts = λ p. record { mountpoint = 0; root = 0; fs = none; device = 0 };
    root_vnode = 100;
  };
  opened = record {
    files = λ p. fresh_file 0 0;
    references = λ n. 1;
    heap = record {
      heap_start = 1024;
      heap_current = 2048;
      heap_end = 4096;
      bytes = λ p. if (leb 1528 p && ltb p 1536) || leb 2048 p then 0 else 9;
    };
  };
  own = λ p. record (new_inode tmpfs_file (97 ∷ []) 200) { data_at = 1536; size = 4 };
}

start-IsFile : IsFile start 310 300
start-IsFile = record { is_set = refl; own_inode = refl; is_file = refl }

start-Grows : Grows start 300 4 600 2
start-Grows = record {
  has_data = refl;
  within = omega arith;
  longer = omega arith;
  valid = record { above = omega arith; below = omega arith; aligned = refl; low = omega arith };
  small = omega arith;
  fits = omega arith;
  buffer_below = omega arith;
  unmarked = refl;
}

tmpfs_write-content_example :
    let (w, st') = tmpfs_write 310 4 600 2 start in
    (w ≡ ok 2)
    × ((st'.own 300).size ≡ 4 + 2)
    × ((i : ℕ)
        → i < 4
        → content st' 300 i ≡ start.opened.heap.bytes (start.opened.heap.heap_current + i))
    × ((i : ℕ) → i < 2 → content st' 300 (4 + i) ≡ start.opened.heap.bytes (600 + i))
tmpfs_write-content_example =
    tmpfs_write-content start 310 300 4 600 2 start-IsFile start-Grows refl refl

contents_lost : (content start 300 0 ≡ 9) × (content (tmpfs_write 310 4 600 2 start).1 300 0 ≡ 0)
unfolding tmpfs_write grow krealloc kmalloc kfree memcpy copy_up
contents_lost = (refl, refl)
