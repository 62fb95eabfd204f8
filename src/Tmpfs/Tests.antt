-- ===== src/Tmpfs/Tests.antt =====
-- A directory at 100 with the inode 200 and the files a and b at 300 and 400: runs, and the theorems at
-- it.
use mini_unix.Base.{
  ℕ, ◌+◌, ◌<◌, ◌≡◌, refl, inl, inr, true, false, [], ◌∷◌, none, some, arith, ◌==◌, if◌then◌else◌,
}
use mini_unix.Base.Int.{is_zero}
use mini_unix.Errno.{enotempty, enoent, ok, err}
use mini_unix.Text.{Str, strcmp}
use mini_unix.Heap.{krealloc, kmalloc}
use mini_unix.Files.{fresh_file}
use mini_unix.Vfs.{vnode_file, Vnode}
use mini_unix.Vfs.Calls.{blank_vnode}
use mini_unix.Tmpfs.{Inode, Inodes, TmpfsState, tmpfs_file, tmpfs_dir, set_inode, new_inode}
use mini_unix.Tmpfs.Removal.{tmpfs_unlink}
use mini_unix.Tmpfs.Contents.{grow, tmpfs_read, tmpfs_write}
use mini_unix.Tmpfs.Chain.{remove, first_named, remove}
use mini_unix.Tmpfs.Directory.{Directory}
use mini_unix.Tmpfs.Unlink.{Distinct, occupied, tmpfs_unlink-Directory}
use mini_unix.Tmpfs.Transfer.{IsFile, Fresh}
use mini_unix.Tmpfs.RoundTrip.{tmpfs_write-tmpfs_read}

abbrev a : Str
a = 97 ∷ []

abbrev b : Str
b = 98 ∷ []

abbrev c : Str
c = 99 ∷ []

abbrev file_inode : Str → (next vnode : ℕ) → Inode
file_inode name next vnode = record (new_inode tmpfs_file name 200) {
  next_sibling = next;
  vnode = vnode;
}

abbrev dir_inode : Inode
dir_inode = record (new_inode tmpfs_dir (47 ∷ []) 0) { first_child = 300; vnode = 100 }

abbrev inodes : Inodes
inodes = set_inode 200 dir_inode (
    set_inode 300 (file_inode a 400 310)
      (set_inode 400 (file_inode b 0 410) (λ p. file_inode [] 0 0)))

abbrev vnode_at : ℕ → Vnode
vnode_at p =
    if p == 100
    then record blank_vnode { private_data = 200 }
    else record blank_vnode { kind = vnode_file; private_data = if p == 310 then 300 else 400 }

abbrev start : TmpfsState
start = record {
  store = record {
    vnodes = vnode_at;
    mounts = λ p. record { mountpoint = 0; root = 0; fs = none; device = 0 };
    root_vnode = 100;
  };
  opened = record {
    files = λ p. fresh_file 0 0;
    references = λ n. 1;
    heap = record { heap_start = 1024; heap_current = 2048; heap_end = 4096; bytes = λ p. p + 1 };
  };
  own = inodes;
}

directory : Directory start 100 200 (300 ∷ 400 ∷ [])
directory = record {
  is_set = refl;
  own_inode = refl;
  has_inode = refl;
  kind = refl;
  children = (refl, refl, (refl, refl, refl));
  no_loop = refl;
}

distinct : Distinct (300 ∷ 400 ∷ [])
distinct = (refl, (refl, tt))

b_is_proper : (is_zero (strcmp b (46 ∷ [])) ≡ false) × (is_zero (strcmp b (46 ∷ 46 ∷ [])) ≡ false)
unfolding strcmp
b_is_proper = (refl, refl)

tmpfs_unlink_example :
    let found = first_named start.own b (300 ∷ 400 ∷ []) in
    ((found == 0) ≡ true → tmpfs_unlink 3 100 (some b) start ≡ some (err enoent, start))
    × ((found == 0) ≡ false
        → occupied start.own found ≡ true
        → tmpfs_unlink 3 100 (some b) start ≡ some (err enotempty, start))
    × ((found == 0) ≡ false
        → occupied start.own found ≡ false
        → (st' : TmpfsState) × (tmpfs_unlink 3 100 (some b) start ≡ some (ok 0, st'))
          × Directory st' 100 200 (remove found (300 ∷ 400 ∷ [])))
tmpfs_unlink_example =
    tmpfs_unlink-Directory 3 100 200 (300 ∷ 400 ∷ []) b start directory distinct b_is_proper
      (omega arith)

inode_300-IsFile : IsFile start 310 300
inode_300-IsFile = record { is_set = refl; own_inode = refl; is_file = refl }

no_contents : Fresh start 300 3 600 8
no_contents = record {
  no_data = refl;
  no_size = refl;
  valid = record { above = omega arith; below = omega arith; aligned = refl; low = omega arith };
  small = omega arith;
  fits = omega arith;
  buffer_below = omega arith;
}

written_at : ((tmpfs_write 310 3 600 8 start).1.own 300).data_at ≡ 2048
unfolding tmpfs_write grow krealloc kmalloc
written_at = refl

tmpfs_write_example :
    let (w, st') = tmpfs_write 310 3 600 8 start in
    let (r, st'') = tmpfs_read 310 3 700 8 st' in
    (w ≡ ok 8)
    × (r ≡ ok 8)
    × ((i : ℕ) → i < 8 → st''.opened.heap.bytes (700 + i) ≡ start.opened.heap.bytes (600 + i))
tmpfs_write_example =
    tmpfs_write-tmpfs_read start 310 300 3 600 8 700 inode_300-IsFile refl refl (omega arith) refl
      (inr no_contents) (rw written_at (inl (omega arith)))
