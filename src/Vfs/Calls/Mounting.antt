-- ===== src/Vfs/Calls/Mounting.antt =====
-- `vfs_mount`.
use mini_unix.Base.{ℕ, ◌≡◌, refl, true, false, ◌||◌, Option, some, ◌==◌, if◌then◌else◌}
use mini_unix.Errno.{ok}
use mini_unix.Text.{Str}
use mini_unix.Heap.{Heap, kmalloc}
use mini_unix.Vfs.{Filesystem, Table, Store, Lookup, vfs_find_fs, vfs_lookup}
use mini_unix.Vfs.Calls.{State, MountFn, mount_size, attach, alloc_mount, mount_at, vfs_mount}

-- what `other` stands for, if the vnode `at` says where it is mounted on
abbrev mounted_from : Store → ℕ → ℕ → ℕ
mounted_from store at other =
    if (other == 0) || ((store.vnodes at).mounted_here == 0)
    then other
    else (store.mounts (store.vnodes at).mounted_here).root

-- the state once the root of a file system is attached to a vnode
abbrev pub attached :
    {Own : Type 0} → Filesystem → (node root mnt device : ℕ) → Heap → State Own → State Own
attached fs node root mnt device heap' st = record {
  store = attach node root mnt record st.store {
    mounts = λ q.
        if q == mnt
        then record { mountpoint = node; root = root; fs = some fs; device = device }
        else st.store.mounts q;
  };
  opened = record st.opened { heap = heap' };
  own = st.own;
}

pub vfs_mount-attached :
    {Own : Type 0} (lookup_of : ℕ → Option Lookup) (mount_of : ℕ → MountFn Own) (table : Table)
    (path fs_name : Option Str) (fs : Filesystem) (device node root mnt : ℕ) (store' : Store)
    (heap' : Heap) (st st' : State Own)
    → vfs_find_fs fs_name table ≡ some fs
    → vfs_lookup lookup_of path true st.store ≡ some (ok node, store')
    → (node == 0) ≡ false
    → mount_of fs.mount device (record st { store = store' }) ≡ (ok root, st')
    → (root == 0) ≡ false
    → kmalloc mount_size st'.opened.heap ≡ (some mnt, heap')
    → (mnt == 0) ≡ false
    → vfs_mount lookup_of mount_of table path fs_name device st
      ≡ some (ok 0, attached fs node root mnt device heap' st')
unfolding vfs_mount alloc_mount
vfs_mount-attached lookup_of mount_of table path fs_name fs device node root mnt store' heap' st st'
      found leads has_node mounts has_root room has_mnt =
    let st'' = attached fs node root mnt device heap' st' in
    let alloc : alloc_mount fs node root device st' ≡ (
      mnt,
      record st' {
        store = record st'.store {
          mounts = λ q.
              if q == mnt
              then record { mountpoint = node; root = root; fs = some fs; device = device }
              else st'.store.mounts q;
        };
        opened = record st'.opened { heap = heap' };
      },
    ) =
      rw (room, alloc_mount) (rw room refl) in
    rw (found, leads, has_node, vfs_mount, mount_at, mounts, has_root)
      (rw (mounts, alloc, has_mnt) refl)
