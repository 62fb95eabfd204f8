-- ===== src/Boot/Storage.antt =====
-- What the start of the kernel leaves of the heap and the file systems.
use mini_unix.Base.{ℕ, ◌≡◌, refl, ap, false, [], ◌∷◌, Option, none, some, arith, ◌==◌, ==_refl}
use mini_unix.Errno.{enomem, err}
use mini_unix.Text.{Str}
use mini_unix.Heap.{Heap, kmalloc}
use mini_unix.Pic.{Ports}
use mini_unix.Vfs.{slash, Table, Lookup, mounted_root, find_loop, vfs_find_fs}
use mini_unix.Vfs.Walk.{vfs_lookup-slash}
use mini_unix.Vfs.Registry.{vfs_register_fs-find}
use mini_unix.Vfs.Calls.{MountFn, vfs_init, vfs_mount, mount_at}
use mini_unix.Tmpfs.{
  tmpfs_name, TmpfsState, Inodes, InodeType, tmpfs_dir, tmpfs_fs, inode_size, tmpfs_alloc_inode,
  tmpfs_mount,
}
use mini_unix.Boot.{Linked, System, kmain}

-- A heap that was never given an area.
pub record NoHeap (heap : Heap) : Type 0 where
  pub no_start : heap.heap_current ≡ 0
  pub no_end : heap.heap_end ≡ 0

kmalloc-NoHeap : (size : ℕ) (heap : Heap) → NoHeap heap → kmalloc size heap ≡ (none, heap)
unfolding kmalloc
kmalloc-NoHeap size heap none_given = ground arith

-- The file system that is registered after `kmain`.
kmain-vfs_find_fs :
    (inb : Ports → (port : ℕ) → ℕ) (linked : Linked) (s : System)
    → (linked.tmpfs_mount_at == 0) ≡ false
    → vfs_find_fs (some tmpfs_name) (kmain inb linked s).table
      ≡ some (tmpfs_fs linked.tmpfs_mount_at)
unfolding kmain vfs_init vfs_find_fs find_loop
kmain-vfs_find_fs inb linked s has_mount =
    let (_, found, _, _) =
      vfs_register_fs-find tmpfs_name linked.tmpfs_mount_at [] (vfs_init (s.table, s.state)).0 0
        has_mount refl (omega arith) refl in
    found

tmpfs_alloc_inode-NoHeap :
    (kind : InodeType) (name : Str) (parent : ℕ) (st : TmpfsState)
    → NoHeap st.opened.heap
    → tmpfs_alloc_inode kind name parent st ≡ (0, st)
unfolding tmpfs_alloc_inode
tmpfs_alloc_inode-NoHeap kind name parent st none_given =
    let fails = kmalloc-NoHeap inode_size st.opened.heap none_given in
    rw (fails, tmpfs_alloc_inode) (rw fails refl)

tmpfs_mount-NoHeap :
    (tmpfs_ops device : ℕ) (st : TmpfsState)
    → NoHeap st.opened.heap
    → tmpfs_mount tmpfs_ops device st ≡ (err enomem, st)
unfolding tmpfs_mount
tmpfs_mount-NoHeap tmpfs_ops device st none_given =
    let fails = tmpfs_alloc_inode-NoHeap tmpfs_dir (slash ∷ []) 0 st none_given in
    rw (fails, tmpfs_mount) refl

mount-NoHeap :
    (lookup_of : ℕ → Option Lookup) (mount_of : ℕ → MountFn Inodes) (tmpfs_ops at device : ℕ)
    (table : Table) (st : TmpfsState)
    → vfs_find_fs (some tmpfs_name) table ≡ some (tmpfs_fs at)
    → mounted_root st.store st.store.root_vnode ≡ st.store.root_vnode
    → (st.store.root_vnode == 0) ≡ false
    → mount_of at ≡ tmpfs_mount tmpfs_ops
    → NoHeap st.opened.heap
    → vfs_mount lookup_of mount_of table (some (slash ∷ [])) (some tmpfs_name) device st
      ≡ some (err enomem, st)
unfolding vfs_mount
mount-NoHeap lookup_of mount_of tmpfs_ops at device table st found own has_root runs none_given =
    let fails : mount_of at device st ≡ (err enomem, st) =
      rw runs (tmpfs_mount-NoHeap tmpfs_ops device st none_given) in
    rw (found, vfs_lookup-slash lookup_of st.store own, has_root, fails, vfs_mount, mount_at)
      (rw fails refl)

-- `kmain` registers tmpfs, but calls neither `heap_init` nor `vfs_mount`. With the pointers of the heap at
-- 0, as a program starts, every `kmalloc` after it fails, and mounting tmpfs at the root gives `ENOMEM`
-- and changes nothing.
pub kmain-vfs_mount :
    (inb : Ports → (port : ℕ) → ℕ) (linked : Linked) (lookup_of : ℕ → Option Lookup)
    (mount_of : ℕ → MountFn Inodes) (tmpfs_ops device size : ℕ) (s : System)
    → (linked.tmpfs_mount_at == 0) ≡ false
    → (s.state.store.root_vnode == 0) ≡ false
    → mount_of linked.tmpfs_mount_at ≡ tmpfs_mount tmpfs_ops
    → NoHeap s.state.opened.heap
    → let s' = kmain inb linked s in
      (vfs_find_fs (some tmpfs_name) s'.table ≡ some (tmpfs_fs linked.tmpfs_mount_at))
      × ((kmalloc size s'.state.opened.heap).0 ≡ none)
      × (vfs_mount lookup_of mount_of s'.table (some (slash ∷ [])) (some tmpfs_name) device s'.state
          ≡ some (err enomem, s'.state))
unfolding kmain vfs_init
kmain-vfs_mount inb linked lookup_of mount_of tmpfs_ops device size s has_mount has_root runs
      none_given =
    let found = kmain-vfs_find_fs inb linked s has_mount in
    let own : mounted_root (kmain inb linked s).state.store s.state.store.root_vnode
        ≡ s.state.store.root_vnode =
      rw (has_root, ==_refl s.state.store.root_vnode) refl in
    (
      found,
      ap (λ r. r.0) (kmalloc-NoHeap size s.state.opened.heap none_given),
      mount-NoHeap lookup_of mount_of tmpfs_ops linked.tmpfs_mount_at device
          (kmain inb linked s).table (kmain inb linked s).state found own has_root runs none_given,
    )
