-- ===== src/Vfs/Calls.antt =====
-- The calls of kernel/fs/vfs.c that change its state: allocation, mounting, and the calls on open
-- files. What the file systems keep is the part `own` of the state, whose type is a parameter. Their
-- functions `mount`, `read` and `write` are parameters; those of a vnode are found by the address of
-- its table of operations. A call that reads through a NULL pointer ends with `none`.
pub mod Streams
pub mod Open
pub mod Transfer
pub mod Mounting
pub mod FileSystem
mod Tests
use mini_unix.Base.{
  ℕ, zero, suc, ◌+◌, ◌%◌, Bool, true, false, not, ◌&&◌, ◌||◌, List, [], ◌∷◌, Option, none, some,
  ◌==◌, if◌then◌else◌, bit_and,
}
use mini_unix.Base.Int.{ℤ, pos, negsuc, is_zero}
use mini_unix.Errno.{Errno, einval, enodev, enomem, enoent, ebadf, eacces, enosys, Result, ok, err}
use mini_unix.Text.{Str}
use mini_unix.Heap.{Heap, word, kmalloc}
use mini_unix.Process.{Process, put, process_alloc_fd, process_get_file}
use mini_unix.Files.{File, Files, file_create, file_destroy, minus_one}
use mini_unix.Vfs.{
  Filesystem, Table, max_filesystems, vfs_find_fs, slash, VnodeType, vnode_dir, Vnode, Mount, Store,
  Lookup, vfs_lookup,
}

pub record State (Own : Type 0) : Type 0 where
  pub store : Store
  pub opened : Files
  pub own : Own

-- `mount(device, &root)`: the root, or 0 where it is not set
abbrev pub MountFn : Type 0 → Type 0
MountFn Own = ℕ → State Own → Result ℕ × State Own

-- `read(node, offset, buffer, size)`, and `write`
abbrev pub TransferFn : Type 0 → Type 0
TransferFn Own = (node offset buffer size : ℕ) → State Own → Result ℕ × State Own

abbrev pub set_vnode : Store → ℕ → Vnode → Store
set_vnode store p v = record store { vnodes = λ q. if q == p then v else store.vnodes q }

abbrev pub set_file : Files → ℕ → File → Files
set_file opened p f = record opened { files = λ q. if q == p then f else opened.files q }

clear_loop : ℕ → ℕ → Table → Table
clear_loop zero i table = table
clear_loop (suc n) i table = clear_loop n (i + 1) (λ j. if j == i then none else table j)

abbrev pub vnode_size : ℕ
vnode_size = 284

abbrev pub mount_size : ℕ
mount_size = 20

abbrev pub blank_vnode : Vnode
blank_vnode = record {
  kind = vnode_dir;
  name = [];
  inode = 0;
  ops = 0;
  private_data = 0;
  mounted_here = 0;
  parent = 0;
}

-- `root->parent = mountpoint; mountpoint->mounted_here = mnt;`
abbrev pub attach : (mountpoint root mnt : ℕ) → Store → Store
attach mountpoint root mnt store =
    let store' = set_vnode store root (record (store.vnodes root) { parent = mountpoint }) in
    set_vnode store' mountpoint (record (store'.vnodes mountpoint) { mounted_here = mnt })

abbrev pub set_descriptor : Option Process → ℕ → ℕ → Option Process
set_descriptor none fd f = none
set_descriptor (some p) fd f = some (record { files = put p.files fd f })

module _ {Own : Type 0} where
  -- the address of the vnode, 0 for NULL
  unfoldable pub vnode_alloc : State Own → ℕ × State Own
  vnode_alloc st =
      let (vnode, heap') = kmalloc vnode_size st.opened.heap in
      elim vnode [
        | none ↦ (0, record st { opened = record st.opened { heap = heap' } })
        | some v ↦ (
          v,
          record st {
            store = set_vnode st.store v blank_vnode;
            opened = record st.opened {
              references = λ q. if q == v then 1 else st.opened.references q;
              heap = heap';
            };
          },
        )
      ]

  unfoldable pub vfs_init : Table × State Own → Table × State Own
  unfolding clear_loop
  vfs_init (table, st) = (
    clear_loop max_filesystems 0 table,
    record st {
      store = set_vnode st.store st.store.root_vnode (record {
        kind = vnode_dir;
        name = slash ∷ [];
        inode = 1;
        ops = 0;
        private_data = 0;
        mounted_here = 0;
        parent = st.store.root_vnode;
      });
      opened = record st.opened {
        references = λ q. if q == st.store.root_vnode then 1 else st.opened.references q;
      };
    },
  )

  -- the address of the mount, 0 for NULL
  unfoldable pub alloc_mount :
      (fs : Filesystem) (mountpoint root device : ℕ) → State Own → ℕ × State Own
  alloc_mount fs mountpoint root device st =
      let (mnt, heap') = kmalloc mount_size st.opened.heap in
      let grown = record st.opened { heap = heap' } in
      elim mnt [
        | none ↦ (0, record st { opened = grown })
        | some m ↦ (
          m,
          record st {
            store = record st.store {
              mounts = λ q.
                  if q == m
                  then record {
                    mountpoint = mountpoint;
                    root = root;
                    fs = some fs;
                    device = device;
                  }
                  else st.store.mounts q;
            };
            opened = grown;
          },
        )
      ]

  module _ (lookup_of : ℕ → Option Lookup) where
    -- `vfs_mount` from the call of the file system on
    abbrev pub mount_at :
        MountFn Own → Filesystem → (mountpoint device : ℕ) → State Own → Result ℕ × State Own
    mount_at mount fs mountpoint device st =
        let (r, st') = mount device st in
        elim r [
          | err e ↦ (err e, st')
          | ok root ↦
              if root == 0
              then (err einval, st')
              else let (mnt, st'') = alloc_mount fs mountpoint root device st' in
                if mnt == 0
                then (err enomem, st'')
                else (ok 0, record st'' { store = attach mountpoint root mnt st''.store })
        ]

    unfoldable pub vfs_mount :
        (mount_of : ℕ → MountFn Own) (table : Table) (path fs_name : Option Str) (device : ℕ)
        → State Own
        → Option (Result ℕ × State Own)
    vfs_mount mount_of table path fs_name device st = elim (vfs_find_fs fs_name table) [
      | none ↦ some (err enodev, st)
      | some fs ↦ elim (vfs_lookup lookup_of path true st.store) [
        | none ↦ none
        | some (err e, store') ↦ some (err e, record st { store = store' })
        | some (ok mountpoint, store') ↦
            if mountpoint == 0
            then none
            else some
                (mount_at (mount_of fs.mount) fs mountpoint device (record st { store = store' }))
      ]
    ]

    -- `vfs_open` once the vnode is found
    abbrev pub open_node :
        Option Process → (node flags : ℕ) → State Own → Result ℕ × (Option Process × State Own)
    open_node proc node flags st = elim (process_alloc_fd proc) [
      | err e ↦ (err e, (proc, st))
      | ok fd ↦
          let (f, opened') = file_create node (word flags) st.opened in
          let st' = record st { opened = opened' } in
          if f == 0 then (err enomem, (proc, st')) else (ok fd, (set_descriptor proc fd f, st'))
    ]

    unfoldable pub vfs_open :
        Option Process
        → (path : Option Str) (flags : ℕ) → State Own
        → Option (Result ℕ × (Option Process × State Own))
    vfs_open proc path flags st = elim (vfs_lookup lookup_of path true st.store) [
      | none ↦ none
      | some (err e, store') ↦ some (err e, (proc, record st { store = store' }))
      | some (ok node, store') ↦ some (open_node proc node flags (record st { store = store' }))
    ]

  unfoldable pub vfs_close : Option Process → ℤ → State Own → Result ℕ × State Own
  vfs_close proc fd st =
      let f = process_get_file proc fd in
      if f == 0
      then (err enoent, st)
      else let count = minus_one (st.opened.files f).refcount in
        let opened' = set_file st.opened f (record (st.opened.files f) { refcount = count }) in
        (ok 0, record st { opened = if is_zero count then file_destroy f opened' else opened' })
