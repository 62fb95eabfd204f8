-- ===== src/Tmpfs.antt =====
-- kernel/fs/tmpfs/tmpfs.c: a file system in memory. Its own state is the store of inodes: an inode is an
-- address, 0 for NULL, and the children of a directory are linked from one to the next. The names and
-- fields of inodes and vnodes are kept in their records; the contents of files are bytes of the heap.
-- Tmpfs/Contents has the calls that read and write them.
pub mod Removal
pub mod Chain
pub mod Directory
pub mod Create
pub mod Unlink
pub mod Contents
pub mod Transfer
pub mod RoundTrip
pub mod Growth
pub mod Mounted
pub mod Mounting
pub mod Root
pub mod FirstFile
mod Tests
use mini_unix.Base.{
  ℕ, zero, suc, ◌+◌, ◌-◌, Bool, true, false, not, ◌&&◌, ◌||◌, List, [], ◌∷◌, Option, none, some,
  ltb, leb, ◌==◌, if◌then◌else◌,
}
use mini_unix.Base.Int.{is_zero}
use mini_unix.Errno.{
  Errno, eperm, enoent, einval, eexist, enomem, enospc, enotempty, Result, ok, err,
}
use mini_unix.Text.{Str, strcmp}
use mini_unix.Memory.{memcpy, memset}
use mini_unix.Heap.{Heap, word, kmalloc, kfree, krealloc}
use mini_unix.Vfs.{
  Filesystem, Table, vfs_register_fs, slash, vfs_max_name, VnodeType, vnode_file, vnode_dir, Vnode,
  Store,
}
use mini_unix.Vfs.Calls.{State, set_vnode, vnode_alloc}

abbrev pub tmpfs_max_name : ℕ
tmpfs_max_name = 64

pub data InodeType : Type 0 where
  tmpfs_file tmpfs_dir : InodeType

pub record Inode : Type 0 where
  pub kind : InodeType
  pub name : Str
  pub size : ℕ
  pub data_at : ℕ
  pub parent : ℕ
  pub first_child : ℕ
  pub next_sibling : ℕ
  pub vnode : ℕ

abbrev pub Inodes : Type 0
Inodes = ℕ → Inode

abbrev pub TmpfsState : Type 0
TmpfsState = State Inodes

abbrev pub set_inode : ℕ → Inode → Inodes → Inodes
set_inode p i inodes q = if q == p then i else inodes q

-- at most `n` characters of a string, up to its NUL
abbrev pub copy_name : ℕ → Str → Str
copy_name zero s = []
copy_name (suc n) [] = []
copy_name (suc n) (c ∷ s) = let rest = copy_name n s in if c == 0 then [] else c ∷ rest

abbrev pub is_dir : InodeType → Bool
is_dir tmpfs_file = false
is_dir tmpfs_dir = true

abbrev pub inode_size : ℕ
inode_size = 92

abbrev pub new_inode : InodeType → Str → ℕ → Inode
new_inode kind name parent = record {
  kind = kind;
  name = copy_name (tmpfs_max_name - 1) name;
  size = 0;
  data_at = 0;
  parent = parent;
  first_child = 0;
  next_sibling = 0;
  vnode = 0;
}

-- the address of the inode, 0 for NULL
unfoldable pub tmpfs_alloc_inode : InodeType → Str → (parent : ℕ) → TmpfsState → ℕ × TmpfsState
tmpfs_alloc_inode kind name parent st =
    let (inode, heap') = kmalloc inode_size st.opened.heap in
    let grown = record st.opened { heap = heap' } in
    elim inode [
      | none ↦ (0, record st { opened = grown })
      | some i ↦
          (i, record st { opened = grown; own = set_inode i (new_inode kind name parent) st.own })
    ]

abbrev pub vnode_kind : InodeType → VnodeType
vnode_kind tmpfs_file = vnode_file
vnode_kind tmpfs_dir = vnode_dir

-- `child->next_sibling = dir->first_child; dir->first_child = child;`
abbrev pub tmpfs_add_child : (dir child : ℕ) → Inodes → Inodes
tmpfs_add_child dir child inodes =
    let inodes' =
      set_inode child (record (inodes child) { next_sibling = (inodes dir).first_child }) inodes in
    set_inode dir (record (inodes' dir) { first_child = child }) inodes'

abbrev pub is_named : Inodes → ℕ → Str → Bool
is_named inodes child name = is_zero (strcmp (inodes child).name name)

-- The loop of `tmpfs_find_child` from a child on: the child, or 0 where there is none. Fuel counts the
-- rounds and the exit; `none` is for too little of it.
unfoldable pub find_from : ℕ → Inodes → ℕ → Str → Option ℕ
find_from zero inodes child name = none
find_from (suc fuel) inodes child name =
    let rest = find_from fuel inodes (inodes child).next_sibling name in
    if child == 0 then some 0 else if is_named inodes child name then some child else rest

abbrev pub tmpfs_find_child : ℕ → Inodes → (dir : ℕ) → Str → Option ℕ
tmpfs_find_child fuel inodes dir name = find_from fuel inodes (inodes dir).first_child name

abbrev pub dot : Str
dot = 46 ∷ []

abbrev pub dot_dot : Str
dot_dot = 46 ∷ 46 ∷ []

-- `name` and `result` may be NULL. `none` is for too little fuel.
unfoldable pub tmpfs_lookup :
    (fuel dir : ℕ) (name : Option Str) (result : Bool) → Store → Inodes → Option (Result ℕ)
tmpfs_lookup fuel dir none result store inodes = some (err einval)
tmpfs_lookup fuel dir (some name) result store inodes =
    let inode = (store.vnodes dir).private_data in
    let parent = (inodes inode).parent in
    if (dir == 0) || not result
    then some (err einval)
    else if inode == 0
    then some (err einval)
    else if is_zero (strcmp name dot)
    then some (ok dir)
    else if is_zero (strcmp name dot_dot)
    then some (ok (if parent == 0 then dir else (inodes parent).vnode))
    else elim (tmpfs_find_child fuel inodes inode name) [
      | none ↦ none
      | some child ↦ some (if child == 0 then err enoent else ok (inodes child).vnode)
    ]

abbrev pub is_vnode_dir : VnodeType → Bool
is_vnode_dir vnode_dir = true
is_vnode_dir _ = false

-- "tmpfs"
abbrev pub tmpfs_name : Str
tmpfs_name = 116 ∷ 109 ∷ 112 ∷ 102 ∷ 115 ∷ []

-- `mount` is the address of `tmpfs_mount`.
abbrev pub tmpfs_fs : (mount : ℕ) → Filesystem
tmpfs_fs mount = record { name = some tmpfs_name; mount = mount }

abbrev pub tmpfs_init : (mount : ℕ) → Table → Result ℕ × Table
tmpfs_init mount table = vfs_register_fs (some (tmpfs_fs mount)) table

-- the address of the table of operations
module _ (tmpfs_ops : ℕ) where
  -- the address of the vnode, 0 for NULL
  unfoldable pub tmpfs_create_vnode : (inode : ℕ) → TmpfsState → ℕ × TmpfsState
  tmpfs_create_vnode inode st =
      let (v, st') = vnode_alloc st in
      let i = st'.own inode in
      if v == 0 then (0, st') else (
        v,
        record st' {
          store = set_vnode st'.store v (record (st'.store.vnodes v) {
            ops = tmpfs_ops;
            private_data = inode;
            kind = vnode_kind i.kind;
            name = copy_name vfs_max_name i.name;
          });
          own = set_inode inode (record i { vnode = v }) st'.own;
        },
      )

  -- `root`, where the vnode is stored, is not NULL: its only caller passes the address of a variable.
  -- `device` is not used.
  unfoldable pub tmpfs_mount : (device : ℕ) → TmpfsState → Result ℕ × TmpfsState
  tmpfs_mount device st =
      let (inode, st') = tmpfs_alloc_inode tmpfs_dir (slash ∷ []) 0 st in
      if inode == 0
      then (err enomem, st')
      else let (v, st'') = tmpfs_create_vnode inode st' in
        if v == 0
        then (
          err enomem,
          record st'' {
            opened = record st''.opened { heap = kfree (some inode) st''.opened.heap };
          },
        )
        else (
          ok v,
          record st'' {
            store = set_vnode st''.store v (record (st''.store.vnodes v) { parent = v });
          },
        )

  -- the part of `tmpfs_create` once there is no child with the name
  unfoldable pub add_file : (dir : ℕ) → Str → TmpfsState → Result ℕ × TmpfsState
  add_file dir name st =
      let (inode, st') = tmpfs_alloc_inode tmpfs_file name dir st in
      if inode == 0
      then (err enomem, st')
      else let (v, st'') = tmpfs_create_vnode inode st' in
        if v == 0
        then (
          err enomem,
          record st'' {
            opened = record st''.opened { heap = kfree (some inode) st''.opened.heap };
          },
        )
        else (ok v, record st'' { own = tmpfs_add_child dir inode st''.own })

  unfoldable pub tmpfs_create :
      (fuel dir : ℕ) (name : Option Str) (result : Bool)
      → TmpfsState
      → Option (Result ℕ × TmpfsState)
  tmpfs_create fuel dir none result st = some (err einval, st)
  tmpfs_create fuel dir (some name) result st =
      let inode = (st.store.vnodes dir).private_data in
      if (dir == 0) || not result
      then some (err einval, st)
      else if inode == 0
      then some (err einval, st)
      else if not (is_vnode_dir (st.store.vnodes dir).kind)
      then some (err einval, st)
      else elim (tmpfs_find_child fuel st.own inode name) [
        | none ↦ none
        | some child ↦ some (if child == 0 then add_file inode name st else (err eexist, st))
      ]
