-- ===== src/Vfs.antt =====
-- kernel/fs/vfs.c: the table of file systems and the way from a path to a vnode. A `filesystem_t *` is
-- an `Option Filesystem`, a vnode or mount an address, 0 for NULL. The `lookup` functions of the file
-- systems, which a vnode reaches through its table of operations, are a parameter.
pub mod Names
pub mod Walk
pub mod Registry
pub mod Calls
mod Tests
use mini_unix.Base.{
  ℕ, zero, suc, ◌+◌, Bool, true, false, not, ◌&&◌, ◌||◌, List, [], ◌∷◌, Option, none, some, ltb,
  ◌==◌, if◌then◌else◌, length,
}
use mini_unix.Base.Int.{is_zero}
use mini_unix.Errno.{Errno, einval, eexist, enospc, enotdir, enoent, Result, ok, err}
use mini_unix.Text.{Str, strcmp}

abbrev pub max_filesystems : ℕ
max_filesystems = 16

abbrev pub vfs_max_name : ℕ
vfs_max_name = 255

-- the character that separates the components of a path
abbrev pub slash : ℕ
slash = 47

-- `mount` is the address of a function.
pub record Filesystem : Type 0 where
  pub name : Option Str
  pub mount : ℕ

-- registered_fs
abbrev pub Table : Type 0
Table = ℕ → Option Filesystem

-- `registered_fs[i] && strcmp(registered_fs[i]->name, name) == 0`; a file system without a name is
-- never registered.
abbrev pub has_name : Option Filesystem → Str → Bool
has_name none name = false
has_name (some fs) name = elim fs.name [ none ↦ false | some own ↦ is_zero (strcmp own name) ]

unfoldable pub find_loop : ℕ → ℕ → Table → Str → Option Filesystem
find_loop zero i table name = none
find_loop (suc n) i table name =
    let rest = find_loop n (i + 1) table name in if has_name (table i) name then table i else rest

unfoldable pub vfs_find_fs : Option Str → Table → Option Filesystem
vfs_find_fs none table = none
vfs_find_fs (some name) table = find_loop max_filesystems 0 table name

abbrev pub install : Table → ℕ → Filesystem → Table
install table slot fs i = if i == slot then some fs else table i

-- the second loop of `vfs_register_fs`
pub install_loop : ℕ → ℕ → Filesystem → Table → Result ℕ × Table
install_loop zero i fs table = (err enospc, table)
install_loop (suc n) i fs table =
    let rest = install_loop n (i + 1) fs table in
    elim (table i) [ none ↦ (ok 0, install table i fs) | some _ ↦ rest ]

unfoldable pub vfs_register_fs : Option Filesystem → Table → Result ℕ × Table
vfs_register_fs none table = (err einval, table)
vfs_register_fs (some fs) table = elim fs.name [
  | none ↦ (err einval, table)
  | some name ↦
      if fs.mount == 0 then (err einval, table) else elim (find_loop max_filesystems 0 table name) [
        | some _ ↦ (err eexist, table)
        | none ↦ install_loop max_filesystems 0 fs table
      ]
]

-- `while (*path == '/') path++;`
abbrev pub skip_slashes : Str → Str
skip_slashes [] = []
skip_slashes (c ∷ s) = let rest = skip_slashes s in if c == slash then rest else c ∷ s

-- The loop that copies a name: what it copies once `len` characters are copied, and where it stops.
abbrev pub take_name : ℕ → Str → Str × Str
take_name len [] = ([], [])
take_name len (c ∷ s) =
    let (name, rest) = take_name (if ltb len vfs_max_name then len + 1 else len) s in
    if (c == 0) || (c == slash)
    then ([], c ∷ s)
    else if ltb len vfs_max_name
    then (c ∷ name, rest)
    else (name, rest)

-- the first character is the NUL
abbrev pub at_end : Str → Bool
at_end [] = true
at_end (c ∷ s) = c == 0

-- the next name and what is left of the path, `none` for NULL
unfoldable pub next_component : Str → Option (Str × Str)
next_component path =
    if at_end (skip_slashes path) then none else some (take_name 0 (skip_slashes path))

pub data VnodeType : Type 0 where
  vnode_file vnode_dir vnode_chardev vnode_blockdev : VnodeType

-- A vnode but for its `refcount`; `ops` is the address of the table of operations.
pub record Vnode : Type 0 where
  pub kind : VnodeType
  pub name : Str
  pub inode : ℕ
  pub ops : ℕ
  pub private_data : ℕ
  pub mounted_here : ℕ
  pub parent : ℕ

pub record Mount : Type 0 where
  pub mountpoint : ℕ
  pub root : ℕ
  pub fs : Option Filesystem
  pub device : ℕ

-- the vnodes, the mounts and the address of `root_vnode`
pub record Store : Type 0 where
  pub vnodes : ℕ → Vnode
  pub mounts : ℕ → Mount
  pub root_vnode : ℕ

abbrev pub mounted_root : Store → ℕ → ℕ
mounted_root st node =
    if (node == 0) || ((st.vnodes node).mounted_here == 0)
    then node
    else (st.mounts (st.vnodes node).mounted_here).root

-- A `lookup` function gets the directory, the name and the store. The child is 0 where the function
-- returns 0 without setting it.
abbrev pub Lookup : Type 0
Lookup = ℕ → Str → Store → Result ℕ × Store

-- `none` for a call that reads through a NULL pointer
abbrev pub Outcome : Type 0
Outcome = Option (Result ℕ × Store)

module _ (lookup_of : ℕ → Option Lookup) where
  -- The body of the loop of `vfs_lookup` once there is a name, then the code that follows it.
  abbrev pub lookup_step : Str → ℕ → Store → (ℕ → Store → Outcome) → Outcome
  lookup_step name current st continue =
      let dir = mounted_root st current in
      if dir == 0
      then none
      else if (st.vnodes dir).ops == 0
      then some (err enotdir, st)
      else elim (lookup_of (st.vnodes dir).ops) [
        | none ↦ some (err enotdir, st)
        | some lookup ↦
            let (r, st') = lookup dir name st in
            elim r [ err _ ↦ some (err enoent, st') | ok child ↦ continue child st' ]
      ]

  -- Fuel counts the rounds of the loop and the exit.
  unfoldable pub lookup_loop : ℕ → Str → ℕ → Store → Outcome
  lookup_loop zero path current st = none
  lookup_loop (suc fuel) path current st = elim (next_component path) [
    | none ↦ some (ok (mounted_root st current), st)
    | some (name, rest) ↦ lookup_step name current st (lookup_loop fuel rest)
  ]

  -- `path` and `result` may be NULL.
  unfoldable pub vfs_lookup : (path : Option Str) (result : Bool) → Store → Outcome
  vfs_lookup none result st = some (err einval, st)
  vfs_lookup (some []) result st = some (err einval, st)
  vfs_lookup (some (c ∷ s)) result st =
      if not result || not (c == slash)
      then some (err einval, st)
      else lookup_loop (length (c ∷ s) + 1) (c ∷ s) (mounted_root st st.root_vnode) st
