-- ===== src/Vfs/Tests.antt =====
-- A root with the directory `tmp`, on which another root is mounted that holds the file `a`; runs, and
-- the theorems at it.
use mini_unix.Base.{
  ℕ, ◌≡◌, ◌≢◌, refl, true, false, ◌&&◌, [], ◌∷◌, Option, none, some, arith, ◌==◌, if◌then◌else◌,
}
use mini_unix.Base.Int.{is_zero}
use mini_unix.Errno.{einval, eexist, enoent, ok, err}
use mini_unix.Text.{Str, strcmp}
use mini_unix.Vfs.{
  slash, Table, Vnode, vnode_dir, Store, Lookup, lookup_loop, vfs_lookup, next_component,
  vfs_find_fs, vfs_register_fs, find_loop,
}
use mini_unix.Vfs.Names.{components}
use mini_unix.Vfs.Walk.{on_top, walk, vfs_lookup-walk}
use mini_unix.Vfs.Registry.{named, vfs_register_fs-find}

-- Directories have the operations at 1, other vnodes none. The mount at 50 has the root 200.
abbrev plain : ℕ → ℕ → Vnode
plain ops mount = record {
  kind = vnode_dir;
  name = [];
  inode = 0;
  ops = ops;
  private_data = 0;
  mounted_here = mount;
  parent = 0;
}

abbrev vnode_at : ℕ → Vnode
vnode_at p =
    if p == 100
    then plain 1 0
    else if p == 101
    then plain 1 50
    else if p == 200
    then plain 1 0
    else plain 0 0

abbrev store : Store
store = record {
  vnodes = vnode_at;
  mounts =
      λ m. record { mountpoint = 101; root = if m == 50 then 200 else 0; fs = none; device = 0 };
  root_vnode = 100;
}

abbrev tmp : Str
tmp = 116 ∷ 109 ∷ 112 ∷ []

abbrev a : Str
a = 97 ∷ []

abbrev lookup : Lookup
lookup dir name st =
    if (dir == 100) && is_zero (strcmp name tmp)
    then (ok 101, st)
    else if (dir == 200) && is_zero (strcmp name a)
    then (ok 201, st)
    else (err enoent, st)

abbrev lookup_of : ℕ → Option Lookup
lookup_of ops = if ops == 1 then some lookup else none

-- /tmp//a/ without the first slash
abbrev path : Str
path = 116 ∷ 109 ∷ 112 ∷ 47 ∷ 47 ∷ 97 ∷ 47 ∷ []

vfs_lookup_example :
    (vfs_lookup lookup_of (some (slash ∷ path)) true store
      ≡ walk lookup_of (components path) (on_top store 100) store)
    × (◌≢◌ {A = ℕ} 116 slash
        → vfs_lookup lookup_of (some (116 ∷ path)) true store ≡ some (err einval, store))
    × (vfs_lookup lookup_of (some (116 ∷ path)) false store ≡ some (err einval, store))
    × (vfs_lookup lookup_of none true store ≡ some (err einval, store))
    × (vfs_lookup lookup_of (some []) true store ≡ some (err einval, store))
vfs_lookup_example = vfs_lookup-walk lookup_of path 116 store

abbrev empty_table : Table
empty_table i = none

nothing_found : vfs_find_fs (some tmp) empty_table ≡ none
unfolding vfs_find_fs find_loop
nothing_found = refl

vfs_register_fs_example :
    let fs = named tmp 4096 in
    let (r, table') = vfs_register_fs (some fs) empty_table in
    (r ≡ ok 0)
    × (vfs_find_fs (some tmp) table' ≡ some fs)
    × (is_zero (strcmp tmp a) ≡ false
        → vfs_find_fs (some a) table' ≡ vfs_find_fs (some a) empty_table)
    × (vfs_register_fs (some fs) table' ≡ (err eexist, table'))
vfs_register_fs_example =
    vfs_register_fs-find tmp 4096 a empty_table 3 refl nothing_found (omega arith) refl

-- Runs.
vfs_runs :
    (vfs_lookup lookup_of (some (slash ∷ path)) true store ≡ some (ok 201, store))
    × (vfs_lookup lookup_of (some (slash ∷ tmp)) true store ≡ some (ok 200, store))
    × (vfs_lookup lookup_of (some (slash ∷ a)) true store ≡ some (err enoent, store))
    × (vfs_lookup lookup_of (some (slash ∷ [])) true store ≡ some (ok 100, store))
unfolding vfs_lookup lookup_loop next_component strcmp
vfs_runs = (refl, refl, refl, refl)
