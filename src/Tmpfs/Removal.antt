-- ===== src/Tmpfs/Removal.antt =====
-- `tmpfs_unlink` of kernel/fs/tmpfs/tmpfs.c.
use mini_unix.Base.{ℕ, zero, suc, not, ◌&&◌, ◌||◌, Option, none, some, ◌==◌, if◌then◌else◌}
use mini_unix.Base.Int.{is_zero}
use mini_unix.Errno.{eperm, enoent, einval, enotempty, Result, ok, err}
use mini_unix.Text.{Str, strcmp}
use mini_unix.Heap.{Heap, kfree}
use mini_unix.Tmpfs.{Inodes, TmpfsState, set_inode, is_dir, is_named, is_vnode_dir, dot, dot_dot}

-- The loop of `tmpfs_unlink`: the child before the one with the name, and this one; 0 for NULL.
unfoldable pub find_with_prev : ℕ → Inodes → (prev curr : ℕ) → Str → Option (ℕ × ℕ)
find_with_prev zero inodes prev curr name = none
find_with_prev (suc fuel) inodes prev curr name =
    let rest = find_with_prev fuel inodes curr (inodes curr).next_sibling name in
    if curr == 0
    then some (prev, 0)
    else if is_named inodes curr name
    then some (prev, curr)
    else rest

-- `prev`, or the directory, is linked to what follows `curr`.
abbrev pub unlink_child : (dir prev curr : ℕ) → Inodes → Inodes
unlink_child dir prev curr inodes =
    let next = (inodes curr).next_sibling in
    if prev == 0
    then set_inode dir (record (inodes dir) { first_child = next }) inodes
    else set_inode prev (record (inodes prev) { next_sibling = next }) inodes

-- `if (p) kfree(p);`
abbrev pub free_if_set : ℕ → Heap → Heap
free_if_set p heap = if p == 0 then heap else kfree (some p) heap

-- the part of `tmpfs_unlink` behind the loop
unfoldable pub remove_child : (dir prev curr : ℕ) → TmpfsState → Result ℕ × TmpfsState
remove_child dir prev curr st =
    if curr == 0
    then (err enoent, st)
    else if is_dir (st.own curr).kind && not ((st.own curr).first_child == 0)
    then (err enotempty, st)
    else let own' = unlink_child dir prev curr st.own in
      let heap' = free_if_set (own' curr).vnode (free_if_set (own' curr).data_at st.opened.heap) in
      (ok 0, record st { own = own'; opened = record st.opened { heap = kfree (some curr) heap' } })

unfoldable pub tmpfs_unlink :
    (fuel dir : ℕ) (name : Option Str) → TmpfsState → Option (Result ℕ × TmpfsState)
tmpfs_unlink fuel dir none st = some (err einval, st)
tmpfs_unlink fuel dir (some name) st =
    let inode = (st.store.vnodes dir).private_data in
    if dir == 0
    then some (err einval, st)
    else if (inode == 0) || not (is_vnode_dir (st.store.vnodes dir).kind)
    then some (err einval, st)
    else if is_zero (strcmp name dot) || is_zero (strcmp name dot_dot)
    then some (err eperm, st)
    else elim (find_with_prev fuel st.own 0 (st.own inode).first_child name) [
      | none ↦ none
      | some (prev, curr) ↦ some (remove_child inode prev curr st)
    ]
