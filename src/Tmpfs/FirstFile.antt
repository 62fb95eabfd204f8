-- ===== src/Tmpfs/FirstFile.antt =====
-- From a registered tmpfs to its first file: `vfs_mount`, `tmpfs_create` and `vfs_lookup`.
mod Tests
use mini_unix.Base.{
  ℕ, zero, suc, ◌+◌, ◌-◌, ◌^◌, ◌<◌, ◌≤◌, ◌≡◌, refl, sym, ◌∙◌, ap, subst, inl, inr, true, false,
  ◌||◌, List, [], ◌∷◌, Option, none, some, arith, ltb, leb, ◌==◌, ==_refl, if◌then◌else◌, length,
}
use mini_unix.Base.Int.{is_zero}
use mini_unix.Errno.{Errno, enoent, Result, ok, err}
use mini_unix.Text.{Str, strcmp}
use mini_unix.Heap.{Heap, word, round_up, kmalloc}
use mini_unix.Heap.Alloc.{IsValid, kmalloc-free}
use mini_unix.Vfs.{
  slash, Filesystem, Table, Store, Lookup, Outcome, lookup_step, mounted_root, vfs_find_fs,
  vfs_lookup,
}
use mini_unix.Vfs.Names.{components}
use mini_unix.Vfs.Walk.{vfs_lookup-slash}
use mini_unix.Vfs.Registry.{strcmp_refl}
use mini_unix.Vfs.Calls.Mounting.{vfs_mount-attached}
use mini_unix.Vfs.Calls.{State, MountFn, mount_size, vnode_size, vnode_alloc, vfs_mount}
use mini_unix.Tmpfs.{
  tmpfs_name, tmpfs_fs, Inodes, TmpfsState, inode_size, tmpfs_dir, tmpfs_max_name, copy_name,
  tmpfs_alloc_inode, tmpfs_create_vnode, tmpfs_mount, tmpfs_lookup, tmpfs_create, set_inode,
  new_inode, tmpfs_file, tmpfs_add_child, add_file, find_from,
}
use mini_unix.Tmpfs.Root.{tmpfs_lookups, created-vfs_lookup}
use mini_unix.Tmpfs.Mounting.{
  heap_from, kmalloc-heap_from, rooted, tmpfs_mount-rooted, mounted_at, mounted_at-root,
  mounted_at-mounted_root, mounted_at-ops, mounted_at-Directory, counted, vnode_for,
  tmpfs_create_vnode-run, vnode_for-other, vnode_for-new,
}
use mini_unix.Tmpfs.Chain.{find_from-Chain}
use mini_unix.Tmpfs.Directory.{Directory, Proper}
use mini_unix.Tmpfs.Create.{alloc_inode_lem, Room, tmpfs_create-tmpfs_lookup}

-- tmpfs mounted at the root vnode `r`, with its root at `dir` and no file.
record RootMounted (tmpfs_ops r dir inode : ℕ) (heap : Heap) (st : TmpfsState) : Type 0 where
  root_is : st.store.root_vnode ≡ r
  heap_is : st.opened.heap ≡ heap
  directory : Directory st dir inode []
  ops_are : (st.store.vnodes dir).ops ≡ tmpfs_ops
  root : mounted_root st.store st.store.root_vnode ≡ dir
  here : mounted_root st.store dir ≡ dir

RootMounted-created :
    (tmpfs_ops r dir inode a v : ℕ) (h1 h2 h3 : Heap) (name : Str) (st : TmpfsState)
    → RootMounted tmpfs_ops r dir inode h1 st
    → kmalloc inode_size h1 ≡ (some a, h2)
    → kmalloc vnode_size h2 ≡ (some v, h3)
    → (a == 0) ≡ false
    → (v == 0) ≡ false
    → (tmpfs_ops == 0) ≡ false
    → (inode == a) ≡ false
    → (dir == v) ≡ false
    → (r == v) ≡ false
    → components name ≡ name ∷ []
    → Proper name
    → copy_name (tmpfs_max_name - 1) name ≡ name
    → (st' : TmpfsState) × (tmpfs_create tmpfs_ops 1
          (mounted_root st.store st.store.root_vnode)
          (some name)
          true
          st
        ≡ some (ok v, st'))
      × (vfs_lookup (tmpfs_lookups tmpfs_ops 2 st'.own) (some (slash ∷ name)) true st'.store
          ≡ some (ok v, st'.store))
RootMounted-created tmpfs_ops r dir inode a v h1 h2 h3 name st m inode_fits vnode_fits has_inode
      has_vnode has_ops apart own_vnode away single proper short =
    let room : Room a v st = record {
      heap' = h2;
      heap'' = h3;
      inode_fits = rw (m.heap_is) inode_fits;
      vnode_fits = vnode_fits;
      has_inode = has_inode;
      has_vnode = has_vnode;
    } in
    let away' : (st.store.root_vnode == v) ≡ false = rw (m.root_is) away in
    let (st', made, found) =
      created-vfs_lookup tmpfs_ops dir inode a v name st m.directory room has_ops m.ops_are m.root
        m.here apart own_vnode away' single proper short in
    (
      st',
      subst (λ d. tmpfs_create tmpfs_ops 1 d (some name) true st ≡ some (ok v, st')) (sym m.root)
          made,
      found,
    )

vfs_mount-RootMounted :
    (lookup_of : ℕ → Option Lookup) (mount_of : ℕ → MountFn Inodes) (table : Table)
    (tmpfs_ops at device inode dir mnt : ℕ) (h1 h2 h3 : Heap) (st : TmpfsState)
    → vfs_find_fs (some tmpfs_name) table ≡ some (tmpfs_fs at)
    → (st.store.root_vnode == 0) ≡ false
    → mounted_root st.store st.store.root_vnode ≡ st.store.root_vnode
    → mount_of at ≡ tmpfs_mount tmpfs_ops
    → kmalloc inode_size st.opened.heap ≡ (some inode, h1)
    → kmalloc vnode_size h1 ≡ (some dir, h2)
    → kmalloc mount_size h2 ≡ (some mnt, h3)
    → (inode == 0) ≡ false
    → (dir == 0) ≡ false
    → (mnt == 0) ≡ false
    → (dir == st.store.root_vnode) ≡ false
    → (st1 : TmpfsState) × (vfs_mount lookup_of mount_of table
          (some (slash ∷ []))
          (some tmpfs_name)
          device
          st
        ≡ some (ok 0, st1))
      × RootMounted tmpfs_ops st.store.root_vnode dir inode h3 st1
vfs_mount-RootMounted lookup_of mount_of table tmpfs_ops at device inode dir mnt h1 h2 h3 st found
      has_root own runs inode_fits vnode_fits mount_fits has_inode has_dir has_mnt apart =
    let r = st.store.root_vnode in
    let st' = rooted tmpfs_ops inode dir h2 st in
    let mounts : mount_of at device st ≡ (ok dir, st') =
      ap (λ m. m device st) runs
      ∙ tmpfs_mount-rooted tmpfs_ops device inode dir h1 h2 st inode_fits has_inode vnode_fits
          has_dir in
    (
      mounted_at tmpfs_ops at device r inode dir mnt h2 h3 st,
      vfs_mount-attached lookup_of mount_of table (some (slash ∷ [])) (some tmpfs_name)
          (tmpfs_fs at) device r dir mnt st.store h3 st st' found
          (vfs_lookup-slash lookup_of st.store own) has_root mounts has_dir mount_fits has_mnt,
      record {
        root_is = refl;
        heap_is = refl;
        directory =
            mounted_at-Directory tmpfs_ops at device r inode dir mnt h2 h3 st has_root has_inode
              has_dir has_mnt apart;
        ops_are =
            mounted_at-ops tmpfs_ops at device r inode dir mnt h2 h3 st has_root has_inode has_dir
              has_mnt apart;
        root =
            mounted_at-root tmpfs_ops at device r inode dir mnt h2 h3 st has_root has_inode has_dir
              has_mnt apart;
        here =
            mounted_at-mounted_root tmpfs_ops at device r inode dir mnt h2 h3 st has_root has_inode
              has_dir has_mnt apart;
      },
    )

-- tmpfs registered, and a heap with room, behind the root vnode, for its root, the mount and a file.
pub record Bootable (at c : ℕ) (table : Table) (st : TmpfsState) : Type 0 where
  pub registered : vfs_find_fs (some tmpfs_name) table ≡ some (tmpfs_fs at)
  pub has_root : (st.store.root_vnode == 0) ≡ false
  pub free : ((st.store.vnodes st.store.root_vnode).mounted_here == 0) ≡ true
  pub behind : st.store.root_vnode < c
  pub next_free : st.opened.heap.heap_current ≡ c
  pub room : c + 792 < st.opened.heap.heap_end
  pub low : st.opened.heap.heap_end < 2 ^ 31

-- The addresses that are handed out from `c` on.
spaced :
    (r c : ℕ)
    → r < c
    → ((c == 0) ≡ false)
      × ((c + 96 == 0) ≡ false)
      × ((c + 96 + 288 == 0) ≡ false)
      × ((c + 96 + 288 + 24 == 0) ≡ false)
      × ((c + 96 + 288 + 24 + 96 == 0) ≡ false)
      × ((c + 96 == r) ≡ false)
      × ((c == c + 96 + 288 + 24) ≡ false)
      × ((c + 96 == c + 96 + 288 + 24 + 96) ≡ false)
      × ((r == c + 96 + 288 + 24 + 96) ≡ false)
spaced r c behind = (
  ground arith,
  ground arith,
  ground arith,
  ground arith,
  ground arith,
  ground arith,
  ground arith,
  ground arith,
  ground arith,
)

-- If tmpfs is registered, there is a root vnode with nothing mounted at it, the table of operations of
-- tmpfs is not at 0, and the heap ends below 2^31, and is free from behind the root vnode on, for more than
-- 792 bytes, `vfs_mount` of tmpfs at / succeeds; `tmpfs_create` of a name in the root of
-- what is mounted then gives a vnode; and `vfs_lookup` of the path that has this name behind a slash
-- leads to that vnode. The name is one component of a path, at most 63 characters long, and not . or ..
pub vfs_mount-tmpfs_create :
    (lookup_of : ℕ → Option Lookup) (mount_of : ℕ → MountFn Inodes) (table : Table)
    (tmpfs_ops at device c : ℕ) (name : Str) (st : TmpfsState)
    → Bootable at c table st
    → mount_of at ≡ tmpfs_mount tmpfs_ops
    → (tmpfs_ops == 0) ≡ false
    → components name ≡ name ∷ []
    → Proper name
    → copy_name (tmpfs_max_name - 1) name ≡ name
    → (st1 st2 : TmpfsState) × (v : ℕ) × (vfs_mount lookup_of mount_of table
          (some (slash ∷ []))
          (some tmpfs_name)
          device
          st
        ≡ some (ok 0, st1))
      × (tmpfs_create tmpfs_ops 1 (mounted_root st1.store st1.store.root_vnode) (some name) true st1
          ≡ some (ok v, st2))
      × (vfs_lookup (tmpfs_lookups tmpfs_ops 2 st2.own) (some (slash ∷ name)) true st2.store
          ≡ some (ok v, st2.store))
vfs_mount-tmpfs_create lookup_of mount_of table tmpfs_ops at device c name st b runs has_ops single
      proper short =
    let h = st.opened.heap in
    let own : mounted_root st.store st.store.root_vnode ≡ st.store.root_vnode =
      rw (b.has_root, b.free) refl in
    let start : kmalloc inode_size h ≡ (some c, heap_from h (c + 96)) =
      subst (λ q. kmalloc inode_size q ≡ (some c, heap_from h (c + 96)))
        (ap (heap_from h) (sym b.next_free))
        (kmalloc-heap_from inode_size c h (omega (arith, b.room)) b.low) in
    let vnode_fits = kmalloc-heap_from vnode_size (c + 96) h (omega (arith, b.room)) b.low in
    let mount_fits = kmalloc-heap_from mount_size (c + 96 + 288) h (omega (arith, b.room)) b.low in
    let inode_fits' =
      kmalloc-heap_from inode_size (c + 96 + 288 + 24) h (omega (arith, b.room)) b.low in
    let vnode_fits' =
      kmalloc-heap_from vnode_size (c + 96 + 288 + 24 + 96) h (omega (arith, b.room)) b.low in
    let (has_c, has_dir, has_mnt, has_a, has_v, dir_apart, inode_apart, v_apart, r_apart) =
      spaced st.store.root_vnode c b.behind in
    let (st1, mounted, m) =
      vfs_mount-RootMounted lookup_of mount_of table tmpfs_ops at device c (c + 96) (c + 96 + 288)
        (heap_from h (c + 96)) (heap_from h (c + 96 + 288)) (heap_from h (c + 96 + 288 + 24)) st
        b.registered b.has_root own runs start vnode_fits mount_fits has_c has_dir has_mnt
        dir_apart in
    let (st2, made, found) =
      RootMounted-created tmpfs_ops st.store.root_vnode (c + 96) c (c + 96 + 288 + 24)
        (c + 96 + 288 + 24 + 96) (heap_from h (c + 96 + 288 + 24))
        (heap_from h (c + 96 + 288 + 24 + 96)) (heap_from h (c + 96 + 288 + 24 + 96 + 288)) name st1
        m inode_fits' vnode_fits' has_a has_v has_ops inode_apart v_apart r_apart single proper
        short in
    (st1, st2, c + 96 + 288 + 24 + 96, mounted, made, found)
