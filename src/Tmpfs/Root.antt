-- ===== src/Tmpfs/Root.antt =====
-- A file that is created in a directory of tmpfs that is mounted at the root is found under its path.
use mini_unix.Base.{
  ℕ, ◌-◌, ◌≡◌, refl, sym, ◌∙◌, ap, subst, true, false, [], ◌∷◌, Option, none, some, arith, ◌==◌,
  ==_refl, if◌then◌else◌,
}
use mini_unix.Base.Int.{is_zero}
use mini_unix.Errno.{enoent, Result, ok, err}
use mini_unix.Text.{Str, strcmp}
use mini_unix.Vfs.{slash, Store, Lookup, mounted_root, vfs_lookup}
use mini_unix.Vfs.Names.{components}
use mini_unix.Vfs.Walk.{walk, vfs_lookup-walk}
use mini_unix.Vfs.Registry.{strcmp_refl}
use mini_unix.Tmpfs.{
  Inodes, TmpfsState, tmpfs_max_name, copy_name, tmpfs_lookup, tmpfs_create, set_inode, new_inode,
  tmpfs_file, tmpfs_add_child, add_file, find_from,
}
use mini_unix.Tmpfs.Mounting.{
  counted, vnode_for, tmpfs_create_vnode-run, vnode_for-other, vnode_for-new,
}
use mini_unix.Tmpfs.Chain.{find_from-Chain}
use mini_unix.Tmpfs.Directory.{Directory, Proper}
use mini_unix.Tmpfs.Create.{alloc_inode_lem, Room, tmpfs_create-tmpfs_lookup}

-- `tmpfs_lookup` as the virtual file system calls it, with the inodes as they are.
abbrev pub lookup_in : (fuel : ℕ) → Inodes → Lookup
lookup_in fuel inodes dir name store = elim (tmpfs_lookup fuel dir (some name) true store inodes) [
  | none ↦ (err enoent, store)
  | some r ↦ (r, store)
]

-- A path of one name from the root leads to what the root's own `lookup` finds.
vfs_lookup-root :
    (lookup_of : ℕ → Option Lookup) (lookup : Lookup) (s name : Str) (dir v : ℕ) (store : Store)
    → components s ≡ name ∷ []
    → mounted_root store store.root_vnode ≡ dir
    → mounted_root store dir ≡ dir
    → (dir == 0) ≡ false
    → ((store.vnodes dir).ops == 0) ≡ false
    → lookup_of (store.vnodes dir).ops ≡ some lookup
    → lookup dir name store ≡ (ok v, store)
    → vfs_lookup lookup_of (some (slash ∷ s)) true store ≡ some (ok (mounted_root store v), store)
vfs_lookup-root lookup_of lookup s name dir v store single root here set has_ops given found =
    let (walked, _, _, _, _) = vfs_lookup-walk lookup_of s 0 store in
    let found' : lookup (mounted_root store dir) name store ≡ (ok v, store) = rw here found in
    walked
    ∙ ap (λ names. walk lookup_of names (mounted_root store store.root_vnode) store) single
    ∙ ap (λ d. walk lookup_of (name ∷ []) d store) root
    ∙ rw (here, set, has_ops, given, walk, found') (rw found' refl)

-- `lookup_of` for a kernel whose only file system is tmpfs, its table of operations at `tmpfs_ops`
abbrev pub tmpfs_lookups : (tmpfs_ops fuel : ℕ) → Inodes → ℕ → Option Lookup
tmpfs_lookups tmpfs_ops fuel inodes ops =
    if ops == tmpfs_ops then some (lookup_in fuel inodes) else none

-- the inodes once a file is created
abbrev with_inode : (a v inode : ℕ) → Str → Inodes → Inodes
with_inode a v inode name own =
    let own' = set_inode a (new_inode tmpfs_file name inode) own in
    set_inode a (record (own' a) { vnode = v }) own'

add_file-run :
    (tmpfs_ops a v inode : ℕ) (name : Str) (st : TmpfsState) (room : Room a v st)
    → add_file tmpfs_ops inode name st ≡ (
      ok v,
      record {
        store =
            vnode_for tmpfs_ops a v
              (set_inode a (new_inode tmpfs_file name inode) st.own a)
              st.store;
        opened = record st.opened {
          references = counted v st.opened.references;
          heap = room.heap'';
        };
        own = tmpfs_add_child inode a (with_inode a v inode name st.own);
      },
    )
unfolding add_file
add_file-run tmpfs_ops a v inode name st room =
    let alloc = alloc_inode_lem a v inode name st room in
    let st' : TmpfsState = record st {
      opened = record st.opened { heap = room.heap' };
      own = set_inode a (new_inode tmpfs_file name inode) st.own;
    } in
    let made =
      tmpfs_create_vnode-run tmpfs_ops a v room.heap'' st' room.vnode_fits room.has_vnode in
    rw (alloc, room.has_inode, made, room.has_vnode, add_file) refl

tmpfs_create-add_file :
    (tmpfs_ops dir inode : ℕ) (name : Str) (st : TmpfsState)
    → Directory st dir inode []
    → tmpfs_create tmpfs_ops 1 dir (some name) true st ≡ some (add_file tmpfs_ops inode name st)
unfolding tmpfs_create find_from
tmpfs_create-add_file tmpfs_ops dir inode name st d =
    let unfound =
      find_from-Chain 1 st.own (st.own inode).first_child name [] d.children (omega arith) in
    rw (d.is_set, d.own_inode, d.has_inode, d.kind, unfound, tmpfs_create) (rw d.own_inode refl)

abbrev state_of : TmpfsState → Option (Result ℕ × TmpfsState) → TmpfsState
state_of st none = st
state_of st (some r) = r.1

-- A file created in an empty directory that is mounted at the root.
pub created-vfs_lookup :
    (tmpfs_ops dir inode a v : ℕ) (name : Str) (st : TmpfsState)
    → Directory st dir inode []
    → Room a v st
    → (tmpfs_ops == 0) ≡ false
    → (st.store.vnodes dir).ops ≡ tmpfs_ops
    → mounted_root st.store st.store.root_vnode ≡ dir
    → mounted_root st.store dir ≡ dir
    → (inode == a) ≡ false
    → (dir == v) ≡ false
    → (st.store.root_vnode == v) ≡ false
    → components name ≡ name ∷ []
    → Proper name
    → copy_name (tmpfs_max_name - 1) name ≡ name
    → (st' : TmpfsState) × (tmpfs_create tmpfs_ops 1 dir (some name) true st ≡ some (ok v, st'))
      × (vfs_lookup (tmpfs_lookups tmpfs_ops 2 st'.own) (some (slash ∷ name)) true st'.store
          ≡ some (ok v, st'.store))
created-vfs_lookup tmpfs_ops dir inode a v name st d room has_ops ops root here apart own_vnode away
      single proper short =
    let (st', run, d', looked) =
      tmpfs_create-tmpfs_lookup tmpfs_ops 1 dir inode a v [] name name st d room (omega arith) refl
        apart refl own_vnode proper in
    let i = set_inode a (new_inode tmpfs_file name inode) st.own a in
    let made : st'.store ≡ vnode_for tmpfs_ops a v i st.store =
      ap (λ r. (state_of st r).store)
        (sym run ∙ tmpfs_create-add_file tmpfs_ops dir inode name st d)
      ∙ ap (λ r. r.1.store) (add_file-run tmpfs_ops a v inode name st room) in
    let same : is_zero (strcmp (copy_name (tmpfs_max_name - 1) name) name) ≡ true =
      rw short (strcmp_refl name) in
    let found : tmpfs_lookup 2 dir (some name) true st'.store st'.own ≡ some (ok v) =
      looked ∙ rw same refl in
    let root' : mounted_root st'.store st'.store.root_vnode ≡ dir =
      subst (λ s. mounted_root s s.root_vnode ≡ dir) (sym made)
        ((vnode_for-other tmpfs_ops a v i st.store st.store.root_vnode away).0 ∙ root) in
    let (stands, kept) = vnode_for-other tmpfs_ops a v i st.store dir own_vnode in
    let here' : mounted_root st'.store dir ≡ dir =
      subst (λ s. mounted_root s dir ≡ dir) (sym made) (stands ∙ here) in
    let ops' : (st'.store.vnodes dir).ops ≡ tmpfs_ops =
      subst (λ s. (s.vnodes dir).ops ≡ tmpfs_ops) (sym made) (ap (λ n. n.ops) kept ∙ ops) in
    let new : mounted_root st'.store v ≡ v =
      subst (λ s. mounted_root s v ≡ v) (sym made) (vnode_for-new tmpfs_ops a v i st.store) in
    (
      st',
      run,
      vfs_lookup-root (tmpfs_lookups tmpfs_ops 2 st'.own) (lookup_in 2 st'.own) name name dir v
            st'.store single root' here' d'.is_set (rw ops' has_ops)
            (rw (ops', ==_refl tmpfs_ops) refl) (rw (found, lookup_in) refl)
          ∙ ap (λ q. some (ok q, st'.store)) new,
    )
