-- ===== src/Tmpfs/Mounting.antt =====
-- What `vfs_mount` of tmpfs at the root leaves, in a heap with room.
use mini_unix.Base.{
  ℕ, ◌+◌, ◌^◌, ◌<◌, ◌≡◌, refl, ◌∙◌, ap, false, [], ◌∷◌, some, arith, leb, ◌==◌, ==_refl, inl, inr,
  Bool-cases, if◌then◌else◌,
}
use mini_unix.Errno.{ok}
use mini_unix.Heap.{Heap, word, round_up, kmalloc}
use mini_unix.Heap.Alloc.{kmalloc-free}
use mini_unix.Vfs.{slash, vfs_max_name, Store, mounted_root}
use mini_unix.Vfs.Calls.Mounting.{attached}
use mini_unix.Vfs.Calls.{vnode_size, blank_vnode, set_vnode}
use mini_unix.Tmpfs.{
  Inode, TmpfsState, inode_size, tmpfs_dir, new_inode, set_inode, copy_name, vnode_kind, tmpfs_fs,
  tmpfs_alloc_inode, tmpfs_create_vnode, tmpfs_mount,
}
use mini_unix.Tmpfs.Create.{vnode_alloc_lem}
use mini_unix.Tmpfs.Directory.{Directory}

-- a heap with another next free address
abbrev pub heap_from : Heap → ℕ → Heap
heap_from h c = record h { heap_current = c }

pub kmalloc-heap_from :
    (size c : ℕ) (h : Heap)
    → c + round_up size < h.heap_end
    → h.heap_end < 2 ^ 31
    → kmalloc size (heap_from h c) ≡ (some c, heap_from h (c + round_up size))
kmalloc-heap_from size c h room low =
    let fits : leb h.heap_end (word (c + round_up size)) ≡ false = ground (arith, room, low) in
    let same : word (c + round_up size) ≡ c + round_up size = omega (arith, room, low) in
    kmalloc-free size (heap_from h c) fits ∙ ap (λ w. (some c, heap_from h w)) same

-- the vnode of an inode
abbrev pub vnode_for : (tmpfs_ops a v : ℕ) → Inode → Store → Store
vnode_for tmpfs_ops a v i store =
    let blank = set_vnode store v blank_vnode in
    set_vnode blank v (record (blank.vnodes v) {
      ops = tmpfs_ops;
      private_data = a;
      kind = vnode_kind i.kind;
      name = copy_name vfs_max_name i.name;
    })

abbrev pub counted : (v : ℕ) → (ℕ → ℕ) → ℕ → ℕ
counted v references q = if q == v then 1 else references q

pub tmpfs_create_vnode-run :
    (tmpfs_ops a v : ℕ) (heap'' : Heap) (st : TmpfsState)
    → kmalloc vnode_size st.opened.heap ≡ (some v, heap'')
    → (v == 0) ≡ false
    → tmpfs_create_vnode tmpfs_ops a st ≡ (
      v,
      record st {
        store = vnode_for tmpfs_ops a v (st.own a) st.store;
        opened = record st.opened { references = counted v st.opened.references; heap = heap'' };
        own = set_inode a (record (st.own a) { vnode = v }) st.own;
      },
    )
unfolding tmpfs_create_vnode
tmpfs_create_vnode-run tmpfs_ops a v heap'' st fits set =
    let alloc = vnode_alloc_lem v heap'' st fits in rw (alloc, set, tmpfs_create_vnode) refl

-- the state once `tmpfs_mount` has made an inode at `a` and a vnode at `v`
abbrev pub rooted : (tmpfs_ops a v : ℕ) → Heap → TmpfsState → TmpfsState
rooted tmpfs_ops a v heap'' st =
    let inode = new_inode tmpfs_dir (slash ∷ []) 0 in
    let own' = set_inode a inode st.own in
    let store' = vnode_for tmpfs_ops a v (own' a) st.store in
    record {
      store = set_vnode store' v (record (store'.vnodes v) { parent = v });
      opened = record st.opened { references = counted v st.opened.references; heap = heap'' };
      own = set_inode a (record (own' a) { vnode = v }) own';
    }

pub tmpfs_mount-rooted :
    (tmpfs_ops device a v : ℕ) (heap' heap'' : Heap) (st : TmpfsState)
    → kmalloc inode_size st.opened.heap ≡ (some a, heap')
    → (a == 0) ≡ false
    → kmalloc vnode_size heap' ≡ (some v, heap'')
    → (v == 0) ≡ false
    → tmpfs_mount tmpfs_ops device st ≡ (ok v, rooted tmpfs_ops a v heap'' st)
unfolding tmpfs_mount tmpfs_alloc_inode
tmpfs_mount-rooted tmpfs_ops device a v heap' heap'' st inode_fits has_inode vnode_fits has_vnode =
    let st' : TmpfsState = record st {
      opened = record st.opened { heap = heap' };
      own = set_inode a (new_inode tmpfs_dir (slash ∷ []) 0) st.own;
    } in
    let alloc : tmpfs_alloc_inode tmpfs_dir (slash ∷ []) 0 st ≡ (a, st') =
      rw (inode_fits, tmpfs_alloc_inode) (rw inode_fits refl) in
    let made = tmpfs_create_vnode-run tmpfs_ops a v heap'' st' vnode_fits has_vnode in
    rw (alloc, has_inode, made, has_vnode, tmpfs_mount) refl

-- the state once tmpfs is mounted at the vnode `r`, with its root at `v`
abbrev pub mounted_at :
    (tmpfs_ops at device r a v mnt : ℕ) (with_vnode with_mount : Heap) → TmpfsState → TmpfsState
mounted_at tmpfs_ops at device r a v mnt with_vnode with_mount st =
    attached (tmpfs_fs at) r v mnt device with_mount (rooted tmpfs_ops a v with_vnode st)

module _ (tmpfs_ops at device r a v mnt : ℕ) (with_vnode with_mount : Heap) (st : TmpfsState)
    (has_r : (r == 0) ≡ false) (has_inode : (a == 0) ≡ false) (has_vnode : (v == 0) ≡ false)
    (has_mnt : (mnt == 0) ≡ false) (apart : (v == r) ≡ false) where
  abbrev st1 : TmpfsState
  st1 = mounted_at tmpfs_ops at device r a v mnt with_vnode with_mount st

  pub mounted_at-root : mounted_root st1.store r ≡ v
  mounted_at-root = rw (has_r, ==_refl r, has_mnt, ==_refl mnt) refl

  pub mounted_at-mounted_root : mounted_root st1.store v ≡ v
  mounted_at-mounted_root = rw (has_vnode, apart, ==_refl v) refl

  pub mounted_at-ops : (st1.store.vnodes v).ops ≡ tmpfs_ops
  mounted_at-ops = rw (apart, ==_refl v) refl

  pub mounted_at-Directory : Directory st1 v a []
  mounted_at-Directory = record {
    is_set = has_vnode;
    own_inode = rw (apart, ==_refl v) refl;
    has_inode = has_inode;
    kind = rw (apart, ==_refl v, ==_refl a) refl;
    children = rw (==_refl a) refl;
    no_loop = refl;
  }

-- Another vnode stands for what it stood for before a vnode is made, and the new one for itself.
module _ (tmpfs_ops a v : ℕ) (i : Inode) (store : Store) where
  pub vnode_for-other :
      (q : ℕ)
      → (q == v) ≡ false
      → (mounted_root (vnode_for tmpfs_ops a v i store) q ≡ mounted_root store q)
        × ((vnode_for tmpfs_ops a v i store).vnodes q ≡ store.vnodes q)
  vnode_for-other q other = (rw other refl, rw other refl)

  pub vnode_for-new : mounted_root (vnode_for tmpfs_ops a v i store) v ≡ v
  vnode_for-new = elim (Bool-cases (v == 0)) [
    | inl missing ↦ rw missing refl
    | inr set ↦ rw (set, ==_refl v) refl
  ]
