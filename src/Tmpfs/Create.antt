-- ===== src/Tmpfs/Create.antt =====
-- `tmpfs_create`, and `tmpfs_lookup` behind it.
use mini_unix.Base.{
  ◌-◌, ℕ, suc, ◌<◌, ◌≡◌, refl, sym, ◌∙◌, ap, subst, true, false, List, ◌∷◌, Option, some, arith,
  ◌==◌, if◌then◌else◌, length,
}
use mini_unix.Base.Int.{is_zero}
use mini_unix.Errno.{Result, ok}
use mini_unix.Text.{Str, strcmp}
use mini_unix.Heap.{Heap, kmalloc}
use mini_unix.Vfs.Calls.{vnode_size, blank_vnode, set_vnode, vnode_alloc}
use mini_unix.Tmpfs.{
  tmpfs_max_name, TmpfsState, tmpfs_file, inode_size, set_inode, new_inode, copy_name, is_vnode_dir,
  tmpfs_add_child, tmpfs_alloc_inode, tmpfs_create_vnode, tmpfs_lookup, tmpfs_create, add_file,
}
use mini_unix.Tmpfs.Chain.{Chain, has, first_named, find_from-Chain}
use mini_unix.Tmpfs.Directory.{
  Directory, Proper, vnode_of, tmpfs_lookup-Directory, with_file, with_file-Chain, with_file-found,
}

-- `add_file` in a heap that has room for an inode at `a` and a vnode at `v`.
pub record Room (a v : ℕ) (st : TmpfsState) : Type 0 where
  pub heap' : Heap
  pub heap'' : Heap
  pub inode_fits : kmalloc inode_size st.opened.heap ≡ (some a, heap')
  pub vnode_fits : kmalloc vnode_size heap' ≡ (some v, heap'')
  pub has_inode : (a == 0) ≡ false
  pub has_vnode : (v == 0) ≡ false

pub alloc_inode_lem :
    (a v inode : ℕ) (name : Str) (st : TmpfsState) (r : Room a v st)
    → tmpfs_alloc_inode tmpfs_file name inode st ≡ (
      a,
      record st {
        opened = record st.opened { heap = r.heap' };
        own = set_inode a (new_inode tmpfs_file name inode) st.own;
      },
    )
unfolding tmpfs_alloc_inode
alloc_inode_lem a v inode name st r = rw (r.inode_fits, tmpfs_alloc_inode) (rw r.inode_fits refl)

pub vnode_alloc_lem :
    (v : ℕ) (heap'' : Heap) (st : TmpfsState)
    → kmalloc vnode_size st.opened.heap ≡ (some v, heap'')
    → vnode_alloc st ≡ (
      v,
      record st {
        store = set_vnode st.store v blank_vnode;
        opened = record st.opened {
          references = λ q. if q == v then 1 else st.opened.references q;
          heap = heap'';
        };
      },
    )
unfolding vnode_alloc
vnode_alloc_lem v heap'' st fits = rw (fits, vnode_alloc) (rw fits refl)

create_vnode_lem :
    (tmpfs_ops a v : ℕ) (heap'' : Heap) (st : TmpfsState)
    → kmalloc vnode_size st.opened.heap ≡ (some v, heap'')
    → (v == 0) ≡ false
    → let (r, st') = tmpfs_create_vnode tmpfs_ops a st in
      (r ≡ v)
      × (st'.own ≡ set_inode a (record (st.own a) { vnode = v }) st.own)
      × ((dir : ℕ) → (dir == v) ≡ false → st'.store.vnodes dir ≡ st.store.vnodes dir)
unfolding tmpfs_create_vnode
create_vnode_lem tmpfs_ops a v heap'' st fits set =
    let alloc = vnode_alloc_lem v heap'' st fits in
    (
      rw (alloc, set, tmpfs_create_vnode) refl,
      rw (alloc, set, tmpfs_create_vnode) refl,
      λ dir other. rw (alloc, set, tmpfs_create_vnode, other) refl,
    )

add_file_lem :
    (tmpfs_ops a v inode : ℕ) (name : Str) (st : TmpfsState)
    → Room a v st
    → let (r, st') = add_file tmpfs_ops inode name st in
      (r ≡ ok v)
      × (st'.own ≡ with_file inode a v name st.own)
      × ((dir : ℕ) → (dir == v) ≡ false → st'.store.vnodes dir ≡ st.store.vnodes dir)
unfolding add_file
add_file_lem tmpfs_ops a v inode name st r =
    let alloc = alloc_inode_lem a v inode name st r in
    let st' : TmpfsState = record st {
      opened = record st.opened { heap = r.heap' };
      own = set_inode a (new_inode tmpfs_file name inode) st.own;
    } in
    let (made, own, others) =
      create_vnode_lem tmpfs_ops a v r.heap'' st' r.vnode_fits r.has_vnode in
    (
      rw (alloc, r.has_inode, add_file, made, r.has_vnode) refl,
      rw (alloc, r.has_inode, add_file, made, r.has_vnode) (ap (tmpfs_add_child inode a) own),
      λ dir other. rw (alloc, r.has_inode, add_file, made, r.has_vnode) (others dir other),
    )

pub tmpfs_create-tmpfs_lookup :
    (tmpfs_ops fuel dir inode a v : ℕ) (xs : List ℕ) (name other : Str) (st : TmpfsState)
    → Directory st dir inode xs
    → Room a v st
    → length xs < fuel
    → first_named st.own name xs ≡ 0
    → (inode == a) ≡ false
    → has a xs ≡ false
    → (dir == v) ≡ false
    → Proper other
    → (st' : TmpfsState) × (tmpfs_create tmpfs_ops fuel dir (some name) true st ≡ some (ok v, st'))
      × Directory st' dir inode (a ∷ xs)
      × (tmpfs_lookup (suc fuel) dir (some other) true st'.store st'.own ≡ (
          if is_zero (strcmp (copy_name (tmpfs_max_name - 1) name) other)
          then some (ok v)
          else tmpfs_lookup fuel dir (some other) true st.store st.own))
unfolding tmpfs_create
tmpfs_create-tmpfs_lookup tmpfs_ops fuel dir inode a v xs name other st d room enough missing apart
      out own_vnode proper =
    let expected : Option (Result ℕ) =
      if is_zero (strcmp (copy_name (tmpfs_max_name - 1) name) other)
      then some (ok v)
      else some (vnode_of st.own (first_named st.own other xs)) in
    let st' = (add_file tmpfs_ops inode name st).1 in
    let (made, own, others) = add_file_lem tmpfs_ops a v inode name st room in
    let unfound =
      find_from-Chain fuel st.own (st.own inode).first_child name xs d.children enough
      ∙ ap some missing in
    let same = others dir own_vnode in
    let d' : Directory st' dir inode (a ∷ xs) = record {
      is_set = d.is_set;
      own_inode = ap (λ w. w.private_data) same ∙ d.own_inode;
      has_inode = d.has_inode;
      kind = ap (λ w. is_vnode_dir w.kind) same ∙ d.kind;
      children =
          subst (λ o. Chain o (o inode).first_child (a ∷ xs)) (sym own)
            (with_file-Chain inode a v name st.own apart xs room.has_inode d.children out);
      no_loop = rw apart d.no_loop;
    } in
    (
      st',
      rw (d.is_set, d.own_inode, d.has_inode, d.kind, unfound, tmpfs_create)
          (rw d.own_inode (ap (λ r. some (r, st')) made)),
      d',
      tmpfs_lookup-Directory (suc fuel) dir inode (a ∷ xs) other st' d' proper (omega arith)
          ∙ subst (λ o. some (vnode_of o (first_named o other (a ∷ xs))) ≡ expected) (sym own)
              (with_file-found inode a v name st.own apart other xs room.has_inode out)
          ∙ ap
              (λ r.
                if is_zero (strcmp (copy_name (tmpfs_max_name - 1) name) other)
                then some (ok v)
                else r)
              (sym (tmpfs_lookup-Directory fuel dir inode xs other st d proper enough)),
    )
