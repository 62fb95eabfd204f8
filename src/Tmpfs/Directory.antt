-- ===== src/Tmpfs/Directory.antt =====
-- A directory as a list of children: `tmpfs_lookup`, and what a new file does to it.
use mini_unix.Base.{
  ◌-◌, ℕ, ◌<◌, ◌≡◌, refl, sym, ◌∙◌, ap, subst, inl, inr, true, false, List, ◌∷◌, some, arith, ◌==◌,
  ==_eq, ==_refl, if◌then◌else◌, Bool-cases, length,
}
use mini_unix.Base.Int.{is_zero}
use mini_unix.Errno.{enoent, Result, ok, err}
use mini_unix.Text.{Str, strcmp}
use mini_unix.Tmpfs.{
  tmpfs_max_name, Inodes, TmpfsState, tmpfs_file, set_inode, new_inode, copy_name, dot, dot_dot,
  is_vnode_dir, tmpfs_add_child, tmpfs_lookup,
}
use mini_unix.Tmpfs.Chain.{
  Chain, has, first_named, find_from-Chain, Chain-frame, first_named-frame, has-apart,
  first_named-apart,
}

-- The vnode `dir` is a directory with the inode `inode` and the children `xs`.
pub record Directory (st : TmpfsState) (dir inode : ℕ) (xs : List ℕ) : Type 0 where
  pub is_set : (dir == 0) ≡ false
  pub own_inode : (st.store.vnodes dir).private_data ≡ inode
  pub has_inode : (inode == 0) ≡ false
  pub kind : is_vnode_dir (st.store.vnodes dir).kind ≡ true
  pub children : Chain st.own (st.own inode).first_child xs
  pub no_loop : has inode xs ≡ false

-- a name that does not stand for the directory or its parent
abbrev pub Proper : Str → Type 0
Proper name = (is_zero (strcmp name dot) ≡ false) × (is_zero (strcmp name dot_dot) ≡ false)

-- the vnode of a child, or the error
abbrev pub vnode_of : Inodes → ℕ → Result ℕ
vnode_of inodes child = if child == 0 then err enoent else ok (inodes child).vnode

-- In a directory with the children `xs`, with more rounds of fuel than these, `tmpfs_lookup` of a name
-- other than . and .. gives the vnode of the first child with that name, and `ENOENT` if there is none.
pub tmpfs_lookup-Directory :
    (fuel dir inode : ℕ) (xs : List ℕ) (name : Str) (st : TmpfsState)
    → Directory st dir inode xs
    → Proper name
    → length xs < fuel
    → tmpfs_lookup fuel dir (some name) true st.store st.own
      ≡ some (vnode_of st.own (first_named st.own name xs))
unfolding tmpfs_lookup
tmpfs_lookup-Directory fuel dir inode xs name st d proper enough =
    let found = find_from-Chain fuel st.own (st.own inode).first_child name xs d.children enough in
    rw (d.is_set, d.own_inode, d.has_inode, proper.0, proper.1, found) refl

-- the inodes once `add_file` has put a file at the address `a` with the vnode `v` into a directory
abbrev created : (inode a v : ℕ) → Str → Inodes → Inodes
created inode a v name own =
    let own' = set_inode a (new_inode tmpfs_file name inode) own in
    set_inode a (record (own' a) { vnode = v }) own'

abbrev linked : (inode a v : ℕ) → Str → Inodes → Inodes
linked inode a v name own =
    let own' = created inode a v name own in
    set_inode a (record (own' a) { next_sibling = (own' inode).first_child }) own'

abbrev pub with_file : (inode a v : ℕ) → Str → Inodes → Inodes
with_file inode a v name own = tmpfs_add_child inode a (created inode a v name own)

-- Making `a` the first child of `inode` changes no link, name or vnode of another inode.
first_child-frame :
    (own own' : Inodes) (a inode c : ℕ)
    → own' c ≡ own c
    → let own'' = set_inode inode (record (own' inode) { first_child = a }) own' in
      ((own'' c).name ≡ (own c).name)
      × ((own'' c).next_sibling ≡ (own c).next_sibling)
      × ((own'' c).vnode ≡ (own c).vnode)
first_child-frame own own' a inode c same = elim (Bool-cases (c == inode)) [
  | inl here ↦
      let there : own' inode ≡ own c = ap own' (sym (==_eq c inode here)) ∙ same in
      rw here (ap (λ i. i.name) there, ap (λ i. i.next_sibling) there, ap (λ i. i.vnode) there)
  | inr away ↦
      rw away (ap (λ i. i.name) same, ap (λ i. i.next_sibling) same, ap (λ i. i.vnode) same)
]

module _ (inode a v : ℕ) (name : Str) (own : Inodes) (apart : (inode == a) ≡ false) where
  with_file-frame :
      (c : ℕ)
      → (c == a) ≡ false
      → let own' = with_file inode a v name own in
        ((own' c).name ≡ (own c).name)
        × ((own' c).next_sibling ≡ (own c).next_sibling)
        × ((own' c).vnode ≡ (own c).vnode)
  with_file-frame c other =
      first_child-frame own (linked inode a v name own) a inode c (rw other refl)

  with_file-new :
      let own' = with_file inode a v name own in
      ((own' a).name ≡ copy_name (tmpfs_max_name - 1) name)
      × ((own' a).next_sibling ≡ (own inode).first_child)
      × ((own' a).vnode ≡ v)
      × ((own' inode).first_child ≡ a)
  with_file-new =
      let turned : (a == inode) ≡ false = ground arith in
      (
        rw (turned, ==_refl a) refl,
        rw (turned, ==_refl a, apart) refl,
        rw (turned, ==_refl a) refl,
        rw (==_refl inode) refl,
      )

  pub with_file-Chain :
      (xs : List ℕ)
      → (a == 0) ≡ false
      → Chain own (own inode).first_child xs
      → has a xs ≡ false
      → let own' = with_file inode a v name own in Chain own' (own' inode).first_child (a ∷ xs)
  with_file-Chain xs set c out =
      let own' = with_file inode a v name own in
      let (_, next, _, first) = with_file-new in
      (
        first,
        set,
        subst (λ q. Chain own' q xs) (sym next)
            (Chain-frame own own' (own inode).first_child xs
              (λ q i. (with_file-frame q (has-apart a q xs out i)).1) c),
      )

  with_file-vnode_of :
      (other : Str) (xs : List ℕ)
      → (a == 0) ≡ false
      → has a xs ≡ false
      → let own' = with_file inode a v name own in
        vnode_of own' (first_named own' other xs) ≡ vnode_of own (first_named own other xs)
  with_file-vnode_of other xs set out =
      let own' = with_file inode a v name own in
      let found = first_named own other xs in
      let kept : (own' found).vnode ≡ (own found).vnode =
        (with_file-frame found (first_named-apart a own other xs out set)).2 in
      let same =
        first_named-frame own own' other xs
          (λ q i. (with_file-frame q (has-apart a q xs out i)).0) in
      ap (vnode_of own') same ∙ ap (λ w. if found == 0 then err enoent else ok w) kept

  pub with_file-found :
      (other : Str) (xs : List ℕ)
      → (a == 0) ≡ false
      → has a xs ≡ false
      → let own' = with_file inode a v name own in
        some (vnode_of own' (first_named own' other (a ∷ xs))) ≡ (
          if is_zero (strcmp (copy_name (tmpfs_max_name - 1) name) other)
          then some (ok v)
          else some (vnode_of own (first_named own other xs)))
  with_file-found other xs set out =
      let (named, _, at, _) = with_file-new in
      let test = ap (λ s. is_zero (strcmp s other)) named in
      elim (Bool-cases (is_zero (strcmp (copy_name (tmpfs_max_name - 1) name) other))) [
        | inl hit ↦ rw (test, hit) (rw (set, at) refl)
        | inr miss ↦ rw (test, miss) (ap some (with_file-vnode_of other xs set out))
      ]
