-- ===== src/Tmpfs/Unlink.antt =====
-- `tmpfs_unlink` takes the first child with the name out of the list of children.
use mini_unix.Base.{
  ℕ, ◌<◌, ◌≡◌, refl, sym, ◌∙◌, ap, subst, inl, inr, Bool, true, false, not, ◌&&◌, List, [], ◌∷◌,
  some, arith, ◌==◌, ==_refl, Bool-cases, length,
}
use mini_unix.Errno.{enoent, enotempty, ok, err}
use mini_unix.Text.{Str}
use mini_unix.Tmpfs.{is_vnode_dir, Inodes, TmpfsState, is_dir, set_inode, is_named}
use mini_unix.Tmpfs.Removal.{unlink_child, remove_child, tmpfs_unlink}
use mini_unix.Tmpfs.Chain.{
  Chain, has, remove, first_named, before_first, find_with_prev-Chain, Chain-frame, has-apart,
}
use mini_unix.Tmpfs.Directory.{Directory, Proper}

-- no inode twice
abbrev pub Distinct : List ℕ → Type 0
Distinct [] = Unit {0}
Distinct (x ∷ xs) = (has x xs ≡ false) × Distinct xs

-- Linking over the inode found, from the one in front of it or from the directory, leaves the others in
-- their order.
unlink-first :
    (inode : ℕ) (own : Inodes) (name : Str) (x : ℕ) (xs : List ℕ)
    → (inode == 0) ≡ false
    → has inode (x ∷ xs) ≡ false
    → Chain own x (x ∷ xs)
    → is_named own x name ≡ true
    → let own' = unlink_child inode 0 x own in Chain own' (own' inode).first_child xs
unlink-first inode own name x xs set out c named =
    let own' = unlink_child inode 0 x own in
    rw (==_refl inode) (
      Chain-frame own own' (own x).next_sibling xs
        (λ q i. let apart = has-apart inode q (x ∷ xs) out (ground arith) in rw apart refl) c.2)

first_named-has :
    (own : Inodes) (name : Str) (xs : List ℕ) (found : ℕ)
    → first_named own name xs ≡ found
    → (found == 0) ≡ false
    → has found xs ≡ true
first_named-has own name [] found e hit = absurd (ground arith)
first_named-has own name (x ∷ xs) found e hit = elim (Bool-cases (is_named own x name)) [
  | inl named ↦ let here : x ≡ found = rw named at e in ground arith
  | inr other ↦ let later = first_named-has own name xs found (rw other at e) hit in ground arith
]

-- Among `p` and the inodes behind it, linking over `found` from `at`, and what is then linked to `p`.
abbrev Unlinked : Inodes → ℕ → List ℕ → ℕ → ℕ → Type 0
Unlinked own p xs at found =
    let own' = set_inode at (record (own at) { next_sibling = (own found).next_sibling }) own in
    ((at == 0) ≡ false)
    × (has at (p ∷ xs) ≡ true)
    × Chain own' (own' p).next_sibling (remove found xs)

unlink-later :
    (own : Inodes) (name : Str) (p : ℕ) (xs : List ℕ) (at found : ℕ)
    → (p == 0) ≡ false
    → Distinct (p ∷ xs)
    → Chain own (own p).next_sibling xs
    → before_first own name p xs ≡ at
    → first_named own name xs ≡ found
    → (found == 0) ≡ false
    → Unlinked own p xs at found
unlink-later own name p [] at found set d c before first hit = absurd (ground arith)
unlink-later own name p (x ∷ xs) at found set d c before first hit =
    elim (Bool-cases (is_named own x name)) [
      | inl named ↦
          let own' = set_inode p (record (own p) { next_sibling = (own x).next_sibling }) own in
          let unlinked : Unlinked own p (x ∷ xs) p x = (
            set,
            rw (==_refl p) refl,
            rw (==_refl p, ==_refl x)
                (Chain-frame own own' (own x).next_sibling xs
                  (λ q i. let apart = has-apart p q (x ∷ xs) d.0 (ground arith) in rw apart refl)
                  c.2),
          ) in
          subst (λ w. Unlinked own p (x ∷ xs) w found) (rw named at before)
            (subst (λ w. Unlinked own p (x ∷ xs) p w) (rw named at first) unlinked)
      | inr other ↦
          let first' : first_named own name xs ≡ found = rw other at first in
          let (at_set, at_in, links) =
            unlink-later own name x xs at found c.1 d.1 c.2 (rw other at before) first' hit in
          let past : (at == p) ≡ false = has-apart p at (x ∷ xs) d.0 at_in in
          let past' : (p == at) ≡ false = ground arith in
          let member = first_named-has own name xs found first' hit in
          let beyond : (found == x) ≡ false = has-apart x found xs d.1.0 member in
          (at_set, rw (past, at_in) refl, rw (past', beyond) (c.0, c.1, links))
    ]

has-remove : (a b : ℕ) (xs : List ℕ) → has a xs ≡ false → has a (remove b xs) ≡ false
has-remove a b [] out = out
has-remove a b (x ∷ xs) out = elim (Bool-cases (b == x)) [
  | inl here ↦ rw here (ground arith)
  | inr later ↦ let rest = has-remove a b xs (ground arith) in rw later (ground arith)
]

-- The chain of the directory after the child found is taken out of it.
abbrev Taken : ℕ → Inodes → List ℕ → ℕ → ℕ → Type 0
Taken inode own xs at found =
    let own' = unlink_child inode at found own in
    Chain own' (own' inode).first_child (remove found xs)

unlink_child-Chain :
    (inode : ℕ) (own : Inodes) (name : Str) (xs : List ℕ) (at found : ℕ)
    → (inode == 0) ≡ false
    → has inode xs ≡ false
    → Distinct xs
    → Chain own (own inode).first_child xs
    → before_first own name 0 xs ≡ at
    → first_named own name xs ≡ found
    → (found == 0) ≡ false
    → Taken inode own xs at found
unlink_child-Chain inode own name [] at found set out d c before first hit = absurd (ground arith)
unlink_child-Chain inode own name (x ∷ xs) at found set out d c before first hit =
    elim (Bool-cases (is_named own x name)) [
      | inl named ↦
          let taken : Taken inode own (x ∷ xs) 0 x =
            rw (==_refl x) (unlink-first inode own name x xs set out (refl, c.1, c.2) named) in
          subst (λ w. Taken inode own (x ∷ xs) w found) (rw named at before)
            (subst (λ w. Taken inode own (x ∷ xs) 0 w) (rw named at first) taken)
      | inr other ↦
          let first' : first_named own name xs ≡ found = rw other at first in
          let (at_set, at_in, links) =
            unlink-later own name x xs at found c.1 d c.2 (rw other at before) first' hit in
          let past : (at == inode) ≡ false = has-apart inode at (x ∷ xs) out at_in in
          let past' : (inode == at) ≡ false = ground arith in
          let beyond : (found == x) ≡ false =
            has-apart x found xs d.0 (first_named-has own name xs found first' hit) in
          rw (at_set, past', beyond) (c.0, c.1, links)
    ]

abbrev pub occupied : Inodes → ℕ → Bool
occupied own child = is_dir (own child).kind && not ((own child).first_child == 0)

module _ (inode at found : ℕ) (st : TmpfsState) where
  remove_child-absent : (found == 0) ≡ true → remove_child inode at found st ≡ (err enoent, st)
  unfolding remove_child
  remove_child-absent e = rw (e, remove_child) refl

  remove_child-occupied :
      (found == 0) ≡ false
      → occupied st.own found ≡ true
      → remove_child inode at found st ≡ (err enotempty, st)
  unfolding remove_child
  remove_child-occupied e full = rw (e, full, remove_child) refl

  remove_child-taken :
      (found == 0) ≡ false
      → occupied st.own found ≡ false
      → let (r, st') = remove_child inode at found st in
        (r ≡ ok 0) × (st'.own ≡ unlink_child inode at found st.own) × (st'.store ≡ st.store)
  unfolding remove_child
  remove_child-taken e empty = (
    rw (e, empty, remove_child) refl,
    rw (e, empty, remove_child) refl,
    rw (e, empty, remove_child) refl,
  )

-- In a directory with the distinct children `xs`, with more rounds of fuel than these, `tmpfs_unlink` of
-- a name other than . and .. gives `ENOENT` if no child has that name and `ENOTEMPTY` if the first one
-- that has it is a directory with children, and changes nothing; otherwise it takes that child out of
-- the list of children and leaves the others in their order.
pub tmpfs_unlink-Directory :
    (fuel dir inode : ℕ) (xs : List ℕ) (name : Str) (st : TmpfsState)
    → Directory st dir inode xs
    → Distinct xs
    → Proper name
    → length xs < fuel
    → let found = first_named st.own name xs in
      ((found == 0) ≡ true → tmpfs_unlink fuel dir (some name) st ≡ some (err enoent, st))
      × ((found == 0) ≡ false
          → occupied st.own found ≡ true
          → tmpfs_unlink fuel dir (some name) st ≡ some (err enotempty, st))
      × ((found == 0) ≡ false
          → occupied st.own found ≡ false
          → (st' : TmpfsState) × (tmpfs_unlink fuel dir (some name) st ≡ some (ok 0, st'))
            × Directory st' dir inode (remove found xs))
unfolding tmpfs_unlink
tmpfs_unlink-Directory fuel dir inode xs name st d distinct proper enough =
    let found = first_named st.own name xs in
    let at = before_first st.own name 0 xs in
    let search =
      find_with_prev-Chain fuel st.own 0 (st.own inode).first_child name xs d.children enough in
    let st' = (remove_child inode at found st).1 in
    let run : tmpfs_unlink fuel dir (some name) st ≡ some (remove_child inode at found st) =
      rw (d.is_set, d.own_inode, d.has_inode, d.kind, proper.0, proper.1, search, tmpfs_unlink)
        (rw d.own_inode refl) in
    (
      λ absent. run ∙ ap some (remove_child-absent inode at found st absent),
      λ hit full. run ∙ ap some (remove_child-occupied inode at found st hit full),
      λ hit empty.
          let (r, own, store) = remove_child-taken inode at found st hit empty in
          (
            st',
            run ∙ ap (λ w. some (w, st')) r,
            record {
              is_set = d.is_set;
              own_inode = ap (λ w. (w.vnodes dir).private_data) store ∙ d.own_inode;
              has_inode = d.has_inode;
              kind = ap (λ w. is_vnode_dir (w.vnodes dir).kind) store ∙ d.kind;
              children =
                  subst (λ o. Chain o (o inode).first_child (remove found xs)) (sym own)
                    (unlink_child-Chain inode st.own name xs at found d.has_inode d.no_loop distinct
                      d.children refl refl hit);
              no_loop = has-remove inode found xs d.no_loop;
            },
          ),
    )
