-- ===== src/Vfs/Walk.antt =====
-- `vfs_lookup` goes from vnode to vnode along the components of a path.
use mini_unix.Base.{
  ℕ, zero, suc, ◌+◌, ◌<◌, ◌≡◌, ◌≢◌, refl, ◌∙◌, ap, fun_ext, true, false, List, [], ◌∷◌, Option,
  none, some, arith, length, ◌||◌, ◌==◌, if◌then◌else◌,
}
use mini_unix.Errno.{enoent, enotdir, einval, ok, err}
use mini_unix.Text.{Str}
use mini_unix.Vfs.{
  slash, Store, Lookup, Outcome, mounted_root, lookup_step, lookup_loop, vfs_lookup, next_component,
}
use mini_unix.Vfs.Names.{components, Next, last, step, next_component-Next}

-- The root of what is mounted at a vnode, or the vnode itself, where nothing is.
abbrev pub on_top : Store → ℕ → ℕ
on_top st node =
    let mount = (st.vnodes node).mounted_here in
    if (node == 0) || (mount == 0) then node else (st.mounts mount).root

module _ (lookup_of : ℕ → Option Lookup) where
  -- Where a list of names leads to from a vnode: the first name is looked up in the vnode that stands on
  -- top of it, by the `lookup` function behind that vnode's table, and the others from the child on, in the
  -- store that this function leaves. Without a vnode to look in there is no result; one without a table
  -- or a function is no directory; a name that is not found ends the walk. At the end, too, the vnode on
  -- top is taken.
  abbrev pub walk : List Str → ℕ → Store → Outcome
  walk [] current st = some (ok (on_top st current), st)
  walk (name ∷ names) current st =
      let dir = on_top st current in
      let ops = (st.vnodes dir).ops in
      if dir == 0 then none else if ops == 0 then some (err enotdir, st) else elim (lookup_of ops) [
        | none ↦ some (err enotdir, st)
        | some lookup ↦
            let (r, st') = lookup dir name st in
            elim r [ err e ↦ some (err enoent, st') | ok child ↦ walk names child st' ]
      ]

  lookup_loop-next :
      (fuel : ℕ) (path : Str) (next : Option (Str × Str)) (current : ℕ) (st : Store)
      → next_component path ≡ next
      → Next path next
      → ((rest : Str)
          → length rest < length path
          → (λ c s. lookup_loop lookup_of fuel rest c s) ≡ walk (components rest))
      → lookup_loop lookup_of (suc fuel) path current st ≡ walk (components path) current st
  unfolding lookup_loop
  lookup_loop-next fuel path none current st e (last over) later = rw (over, e, lookup_loop) refl
  lookup_loop-next fuel path (some (n, r)) current st e (step name rest more lt) later =
      rw (more, e, lookup_loop) (ap (lookup_step lookup_of name current st) (later rest lt))

  lookup_loop-walk :
      (fuel : ℕ) (path : Str) (current : ℕ) (st : Store)
      → length path < fuel
      → lookup_loop lookup_of fuel path current st ≡ walk (components path) current st
  lookup_loop-walk zero path current st lt = absurd (omega arith)
  lookup_loop-walk (suc fuel) path current st lt =
      lookup_loop-next fuel path (next_component path) current st refl (next_component-Next path)
        λ rest shorter. fun_ext λ c. fun_ext λ s. lookup_loop-walk fuel rest c s (omega arith)

  -- `vfs_lookup` of a path that starts with a slash, with a place for the result, goes from the root
  -- through the components of the path, however many slashes separate or end them, and never runs out
  -- of the rounds it is given: each component is looked up in the root of what is mounted at the vnode so
  -- far, with `ENOTDIR` where there is no `lookup`, and `ENOENT` where that fails; the result is the root of
  -- what is mounted at the last vnode. A NULL or empty path, one that does not start with a slash, and a
  -- call without a place for the result give `EINVAL`.
  pub vfs_lookup-walk :
      (s : Str) (c : ℕ) (st : Store)
      → (vfs_lookup lookup_of (some (slash ∷ s)) true st
          ≡ walk (components s) (on_top st st.root_vnode) st)
        × (c ≢ slash → vfs_lookup lookup_of (some (c ∷ s)) true st ≡ some (err einval, st))
        × (vfs_lookup lookup_of (some (c ∷ s)) false st ≡ some (err einval, st))
        × (vfs_lookup lookup_of none true st ≡ some (err einval, st))
        × (vfs_lookup lookup_of (some []) true st ≡ some (err einval, st))
  unfolding vfs_lookup
  vfs_lookup-walk s c st = (
    lookup_loop-walk (length (slash ∷ s) + 1) (slash ∷ s) (mounted_root st st.root_vnode) st
        (omega arith),
    λ ne. ground arith,
    refl,
    refl,
    refl,
  )

  -- The path / leads to the root vnode, while nothing is mounted there.
  pub vfs_lookup-slash :
      (store : Store)
      → mounted_root store store.root_vnode ≡ store.root_vnode
      → vfs_lookup lookup_of (some (slash ∷ [])) true store ≡ some (ok store.root_vnode, store)
  vfs_lookup-slash store own =
      let (walked, _, _, _, _) = vfs_lookup-walk [] 0 store in
      walked ∙ ap (λ v. some (ok v, store)) (ap (mounted_root store) own ∙ own)
