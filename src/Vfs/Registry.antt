-- ===== src/Vfs/Registry.antt =====
-- The table of file systems is a partial map from names.
use mini_unix.Base.{
  ℕ, zero, suc, ◌+◌, ◌≤◌, ◌<◌, ◌≡◌, ◌≢◌, refl, ◌∙◌, inl, inr, true, false, [], ◌∷◌, none, some,
  arith, ◌==◌, Bool-cases, Option-cases, ==_eq, ap,
}
use mini_unix.Base.Int.{is_zero}
use mini_unix.Errno.{eexist, enospc, Result, ok, err}
use mini_unix.Text.{Str, strcmp}
use mini_unix.Vfs.{
  Filesystem, Table, max_filesystems, has_name, find_loop, vfs_find_fs, install, install_loop,
  vfs_register_fs,
}

pub strcmp_refl : (s : Str) → is_zero (strcmp s s) ≡ true
unfolding strcmp
strcmp_refl [] = refl
strcmp_refl (a ∷ s) = ground (arith, strcmp_refl s)

-- Where the search of a loop for a free slot ends.
pub data Installed (table : Table) (fs : Filesystem) (n i : ℕ) (r : Result ℕ × Table) : Type 0 where
  full :
      r ≡ (err enospc, table)
      → ((j : ℕ) → i ≤ j → j < i + n → table j ≢ none)
      → Installed table fs n i r
  placed :
      (slot : ℕ)
      → i ≤ slot
      → slot < i + n
      → table slot ≡ none
      → r ≡ (ok 0, install table slot fs)
      → Installed table fs n i r

install_loop-Installed :
    (n i : ℕ) (fs : Filesystem) (table : Table) → Installed table fs n i (install_loop n i fs table)
unfolding install_loop
install_loop-Installed zero i fs table = full refl λ j lo hi. absurd (omega arith)
install_loop-Installed (suc n) i fs table = elim (Option-cases (table i)) [
  | inl vacant ↦ rw (vacant, install_loop) (placed i (omega arith) (omega arith) vacant refl)
  | inr (f, taken) ↦
      rw (taken, install_loop)
        (elim (install_loop-Installed n (i + 1) fs table) [
          | full e used ↦ full e λ j lo hi. elim (Bool-cases (j == i)) [
            | inl here ↦ λ vacant. absurd (cc (taken, vacant, ap table (==_eq j i here)))
            | inr later ↦ used j (ground arith) (omega arith)
          ]
          | placed slot lo hi vacant e ↦ placed slot (omega arith) (omega arith) vacant e
        ])
]

-- Another name is found as before.
find_loop-install_other :
    (n i slot : ℕ) (fs : Filesystem) (table : Table) (name : Str)
    → table slot ≡ none
    → has_name (some fs) name ≡ false
    → find_loop n i (install table slot fs) name ≡ find_loop n i table name
unfolding find_loop
find_loop-install_other zero i slot fs table name vacant other = refl
find_loop-install_other (suc n) i slot fs table name vacant other = elim (Bool-cases (i == slot)) [
  | inl here ↦
      let empty : table i ≡ none = ap table (==_eq i slot here) ∙ vacant in
      rw (here, other, empty) (find_loop-install_other n (i + 1) slot fs table name vacant other)
  | inr away ↦ rw (away, find_loop-install_other n (i + 1) slot fs table name vacant other) refl
]

the_hit :
    (n i : ℕ) (table : Table) (name : Str)
    → has_name (table i) name ≡ true
    → table i ≡ find_loop (suc n) i table name
unfolding find_loop
the_hit n i table name hit = rw hit refl

the_miss :
    (n i : ℕ) (table : Table) (name : Str)
    → has_name (table i) name ≡ false
    → find_loop n (i + 1) table name ≡ find_loop (suc n) i table name
unfolding find_loop
the_miss n i table name miss = rw miss refl

find_loop-none :
    (n i : ℕ) (table : Table) (name : Str)
    → find_loop (suc n) i table name ≡ none
    → (has_name (table i) name ≡ false) × (find_loop n (i + 1) table name ≡ none)
unfolding find_loop
find_loop-none n i table name e = elim (Bool-cases (has_name (table i) name)) [
  | inl hit ↦
      let vacant : table i ≡ none = the_hit n i table name hit ∙ e in
      absurd (cc (hit, ap (λ f. has_name f name) vacant))
  | inr miss ↦ (miss, the_miss n i table name miss ∙ e)
]

find_loop-install_same :
    (n i slot : ℕ) (fs : Filesystem) (table : Table) (name : Str)
    → i ≤ slot
    → slot < i + n
    → find_loop n i table name ≡ none
    → has_name (some fs) name ≡ true
    → find_loop n i (install table slot fs) name ≡ some fs
unfolding find_loop
find_loop-install_same zero i slot fs table name lo hi missing same = absurd (omega arith)
find_loop-install_same (suc n) i slot fs table name lo hi missing same =
    elim (Bool-cases (i == slot)) [
      | inl here ↦ rw (here, same) refl
      | inr away ↦
          let (miss, later) = find_loop-none n i table name missing in
          rw (away, miss)
            (find_loop-install_same n (i + 1) slot fs table name (ground arith) (omega arith) later
              same)
    ]

-- the file system with this name and `mount` function
abbrev pub named : Str → ℕ → Filesystem
named name mount = record { name = some name; mount = mount }

module _ (name : Str) (mount : ℕ) (mounts : (mount == 0) ≡ false) (table : Table) where
  register-new :
      find_loop max_filesystems 0 table name ≡ none
      → vfs_register_fs (some (named name mount)) table
        ≡ install_loop max_filesystems 0 (named name mount) table
  unfolding vfs_register_fs
  register-new missing = rw (mounts, missing) refl

  register-taken :
      (fs : Filesystem)
      → find_loop max_filesystems 0 table name ≡ some fs
      → vfs_register_fs (some (named name mount)) table ≡ (err eexist, table)
  unfolding vfs_register_fs
  register-taken fs found = rw (mounts, found) refl

-- A file system with a name and a `mount` function, under a name that is not taken, is registered if
-- one of the 16 slots is free. Then `vfs_find_fs` finds it under its name, finds what it found before
-- under every name that `strcmp` tells from it, and registering the name again gives `EEXIST` and
-- changes nothing.
pub vfs_register_fs-find :
    (name : Str) (mount : ℕ) (other : Str) (table : Table) (slot : ℕ)
    → (mount == 0) ≡ false
    → vfs_find_fs (some name) table ≡ none
    → slot < max_filesystems
    → table slot ≡ none
    → let fs = named name mount in
      let (r, table') = vfs_register_fs (some fs) table in
      (r ≡ ok 0)
      × (vfs_find_fs (some name) table' ≡ some fs)
      × (is_zero (strcmp name other) ≡ false
          → vfs_find_fs (some other) table' ≡ vfs_find_fs (some other) table)
      × (vfs_register_fs (some fs) table' ≡ (err eexist, table'))
unfolding vfs_find_fs
vfs_register_fs-find name mount other table slot mounts missing lt vacant =
    let fs = named name mount in
    elim (install_loop-Installed max_filesystems 0 fs table) [
      | full e used ↦ absurd (used slot (omega arith) (omega arith) vacant)
      | placed at lo hi empty e ↦
          let found : find_loop max_filesystems 0 (install table at fs) name ≡ some fs =
            find_loop-install_same max_filesystems 0 at fs table name lo hi missing
              (strcmp_refl name) in
          rw (register-new name mount mounts table missing, e)
            (
              refl,
              found,
              λ differs. find_loop-install_other max_filesystems 0 at fs table other empty differs,
              register-taken name mount mounts (install table at fs) fs found,
            )
    ]
