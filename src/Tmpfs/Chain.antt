-- ===== src/Tmpfs/Chain.antt =====
-- The children of a directory as a list, and the searches through them.
use mini_unix.Base.{
  ℕ, zero, suc, ◌<◌, ◌≡◌, refl, sym, subst, inl, inr, Bool, true, false, ◌||◌, List, [], ◌∷◌, some,
  arith, ◌==◌, if◌then◌else◌, Bool-cases, length,
}
use mini_unix.Text.{Str}
use mini_unix.Tmpfs.{Inodes, is_named, find_from}
use mini_unix.Tmpfs.Removal.{find_with_prev}

-- From `p` on the inodes are linked in the order of the list, and the last is linked to NULL.
abbrev pub Chain : Inodes → ℕ → List ℕ → Type 0
Chain inodes p [] = p ≡ 0
Chain inodes p (x ∷ xs) = (p ≡ x) × ((x == 0) ≡ false) × Chain inodes (inodes x).next_sibling xs

abbrev pub has : ℕ → List ℕ → Bool
has a [] = false
has a (x ∷ xs) = (a == x) || has a xs

-- the first of the inodes with the name, 0 for none
abbrev pub first_named : Inodes → Str → List ℕ → ℕ
first_named inodes name [] = 0
first_named inodes name (x ∷ xs) =
    let rest = first_named inodes name xs in if is_named inodes x name then x else rest

-- the list without its first entry `a`
abbrev pub remove : ℕ → List ℕ → List ℕ
remove a [] = []
remove a (x ∷ xs) = let rest = remove a xs in if a == x then xs else x ∷ rest

pub find_from-Chain :
    (fuel : ℕ) (inodes : Inodes) (p : ℕ) (name : Str) (xs : List ℕ)
    → Chain inodes p xs
    → length xs < fuel
    → find_from fuel inodes p name ≡ some (first_named inodes name xs)
unfolding find_from
find_from-Chain zero inodes p name xs c lt = absurd (omega arith)
find_from-Chain (suc fuel) inodes p name [] c lt = ground arith
find_from-Chain (suc fuel) inodes p name (x ∷ xs) c lt =
    let later = find_from-Chain fuel inodes (inodes x).next_sibling name xs c.2 (omega arith) in
    subst (λ q. find_from (suc fuel) inodes q name ≡ some (first_named inodes name (x ∷ xs)))
      (sym c.0)
      (elim (Bool-cases (is_named inodes x name)) [
        | inl hit ↦ rw (c.1, hit) refl
        | inr miss ↦ rw (c.1, miss) later
      ])

-- A chain depends on the links of its inodes alone,
pub Chain-frame :
    (inodes inodes' : Inodes) (p : ℕ) (xs : List ℕ)
    → ((c : ℕ) → has c xs ≡ true → (inodes' c).next_sibling ≡ (inodes c).next_sibling)
    → Chain inodes p xs
    → Chain inodes' p xs
Chain-frame inodes inodes' p [] same c = c
Chain-frame inodes inodes' p (x ∷ xs) same c = (
  c.0,
  c.1,
  Chain-frame inodes inodes' (inodes' x).next_sibling xs (λ y i. same y (ground arith))
      (subst (λ q. Chain inodes q xs) (sym (same x (ground arith))) c.2),
)

-- and what is found in it on their names.
pub first_named-frame :
    (inodes inodes' : Inodes) (name : Str) (xs : List ℕ)
    → ((c : ℕ) → has c xs ≡ true → (inodes' c).name ≡ (inodes c).name)
    → first_named inodes' name xs ≡ first_named inodes name xs
first_named-frame inodes inodes' name [] same = refl
first_named-frame inodes inodes' name (x ∷ xs) same =
    let later = first_named-frame inodes inodes' name xs (λ c i. same c (ground arith)) in
    rw (same x (ground arith), later) refl

pub has-apart : (a c : ℕ) (xs : List ℕ) → has a xs ≡ false → has c xs ≡ true → (c == a) ≡ false
has-apart a c [] out i = absurd (cc i)
has-apart a c (x ∷ xs) out i = elim (Bool-cases (c == x)) [
  | inl here ↦ ground arith
  | inr later ↦ has-apart a c xs (ground arith) (ground arith)
]

-- Where the search of `tmpfs_unlink` ends: at the child that `tmpfs_find_child` finds, and the one in
-- front of it in the list.
abbrev pub before_first : Inodes → Str → ℕ → List ℕ → ℕ
before_first inodes name prev [] = prev
before_first inodes name prev (x ∷ xs) =
    let rest = before_first inodes name x xs in if is_named inodes x name then prev else rest

pub find_with_prev-Chain :
    (fuel : ℕ) (inodes : Inodes) (prev p : ℕ) (name : Str) (xs : List ℕ)
    → Chain inodes p xs
    → length xs < fuel
    → find_with_prev fuel inodes prev p name
      ≡ some (before_first inodes name prev xs, first_named inodes name xs)
unfolding find_with_prev
find_with_prev-Chain zero inodes prev p name xs c lt = absurd (omega arith)
find_with_prev-Chain (suc fuel) inodes prev p name [] c lt = ground arith
find_with_prev-Chain (suc fuel) inodes prev p name (x ∷ xs) c lt =
    let later =
      find_with_prev-Chain fuel inodes x (inodes x).next_sibling name xs c.2 (omega arith) in
    subst
      (λ q.
        find_with_prev (suc fuel) inodes prev q name
        ≡ some (before_first inodes name prev (x ∷ xs), first_named inodes name (x ∷ xs)))
      (sym c.0)
      (elim (Bool-cases (is_named inodes x name)) [
        | inl hit ↦ rw (c.1, hit) refl
        | inr miss ↦ rw (c.1, miss) later
      ])

-- What is found is not an inode from outside.
pub first_named-apart :
    (a : ℕ) (inodes : Inodes) (name : Str) (xs : List ℕ)
    → has a xs ≡ false
    → (a == 0) ≡ false
    → (first_named inodes name xs == a) ≡ false
first_named-apart a inodes name [] out set = ground arith
first_named-apart a inodes name (x ∷ xs) out set =
    let later = first_named-apart a inodes name xs (ground arith) set in
    elim (Bool-cases (is_named inodes x name)) [
      | inl hit ↦ rw hit (ground arith)
      | inr miss ↦ rw miss later
    ]
