-- ===== src/Text/Laws.antt =====
-- The comparisons decide equality and the order of strings, and of their beginnings.
use mini_unix.Base.{
  sym, ◌∙◌, subst, ◌++◌, ℕ, zero, suc, ◌≡◌, ◌≢◌, ◌↔◌, refl, ap₂, Bool, true, false, ◌&&◌, ◌||◌, [],
  ◌∷◌, arith, ◌==◌, ltb, length,
}
use mini_unix.Base.Int.{is_zero, is_negative}
use mini_unix.Text.{Str, strlen, strcmp, strncmp}

-- No byte of the list ends the string early.
abbrev pub NoNul : Str → Type 0
NoNul [] = Unit {0}
NoNul (a ∷ s) = (a ≢ 0) × NoNul s

-- the order of a dictionary
abbrev pub before : Str → Str → Bool
before [] [] = false
before [] (b ∷ r) = true
before (a ∷ l) [] = false
before (a ∷ l) (b ∷ r) = ltb a b || ((a == b) && before l r)

abbrev pub same : Str → Str → Bool
same [] [] = true
same [] (b ∷ r) = false
same (a ∷ l) [] = false
same (a ∷ l) (b ∷ r) = (a == b) && same l r

-- the first `n` bytes
abbrev pub prefix : ℕ → Str → Str
prefix zero s = []
prefix (suc n) [] = []
prefix (suc n) (a ∷ s) = a ∷ prefix n s

pub same→eq : (l r : Str) → same l r ≡ true → l ≡ r
same→eq [] [] e = refl
same→eq [] (b ∷ r) e = cc
same→eq (a ∷ l) [] e = cc
same→eq (a ∷ l) (b ∷ r) e = ap₂ ◌∷◌ (ground arith) (same→eq l r (ground arith))

pub same_refl : (l : Str) → same l l ≡ true
same_refl [] = refl
same_refl (a ∷ l) = ground (arith, same_refl l)

strcmp-same :
    (l r : Str)
    → NoNul l
    → NoNul r
    → (is_zero (strcmp l r) ≡ same l r) × (is_negative (strcmp l r) ≡ before l r)
unfolding strcmp
strcmp-same [] [] hl hr = (refl, refl)
strcmp-same [] (b ∷ r) hl hr = (ground arith, ground arith)
strcmp-same (a ∷ l) [] hl hr = (ground arith, ground arith)
strcmp-same (a ∷ l) (b ∷ r) hl hr =
    let (z, n) = strcmp-same l r hl.1 hr.1 in (ground arith, ground arith)

-- `strcmp` of two strings without a NUL among their bytes is 0 exactly when they are equal, and
-- negative exactly when the left one comes first in the order of a dictionary.
pub strcmp_lem :
    (l r : Str)
    → NoNul l
    → NoNul r
    → (is_zero (strcmp l r) ≡ true ↔ (l ≡ r)) × (is_negative (strcmp l r) ≡ before l r)
strcmp_lem l r hl hr =
    let (z, n) = strcmp-same l r hl hr in
    ((λ e. same→eq l r (sym z ∙ e), λ e. z ∙ subst (λ x. same l x ≡ true) e (same_refl l)), n)

-- `strncmp` of two strings compares their first `n` bytes the way `strcmp` does.
pub strncmp-strcmp : (l r : Str) (n : ℕ) → strncmp l r n ≡ strcmp (prefix n l) (prefix n r)
unfolding strncmp strcmp
strncmp-strcmp l r zero = refl
strncmp-strcmp [] [] (suc n) = refl
strncmp-strcmp [] (b ∷ r) (suc n) = refl
strncmp-strcmp (a ∷ l) [] (suc n) = refl
strncmp-strcmp (a ∷ l) (b ∷ r) (suc n) = rw (strncmp-strcmp l r n)

-- `strlen` stops at the first NUL: what lies in front of it has no NUL and is as long as `strlen` says,
-- whatever follows it.
pub strlen_lem :
    (s rest : Str) → NoNul s → (strlen s ≡ length s) × (strlen (s ++ 0 ∷ rest) ≡ length s)
unfolding strlen
strlen_lem [] rest h = (refl, refl)
strlen_lem (a ∷ s) rest h = let (e, f) = strlen_lem s rest h.1 in (ground arith, ground arith)
