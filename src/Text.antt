-- ===== src/Text.antt =====
-- `strlen`, `strcmp` and `strncmp` of kernel/lib/string.c. A string is the list of its bytes up to the
-- NUL, which the end of the list stands for; a byte 0 within the list ends the string, too. A loop
-- over an index recurs on the string behind that index.
pub mod Laws
mod Tests
use mini_unix.Base.{ℕ, zero, suc, Bool, true, false, not, ◌&&◌, List, [], ◌∷◌, ◌==◌, if◌then◌else◌}
use mini_unix.Base.Int.{ℤ, pos, sub_ℕ}

abbrev pub Str : Type 0
Str = List ℕ

unfoldable pub strlen : Str → ℕ
strlen [] = 0
strlen (a ∷ s) = if a == 0 then 0 else suc (strlen s)

unfoldable pub strcmp : Str → Str → ℤ
strcmp [] [] = pos 0
strcmp [] (b ∷ r) = sub_ℕ 0 b
strcmp (a ∷ l) [] = sub_ℕ a 0
strcmp (a ∷ l) (b ∷ r) =
    let rest = strcmp l r in if (a == b) && not (a == 0) then rest else sub_ℕ a b

unfoldable pub strncmp : Str → Str → ℕ → ℤ
strncmp l r zero = pos 0
strncmp [] [] (suc n) = pos 0
strncmp [] (b ∷ r) (suc n) = sub_ℕ 0 b
strncmp (a ∷ l) [] (suc n) = sub_ℕ a 0
strncmp (a ∷ l) (b ∷ r) (suc n) =
    let rest = strncmp l r n in if (a == b) && not (a == 0) then rest else sub_ℕ a b
