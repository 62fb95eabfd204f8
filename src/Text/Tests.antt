-- ===== src/Text/Tests.antt =====
-- Runs on short strings, and the theorems at them.
use mini_unix.Base.{◌≡◌, ◌↔◌, refl, true, [], ◌∷◌, ◌++◌, arith, length}
use mini_unix.Base.Int.{pos, negsuc, is_zero, is_negative}
use mini_unix.Text.{Str, strlen, strcmp, strncmp}
use mini_unix.Text.Laws.{before, prefix, strcmp_lem, strncmp-strcmp, strlen_lem}

abbrev tmp : Str
tmp = 116 ∷ 109 ∷ 112 ∷ []

abbrev tty : Str
tty = 116 ∷ 116 ∷ 121 ∷ []

strcmp_example :
    (is_zero (strcmp tmp tty) ≡ true ↔ (tmp ≡ tty))
    × (is_negative (strcmp tmp tty) ≡ before tmp tty)
strcmp_example =
    strcmp_lem tmp tty (omega arith, (omega arith, (omega arith, tt)))
      (omega arith, (omega arith, (omega arith, tt)))

strncmp_example : strncmp tmp tty 2 ≡ strcmp (prefix 2 tmp) (prefix 2 tty)
strncmp_example = strncmp-strcmp tmp tty 2

strlen_example : (strlen tmp ≡ length tmp) × (strlen (tmp ++ 0 ∷ tty) ≡ length tmp)
strlen_example = strlen_lem tmp tty (omega arith, (omega arith, (omega arith, tt)))

-- Runs.
text_runs :
    (strcmp tmp tty ≡ negsuc 6)
    × (strcmp tty tty ≡ pos 0)
    × (strncmp tmp tty 1 ≡ pos 0)
    × (strlen tmp ≡ 3)
unfolding strcmp strncmp strlen
text_runs = (refl, refl, refl, refl)
