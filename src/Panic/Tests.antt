-- ===== src/Panic/Tests.antt =====
-- A failed assertion on an empty screen.
use mini_unix.Base.{ℕ, ◌≡◌, true, false, [], ◌∷◌, some, arith}
use mini_unix.Text.{Str}
use mini_unix.Panic.{Console, halted, assert}
use mini_unix.Panic.Report.{report, assert_lem}

abbrev string_at : ℕ → Str
string_at p = p ∷ 0 ∷ []

abbrev console : Console
console = record { screen = record { cells = λ p. 0; tty_x = 0; tty_y = 0 }; enabled = true }

assert_example :
    assert string_at false 97 98 41 0 console
    ≡ some (halted record { screen = report string_at 97 98 41 0 console.screen; enabled = false })
assert_example = assert_lem string_at false 97 98 41 0 console (omega arith)
