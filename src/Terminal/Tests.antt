-- ===== src/Terminal/Tests.antt =====
-- An empty terminal: runs, and the theorem at it.
use mini_unix.Base.{◌≡◌, refl, [], ◌∷◌, arith}
use mini_unix.Text.{strcmp, strncmp}
use mini_unix.Screen.{Screen, tty_putchar, tty_write}
use mini_unix.Terminal.{Terminal, command_execute, shell_key}
use mini_unix.Terminal.Line.{shell_keys, shell_keys-command_execute}

abbrev screen : Screen
screen = record { cells = λ p. 0; tty_x = 0; tty_y = 0 }

abbrev terminal : Terminal
terminal = record { buffer = λ i. i; len = 0; screen = screen }

-- "hq", a backspace, "i"
shell_keys_example :
    let t' = shell_keys (104 ∷ 113 ∷ 8 ∷ 105 ∷ []) terminal in
    let t'' = shell_key 10 t' in
    (t''.screen
      ≡ tty_write (62 ∷ 32 ∷ []) (command_execute (104 ∷ 105 ∷ []) (tty_putchar 10 t'.screen)))
    × (t''.len ≡ 0)
    × (t'.buffer 128 ≡ 128)
shell_keys_example =
    shell_keys-command_execute terminal (104 ∷ 113 ∷ 8 ∷ 105 ∷ []) 128 refl
      (refl, (refl, (refl, (refl, tt)))) (omega arith) (omega arith)

echoed :
    command_execute (101 ∷ 99 ∷ 104 ∷ 111 ∷ 32 ∷ 120 ∷ []) screen
    ≡ tty_putchar 10 (tty_putchar 120 screen)
unfolding command_execute strcmp strncmp tty_write
echoed = refl
