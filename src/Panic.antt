-- ===== src/Panic.antt =====
-- kernel/lib/panic.c and kernel/lib/assert.c: the end of a kernel that found an error. The texts are in
-- memory, as those of Print; 0 stands for NULL. Nothing wakes a processor that halts with its interrupts
-- off, so the loop around `hlt` has no step that returns.
pub mod Report
mod Tests
use mini_unix.Base.{ℕ, Bool, true, false, List, [], ◌∷◌, Option, none, some, ◌==◌, if◌then◌else◌}
use mini_unix.Text.{Str}
use mini_unix.Screen.{Screen}
use mini_unix.Print.{kprint, kprintf}

-- the screen and the interrupt flag of the processor
pub record Console : Type 0 where
  pub screen : Screen
  pub enabled : Bool

-- A call returns, or the processor halts for good.
pub data Fate : Type 0 where
  goes_on halted : (c : Console) → Fate

-- "\n!!! KERNEL PANIC !!!\n"
abbrev pub banner : Str
banner =
    10 ∷ 33 ∷ 33 ∷ 33 ∷ 32 ∷ 75 ∷ 69 ∷ 82 ∷ 78 ∷ 69 ∷ 76 ∷ 32 ∷ 80 ∷ 65 ∷ 78 ∷ 73 ∷ 67 ∷ 32 ∷ 33
    ∷ 33 ∷ 33 ∷ 10 ∷ []

-- "Assertion failed: %s\n"
abbrev pub assertion_format : Str
assertion_format =
    65 ∷ 115 ∷ 115 ∷ 101 ∷ 114 ∷ 116 ∷ 105 ∷ 111 ∷ 110 ∷ 32 ∷ 102 ∷ 97 ∷ 105 ∷ 108 ∷ 101 ∷ 100 ∷ 58
    ∷ 32 ∷ 37 ∷ 115 ∷ 10 ∷ []

-- "Location: %s:%d\n"
abbrev pub location_format : Str
location_format =
    76 ∷ 111 ∷ 99 ∷ 97 ∷ 116 ∷ 105 ∷ 111 ∷ 110 ∷ 58 ∷ 32 ∷ 37 ∷ 115 ∷ 58 ∷ 37 ∷ 100 ∷ 10 ∷ []

-- "Function: %s\n"
abbrev pub function_format : Str
function_format = 70 ∷ 117 ∷ 110 ∷ 99 ∷ 116 ∷ 105 ∷ 111 ∷ 110 ∷ 58 ∷ 32 ∷ 37 ∷ 115 ∷ 10 ∷ []

-- "\nSystem halted permanently.\n"
abbrev pub last_words : Str
last_words =
    10 ∷ 83 ∷ 121 ∷ 115 ∷ 116 ∷ 101 ∷ 109 ∷ 32 ∷ 104 ∷ 97 ∷ 108 ∷ 116 ∷ 101 ∷ 100 ∷ 32 ∷ 112 ∷ 101
    ∷ 114 ∷ 109 ∷ 97 ∷ 110 ∷ 101 ∷ 110 ∷ 116 ∷ 108 ∷ 121 ∷ 46 ∷ 10 ∷ []

infixl 5 ◌>>=◌
abbrev ◌>>=◌ : Option Screen → (Screen → Option Fate) → Option Fate
none >>= f = none
some s >>= f = f s

module _ (string_at : ℕ → Str) where
  -- a line of the report, if its pointer is not NULL
  abbrev pub line_if : (pointer : ℕ) (fmt : Str) (args : List ℕ) → Screen → Option Screen
  line_if pointer fmt args s = if pointer == 0 then some s else kprintf string_at fmt args s

  unfoldable pub panic : (expr file line func : ℕ) → Console → Option Fate
  panic expr file line func c = do
    s1 ← line_if expr assertion_format (expr ∷ []) (kprint (some banner) c.screen)
    s2 ← line_if file location_format (file ∷ line ∷ []) s1
    s3 ← line_if func function_format (func ∷ []) s2
    some (halted record { screen = kprint (some last_words) s3; enabled = false })

  unfoldable pub assert_failure : (expr file line func : ℕ) → Console → Option Fate
  assert_failure expr file line func c = panic expr file line func c

  -- `ASSERT` of a condition
  unfoldable pub assert : (holds : Bool) (expr file line func : ℕ) → Console → Option Fate
  assert true expr file line func c = some (goes_on c)
  assert false expr file line func c = assert_failure expr file line func c
