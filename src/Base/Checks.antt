-- ===== src/Base/Checks.antt =====
-- Checking a test at every number below a bound by evaluation.
use mathlib.Core.Bool.{Bool, true, false}
use mathlib.Core.Path.{◌≡◌}
use mathlib.Core.Logic.{inl, inr}
use native.Mathlib.Omega.{arith}
use Prim.Native.Nat.{ℕ, zero, suc, ◌+◌, ◌≤◌, ◌<◌}
use mini_unix.Base.Tests.{◌==◌, Bool-cases, if◌then◌else◌}

-- `more` numbers from `start` on pass the test.
unfoldable pub check_from : (more start : ℕ) → (ℕ → Bool) → Bool
check_from zero start test = true
check_from (suc more) start test = if test start then check_from more (start + 1) test else false

-- Every number below the bound passes the test.
abbrev pub checked : ℕ → (ℕ → Bool) → Bool
checked bound test = check_from bound 0 test

check_from_lem :
    (more start x : ℕ) (test : ℕ → Bool)
    → check_from more start test ≡ true
    → start ≤ x
    → x < start + more
    → test x ≡ true
unfolding check_from
check_from_lem zero start x test passed lo hi = absurd (omega arith)
check_from_lem (suc more) start x test passed lo hi = elim (Bool-cases (x == start)) [
  | inl here ↦ ground arith
  | inr later ↦ check_from_lem more (start + 1) x test (ground arith) (ground arith) (omega arith)
]

pub checked_lem :
    (bound : ℕ) (test : ℕ → Bool) (x : ℕ) → checked bound test ≡ true → x < bound → test x ≡ true
checked_lem bound test x passed lt =
    check_from_lem bound 0 x test passed (omega arith) (omega arith)
