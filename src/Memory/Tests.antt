-- ===== src/Memory/Tests.antt =====
-- A memory whose byte at address `a` is the low byte of `a`: runs, and the theorems at it.
use mini_unix.Base.{
  false, arith, ◌==◌, inl, ◌+◌, ◌-◌, ◌%◌, ◌≤◌, ◌≡◌, ◌⊎◌, refl, some, none, if◌then◌else◌,
}
use mini_unix.Base.Int.{pos, negsuc}
use mini_unix.Memory.{
  Bytes, memcpy, memmove, memset, memcmp, memchr, copy_up, copy_down, set_up, compare_up, find_up,
}
use mini_unix.Memory.Copy.{in_area, memmove_lem, memcpy-memset_lem}
use mini_unix.Memory.Strings.{NoNul, strcpy, strncpy, strcpy-memcpy}
use mini_unix.Memory.Compare.{Compared, Searched, memcmp-Compared, memchr-Searched}

abbrev ramp : Bytes
ramp a = a % 256

memmove_example :
    memmove 12 10 4 ramp 13 ≡ (if in_area 12 4 13 then ramp (10 + (13 - 12)) else ramp 13)
memmove_example = memmove_lem 12 10 4 13 ramp

memcpy-memset_example :
    (((10 ≤ 12) ⊎ (12 + 4 ≤ 10))
      → memcpy 10 12 4 ramp 11 ≡ (if in_area 10 4 11 then ramp (12 + (11 - 10)) else ramp 11))
    × (memset 10 300 4 ramp 11 ≡ (if in_area 10 4 11 then 300 % 256 else ramp 11))
memcpy-memset_example = memcpy-memset_lem 10 12 300 4 11 ramp

memcmp_example : Compared ramp 3 259 6 (memcmp 3 259 6 ramp)
memcmp_example = memcmp-Compared 3 259 6 ramp

memchr_example : Searched ramp 3 (261 % 256) 6 (memchr 3 261 6 ramp)
memchr_example = memchr-Searched 3 261 6 ramp

-- three letters and a NUL at 10
abbrev letters : Bytes
letters a = if a == 13 then 0 else 65

letters-NoNul : NoNul letters 10 0 3
letters-NoNul j lt = let other : (10 + (0 + j) == 13) ≡ false = ground arith in rw other refl

strcpy_example :
    (strcpy 4 20 10 letters ≡ some (memcpy 20 10 4 letters))
    × (5 ≤ 3 → strncpy 20 10 5 letters ≡ memcpy 20 10 5 letters)
    × (3 ≤ 5 → strncpy 20 10 5 letters ≡ memset 23 0 2 (memcpy 20 10 3 letters))
strcpy_example =
    strcpy-memcpy 4 20 10 3 5 letters (inl (omega arith)) letters-NoNul refl (omega arith)

-- Runs.
memory_runs :
    (memmove 12 10 4 ramp 14 ≡ 12)
    × (memset 10 300 4 ramp 13 ≡ 44)
    × (memcmp 3 259 6 ramp ≡ pos 0)
    × (memcmp 3 260 6 ramp ≡ negsuc 0)
    × (memchr 3 261 6 ramp ≡ some 5)
    × (memchr 3 9 6 ramp ≡ none)
unfolding memmove copy_up copy_down memset set_up memcmp compare_up memchr find_up
memory_runs = (refl, refl, refl, refl, refl, refl)
