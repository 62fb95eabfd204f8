-- ===== src/Memory/Compare.antt =====
-- `memcmp` and `memchr` report the first difference and the first match.
use mini_unix.Base.{
  ℕ, zero, suc, ◌+◌, ◌%◌, ◌<◌, ◌≡◌, ◌≢◌, refl, inl, inr, Option, none, some, arith, ◌==◌,
  Bool-cases, ==_eq,
}
use mini_unix.Base.Int.{ℤ, pos, sub_ℕ}
use mini_unix.Memory.{Bytes, compare_up, find_up, memcmp, memchr}

-- How a comparison of `n` bytes ends: all agree, or the areas differ first at `at`.
pub data Compared (m : Bytes) (p q n : ℕ) (r : ℤ) : Type 0 where
  equal : r ≡ pos 0 → ((j : ℕ) → j < n → m (p + j) ≡ m (q + j)) → Compared m p q n r
  differ :
      (at : ℕ)
      → at < n
      → m (p + at) ≢ m (q + at)
      → ((j : ℕ) → j < at → m (p + j) ≡ m (q + j))
      → r ≡ sub_ℕ (m (p + at)) (m (q + at))
      → Compared m p q n r

compare_up-Compared :
    (k i p q n : ℕ) (m : Bytes)
    → i + k ≡ n
    → ((j : ℕ) → j < i → m (p + j) ≡ m (q + j))
    → Compared m p q n (compare_up k i p q m)
unfolding compare_up
compare_up-Compared zero i p q n m e before = equal refl λ j lt. before j (omega arith)
compare_up-Compared (suc k) i p q n m e before = elim (Bool-cases (m (p + i) == m (q + i))) [
  | inl same ↦ rw same (
      compare_up-Compared k (i + 1) p q n m (omega arith) λ j lt. elim (Bool-cases (j == i)) [
        | inl here ↦ ground arith
        | inr earlier ↦ before j (ground arith)
      ])
  | inr other ↦ rw other (differ i (omega arith) (ground arith) before refl)
]

-- `memcmp` returns 0 if all bytes agree, and otherwise the difference of the first two that do not.
pub memcmp-Compared : (s1 s2 n : ℕ) (m : Bytes) → Compared m s1 s2 n (memcmp s1 s2 n m)
unfolding memcmp
memcmp-Compared s1 s2 n m =
    compare_up-Compared n 0 s1 s2 n m (omega arith) λ j lt. absurd (omega arith)

-- How a search through `n` bytes for `c` ends.
pub data Searched (m : Bytes) (s c n : ℕ) (r : Option ℕ) : Type 0 where
  absent : r ≡ none → ((j : ℕ) → j < n → m (s + j) ≢ c) → Searched m s c n r
  found :
      (at : ℕ)
      → at < n
      → m (s + at) ≡ c
      → ((j : ℕ) → j < at → m (s + j) ≢ c)
      → r ≡ some (s + at)
      → Searched m s c n r

find_up-Searched :
    (k i s c n : ℕ) (m : Bytes)
    → i + k ≡ n
    → ((j : ℕ) → j < i → m (s + j) ≢ c)
    → Searched m s c n (find_up k i s c m)
unfolding find_up
find_up-Searched zero i s c n m e before = absent refl λ j lt. before j (omega arith)
find_up-Searched (suc k) i s c n m e before = elim (Bool-cases (m (s + i) == c)) [
  | inl hit ↦ rw hit (found i (omega arith) (==_eq _ _ hit) before refl)
  | inr other ↦ rw other (
      find_up-Searched k (i + 1) s c n m (omega arith) λ j lt. elim (Bool-cases (j == i)) [
        | inl here ↦ ground arith
        | inr earlier ↦ before j (ground arith)
      ])
]

-- `memchr` returns the address of the first of `n` bytes that equals the low byte of its argument,
-- and NULL if there is none.
pub memchr-Searched : (s c n : ℕ) (m : Bytes) → Searched m s (c % 256) n (memchr s c n m)
unfolding memchr
memchr-Searched s c n m =
    find_up-Searched n 0 s (c % 256) n m (omega arith) λ j lt. absurd (omega arith)
