-- ===== src/Memory/Strings.antt =====
-- `strcpy` and `strncpy` of kernel/lib/string.c, over the byte memory.
use mini_unix.Base.{
  ℕ, zero, suc, ◌+◌, ◌-◌, ◌<◌, ◌≤◌, ◌≡◌, ◌⊎◌, refl, ◌∙◌, ap, inl, inr, false, Option, none, some,
  arith, ◌==◌, if◌then◌else◌,
}
use mini_unix.Memory.{Bytes, poke, copy_up, set_up, memcpy, memset}

-- The loop of `strcpy` from index `i` on, and its last store. Fuel counts the rounds and the exit;
-- `none` is for too little of it.
unfoldable pub copy_string : (fuel i d s : ℕ) → Bytes → Option Bytes
copy_string zero i d s m = none
copy_string (suc fuel) i d s m =
    let rest = copy_string fuel (i + 1) d s (poke m (d + i) (m (s + i))) in
    if m (s + i) == 0 then some (poke m (d + i) 0) else rest

unfoldable pub strcpy : (fuel dest src : ℕ) → Bytes → Option Bytes
strcpy fuel dest src m = copy_string fuel 0 dest src m

-- the first loop of `strncpy` with `k` rounds left: the index that it ends at, and the memory
unfoldable pub copy_until_nul : (k i d s : ℕ) → Bytes → ℕ × Bytes
copy_until_nul zero i d s m = (i, m)
copy_until_nul (suc k) i d s m =
    let rest = copy_until_nul k (i + 1) d s (poke m (d + i) (m (s + i))) in
    if m (s + i) == 0 then (i, m) else rest

unfoldable pub strncpy : (dest src n : ℕ) → Bytes → Bytes
strncpy dest src n m = let (i, m') = copy_until_nul n 0 dest src m in set_up (n - i) i dest 0 m'

-- From index `i` on there are `k` bytes other than 0.
abbrev pub NoNul : (m : Bytes) (s i k : ℕ) → Type 0
NoNul m s i k = (j : ℕ) → j < k → (m (s + (i + j)) == 0) ≡ false

-- The areas of `k + 1` bytes at `d` and at `s` have no byte in common.
abbrev pub Apart : (d s k : ℕ) → Type 0
Apart d s k = (s + k < d) ⊎ (d + k < s)

poke-Apart :
    (d s i k j : ℕ) (m : Bytes) (v : ℕ)
    → Apart d s k
    → i + j ≤ k
    → i ≤ k
    → poke m (d + i) v (s + (i + j)) ≡ m (s + (i + j))
poke-Apart d s i k j m v apart le le' =
    let other : (s + (i + j) == d + i) ≡ false = ground arith in rw other refl

-- One round keeps the bytes that are left to copy.
NoNul-poke :
    (d s i k k' : ℕ) (m : Bytes) (v : ℕ)
    → Apart d s k'
    → i + suc k ≤ k'
    → NoNul m s i (suc k)
    → NoNul (poke m (d + i) v) s (i + 1) k
NoNul-poke d s i k k' m v apart le none_in j lt =
    let at : i + 1 + j ≡ i + suc j = omega arith in
    let same = poke-Apart d s i k' (suc j) m v apart (omega arith) (omega arith) in
    rw (at, same) (none_in (suc j) (omega arith))

first-NoNul : (m : Bytes) (s i k : ℕ) → NoNul m s i (suc k) → (m (s + i) == 0) ≡ false
first-NoNul m s i k none_in = let at : i + 0 ≡ i = omega arith in rw at at (none_in 0 (omega arith))

copy_string-copy_up :
    (fuel k i d s k' : ℕ) (m : Bytes)
    → Apart d s k'
    → i + k ≤ k'
    → NoNul m s i k
    → m (s + (i + k)) ≡ 0
    → k < fuel
    → copy_string fuel i d s m ≡ some (copy_up (suc k) i d s m)
unfolding copy_string copy_up
copy_string-copy_up zero k i d s k' m apart le none_in end lt = absurd (omega arith)
copy_string-copy_up (suc fuel) zero i d s k' m apart le none_in end lt =
    let at : i + 0 ≡ i = omega arith in let nul : m (s + i) ≡ 0 = rw at at end in rw nul refl
copy_string-copy_up (suc fuel) (suc k) i d s k' m apart le none_in end lt =
    let v = m (s + i) in
    let first = first-NoNul m s i k none_in in
    let at : i + 1 + k ≡ i + suc k = omega arith in
    let end' = poke-Apart d s i k' (suc k) m v apart le (omega arith) in
    rw first (
      copy_string-copy_up fuel k (i + 1) d s k' (poke m (d + i) v) apart (omega arith)
        (NoNul-poke d s i k k' m v apart le none_in) (rw at (end' ∙ end)) (omega arith))

copy_until_nul-copy_up :
    (n k i d s k' : ℕ) (m : Bytes)
    → Apart d s k'
    → i + k ≤ k'
    → NoNul m s i k
    → k ≤ n
    → (n ≡ k) ⊎ (m (s + (i + k)) ≡ 0)
    → copy_until_nul n i d s m ≡ (i + k, copy_up k i d s m)
unfolding copy_until_nul copy_up
copy_until_nul-copy_up zero zero i d s k' m apart le none_in few end =
    let at : i ≡ i + 0 = omega arith in ap (λ q. (q, m)) at
copy_until_nul-copy_up zero (suc k) i d s k' m apart le none_in few end = absurd (omega arith)
copy_until_nul-copy_up (suc n) zero i d s k' m apart le none_in few (inl same) =
    absurd (omega (arith, same))
copy_until_nul-copy_up (suc n) zero i d s k' m apart le none_in few (inr end) =
    let at : i + 0 ≡ i = omega arith in let nul : m (s + i) ≡ 0 = rw at at end in rw (nul, at) refl
copy_until_nul-copy_up (suc n) (suc k) i d s k' m apart le none_in few end =
    let v = m (s + i) in
    let first = first-NoNul m s i k none_in in
    let at : i + 1 + k ≡ i + suc k = omega arith in
    let end' = poke-Apart d s i k' (suc k) m v apart le (omega arith) in
    let later : (n ≡ k) ⊎ (poke m (d + i) v (s + (i + 1 + k)) ≡ 0) = elim end [
      | inl same ↦ inl (omega (arith, same))
      | inr nul ↦ inr (rw at (end' ∙ nul))
    ] in
    rw first (
      copy_until_nul-copy_up n k (i + 1) d s k' (poke m (d + i) v) apart (omega arith)
        (NoNul-poke d s i k k' m v apart le none_in) (omega arith) later
      ∙ rw at refl)

set_up-shift : (k i d c : ℕ) (m : Bytes) → set_up k (i + 1) d c m ≡ set_up k i (d + 1) c m
unfolding set_up
set_up-shift zero i d c m = refl
set_up-shift (suc k) i d c m =
    let at : d + (i + 1) ≡ d + 1 + i = omega arith in
    rw at (set_up-shift k (i + 1) d c (poke m (d + 1 + i) c))

set_up-start : (i k d c : ℕ) (m : Bytes) → set_up k i d c m ≡ set_up k 0 (d + i) c m
set_up-start zero k d c m = let at : d + 0 ≡ d = omega arith in rw at refl
set_up-start (suc i) k d c m =
    let next : suc i ≡ i + 1 = omega arith in
    let at : d + 1 + i ≡ d + suc i = omega arith in
    ap (λ q. set_up k q d c m) next
    ∙ set_up-shift k i d c m
    ∙ set_up-start i k (d + 1) c m
    ∙ ap (λ q. set_up k 0 q c m) at

-- For a string of `len` bytes that ends with its NUL and has no byte in common with the area that it is
-- copied to, `strcpy`, with more rounds of fuel than `len`, ends and does what `memcpy` of the string
-- with its NUL does; and `strncpy` does what `memcpy` of its first `n` bytes does if `n` is not larger
-- than `len`, so that no NUL is stored, and otherwise fills up what is left of the `n` bytes with 0
-- behind the string.
pub strcpy-memcpy :
    (fuel dest src len n : ℕ) (m : Bytes)
    → Apart dest src len
    → NoNul m src 0 len
    → m (src + len) ≡ 0
    → len < fuel
    → (strcpy fuel dest src m ≡ some (memcpy dest src (len + 1) m))
      × (n ≤ len → strncpy dest src n m ≡ memcpy dest src n m)
      × (len ≤ n → strncpy dest src n m ≡ memset (dest + len) 0 (n - len) (memcpy dest src len m))
unfolding strcpy strncpy memcpy memset copy_up set_up
strcpy-memcpy fuel dest src len n m apart none_in end enough =
    let next : len + 1 ≡ suc len = omega arith in
    let from_start : 0 + len ≡ len = omega arith in
    let end' : m (src + (0 + len)) ≡ 0 = rw from_start end in
    (
      rw next
          (copy_string-copy_up fuel len 0 dest src len m apart (omega arith) none_in end' enough),
      λ short.
          let copied =
            copy_until_nul-copy_up n n 0 dest src len m apart (omega arith)
              (λ j lt. none_in j (omega arith)) (omega arith) (inl refl) in
          let none_left : n - (0 + n) ≡ 0 = omega arith in rw (copied, none_left, strncpy) refl,
      λ long.
          let copied =
            copy_until_nul-copy_up n len 0 dest src len m apart (omega arith) none_in long
              (inr end') in
          rw (copied, from_start, strncpy)
            (set_up-start len (n - len) dest 0 (copy_up len 0 dest src m)),
    )
