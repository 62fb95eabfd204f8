-- ===== src/Memory.antt =====
-- The memory operations of kernel/lib/string.c, over a byte memory. Addresses are numbers; the areas
-- are taken to lie within the address space, so that an address does not wrap.
pub mod Copy
pub mod Compare
pub mod Strings
mod Tests
use mini_unix.Base.{
  ℕ, zero, suc, ◌+◌, ◌%◌, ◌^◌, Bool, true, false, ◌||◌, Option, none, some, ltb, ◌==◌,
  if◌then◌else◌,
}
use mini_unix.Base.Int.{ℤ, pos, sub_ℕ}

-- the byte at each address
abbrev pub Bytes : Type 0
Bytes = ℕ → ℕ

abbrev pub poke : Bytes → ℕ → ℕ → Bytes
poke m a v b = if b == a then v else m b

-- `for (i = 0; i < n; i++) d[i] = s[i]`, with `k` rounds left
unfoldable pub copy_up : ℕ → (i d s : ℕ) → Bytes → Bytes
copy_up zero i d s m = m
copy_up (suc k) i d s m = copy_up k (i + 1) d s (poke m (d + i) (m (s + i)))

-- `for (i = n; i > 0; i--) d[i-1] = s[i-1]`
pub copy_down : ℕ → (d s : ℕ) → Bytes → Bytes
copy_down zero d s m = m
copy_down (suc i) d s m = copy_down i d s (poke m (d + i) (m (s + i)))

unfoldable pub memcpy : (dest src n : ℕ) → Bytes → Bytes
memcpy dest src n m = copy_up n 0 dest src m

pub memmove : (dest src n : ℕ) → Bytes → Bytes
memmove dest src n m =
    if (dest == src) || (n == 0)
    then m
    else if ltb dest src
    then copy_up n 0 dest src m
    else copy_down n dest src m

unfoldable pub set_up : ℕ → (i d ch : ℕ) → Bytes → Bytes
set_up zero i d ch m = m
set_up (suc k) i d ch m = set_up k (i + 1) d ch (poke m (d + i) ch)

-- `c` is converted to `unsigned char`.
unfoldable pub memset : (dest c n : ℕ) → Bytes → Bytes
memset dest c n m = set_up n 0 dest (c % 2 ^ 8) m

compare_up : ℕ → (i p q : ℕ) → Bytes → ℤ
compare_up zero i p q m = pos 0
compare_up (suc k) i p q m =
    let rest = compare_up k (i + 1) p q m in
    if m (p + i) == m (q + i) then rest else sub_ℕ (m (p + i)) (m (q + i))

pub memcmp : (s1 s2 n : ℕ) → Bytes → ℤ
memcmp s1 s2 n m = compare_up n 0 s1 s2 m

find_up : ℕ → (i p c : ℕ) → Bytes → Option ℕ
find_up zero i p c m = none
find_up (suc k) i p c m =
    let rest = find_up k (i + 1) p c m in if m (p + i) == c then some (p + i) else rest

-- the address of the first match, `none` for NULL
pub memchr : (s c n : ℕ) → Bytes → Option ℕ
memchr s c n m = find_up n 0 s (c % 2 ^ 8) m
