-- ===== src/Memory/Copy.antt =====
-- `memcpy`, `memmove` and `memset` write what they should.
use mini_unix.Base.{
  ℕ, zero, suc, ◌+◌, ◌-◌, ◌%◌, ◌≤◌, ◌≡◌, ◌⊎◌, Bool, ◌&&◌, arith, ltb, leb, if◌then◌else◌,
}
use mini_unix.Memory.{Bytes, poke, copy_up, copy_down, set_up, memcpy, memmove, memset}

-- `a` lies in the `n` bytes from `d` on.
abbrev pub in_area : ℕ → ℕ → ℕ → Bool
in_area d n a = leb d a && ltb a (d + n)

copy_up_lem :
    (k i d s a : ℕ) (m : Bytes)
    → (d ≤ s) ⊎ (s + (i + k) ≤ d)
    → copy_up k i d s m a ≡ (if in_area (d + i) k a then m (s + (a - d)) else m a)
unfolding copy_up
copy_up_lem zero i d s a m h = ground arith
copy_up_lem (suc k) i d s a m h =
    ground (arith, copy_up_lem k (i + 1) d s a (poke m (d + i) (m (s + i))) (ground arith))

copy_down_lem :
    (i d s a : ℕ) (m : Bytes)
    → s ≤ d
    → copy_down i d s m a ≡ (if in_area d i a then m (s + (a - d)) else m a)
unfolding copy_down
copy_down_lem zero d s a m h = ground arith
copy_down_lem (suc i) d s a m h =
    ground (arith, copy_down_lem i d s a (poke m (d + i) (m (s + i))) h)

set_up_lem :
    (k i d ch a : ℕ) (m : Bytes) → set_up k i d ch m a ≡ (if in_area (d + i) k a then ch else m a)
unfolding set_up
set_up_lem zero i d ch a m = ground arith
set_up_lem (suc k) i d ch a m = ground (arith, set_up_lem k (i + 1) d ch a (poke m (d + i) ch))

-- After `memmove` the destination holds what the source held before, however the two areas overlap,
-- and no other byte has changed.
pub memmove_lem :
    (dest src n a : ℕ) (m : Bytes)
    → memmove dest src n m a ≡ (if in_area dest n a then m (src + (a - dest)) else m a)
unfolding memmove
memmove_lem dest src n a m =
    ground (arith, copy_up_lem n 0 dest src a m, copy_down_lem n dest src a m)

-- `memcpy` copies the bytes that the source held before, if the areas do not overlap or the
-- destination lies below the source, and `memset` writes the low byte of its argument; neither
-- changes a byte outside the destination.
pub memcpy-memset_lem :
    (dest src c n a : ℕ) (m : Bytes)
    → ((dest ≤ src) ⊎ (src + n ≤ dest)
        → memcpy dest src n m a ≡ (if in_area dest n a then m (src + (a - dest)) else m a))
      × (memset dest c n m a ≡ (if in_area dest n a then c % 256 else m a))
unfolding memcpy memset
memcpy-memset_lem dest src c n a m = (
  λ h. ground (arith, copy_up_lem n 0 dest src a m (ground arith)),
  ground (arith, set_up_lem n 0 dest (c % 256) a m),
)
