-- ===== src/Heap/Resize.antt =====
-- `krealloc`: what it keeps of a block, and what it relies on.
use mini_unix.Base.{
  ℕ, ◌+◌, ◌-◌, ◌≤◌, ◌<◌, ◌≡◌, ◌≢◌, refl, ◌∙◌, inr, false, some, arith, leb, ltb, ◌==◌,
  if◌then◌else◌, min,
}
use mini_unix.Memory.{memcpy, copy_up}
use mini_unix.Memory.Copy.{in_area, memcpy-memset_lem}
use mini_unix.Heap.{Heap, word, round_up, word_before, kmalloc, kfree, krealloc}
use mini_unix.Heap.Alloc.{IsValid, Small, kmalloc-free}

-- A block is grown or shrunk in a heap that has room for it. If the word in front of the block says
-- `old` and `old` bytes from the block on lie below the next free address, the call returns that
-- address, copies the first `old` bytes there, or the first `size` if these are fewer, and changes no
-- other byte.
pub krealloc_lem :
    (ptr size a : ℕ) (h : Heap)
    → IsValid h
    → Small size
    → size ≢ 0
    → h.heap_current + round_up size < h.heap_end
    → let old = word_before h.bytes ptr in
      ptr + old ≤ h.heap_current
      → let (new, h') = krealloc (some ptr) size h in
        (new ≡ some h.heap_current)
        × (h'.bytes a ≡ (
            if in_area h.heap_current (min old size) a
            then h.bytes (ptr + (a - h.heap_current))
            else h.bytes a))
unfolding krealloc kfree memcpy
krealloc_lem ptr size a h v s ne room fits =
    let given : (size == 0) ≡ false = ground arith in
    let old = word_before h.bytes ptr in
    let n = if ltb old size then old else size in
    let copied = (memcpy-memset_lem h.heap_current ptr 0 n a h.bytes).0 in
    let free : leb h.heap_end (word (h.heap_current + round_up size)) ≡ false = ground arith in
    rw (given, kmalloc-free size h free)
      (refl, rw (kmalloc-free size h free) (copied (inr (ground arith)) ∙ ground arith))

-- `kmalloc` writes no size in front of its blocks. If the four bytes in front of a block are 0, as in
-- memory that nothing has written to, resizing the block copies none of its contents: every byte of
-- the memory stays as it is, also in the block that is returned.
pub krealloc_unmarked :
    (ptr size a : ℕ) (h : Heap)
    → word_before h.bytes ptr ≡ 0
    → (krealloc (some ptr) size h).1.bytes a ≡ h.bytes a
unfolding krealloc kfree kmalloc copy_up
krealloc_unmarked ptr size a h e = ground arith
