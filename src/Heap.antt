-- ===== src/Heap.antt =====
-- kernel/mm/heap.c: the bump allocator. Addresses and sizes are 32-bit numbers; an addition to a
-- pointer or a `size_t` wraps. A block's contents lie in the byte memory.
pub mod Alloc
pub mod Resize
mod Tests
use mini_unix.Base.{
  ℕ, ◌+◌, ◌-◌, ◌*◌, ◌/◌, ◌%◌, ◌^◌, Bool, Option, none, some, ltb, leb, ◌==◌, if◌then◌else◌,
}
use mini_unix.Memory.{Bytes, copy_up}

-- the three pointers of heap.c, and the memory
pub record Heap : Type 0 where
  pub heap_start : ℕ
  pub heap_current : ℕ
  pub heap_end : ℕ
  pub bytes : Bytes

abbrev pub word : ℕ → ℕ
word n = n % 2 ^ 32

unfoldable pub heap_init : ℕ → ℕ → Heap → Heap
heap_init start size h = record h {
  heap_start = start;
  heap_end = word (start + size);
  heap_current = start;
}

-- `(size + 7) & ~(size_t)7`: the low three bits are cleared.
abbrev pub round_up : ℕ → ℕ
round_up size = word (size + 7) / 8 * 8

unfoldable pub kmalloc : ℕ → Heap → Option ℕ × Heap
kmalloc size h =
    if leb h.heap_end (word (h.heap_current + round_up size))
    then (none, h)
    else (some h.heap_current, record h { heap_current = word (h.heap_current + round_up size) })

-- `kfree` does nothing.
unfoldable pub kfree : Option ℕ → Heap → Heap
kfree ptr h = h

-- The `size_t` in front of an address, least significant byte first.
abbrev pub word_before : Bytes → ℕ → ℕ
word_before m p = m (p - 4) + 256 * m (p - 3) + 65536 * m (p - 2) + 16777216 * m (p - 1)

unfoldable pub krealloc : Option ℕ → ℕ → Heap → Option ℕ × Heap
krealloc none size h = kmalloc size h
krealloc (some ptr) size h =
    if size == 0
    then (none, kfree (some ptr) h)
    else let old_size = word_before h.bytes ptr in
      let (new_ptr, h') = kmalloc size h in
      elim new_ptr [
        | none ↦ (none, h')
        | some new ↦
            let copy_size = if ltb old_size size then old_size else size in
            (
              some new,
              kfree (some ptr) (record h' { bytes = copy_up copy_size 0 new ptr h'.bytes }),
            )
      ]
