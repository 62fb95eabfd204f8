-- ===== src/Heap/Tests.antt =====
-- A heap of 64 bytes at address 1024: runs, and the theorems at it.
use mini_unix.Base.{◌+◌, ◌-◌, ◌≤◌, ◌<◌, ◌≡◌, refl, [], ◌∷◌, some, none, arith, if◌then◌else◌, min}
use mini_unix.Memory.Copy.{in_area}
use mini_unix.Heap.{Heap, round_up, word_before, heap_init, kmalloc, krealloc}
use mini_unix.Heap.Alloc.{
  IsValid, InOrder, blocks, kmalloc_lem, heap_init-blocks, kmalloc_huge, kmalloc_wraps,
}
use mini_unix.Heap.Resize.{krealloc_lem, krealloc_unmarked}

abbrev fresh : Heap
fresh = record { heap_start = 1024; heap_current = 1048; heap_end = 1088; bytes = λ a. 0 }

fresh-IsValid : IsValid fresh
fresh-IsValid = record {
  above = omega arith;
  below = omega arith;
  aligned = refl;
  low = omega arith;
}

-- The block at 1028 has the size 4 in front of it, and every byte of it is 4.
abbrev marked : Heap
marked = record {
  heap_start = 1024;
  heap_current = 1048;
  heap_end = 1088;
  bytes = λ a. if in_area 1025 3 a then 0 else 4;
}

marked-IsValid : IsValid marked
marked-IsValid = record {
  above = omega arith;
  below = omega arith;
  aligned = refl;
  low = omega arith;
}

kmalloc_example :
    let (ptr, h') = kmalloc 13 fresh in
    IsValid h'
    × (h'.bytes ≡ fresh.bytes)
    × (1088 ≤ 1048 + round_up 13 → (ptr ≡ none) × (h' ≡ fresh))
    × (1048 + round_up 13 < 1088
        → (ptr ≡ some 1048) × (1048 + 13 ≤ h'.heap_current) × (h'.heap_current < 1048 + 13 + 8))
kmalloc_example = kmalloc_lem 13 fresh fresh-IsValid (omega arith)

heap_init-blocks_example :
    InOrder 1024 (1024 + 64) (blocks (13 ∷ 100 ∷ 8 ∷ []) (heap_init 1024 64 fresh))
heap_init-blocks_example =
    heap_init-blocks 1024 64 (13 ∷ 100 ∷ 8 ∷ []) fresh refl (omega arith)
      (omega arith, (omega arith, (omega arith, tt)))

kmalloc_huge_example : kmalloc 0xffff_fffc fresh ≡ (some 1048, fresh)
kmalloc_huge_example =
    kmalloc_huge 0xffff_fffc fresh fresh-IsValid (omega arith) (omega arith) (omega arith)

kmalloc_wraps_example :
    let (ptr, h') = kmalloc 0xffff_fff8 fresh in (ptr ≡ some 1048) × (h'.heap_current < 1048)
kmalloc_wraps_example = kmalloc_wraps 0xffff_fff8 fresh fresh-IsValid (omega arith) (omega arith)

krealloc_example :
    let (new, h') = krealloc (some 1028) 24 marked in
    (new ≡ some 1048)
    × (h'.bytes 1050 ≡ (
        if in_area 1048 (min (word_before marked.bytes 1028) 24) 1050
        then marked.bytes (1028 + (1050 - 1048))
        else marked.bytes 1050))
krealloc_example =
    krealloc_lem 1028 24 1050 marked marked-IsValid (omega arith) (omega arith) (omega arith)
      (omega arith)

krealloc_unmarked_example : (krealloc (some 1024) 24 fresh).1.bytes 1050 ≡ fresh.bytes 1050
krealloc_unmarked_example = krealloc_unmarked 1024 24 1050 fresh refl

-- Runs.
heap_runs :
    (blocks (13 ∷ 100 ∷ 8 ∷ []) (heap_init 1024 64 fresh) ≡ (1024, 13) ∷ (1040, 8) ∷ [])
    × ((kmalloc 16 (heap_init 1024 16 fresh)).0 ≡ none)
unfolding blocks heap_init kmalloc
heap_runs = (refl, refl)
