-- ===== src/Files/Tests.antt =====
-- A file for the vnode 100 in a heap with room: the theorem at it.
use mini_unix.Base.{◌≡◌, refl, some, none, arith, ◌+◌}
use mini_unix.Heap.{Heap, kmalloc}
use mini_unix.Files.{Files, file_size, fresh_file, file_create, file_destroy}
use mini_unix.Files.References.{file_create-file_destroy}

abbrev heap : Heap
heap = record { heap_start = 1024; heap_current = 1048; heap_end = 1088; bytes = λ p. 0 }

abbrev grown : Heap
grown = record { heap_start = 1024; heap_current = 1064; heap_end = 1088; bytes = λ p. 0 }

abbrev none_open : Files
none_open = record { files = λ p. fresh_file 0 0; references = λ n. 1; heap = heap }

file_create_example :
    (kmalloc file_size heap ≡ (some 1048, grown)
      → let (f, st') = file_create 100 2 none_open in
        (f ≡ 1048)
        × (st'.files f ≡ fresh_file 100 2)
        × (st'.references 100 ≡ 1 + 1)
        × ((file_destroy f st').references 100 ≡ 1))
    × (kmalloc file_size heap ≡ (none, grown)
        → ((file_create 100 2 none_open).0 ≡ 0)
          × ((file_create 100 2 none_open).1.references 100 ≡ 1))
    × (file_create 0 2 none_open ≡ (0, none_open))
file_create_example =
    file_create-file_destroy 100 2 100 1048 grown none_open refl refl (omega arith)

-- Runs.
heap_grows : kmalloc file_size heap ≡ (some 1048, grown)
unfolding kmalloc
heap_grows = refl
