-- ===== src/Files.antt =====
-- kernel/fs/file.c: open files and the references that they hold to vnodes. Files and vnodes are
-- addresses, 0 for NULL; a file is allocated in the heap, where it takes 16 bytes.
pub mod References
mod Tests
use mini_unix.Base.{
  ℕ, zero, suc, ◌+◌, ◌-◌, ◌%◌, ◌^◌, Bool, true, false, not, ◌&&◌, Option, none, some, ltb, ◌==◌,
  if◌then◌else◌,
}
use mini_unix.Base.Int.{ℤ, pos, negsuc}
use mini_unix.Heap.{Heap, word, kmalloc, kfree}

-- `refcount` is an `int`
pub record File : Type 0 where
  pub node : ℕ
  pub offset : ℕ
  pub flags : ℕ
  pub refcount : ℤ

-- the files, the `refcount` of each vnode and the heap
pub record Files : Type 0 where
  pub files : ℕ → File
  pub references : ℕ → ℕ
  pub heap : Heap

abbrev pub file_size : ℕ
file_size = 16

abbrev pub fresh_file : ℕ → ℕ → File
fresh_file node flags = record { node = node; offset = 0; flags = flags; refcount = pos 1 }

-- the address of the file, 0 for NULL
unfoldable pub file_create : (node flags : ℕ) → Files → ℕ × Files
file_create node flags st =
    if node == 0
    then (0, st)
    else let (file, heap') = kmalloc file_size st.heap in
      elim file [
        | none ↦ (0, record st { heap = heap' })
        | some f ↦ (
          f,
          record {
            files = λ p. if p == f then fresh_file node flags else st.files p;
            references = λ n. if n == node then word (st.references n + 1) else st.references n;
            heap = heap';
          },
        )
      ]

abbrev pub minus_one : ℤ → ℤ
minus_one (pos zero) = negsuc 0
minus_one (pos (suc n)) = pos n
minus_one (negsuc n) = negsuc (suc n)

abbrev pub is_positive : ℤ → Bool
is_positive (pos n) = ltb 0 n
is_positive (negsuc n) = false

-- the last lines of `file_destroy`: the reference to the vnode is given back, if there is one
abbrev pub release : ℕ → Files → Files
release node st =
    if not (node == 0) && ltb 0 (st.references node)
    then record st { references = λ n. if n == node then st.references n - 1 else st.references n }
    else st

unfoldable pub file_destroy : ℕ → Files → Files
file_destroy file st =
    if file == 0
    then st
    else let count = minus_one (st.files file).refcount in
      let st' = record st {
        files = λ p. if p == file then record (st.files p) { refcount = count } else st.files p;
      } in
      if is_positive count
      then st'
      else let st'' = release (st.files file).node st' in
        record st'' { heap = kfree (some file) st''.heap }
