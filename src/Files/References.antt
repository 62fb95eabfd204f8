-- ===== src/Files/References.antt =====
-- Destroying a file gives back the reference that creating it took.
use mini_unix.Base.{
  ◌&&◌, not, Bool-cases, inl, inr, if◌then◌else◌, ℕ, ◌+◌, ◌-◌, ◌^◌, ◌<◌, ◌≡◌, refl, true, false,
  none, some, arith, ltb, ==_refl, ◌==◌,
}
use mini_unix.Heap.{Heap, word, kmalloc}
use mini_unix.Files.{
  minus_one, is_positive, Files, file_size, fresh_file, file_create, file_destroy,
}

-- the count of a vnode after a reference to `node` is given back
abbrev pub given_back : ℕ → (ℕ → ℕ) → ℕ → ℕ
given_back node references other =
    if not (node == 0) && ltb 0 (references node)
    then (if other == node then references other - 1 else references other)
    else references other

pub file_destroy-references :
    (f other : ℕ) (opened : Files)
    → (f == 0) ≡ false
    → (file_destroy f opened).references other ≡ (
        if is_positive (minus_one (opened.files f).refcount)
        then opened.references other
        else given_back (opened.files f).node opened.references other)
unfolding file_destroy
file_destroy-references f other opened has_file =
    let file = opened.files f in
    elim (Bool-cases (is_positive (minus_one file.refcount))) [
      | inl held ↦ rw (has_file, held) refl
      | inr last ↦ elim (Bool-cases (not (file.node == 0) && ltb 0 (opened.references file.node))) [
        | inl taken ↦ rw (has_file, last, taken) refl
        | inr gone ↦ rw (has_file, last, gone) refl
      ]
    ]

pub file_destroy-refcount :
    (f : ℕ) (opened : Files)
    → (f == 0) ≡ false
    → ((file_destroy f opened).files f).refcount ≡ minus_one (opened.files f).refcount
unfolding file_destroy
file_destroy-refcount f opened has_file =
    let file = opened.files f in
    elim (Bool-cases (is_positive (minus_one file.refcount))) [
      | inl held ↦ rw (has_file, held, ==_refl f) refl
      | inr last ↦ elim (Bool-cases (not (file.node == 0) && ltb 0 (opened.references file.node))) [
        | inl taken ↦ rw (has_file, last, taken, ==_refl f) refl
        | inr gone ↦ rw (has_file, last, gone, ==_refl f) refl
      ]
    ]

-- If the heap has room at an address other than 0, `file_create` makes a file at offset 0 that holds
-- one more reference to its vnode, and `file_destroy` of that file leaves every vnode with the
-- references that it had before, provided that the vnode's count was below 2^32 - 1. If the heap is
-- full, or there is no vnode, `file_create` returns NULL and changes no reference.
pub file_create-file_destroy :
    (node flags other file : ℕ) (heap' : Heap) (st : Files)
    → (node == 0) ≡ false
    → (file == 0) ≡ false
    → st.references node < 2 ^ 32 - 1
    → (kmalloc file_size st.heap ≡ (some file, heap')
        → let (f, st') = file_create node flags st in
          (f ≡ file)
          × (st'.files f ≡ fresh_file node flags)
          × (st'.references node ≡ st.references node + 1)
          × ((file_destroy f st').references other ≡ st.references other))
      × (kmalloc file_size st.heap ≡ (none, heap')
          → ((file_create node flags st).0 ≡ 0)
            × ((file_create node flags st).1.references other ≡ st.references other))
      × (file_create 0 flags st ≡ (0, st))
unfolding file_create file_destroy
file_create-file_destroy node flags other file heap' st has_node has_file small =
    let held : ltb 0 (word (st.references node + 1)) ≡ true = ground arith in
    (
      λ room.
          rw (has_node, room)
            (
              refl,
              rw (==_refl file) refl,
              ground arith,
              rw (has_file, ==_refl file, has_node, ==_refl node, held) (ground arith),
            ),
      λ full_heap. rw (has_node, full_heap) (refl, refl),
      refl,
    )
