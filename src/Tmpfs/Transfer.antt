-- ===== src/Tmpfs/Transfer.antt =====
-- What `tmpfs_write` does to the contents of a file, and that `tmpfs_read` gives them back.
use mini_unix.Base.{
  ℕ, ◌+◌, ◌-◌, ◌^◌, ◌<◌, ◌≤◌, ◌≡◌, ◌⊎◌, refl, sym, ◌∙◌, subst, inl, inr, true, false, some, arith,
  ◌==◌, ltb, leb, ==_refl, if◌then◌else◌, Bool-cases,
}
use mini_unix.Errno.{ok}
use mini_unix.Memory.{Bytes, memcpy, memset}
use mini_unix.Memory.Copy.{in_area, memcpy-memset_lem}
use mini_unix.Heap.{Heap, word, round_up, krealloc}
use mini_unix.Heap.Alloc.{IsValid, Small, kmalloc-free}
use mini_unix.Tmpfs.{Inode, TmpfsState, is_dir}
use mini_unix.Tmpfs.Contents.{grow, write_data, tmpfs_write}

-- The vnode `node` is a file with the inode `inode`.
pub record IsFile (st : TmpfsState) (node inode : ℕ) : Type 0 where
  pub is_set : (node == 0) ≡ false
  pub own_inode : (st.store.vnodes node).private_data ≡ inode
  pub is_file : is_dir (st.own inode).kind ≡ false

-- byte `i` of the contents
abbrev pub content : TmpfsState → ℕ → ℕ → ℕ
content st inode i = st.opened.heap.bytes ((st.own inode).data_at + i)

-- An area of `n` bytes at `to` that can be filled from one at `from`.
abbrev pub CanCopy : (to from n : ℕ) → Type 0
CanCopy to from n = (to ≤ from) ⊎ (from + n ≤ to)

-- A file that has no contents yet, and room for them in the heap, behind the buffer.
pub record Fresh (st : TmpfsState) (inode offset buffer count : ℕ) : Type 0 where
  pub no_data : (st.own inode).data_at ≡ 0
  pub no_size : (st.own inode).size ≡ 0
  pub valid : IsValid st.opened.heap
  pub small : Small (offset + count)
  pub fits : st.opened.heap.heap_current + round_up (offset + count) < st.opened.heap.heap_end
  pub buffer_below : buffer + count ≤ st.opened.heap.heap_current

-- A write within the contents.
pub record Inside (st : TmpfsState) (inode offset buffer count : ℕ) : Type 0 where
  pub within : offset + count ≤ (st.own inode).size
  pub addressed : (st.own inode).data_at + (st.own inode).size < 2 ^ 32
  pub can_copy : CanCopy ((st.own inode).data_at + offset) buffer count

-- What a write leaves of a file: how long it is, and its bytes.
pub record Written (st st' : TmpfsState) (node inode offset buffer count size : ℕ) (old : ℕ → ℕ)
    : Type 0 where
  pub file : IsFile st' node inode
  pub length_is : (st'.own inode).size ≡ size
  pub addressed : (st'.own inode).data_at + size < 2 ^ 32
  pub bytes_are :
      (i : ℕ)
      → i < size
      → content st' inode i
        ≡ (if in_area offset count i then st.opened.heap.bytes (buffer + (i - offset)) else old i)

shifted : (d offset count i : ℕ) → in_area (d + offset) count (d + i) ≡ in_area offset count i
shifted d offset count i = ground arith

-- Copying the buffer into data that hold `old` outside of it.
copied :
    (d offset buffer count i : ℕ) (m m' : Bytes) (old : ℕ → ℕ)
    → CanCopy (d + offset) buffer count
    → d + offset < 2 ^ 32
    → ((j : ℕ) → j < count → m' (buffer + j) ≡ m (buffer + j))
    → (in_area offset count i ≡ false → m' (d + i) ≡ old i)
    → memcpy (word (d + offset)) buffer count m' (d + i)
      ≡ (if in_area offset count i then m (buffer + (i - offset)) else old i)
copied d offset buffer count i m m' old can lt kept outside =
    let w : word (d + offset) ≡ d + offset = omega arith in
    let back : d + i - (d + offset) ≡ i - offset = omega arith in
    let copy = (memcpy-memset_lem (d + offset) buffer 0 count (d + i) m').0 can in
    rw w (
      copy
      ∙ rw (shifted d offset count i, back)
          (elim (Bool-cases (in_area offset count i)) [
            | inl inside ↦ rw inside (kept (i - offset) (ground arith))
            | inr out ↦ rw out (outside out)
          ]))

module _ (st : TmpfsState) (node inode offset buffer count : ℕ) (f : IsFile st node inode) where
  write_data-Written :
      (inode' : Inode) (heap' : Heap) (old : ℕ → ℕ)
      → is_dir inode'.kind ≡ false
      → inode'.data_at + inode'.size < 2 ^ 32
      → offset + count ≤ inode'.size
      → CanCopy (inode'.data_at + offset) buffer count
      → ((j : ℕ) → j < count → heap'.bytes (buffer + j) ≡ st.opened.heap.bytes (buffer + j))
      → ((i : ℕ)
          → i < inode'.size
          → in_area offset count i ≡ false
          → heap'.bytes (inode'.data_at + i) ≡ old i)
      → Written st
          (write_data inode offset buffer count inode' heap' st)
          node
          inode
          offset
          buffer
          count
          inode'.size
          old
  write_data-Written inode' heap' old kind lt fits can kept outside = record {
    file = record { is_set = f.is_set; own_inode = f.own_inode; is_file = rw (==_refl inode) kind };
    length_is = rw (==_refl inode) refl;
    addressed = rw (==_refl inode) lt;
    bytes_are = λ i small. rw (==_refl inode) (
        copied inode'.data_at offset buffer count i st.opened.heap.bytes heap'.bytes old can
          (omega arith) kept (outside i small));
  }

-- The first allocation for a file: the hole in front of the offset is filled with 0.
grow-first :
    (required offset : ℕ) (inode : Inode) (heap : Heap)
    → inode.data_at ≡ 0
    → inode.size ≡ 0
    → IsValid heap
    → Small required
    → heap.heap_current + round_up required < heap.heap_end
    → offset ≤ required
    → let (grown, heap') = grow required offset inode heap in
      (grown ≡ some (record inode { data_at = heap.heap_current; size = required }))
      × ((p : ℕ) → p < heap.heap_current → heap'.bytes p ≡ heap.bytes p)
      × ((i : ℕ) → i < offset → heap'.bytes (heap.heap_current + i) ≡ 0)
unfolding grow krealloc
grow-first required offset inode heap no_data no_size valid small fits le =
    let d = heap.heap_current in
    let room : leb heap.heap_end (word (d + round_up required)) ≡ false = ground arith in
    let given = kmalloc-free required heap room in
    let start : word (d + inode.size) ≡ d = ground arith in
    let whole : offset - inode.size ≡ offset = omega (arith, no_size) in
    let fresh : (inode.data_at == 0) ≡ true = ground arith in
    let filled : (p : ℕ)
        → memset d 0 offset heap.bytes p ≡ (if in_area d offset p then 0 else heap.bytes p) =
      λ p. (memcpy-memset_lem d 0 0 offset p heap.bytes).1 in
    (
      rw (fresh, given, grow, krealloc) refl,
      λ p lt. elim (Bool-cases (ltb inode.size offset)) [
        | inl hole ↦
            rw (fresh, given, grow, krealloc, hole, start, whole)
              (rw (fresh, given, krealloc) (filled p ∙ ground arith))
        | inr none_left ↦
            rw (fresh, given, grow, krealloc, none_left) (rw (fresh, given, krealloc) refl)
      ],
      λ i lt.
          let hole : ltb inode.size offset ≡ true = ground arith in
          rw (fresh, given, grow, krealloc, hole, start, whole)
            (rw (fresh, given, krealloc) (filled (d + i) ∙ ground arith)),
    )

module _ (st : TmpfsState) (node inode offset buffer count : ℕ) (f : IsFile st node inode)
    (has_buffer : (buffer == 0) ≡ false) (has_count : (count == 0) ≡ false) where
  -- A write within the contents replaces `count` bytes from `offset` on and no others.
  pub tmpfs_write-Inside :
      Inside st inode offset buffer count
      → ((tmpfs_write node offset buffer count st).0 ≡ ok count)
        × Written st
            (tmpfs_write node offset buffer count st).1
            node
            inode
            offset
            buffer
            count
            (st.own inode).size
            (content st inode)
  unfolding tmpfs_write
  tmpfs_write-Inside w =
      let short : ltb (st.own inode).size (word (offset + count)) ≡ false = ground arith in
      let run : tmpfs_write node offset buffer count st
          ≡ (ok count, write_data inode offset buffer count (st.own inode) st.opened.heap st) =
        rw (f.is_set, has_buffer, has_count, f.own_inode, f.is_file, short, tmpfs_write) refl in
      subst
        (λ r.
          (r.0 ≡ ok count)
          × Written st r.1 node inode offset buffer count (st.own inode).size (content st inode))
        (sym run)
        (
          refl,
          write_data-Written st node inode offset buffer count f (st.own inode) st.opened.heap
              (content st inode) f.is_file w.addressed w.within w.can_copy (λ j lt. refl)
              (λ i lt out. refl),
        )

  -- A write to a file without contents makes it `offset + count` bytes long, 0 up to `offset` and then
  -- the bytes of the buffer.
  pub tmpfs_write-Fresh :
      Fresh st inode offset buffer count
      → ((tmpfs_write node offset buffer count st).0 ≡ ok count)
        × Written st
            (tmpfs_write node offset buffer count st).1
            node
            inode
            offset
            buffer
            count
            (offset + count)
            (λ i. 0)
  unfolding tmpfs_write
  tmpfs_write-Fresh w =
      let heap = st.opened.heap in
      let all : word (offset + count) ≡ offset + count = ground arith in
      let long : ltb (st.own inode).size (offset + count) ≡ true = ground arith in
      let (grown, below, zeroed) =
        grow-first (offset + count) offset (st.own inode) heap w.no_data w.no_size w.valid w.small
          w.fits (omega arith) in
      let inode' : Inode = record (st.own inode) {
        data_at = heap.heap_current;
        size = offset + count;
      } in
      let heap' = (grow (offset + count) offset (st.own inode) heap).1 in
      let run : tmpfs_write node offset buffer count st
          ≡ (ok count, write_data inode offset buffer count inode' heap' st) =
        rw (f.is_set, has_buffer, has_count, f.own_inode, f.is_file, all, long, grown, tmpfs_write)
          (rw (f.own_inode, all) refl) in
      subst
        (λ r.
          (r.0 ≡ ok count)
          × Written st r.1 node inode offset buffer count (offset + count) (λ i. 0))
        (sym run)
        (
          refl,
          write_data-Written st node inode offset buffer count f inode' heap' (λ i. 0) f.is_file
              (ground arith) (omega arith) (inr (omega (arith, w.buffer_below)))
              (λ j lt. below (buffer + j) (omega (arith, w.buffer_below)))
              (λ i lt out. zeroed i (ground arith)),
        )
