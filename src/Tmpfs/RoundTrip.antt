-- ===== src/Tmpfs/RoundTrip.antt =====
-- `tmpfs_read` within the contents of a file, and that it gives back what `tmpfs_write` wrote.
use mini_unix.Base.{
  subst, ℕ, ◌+◌, ◌-◌, ◌^◌, ◌<◌, ◌≤◌, ◌≡◌, ◌⊎◌, refl, sym, ◌∙◌, ap, inl, inr, true, false, arith,
  ◌==◌, leb, if◌then◌else◌,
}
use mini_unix.Errno.{ok}
use mini_unix.Memory.{memcpy}
use mini_unix.Memory.Copy.{in_area, memcpy-memset_lem}
use mini_unix.Heap.{word}
use mini_unix.Tmpfs.{TmpfsState}
use mini_unix.Tmpfs.Contents.{read_size, tmpfs_read, tmpfs_write}
use mini_unix.Tmpfs.Transfer.{
  IsFile, content, CanCopy, Fresh, Inside, Written, tmpfs_write-Inside, tmpfs_write-Fresh,
}

-- `tmpfs_read` within the contents of a file, into a buffer that it can be copied to, fills the buffer
-- with the bytes from `offset` on, and returns their number: `count`, or as many as there are from
-- `offset` on, if these are fewer. From the end of the contents on it returns 0 and changes nothing.
pub tmpfs_read_lem :
    (st : TmpfsState) (node inode offset buffer count : ℕ)
    → IsFile st node inode
    → (buffer == 0) ≡ false
    → (count == 0) ≡ false
    → (st.own inode).data_at + (st.own inode).size < 2 ^ 32
    → CanCopy buffer ((st.own inode).data_at + offset) (read_size (st.own inode).size offset count)
    → let n = read_size (st.own inode).size offset count in
      let (r, st') = tmpfs_read node offset buffer count st in
      (offset < (st.own inode).size
        → (r ≡ ok n)
          × ((p : ℕ)
              → st'.opened.heap.bytes p ≡ (
                  if in_area buffer n p
                  then content st inode (offset + (p - buffer))
                  else st.opened.heap.bytes p)))
      × ((st.own inode).size ≤ offset → (r ≡ ok 0) × (st' ≡ st))
unfolding tmpfs_read
tmpfs_read_lem st node inode offset buffer count f has_buffer has_count addressed can =
    let size = (st.own inode).size in
    let d = (st.own inode).data_at in
    let n = read_size size offset count in
    let copied : (p : ℕ)
        → memcpy buffer (d + offset) n st.opened.heap.bytes p ≡ (
            if in_area buffer n p
            then st.opened.heap.bytes (d + offset + (p - buffer))
            else st.opened.heap.bytes p) =
      λ p. (memcpy-memset_lem buffer (d + offset) 0 n p st.opened.heap.bytes).0 can in
    let regroup : (p : ℕ)
        → (if in_area buffer n p
            then st.opened.heap.bytes (d + offset + (p - buffer))
            else st.opened.heap.bytes p)
          ≡ (if in_area buffer n p
              then content st inode (offset + (p - buffer))
              else st.opened.heap.bytes p) =
      λ p.
        let same : d + offset + (p - buffer) ≡ d + (offset + (p - buffer)) = omega arith in
        ap (λ q. if in_area buffer n p then st.opened.heap.bytes q else st.opened.heap.bytes p)
          same in
    (
      λ lt.
          let more : leb size offset ≡ false = ground arith in
          let w : word (d + offset) ≡ d + offset = omega arith in
          (
            rw (f.is_set, has_buffer, has_count, f.own_inode, f.is_file, more, tmpfs_read) refl,
            λ p.
                rw (f.is_set, has_buffer, has_count, f.own_inode, f.is_file, more, w, tmpfs_read)
                  (copied p ∙ regroup p),
          ),
      λ le.
          let past : leb size offset ≡ true = ground arith in
          (
            rw (f.is_set, has_buffer, has_count, f.own_inode, f.is_file, past, tmpfs_read) refl,
            rw (f.is_set, has_buffer, has_count, f.own_inode, f.is_file, past, tmpfs_read) refl,
          ),
    )

-- What a read of the whole of a written range finds.
pub Written-tmpfs_read :
    (st st' : TmpfsState) (node inode offset buffer count size to : ℕ) (old : ℕ → ℕ)
    → Written st st' node inode offset buffer count size old
    → (to == 0) ≡ false
    → (count == 0) ≡ false
    → offset + count ≤ size
    → CanCopy to ((st'.own inode).data_at + offset) count
    → let (r, st'') = tmpfs_read node offset to count st' in
      (r ≡ ok count)
      × ((i : ℕ) → i < count → st''.opened.heap.bytes (to + i) ≡ st.opened.heap.bytes (buffer + i))
Written-tmpfs_read st st' node inode offset buffer count size to old w has_to has_count fits can =
    let whole : read_size (st'.own inode).size offset count ≡ count =
      rw (w.length_is) (ground arith) in
    let (read, _) =
      tmpfs_read_lem st' node inode offset to count w.file has_to has_count
        (rw (w.length_is) w.addressed)
        (subst (λ n. CanCopy to ((st'.own inode).data_at + offset) n) (sym whole) can) in
    let (result, filled) = read (rw (w.length_is) (ground arith)) in
    (
      result ∙ ap ok whole,
      λ i lt.
          let there : in_area to (read_size (st'.own inode).size offset count) (to + i) ≡ true =
            rw whole (ground arith) in
          let at : offset + (to + i - to) ≡ offset + i = omega arith in
          let here : in_area offset count (offset + i) ≡ true = ground arith in
          let from : buffer + (offset + i - offset) ≡ buffer + i = omega arith in
          filled (to + i)
          ∙ rw (there, at) (w.bytes_are (offset + i) (omega (arith, fits)) ∙ rw (here, from) refl),
    )

-- A write of `count` bytes, between 1 and 2^31 - 1, from a buffer that is not NULL, to a file, is of one
-- of two kinds. It stays within the contents, these lie below 2^32, and the place written does not start
-- inside the buffer, behind its start. Or the file has no contents yet, the heap is valid, with free room
-- for more than the contents up to the end of the write, rounded up, these are shorter than 2^31 - 8, and
-- the buffer lies below the free part. Then `tmpfs_write` returns `count`. `tmpfs_read` at the same
-- offset, into an area that is not NULL and does not start inside the bytes to be read, behind their
-- start, then returns `count`, too, and has filled the area with the bytes that stood in the buffer before
-- the write.
pub tmpfs_write-tmpfs_read :
    (st : TmpfsState) (node inode offset buffer count to : ℕ)
    → IsFile st node inode
    → (buffer == 0) ≡ false
    → (count == 0) ≡ false
    → count < 2 ^ 31
    → (to == 0) ≡ false
    → Inside st inode offset buffer count ⊎ Fresh st inode offset buffer count
    → CanCopy to (((tmpfs_write node offset buffer count st).1.own inode).data_at + offset) count
    → let (w, st') = tmpfs_write node offset buffer count st in
      let (r, st'') = tmpfs_read node offset to count st' in
      (w ≡ ok count)
      × (r ≡ ok count)
      × ((i : ℕ) → i < count → st''.opened.heap.bytes (to + i) ≡ st.opened.heap.bytes (buffer + i))
tmpfs_write-tmpfs_read st node inode offset buffer count to f has_buffer has_count positive has_to
      (inl w) can =
    let (done, left) =
      tmpfs_write-Inside st node inode offset buffer count f has_buffer has_count w in
    let (result, filled) =
      Written-tmpfs_read st (tmpfs_write node offset buffer count st).1 node inode offset buffer
        count (st.own inode).size to (content st inode) left has_to has_count w.within can in
    (done, result, filled)
tmpfs_write-tmpfs_read st node inode offset buffer count to f has_buffer has_count positive has_to
      (inr w) can =
    let (done, left) =
      tmpfs_write-Fresh st node inode offset buffer count f has_buffer has_count w in
    let (result, filled) =
      Written-tmpfs_read st (tmpfs_write node offset buffer count st).1 node inode offset buffer
        count (offset + count) to (λ i. 0) left has_to has_count (omega arith) can in
    (done, result, filled)
