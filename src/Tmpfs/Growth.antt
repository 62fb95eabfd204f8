-- ===== src/Tmpfs/Growth.antt =====
-- `tmpfs_write` behind the end of a file that has contents already.
mod Tests
use mini_unix.Base.{
  ℕ, ◌+◌, ◌-◌, ◌^◌, ◌<◌, ◌≤◌, ◌≡◌, refl, sym, ◌∙◌, subst, inl, inr, true, false, some, arith, ◌==◌,
  ltb, leb, ==_refl, if◌then◌else◌,
}
use mini_unix.Errno.{ok}
use mini_unix.Memory.{memcpy, copy_up}
use mini_unix.Memory.Copy.{in_area, memcpy-memset_lem}
use mini_unix.Heap.{Heap, word, round_up, word_before, kmalloc, kfree, krealloc}
use mini_unix.Heap.Alloc.{IsValid, Small, kmalloc-free}
use mini_unix.Tmpfs.{Inode, TmpfsState, is_dir}
use mini_unix.Tmpfs.Contents.{grow, write_data, tmpfs_write}
use mini_unix.Tmpfs.Transfer.{IsFile, content}

-- A write that starts within the contents of a file and ends behind them, with room for the new contents
-- in the heap. In front of the old ones stand four bytes that are 0.
pub record Grows (st : TmpfsState) (inode offset buffer count : ℕ) : Type 0 where
  pub has_data : ((st.own inode).data_at == 0) ≡ false
  pub within : offset ≤ (st.own inode).size
  pub longer : (st.own inode).size < offset + count
  pub valid : IsValid st.opened.heap
  pub small : Small (offset + count)
  pub fits : st.opened.heap.heap_current + round_up (offset + count) < st.opened.heap.heap_end
  pub buffer_below : buffer + count ≤ st.opened.heap.heap_current
  pub unmarked : word_before st.opened.heap.bytes (st.own inode).data_at ≡ 0

krealloc-unmarked :
    (ptr size : ℕ) (h : Heap)
    → (size == 0) ≡ false
    → leb h.heap_end (word (h.heap_current + round_up size)) ≡ false
    → word_before h.bytes ptr ≡ 0
    → krealloc (some ptr) size h
      ≡ (some h.heap_current, record h { heap_current = word (h.heap_current + round_up size) })
unfolding krealloc kfree copy_up
krealloc-unmarked ptr size h has_size room unmarked =
    let given = kmalloc-free size h room in
    let some_size : ltb 0 size ≡ true = ground arith in
    rw (has_size, given, unmarked, some_size, krealloc) (rw given refl)

module _ (st : TmpfsState) (node inode offset buffer count : ℕ) (f : IsFile st node inode)
    (g : Grows st inode offset buffer count) where
  abbrev grown_inode : Inode
  grown_inode = record (st.own inode) {
    data_at = st.opened.heap.heap_current;
    size = offset + count;
  }

  abbrev grown_heap : Heap
  grown_heap = record st.opened.heap {
    heap_current = word (st.opened.heap.heap_current + round_up (offset + count));
  }

  grow-Grows :
      grow (offset + count) offset (st.own inode) st.opened.heap ≡ (some grown_inode, grown_heap)
  unfolding grow
  grow-Grows =
      let room : leb st.opened.heap.heap_end
            (word (st.opened.heap.heap_current + round_up (offset + count)))
          ≡ false =
        ground (arith, g.fits, g.valid.low) in
      let has_size : (offset + count == 0) ≡ false = ground (arith, g.longer) in
      let moved =
        krealloc-unmarked (st.own inode).data_at (offset + count) st.opened.heap has_size room
          g.unmarked in
      let no_hole : ltb (st.own inode).size offset ≡ false = ground (arith, g.within) in
      rw (g.has_data, moved, grow, no_hole) (rw (g.has_data, moved) refl)

  tmpfs_write-run :
      (buffer == 0) ≡ false
      → (count == 0) ≡ false
      → tmpfs_write node offset buffer count st
        ≡ (ok count, write_data inode offset buffer count grown_inode grown_heap st)
  unfolding tmpfs_write
  tmpfs_write-run has_buffer has_count =
      let all : word (offset + count) ≡ offset + count = omega (arith, g.small) in
      let long : ltb (st.own inode).size (offset + count) ≡ true = ground (arith, g.longer) in
      rw
        (
          f.is_set, has_buffer, has_count, f.own_inode, f.is_file, all, long, grow-Grows,
          tmpfs_write,
        )
        (rw (f.own_inode, all, grow-Grows) refl)

  -- A write that starts within the contents of a file, or at their end, and ends behind them, where these
  -- contents are not at 0 and the
  -- four bytes in front of the contents are 0: if the heap is valid and has free room for more than the new
  -- contents, rounded up, these are shorter than 2^31 - 8, and the buffer is not NULL and lies below the
  -- free part, it returns its count, but keeps none of the old contents: the file then stands in memory
  -- that was free, and in front of the offset of the write it has the bytes that this memory held. From
  -- the offset on it has the bytes of the buffer.
  pub tmpfs_write-content :
      (buffer == 0) ≡ false
      → (count == 0) ≡ false
      → let (w, st') = tmpfs_write node offset buffer count st in
        (w ≡ ok count)
        × ((st'.own inode).size ≡ offset + count)
        × ((i : ℕ)
            → i < offset
            → content st' inode i ≡ st.opened.heap.bytes (st.opened.heap.heap_current + i))
        × ((i : ℕ) → i < count → content st' inode (offset + i) ≡ st.opened.heap.bytes (buffer + i))
  tmpfs_write-content has_buffer has_count =
      let d = st.opened.heap.heap_current in
      let w : word (d + offset) ≡ d + offset =
        omega (arith, g.fits, g.valid.low, g.longer, g.small) in
      let copied : (p : ℕ)
          → memcpy (d + offset) buffer count st.opened.heap.bytes p ≡ (
              if in_area (d + offset) count p
              then st.opened.heap.bytes (buffer + (p - (d + offset)))
              else st.opened.heap.bytes p) =
        λ p.
          (memcpy-memset_lem (d + offset) buffer 0 count p st.opened.heap.bytes).0
            (inr (omega (arith, g.buffer_below))) in
      let run = tmpfs_write-run has_buffer has_count in
      let st' = write_data inode offset buffer count grown_inode grown_heap st in
      subst
        (λ r.
          (r.0 ≡ ok count)
          × ((r.1.own inode).size ≡ offset + count)
          × ((i : ℕ) → i < offset → content r.1 inode i ≡ st.opened.heap.bytes (d + i))
          × ((i : ℕ)
              → i < count
              → content r.1 inode (offset + i) ≡ st.opened.heap.bytes (buffer + i)))
        (sym run)
        (
          refl,
          rw (==_refl inode) refl,
          λ i lt.
              let out : in_area (d + offset) count (d + i) ≡ false = ground arith in
              rw (==_refl inode, w) (copied (d + i) ∙ rw out refl),
          λ i lt.
              let inside : in_area (d + offset) count (d + (offset + i)) ≡ true = ground arith in
              let at : d + (offset + i) - (d + offset) ≡ i = omega arith in
              rw (==_refl inode, w) (copied (d + (offset + i)) ∙ rw (inside, at) refl),
        )
