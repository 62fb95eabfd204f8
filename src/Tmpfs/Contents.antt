-- ===== src/Tmpfs/Contents.antt =====
-- `tmpfs_read` and `tmpfs_write` of kernel/fs/tmpfs/tmpfs.c. They do not test for a missing inode: what
-- they do there is not meant to say anything. Both return their `size_t` as an `ssize_t`: the word of `ok`
-- is negative from 2^31 on, as vfs.c finds it.
use mini_unix.Base.{ℕ, ◌+◌, ◌-◌, ◌||◌, Option, none, some, ltb, leb, ◌==◌, if◌then◌else◌}
use mini_unix.Errno.{einval, enospc, Result, ok, err}
use mini_unix.Memory.{memcpy, memset}
use mini_unix.Heap.{Heap, word, krealloc}
use mini_unix.Tmpfs.{Inode, TmpfsState, is_dir, set_inode}

-- `to_read`
abbrev pub read_size : (size offset count : ℕ) → ℕ
read_size size offset count = if ltb (size - offset) count then size - offset else count

unfoldable pub tmpfs_read : (node offset buffer count : ℕ) → TmpfsState → Result ℕ × TmpfsState
tmpfs_read node offset buffer count st =
    let inode = st.own (st.store.vnodes node).private_data in
    let heap = st.opened.heap in
    if (node == 0) || (buffer == 0)
    then (err einval, st)
    else if count == 0
    then (ok 0, st)
    else if is_dir inode.kind
    then (err einval, st)
    else if leb inode.size offset
    then (ok 0, st)
    else let n = read_size inode.size offset count in
      let heap' = record heap {
        bytes = memcpy buffer (word (inode.data_at + offset)) n heap.bytes;
      } in
      (ok n, record st { opened = record st.opened { heap = heap' } })

-- the inode and the heap once the contents reach to `required`, `none` where there is no room
unfoldable pub grow : (required offset : ℕ) → Inode → Heap → Option Inode × Heap
grow required offset inode heap =
    let (data', heap') =
      krealloc (if inode.data_at == 0 then none else some inode.data_at) required heap in
    elim data' [
      | none ↦ (none, heap')
      | some d ↦
          let filled =
            if ltb inode.size offset
            then memset (word (d + inode.size)) 0 (offset - inode.size) heap'.bytes
            else heap'.bytes in
          (some (record inode { data_at = d; size = required }), record heap' { bytes = filled })
    ]

-- the contents copied into the data of an inode
abbrev pub write_data : (inode_at offset buffer count : ℕ) → Inode → Heap → TmpfsState → TmpfsState
write_data inode_at offset buffer count inode heap st = record st {
  own = set_inode inode_at inode st.own;
  opened = record st.opened {
    heap = record heap { bytes = memcpy (word (inode.data_at + offset)) buffer count heap.bytes };
  };
}

unfoldable pub tmpfs_write : (node offset buffer count : ℕ) → TmpfsState → Result ℕ × TmpfsState
tmpfs_write node offset buffer count st =
    let inode_at = (st.store.vnodes node).private_data in
    let inode = st.own inode_at in
    let required = word (offset + count) in
    if (node == 0) || (buffer == 0)
    then (err einval, st)
    else if count == 0
    then (ok 0, st)
    else if is_dir inode.kind
    then (err einval, st)
    else if ltb inode.size required
    then (let (grown, heap') = grow required offset inode st.opened.heap in
        elim grown [
          | none ↦ (err enospc, record st { opened = record st.opened { heap = heap' } })
          | some inode' ↦ (ok count, write_data inode_at offset buffer count inode' heap' st)
        ])
    else (ok count, write_data inode_at offset buffer count inode st.opened.heap st)
