-- ===== src/Syscalls/Storage.antt =====
-- What a program that writes a file and reads it again gets: the system calls, the virtual file system and
-- a file system together.
mod Tests
use mini_unix.Base.{
  ℕ, ◌+◌, ◌%◌, ◌^◌, ◌<◌, ◌≡◌, refl, ◌∙◌, ap, true, false, Option, some, arith, ltb, ◌==◌,
}
use mini_unix.Base.Int.{pos}
use mini_unix.Errno.{Errno}
use mini_unix.Text.{Str}
use mini_unix.Heap.{word}
use mini_unix.Process.{process_get_file}
use mini_unix.Vfs.{Lookup}
use mini_unix.Vfs.Calls.{State, TransferFn}
use mini_unix.Vfs.Calls.Streams.{refused}
use mini_unix.Vfs.Calls.Transfer.{Ready}
use mini_unix.Vfs.Calls.FileSystem.{FileSystem, vfs_write-vfs_read}
use mini_unix.Tmpfs.{Inodes}
use mini_unix.Tmpfs.Contents.{tmpfs_read, tmpfs_write}
use mini_unix.Tmpfs.Mounted.{Accepts, tmpfs_filesystem}
use mini_unix.Interrupts.{Frame}
use mini_unix.Syscalls.{Kernel}
use mini_unix.Syscalls.Answers.{AreNumbers}
use mini_unix.Syscalls.User.{user_write, user_read, trap-perform}

-- Two descriptors of the process for two open files that stand at the same place of the same vnode, the
-- first one open for writing and the second one for reading.
pub record Paired {Own : Type 0} (k : Kernel Own) (fd fd' f f' node offset ops : ℕ) : Type 0 where
  pub small : fd < 2 ^ 31
  pub small' : fd' < 2 ^ 31
  pub ready : Ready k.kernel_proc (pos fd) f k.state
  pub ready' : Ready k.kernel_proc (pos fd') f' k.state
  pub two_files : (f' == f) ≡ false
  pub node_is : (k.state.opened.files f).node ≡ node
  pub node_is' : (k.state.opened.files f').node ≡ node
  pub offset_is : (k.state.opened.files f).offset ≡ offset
  pub offset_is' : (k.state.opened.files f').offset ≡ offset
  pub ops_are : (k.state.store.vnodes node).ops ≡ ops
  pub may_write : refused 1 (k.state.opened.files f).flags ≡ false
  pub may_read : refused 0 (k.state.opened.files f').flags ≡ false

module _ {Own : Type 0} (fs : FileSystem Own) (error_number : Errno → ℕ) (string_at : ℕ → Str)
    (lookup_of : ℕ → Option Lookup) (read_of write_of : ℕ → Option (TransferFn Own))
    (frame : Frame) where
  write-read :
      AreNumbers error_number
      → (k : Kernel Own) (fd fd' f f' node offset ops buffer count to : ℕ)
      → Paired k fd fd' f f' node offset ops
      → write_of ops ≡ some fs.write
      → read_of ops ≡ some fs.read
      → (buffer == 0) ≡ false
      → (count == 0) ≡ false
      → (to == 0) ≡ false
      → count < 2 ^ 32
      → fs.Accepts k.state node offset buffer count to
      → (k' k'' : Kernel Own) × (user_write error_number string_at lookup_of read_of write_of frame
            fd buffer count k
          ≡ some (count, k'))
        × (user_read error_number string_at lookup_of read_of write_of frame fd' to count k'
            ≡ some (count, k''))
        × ((i : ℕ)
            → i < count
            → k''.state.opened.heap.bytes (to + i) ≡ k.state.opened.heap.bytes (buffer + i))
        × ((k''.state.opened.files f).offset ≡ word (offset + count))
        × ((k''.state.opened.files f').offset ≡ word (offset + count))
  unfolding user_write user_read
  write-read numbers k fd fd' f f' node offset ops buffer count to pair writes reads has_buffer
        has_count has_to small accepts =
      let (st', st'', wrote, read, back, moved, moved') =
        vfs_write-vfs_read fs read_of write_of k.kernel_proc (pos fd) (pos fd') f f' buffer count to
          k.state pair.ready pair.ready' pair.two_files (rw (pair.node_is, pair.node_is') refl)
          (rw (pair.offset_is, pair.offset_is') refl) pair.may_write pair.may_read
          (rw (pair.node_is, pair.ops_are) writes) (rw (pair.node_is, pair.ops_are) reads)
          has_buffer has_count has_to (rw (pair.node_is, pair.offset_is) accepts) in
      let k' : Kernel Own = record k { state = st' } in
      let k'' : Kernel Own = record k { state = st'' } in
      let same : word count ≡ count = omega arith in
      let low : ltb fd (2 ^ 31) ≡ true = ground (arith, pair.small) in
      let low' : ltb fd' (2 ^ 31) ≡ true = ground (arith, pair.small') in
      (
        k',
        k'',
        trap-perform error_number string_at lookup_of read_of write_of frame numbers
              (record frame { eax = 4; ebx = fd; ecx = buffer; edx = count }) k
            ∙ rw (has_buffer, low, wrote) (ap (λ w. some (w, k')) same),
        trap-perform error_number string_at lookup_of read_of write_of frame numbers
              (record frame { eax = 3; ebx = fd'; ecx = to; edx = count }) k'
            ∙ rw (has_to, low', read) (ap (λ w. some (w, k'')) same),
        back,
        moved ∙ ap (λ o. word (o + count)) pair.offset_is,
        moved' ∙ ap (λ o. word (o + count)) pair.offset_is,
      )

-- If every error number is between 1 and 2^31 - 1, two descriptors below 2^31 stand for two open files at
-- the same offset of the same vnode of tmpfs, which is a file, the first open for writing and the second for reading, and
-- `count` is between 1 and 2^31 - 1. Neither buffer is NULL. The write is of one of two kinds. It stays
-- within the contents of the file, these lie below 2^32, and the place written does not start inside the
-- buffer, behind its start. Or it gives the file its first contents, the heap is valid, with free room for
-- more than these, rounded up, they are shorter than 2^31 - 8, and the buffer lies below the free part.
-- The buffer of the read does not start inside the bytes to be read, behind their start. Then `write` of
-- `count` bytes through the first descriptor returns `count`; `read` of as many through the second then
-- returns `count`, and has filled its buffer with the bytes that stood in the buffer of the write; and
-- both offsets have moved on by `count`, modulo 2^32.
pub user_write-user_read :
    (error_number : Errno → ℕ) (string_at : ℕ → Str) (lookup_of : ℕ → Option Lookup)
    (read_of write_of : ℕ → Option (TransferFn Inodes)) (frame : Frame) (k : Kernel Inodes)
    (fd fd' f f' node offset ops buffer count to : ℕ)
    → AreNumbers error_number
    → Paired k fd fd' f f' node offset ops
    → write_of ops ≡ some tmpfs_write
    → read_of ops ≡ some tmpfs_read
    → Accepts k.state node offset buffer count to
    → (k' k'' : Kernel Inodes) × (user_write error_number string_at lookup_of read_of write_of frame
          fd buffer count k
        ≡ some (count, k'))
      × (user_read error_number string_at lookup_of read_of write_of frame fd' to count k'
          ≡ some (count, k''))
      × ((i : ℕ)
          → i < count
          → k''.state.opened.heap.bytes (to + i) ≡ k.state.opened.heap.bytes (buffer + i))
      × ((k''.state.opened.files f).offset ≡ (offset + count) % 2 ^ 32)
      × ((k''.state.opened.files f').offset ≡ (offset + count) % 2 ^ 32)
user_write-user_read error_number string_at lookup_of read_of write_of frame k fd fd' f f' node
      offset ops buffer count to numbers pair writes reads a =
    write-read tmpfs_filesystem error_number string_at lookup_of read_of write_of frame numbers k fd
      fd' f f' node offset ops buffer count to pair writes reads a.has_buffer a.has_count a.has_to
      (omega (arith, a.positive)) a
