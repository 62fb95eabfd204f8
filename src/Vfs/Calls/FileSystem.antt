-- ===== src/Vfs/Calls/FileSystem.antt =====
-- What the virtual file system asks of a file system, and what its calls then promise to a process.
use mini_unix.Base.{
  ℕ, ◌+◌, ◌^◌, ◌<◌, ◌≡◌, refl, ◌∙◌, ap, true, false, ltb, arith, Option, some, ◌==◌, ==_refl,
}
use mini_unix.Base.Int.{ℤ}
use mini_unix.Errno.{ok}
use mini_unix.Heap.{word}
use mini_unix.Process.{Process}
use mini_unix.Files.{File}
use mini_unix.Vfs.Calls.{State, TransferFn}
use mini_unix.Vfs.Calls.Streams.{refused, advance, transfer, vfs_read, vfs_write}
use mini_unix.Vfs.Calls.Transfer.{Ready, vfs_read-transfer, vfs_write-transfer}

abbrev pub with_files : {Own : Type 0} → (ℕ → File) → State Own → State Own
with_files files st = record st { opened = record st.opened { files = files } }

-- A call that neither looks at the open files nor changes them, nor the vnodes.
pub record Separate {Own : Type 0} (call : TransferFn Own) : Type 0 where
  pub separate :
      (files : ℕ → File) (node offset buffer count : ℕ) (st : State Own)
      → let (r, st') = call node offset buffer count st in
        (call node offset buffer count (with_files files st) ≡ (r, with_files files st'))
        × (st'.store ≡ st.store)

-- The functions of a file system. Where `Accepts` holds, a write is carried out, and a read of the same
-- place finds what was written.
pub record FileSystem (Own : Type 0) : Type 1 where
  pub read : TransferFn Own
  pub write : TransferFn Own
  pub Accepts : State Own → (node offset buffer count to : ℕ) → Type 0
  pub read_separate : Separate read
  pub write_separate : Separate write
  pub read_back :
      (st : State Own) (node offset buffer count to : ℕ)
      → Accepts st node offset buffer count to
      → let (w, st') = write node offset buffer count st in
        let (r, st'') = read node offset to count st' in
        (count < 2 ^ 31)
        × (w ≡ ok count)
        × (r ≡ ok count)
        × ((i : ℕ)
            → i < count
            → st''.opened.heap.bytes (to + i) ≡ st.opened.heap.bytes (buffer + i))

transfer-here :
    {Own : Type 0} (call : TransferFn Own) (f buffer count n : ℕ) (st st' : State Own)
    → ltb n (2 ^ 31) ≡ true
    → call (st.opened.files f).node (st.opened.files f).offset buffer count st ≡ (ok n, st')
    → transfer call f buffer count st ≡ (ok n, advance f n st')
transfer-here call f buffer count n st st' positive e = rw (e, transfer, positive) (rw e refl)

transfer-ok :
    {Own : Type 0} (call : TransferFn Own) (f node offset buffer count n : ℕ) (st st' : State Own)
    → (st.opened.files f).node ≡ node
    → (st.opened.files f).offset ≡ offset
    → ltb n (2 ^ 31) ≡ true
    → call node offset buffer count st ≡ (ok n, st')
    → transfer call f buffer count st ≡ (ok n, advance f n st')
transfer-ok call f node offset buffer count n st st' at_node at_offset positive e =
    transfer-here call f buffer count n st st' positive (rw (at_node, at_offset) e)

module _ {Own : Type 0} (fs : FileSystem Own) (read_of write_of : ℕ → Option (TransferFn Own)) where
  pub vfs_write-vfs_read :
      (p : Process) (fd fd' : ℤ) (f f' buffer count to : ℕ) (st : State Own)
      → let file = st.opened.files f in
        let file' = st.opened.files f' in
        Ready p fd f st
        → Ready p fd' f' st
        → (f' == f) ≡ false
        → file'.node ≡ file.node
        → file'.offset ≡ file.offset
        → refused 1 file.flags ≡ false
        → refused 0 file'.flags ≡ false
        → write_of (st.store.vnodes file.node).ops ≡ some fs.write
        → read_of (st.store.vnodes file.node).ops ≡ some fs.read
        → (buffer == 0) ≡ false
        → (count == 0) ≡ false
        → (to == 0) ≡ false
        → fs.Accepts st file.node file.offset buffer count to
        → (st' st'' : State Own) × (vfs_write write_of (some p) fd buffer count st
            ≡ some (ok count, st'))
          × (vfs_read read_of (some p) fd' to count st' ≡ some (ok count, st''))
          × ((i : ℕ)
              → i < count
              → st''.opened.heap.bytes (to + i) ≡ st.opened.heap.bytes (buffer + i))
          × ((st''.opened.files f).offset ≡ word (file.offset + count))
          × ((st''.opened.files f').offset ≡ word (file.offset + count))
  vfs_write-vfs_read p fd fd' f f' buffer count to st ready ready' apart same_node same_offset
        may_write may_read writes reads has_write has_count has_to accepts =
      let node = (st.opened.files f).node in
      let offset = (st.opened.files f).offset in
      let (small, written, found, back) = fs.read_back st node offset buffer count to accepts in
      let positive : ltb count (2 ^ 31) ≡ true = ground (arith, small) in
      let st1 = (fs.write node offset buffer count st).1 in
      let st2 = (fs.read node offset to count st1).1 in
      let st' = advance f count st1 in
      let files' = st'.opened.files in
      let same_files : st1.opened.files ≡ st.opened.files =
        ap (λ r. r.1.opened.files)
          (fs.write_separate.separate st.opened.files node offset buffer count st).0 in
      let same_store : st1.store ≡ st.store =
        (fs.write_separate.separate st.opened.files node offset buffer count st).1 in
      let kept : files' f' ≡ st.opened.files f' = rw apart (ap (λ h. h f') same_files) in
      let kept_node : (files' f').node ≡ node = ap (λ file. file.node) kept ∙ same_node in
      let kept_offset : (files' f').offset ≡ offset = ap (λ file. file.offset) kept ∙ same_offset in
      let still : Ready p fd' f' st' = record {
        found = ready'.found;
        exists = ready'.exists;
        has_node = rw kept_node ready.has_node;
        has_ops = rw (kept_node, same_store) ready.has_ops;
      } in
      let later : fs.read node offset to count st' ≡ (ok count, with_files files' st2) =
        (fs.read_separate.separate files' node offset to count st1).0
        ∙ ap (λ x. (x, with_files files' st2)) found in
      let turned : (f == f') ≡ false = ground arith in
      (
        st',
        advance f' count (with_files files' st2),
        vfs_write-transfer write_of fs.write p fd f buffer count st ready has_write has_count writes
              may_write
            ∙ ap some (
                transfer-here fs.write f buffer count count st st1 positive
                  (ap (λ x. (x, st1)) written)),
        vfs_read-transfer read_of fs.read p fd' f' to count st' still has_to has_count
              (rw (kept_node, same_store) reads) (ap (λ file. refused 0 file.flags) kept ∙ may_read)
            ∙ ap some (
                transfer-ok fs.read f' node offset to count count st' (with_files files' st2)
                  kept_node kept_offset positive later),
        back,
        rw (turned, ==_refl f) (ap (λ h. word ((h f).offset + count)) same_files),
        rw (==_refl f') (ap (λ o. word (o + count)) kept_offset),
      )
