-- ===== src/Syscalls/User.antt =====
-- The functions that a program calls: `open`, `close`, `read` and `write` of kernel/proc/syscalls.c, and
-- `syscall1` to `syscall3` of include/proc/syscalls.h. The instruction `int $0x80` is taken to lead to
-- `syscall_dispatch`, with the registers of the program in `frame`, and to come back with its eax.
use mini_unix.Base.{
  subst, ℕ, ◌+◌, ◌-◌, ◌^◌, ◌<◌, ◌≡◌, refl, ◌∙◌, ap, true, false, Option, none, some, arith, ltb,
  ◌==◌,
}
use mini_unix.Base.Int.{pos}
use mini_unix.Errno.{Errno, ok}
use mini_unix.Text.{Str}
use mini_unix.Heap.{Heap, word, kmalloc}
use mini_unix.Files.{file_size}
use mini_unix.Process.{process_get_file, Process, process_alloc_fd}
use mini_unix.Vfs.{Lookup, Store, vfs_lookup}
use mini_unix.Vfs.Calls.{TransferFn, vfs_close}
use mini_unix.Vfs.Calls.Open.{vfs_open-vfs_close}
use mini_unix.Interrupts.{Frame}
use mini_unix.Syscalls.{Kernel, kept, syscall_dispatch}
use mini_unix.Syscalls.Answers.{AreNumbers, request, perform, answered, syscall_dispatch-perform}

module _ {Own : Type 0} (error_number : Errno → ℕ) (string_at : ℕ → Str)
    (lookup_of : ℕ → Option Lookup) (read_of write_of : ℕ → Option (TransferFn Own))
    (frame : Frame) where
  -- `int $0x80` with the registers set: the word in eax
  abbrev pub trap : Frame → Kernel Own → Option (ℕ × Kernel Own)
  trap frame' k =
      elim (syscall_dispatch error_number string_at lookup_of read_of write_of frame' k) [
        | none ↦ none
        | some (frame'', k') ↦ some (frame''.eax, k')
      ]

  abbrev pub syscall1 : (num a1 : ℕ) → Kernel Own → Option (ℕ × Kernel Own)
  syscall1 num a1 k = trap (record frame { eax = num; ebx = a1 }) k

  abbrev pub syscall2 : (num a1 a2 : ℕ) → Kernel Own → Option (ℕ × Kernel Own)
  syscall2 num a1 a2 k = trap (record frame { eax = num; ebx = a1; ecx = a2 }) k

  abbrev pub syscall3 : (num a1 a2 a3 : ℕ) → Kernel Own → Option (ℕ × Kernel Own)
  syscall3 num a1 a2 a3 k = trap (record frame { eax = num; ebx = a1; ecx = a2; edx = a3 }) k

  unfoldable pub user_close : (fd : ℕ) → Kernel Own → Option (ℕ × Kernel Own)
  user_close fd k = syscall1 6 fd k

  unfoldable pub user_open : (path flags : ℕ) → Kernel Own → Option (ℕ × Kernel Own)
  user_open path flags k = syscall2 5 path flags k

  unfoldable pub user_write : (fd buf len : ℕ) → Kernel Own → Option (ℕ × Kernel Own)
  user_write fd buf len k = syscall3 4 fd buf len k

  unfoldable pub user_read : (fd buf len : ℕ) → Kernel Own → Option (ℕ × Kernel Own)
  user_read fd buf len k = syscall3 3 fd buf len k

  pub trap-perform :
      AreNumbers error_number
      → (frame' : Frame) (k : Kernel Own)
      → trap frame' k ≡ perform error_number string_at lookup_of read_of write_of (request frame') k
  trap-perform numbers frame' k =
      let answer = perform error_number string_at lookup_of read_of write_of (request frame') k in
      rw
        (
          syscall_dispatch-perform error_number string_at lookup_of read_of write_of numbers frame'
              k,
          trap,
        )
        (only_eax frame' answer)
    where
      only_eax :
          (frame' : Frame) (answer : Option (ℕ × Kernel Own))
          → elim (answered error_number string_at lookup_of read_of write_of frame' answer) [
            | none ↦ none
            | some (frame'', k') ↦ some (frame''.eax, k')
          ]
            ≡ answer
      only_eax frame' none = refl
      only_eax frame' (some (w, k')) = refl

  kept-some :
      (p : Process) (p' : Option Process) (fd f : ℕ)
      → process_get_file p' (pos fd) ≡ f
      → (f == 0) ≡ false
      → p' ≡ some (kept p p')
  unfolding process_get_file
  kept-some p none fd f found set = absurd (ground arith)
  kept-some p (some p') fd f found set = refl

  -- If every error number is between 1 and 2^31 - 1, a path is not NULL and leads to a vnode with fewer
  -- than 2^32 - 1 references, the first free descriptor of the process is one from 1 to 31, and the heap
  -- has room for a file, `open` returns the number of the descriptor, and the vnode has one reference
  -- more; `close` of this number then returns 0, and every vnode has as many references as before.
  pub user_open-user_close :
      AreNumbers error_number
      → (k : Kernel Own) (path flags node fd f other : ℕ) (store' : Store) (heap' : Heap)
      → (path == 0) ≡ false
      → vfs_lookup lookup_of (some (string_at path)) true k.state.store ≡ some (ok node, store')
      → process_alloc_fd (some k.kernel_proc) ≡ ok fd
      → 0 < fd
      → fd < 32
      → kmalloc file_size k.state.opened.heap ≡ (some f, heap')
      → (node == 0) ≡ false
      → (f == 0) ≡ false
      → k.state.opened.references node < 2 ^ 32 - 1
      → (k' k'' : Kernel Own) × (user_open path flags k ≡ some (fd, k'))
        × (k'.state.opened.references node ≡ k.state.opened.references node + 1)
        × (user_close fd k' ≡ some (0, k''))
        × (k''.state.opened.references other ≡ k.state.opened.references other)
  unfolding user_open user_close process_get_file
  user_open-user_close numbers k path flags node fd f other store' heap' given found slot lo hi room
        has_node has_file small =
      let (p', st', opens, file, flags_kept, more, closes, back) =
        vfs_open-vfs_close Own lookup_of k.kernel_proc (some (string_at path)) flags node fd f other
          store' heap' k.state found slot lo hi room has_node has_file small in
      let p'' = kept k.kernel_proc p' in
      let same : p' ≡ some p'' = kept-some k.kernel_proc p' fd f file has_file in
      let k' : Kernel Own = record { kernel_proc = p''; state = st' } in
      let k'' : Kernel Own = record k' { state = (vfs_close (some p'') (pos fd) st').1 } in
      let low : ltb fd (2 ^ 31) ≡ true = ground arith in
      let word_fd : word fd ≡ fd = omega arith in
      let closes' : (vfs_close (some p'') (pos fd) st').0 ≡ ok 0 =
        subst (λ q. (vfs_close q (pos fd) st').0 ≡ ok 0) same closes in
      (
        k',
        k'',
        trap-perform numbers (record frame { eax = 5; ebx = path; ecx = flags }) k
            ∙ rw (given, opens) (ap (λ w. some (w, k')) word_fd),
        more,
        trap-perform numbers (record frame { eax = 6; ebx = fd }) k' ∙ rw (low, closes') refl,
        subst
            (λ q.
              (vfs_close q (pos fd) st').1.opened.references other
              ≡ k.state.opened.references other)
            same back,
      )
