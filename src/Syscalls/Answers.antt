-- ===== src/Syscalls/Answers.antt =====
-- What a system call means: the request that the registers make, and its answer in eax.
use mini_unix.Base.{
  ℕ, ◌-◌, ◌^◌, ◌<◌, ◌≤◌, ◌≡◌, refl, ap, inl, inr, true, false, Option, none, some, arith, leb, ◌==◌,
  if◌then◌else◌, Bool-cases,
}
use mini_unix.Base.Int.{ℤ}
use mini_unix.Errno.{Errno, efault, enoent, Result, err}
use mini_unix.Text.{Str}
use mini_unix.Process.{Process, process_get_file}
use mini_unix.Vfs.{Lookup}
use mini_unix.Vfs.Calls.{State, TransferFn, vfs_open, vfs_close}
use mini_unix.Vfs.Calls.Streams.{vfs_read, vfs_write}
use mini_unix.Interrupts.{Frame}
use mini_unix.Syscalls.{
  Kernel, Returned, minus_1, signed, is_minus, word_of, returned, kept, arguments, fault, sys_read,
  sys_write, sys_open, sys_close, syscall_dispatch,
}

-- Every error is at least 1 and far below 2^31.
abbrev pub AreNumbers : (Errno → ℕ) → Type 0
AreNumbers error_number = (e : Errno) → (1 ≤ error_number e) × (error_number e < 2 ^ 31)

pub data Request : Type 0 where
  read_request write_request : (fd : ℤ) (buffer count : ℕ) → Request
  open_request : (path flags : ℕ) → Request
  close_request : (fd : ℤ) → Request
  unknown : Request

-- the request in the registers of a frame
abbrev pub request : Frame → Request
request frame =
    if frame.eax == 3
    then read_request (signed frame.ebx) frame.ecx frame.edx
    else if frame.eax == 4
    then write_request (signed frame.ebx) frame.ecx frame.edx
    else if frame.eax == 5
    then open_request frame.ebx frame.ecx
    else if frame.eax == 6
    then close_request (signed frame.ebx)
    else unknown

module _ {Own : Type 0} (error_number : Errno → ℕ) (string_at : ℕ → Str)
    (lookup_of : ℕ → Option Lookup) (read_of write_of : ℕ → Option (TransferFn Own)) where
  abbrev with_state : Kernel Own → Option (Result ℕ × State Own) → Option (ℕ × Kernel Own)
  with_state k none = none
  with_state k (some (r, st)) = some (word_of error_number r, record k { state = st })

  abbrev with_process :
      Kernel Own → Option (Result ℕ × (Option Process × State Own)) → Option (ℕ × Kernel Own)
  with_process k none = none
  with_process k (some (r, (p, st))) =
      some (word_of error_number r, record { kernel_proc = kept k.kernel_proc p; state = st })

  abbrev denied : Kernel Own → Option (ℕ × Kernel Own)
  denied k = some (word_of error_number (err efault), k)

  -- the answer to a request, a word, and the kernel behind it
  abbrev pub perform : Request → Kernel Own → Option (ℕ × Kernel Own)
  perform (read_request fd buffer count) k =
      if buffer == 0
      then denied k
      else with_state k (vfs_read read_of (some k.kernel_proc) fd buffer count k.state)
  perform (write_request fd buffer count) k =
      if buffer == 0
      then denied k
      else with_state k (vfs_write write_of (some k.kernel_proc) fd buffer count k.state)
  perform (open_request path flags) k =
      if path == 0
      then denied k
      else with_process k
          (vfs_open lookup_of (some k.kernel_proc) (some (string_at path)) flags k.state)
  perform (close_request fd) k = with_state k (some (vfs_close (some k.kernel_proc) fd k.state))
  perform unknown k = some (minus_1, k)

  abbrev pub answered : Frame → Option (ℕ × Kernel Own) → Option (Frame × Kernel Own)
  answered frame none = none
  answered frame (some (w, k)) = some (record frame { eax = w }, k)

  -- the last lines of the dispatch
  abbrev replied : Frame → Option (Returned × Kernel Own) → Option (Frame × Kernel Own)
  replied frame none = none
  replied frame (some (r, k)) =
      some (record frame { eax = if r.error == 0 then r.retval else r.error }, k)

  -- Whether it returns an error or not, the word that a call leaves in eax is its result.
  eax-returned :
      (r : Result ℕ)
      → let o = returned error_number r in
        (if o.error == 0 then o.retval else o.error) ≡ word_of error_number r
  eax-returned r =
      let w = word_of error_number r in
      elim (Bool-cases (is_minus w)) [
        | inl minus ↦ let set : (w == 0) ≡ false = ground arith in rw (minus, set) refl
        | inr plus ↦ rw plus refl
      ]

  replied-fault :
      AreNumbers error_number
      → (frame : Frame) (k : Kernel Own)
      → replied frame (some (fault error_number, k)) ≡ answered frame (denied k)
  replied-fault numbers frame k =
      let (lo, hi) = numbers efault in
      let set : (2 ^ 32 - error_number efault == 0) ≡ false = ground arith in rw set refl

  replied-state :
      (frame : Frame) (k : Kernel Own) (x : Option (Result ℕ × State Own))
      → replied frame (elim x [
        | none ↦ none
        | some (r, st) ↦ some (returned error_number r, record k { state = st })
      ])
        ≡ answered frame (with_state k x)
  replied-state frame k none = refl
  replied-state frame k (some (r, st)) =
      ap (λ w. some (record frame { eax = w }, record k { state = st })) (eax-returned r)

  replied-process :
      (frame : Frame) (k : Kernel Own) (x : Option (Result ℕ × (Option Process × State Own)))
      → replied frame (elim x [
        | none ↦ none
        | some (r, (p, st)) ↦
            some
              (returned error_number r, record { kernel_proc = kept k.kernel_proc p; state = st })
      ])
        ≡ answered frame (with_process k x)
  replied-process frame k none = refl
  replied-process frame k (some (r, (p, st))) =
      ap
        (λ w.
          some
            (record frame { eax = w }, record { kernel_proc = kept k.kernel_proc p; state = st }))
        (eax-returned r)

  module _ (numbers : AreNumbers error_number) (frame : Frame) (k : Kernel Own) where
    replied-sys_read :
        replied frame
          (sys_read error_number string_at lookup_of read_of write_of (arguments frame) k)
        ≡ answered frame (perform (read_request (signed frame.ebx) frame.ecx frame.edx) k)
    unfolding sys_read
    replied-sys_read = elim (Bool-cases (frame.ecx == 0)) [
      | inl absent ↦ rw absent (replied-fault numbers frame k)
      | inr given ↦ rw given (
          replied-state frame k
            (vfs_read read_of (some k.kernel_proc) (signed frame.ebx) frame.ecx frame.edx k.state))
    ]

    replied-sys_write :
        replied frame
          (sys_write error_number string_at lookup_of read_of write_of (arguments frame) k)
        ≡ answered frame (perform (write_request (signed frame.ebx) frame.ecx frame.edx) k)
    unfolding sys_write
    replied-sys_write = elim (Bool-cases (frame.ecx == 0)) [
      | inl absent ↦ rw absent (replied-fault numbers frame k)
      | inr given ↦ rw given (
          replied-state frame k (
            vfs_write write_of (some k.kernel_proc) (signed frame.ebx) frame.ecx frame.edx k.state))
    ]

    replied-sys_open :
        replied frame
          (sys_open error_number string_at lookup_of read_of write_of (arguments frame) k)
        ≡ answered frame (perform (open_request frame.ebx frame.ecx) k)
    unfolding sys_open
    replied-sys_open = elim (Bool-cases (frame.ebx == 0)) [
      | inl absent ↦ rw absent (replied-fault numbers frame k)
      | inr given ↦ rw given (
          replied-process frame k (
            vfs_open lookup_of (some k.kernel_proc) (some (string_at frame.ebx)) frame.ecx k.state))
    ]

    replied-sys_close :
        replied frame
          (sys_close error_number string_at lookup_of read_of write_of (arguments frame) k)
        ≡ answered frame (perform (close_request (signed frame.ebx)) k)
    unfolding sys_close vfs_close
    replied-sys_close =
        let f = process_get_file (some k.kernel_proc) (signed frame.ebx) in
        let (lo, hi) = numbers enoent in
        let minus : is_minus (2 ^ 32 - error_number enoent) ≡ true = ground arith in
        let set : (2 ^ 32 - error_number enoent == 0) ≡ false = ground arith in
        elim (Bool-cases (f == 0)) [
          | inl absent ↦ rw absent (rw (minus, set) refl)
          | inr found ↦ rw found refl
        ]

    -- If every error number is between 1 and 2^31 - 1, `syscall_dispatch` carries out the request that
    -- the registers make: a call of the virtual file system for the process of the kernel, with
    -- `EFAULT` for a NULL path or buffer, or the answer -1 to an unknown number. It changes no register
    -- but eax, which gets the result of the call, errors as negative numbers.
    pub syscall_dispatch-perform :
        syscall_dispatch error_number string_at lookup_of read_of write_of frame k
        ≡ answered frame (perform (request frame) k)
    unfolding syscall_dispatch
    syscall_dispatch-perform =
        let n = frame.eax in
        elim (Bool-cases (n == 3)) [
          | inl three ↦
              let known : leb 7 n ≡ false = ground arith in
              let not_one : (n == 1) ≡ false = ground arith in
              rw (known, not_one, three) replied-sys_read
          | inr not_three ↦ elim (Bool-cases (n == 4)) [
            | inl four ↦
                let known : leb 7 n ≡ false = ground arith in
                let not_one : (n == 1) ≡ false = ground arith in
                rw (known, not_one, not_three, four) replied-sys_write
            | inr not_four ↦ elim (Bool-cases (n == 5)) [
              | inl five ↦
                  let known : leb 7 n ≡ false = ground arith in
                  let not_one : (n == 1) ≡ false = ground arith in
                  rw (known, not_one, not_three, not_four, five) replied-sys_open
              | inr not_five ↦ elim (Bool-cases (n == 6)) [
                | inl six ↦
                    let known : leb 7 n ≡ false = ground arith in
                    let not_one : (n == 1) ≡ false = ground arith in
                    rw (known, not_one, not_three, not_four, not_five, six) replied-sys_close
                | inr not_six ↦ elim (Bool-cases (leb 7 n)) [
                  | inl beyond ↦ rw (beyond, not_three, not_four, not_five, not_six) refl
                  | inr within ↦ elim (Bool-cases (n == 1)) [
                    | inl one ↦ rw (within, one, not_three, not_four, not_five, not_six) refl
                    | inr not_one ↦
                        rw (within, not_one, not_three, not_four, not_five, not_six) refl
                  ]
                ]
              ]
            ]
          ]
        ]
