-- ===== src/Shell/Output.antt =====
-- What `ls` and `cat` print, if the C library does what it documents.
use mini_unix.Base.{
  ℕ, zero, suc, ◌<◌, ◌≤◌, ◌≡◌, refl, sym, ◌∙◌, ap, true, false, List, [], ◌∷◌, ◌++◌, append-nil,
  append_assoc, length-append, Option, none, some, arith, if◌then◌else◌, length,
}
use mini_unix.Base.Int.{ℤ, pos}
use mini_unix.Text.{Str}
use mini_unix.Shell.{finished}
use mini_unix.Shell.Libc.{Libc, Headers}
use mini_unix.Shell.Builtins.{
  buffer_size, line_format, is_dots, cat_text, below_zero, cat_loop, cmd_cat, positive,
}

-- `output` is what has been written to the standard output, and `entries` the names that `readdir` has
-- still to give for a directory.
pub record Lists {St : Type 0} (libc : Libc St) (output : St → List ℕ) (entries : ℕ → St → List Str)
    : Type 0 where
  pub ends :
      (dir : ℕ) (st : St)
      → entries dir st ≡ []
      → let (entry, st') = libc.readdir dir st in (entry ≡ none) × (output st' ≡ output st)
  pub gives :
      (dir : ℕ) (name : Str) (names : List Str) (st : St)
      → entries dir st ≡ name ∷ names
      → let (entry, st') = libc.readdir dir st in
        (entry ≡ some name) × (entries dir st' ≡ names) × (output st' ≡ output st)
  pub prints :
      (dir : ℕ) (word : Str) (st : St)
      → let st' = libc.printf line_format (word ∷ []) st in
        (output st' ≡ output st ++ (word ++ 10 ∷ [])) × (entries dir st' ≡ entries dir st)
  pub closes : (dir : ℕ) (st : St) → output (libc.closedir dir st) ≡ output st

-- a line for each name but "." and ".."
abbrev pub listing : List Str → List ℕ
listing [] = []
listing (name ∷ names) =
    let rest = listing names in if is_dots name then rest else (name ++ 10 ∷ []) ++ rest

-- `unread` is what a file has from the offset of a descriptor on. This is the case without errors: no `read`
-- fails, and one of 1024 bytes gives none only at the end of the file; and the standard output, as a
-- regular file with room, takes all that a `write` is given, which in general may be less.
pub record Reads {St : Type 0} (libc : Libc St) (output : St → List ℕ) (unread : ℤ → St → List ℕ)
    : Type 0 where
  pub ends :
      (fd : ℤ) (st : St)
      → unread fd st ≡ []
      → let ((bytes, buffer), st') = libc.read fd buffer_size st in
        (positive bytes ≡ 0) × (output st' ≡ output st)
  pub gives :
      (fd : ℤ) (c : ℕ) (more : List ℕ) (st : St)
      → unread fd st ≡ c ∷ more
      → let ((bytes, buffer), st') = libc.read fd buffer_size st in
        (positive bytes ≡ length buffer)
        × (1 ≤ length buffer)
        × (c ∷ more ≡ buffer ++ unread fd st')
        × (output st' ≡ output st)
  pub writes :
      (fd : ℤ) (buffer : Str) (st : St)
      → let st' = libc.write (pos 1) buffer (length buffer) st in
        (output st' ≡ output st ++ buffer) × (unread fd st' ≡ unread fd st)
  pub closes : (fd : ℤ) (st : St) → output (libc.close fd st) ≡ output st

module _ {St : Type 0} (libc : Libc St) (headers : Headers) (output : St → List ℕ)
    (unread : ℤ → St → List ℕ) (reads : Reads libc output unread) where
  cat_loop-round :
      (fuel : ℕ) (fd bytes : ℤ) (buffer : Str) (st st' : St)
      → libc.read fd buffer_size st ≡ ((bytes, buffer), st')
      → positive bytes ≡ length buffer
      → 1 ≤ length buffer
      → cat_loop libc headers (suc fuel) fd st
        ≡ cat_loop libc headers fuel fd (libc.write (pos 1) buffer (length buffer) st')
  unfolding cat_loop
  cat_loop-round fuel fd bytes [] st st' e count some_read = absurd (omega arith)
  cat_loop-round fuel fd bytes (b ∷ buffer) st st' e count some_read =
      rw (e, cat_loop, count) (rw e refl)

  cat_loop-unread :
      (fuel : ℕ) (fd : ℤ) (text : List ℕ) (st : St)
      → unread fd st ≡ text
      → length text < fuel
      → (st' : St) × (cat_loop libc headers fuel fd st ≡ some st')
        × (output st' ≡ output st ++ text)
  unfolding cat_loop
  cat_loop-unread zero fd text st left lt = absurd (omega arith)
  cat_loop-unread (suc fuel) fd [] st left lt =
      let (over, same) = reads.ends fd st left in
      (
        (libc.read fd buffer_size st).1,
        rw (over, cat_loop) refl,
        same ∙ sym (append-nil (output st)),
      )
  cat_loop-unread (suc fuel) fd (c ∷ more) st left lt =
      let ((bytes, buffer), st1) = libc.read fd buffer_size st in
      let (count, some_read, split, same) = reads.gives fd c more st left in
      let st2 = libc.write (pos 1) buffer (length buffer) st1 in
      let (wrote, kept) = reads.writes fd buffer st1 in
      let fewer : length (unread fd st1) < fuel =
        omega (arith, lt, some_read, ap length split, length-append buffer (unread fd st1)) in
      let (st', run, printed) = cat_loop-unread fuel fd (unread fd st1) st2 kept fewer in
      (
        st',
        cat_loop-round fuel fd bytes buffer st st1 refl count some_read ∙ run,
        printed
            ∙ ap (λ o. o ++ unread fd st1) (wrote ∙ ap (λ o. o ++ buffer) same)
            ∙ append_assoc (output st) buffer (unread fd st1)
            ∙ ap (λ t. output st ++ t) (sym split),
      )

  -- Let no `read` of the file fail, and give none of its bytes only at the end, let each `write` to the
  -- standard output write all that it is given and leave the file alone, and opening, reading and closing
  -- print nothing. `cat` of a file that can be opened then prints all of it, whatever its length and however
  -- few of the bytes each `read` gives, then closes it, as its last call, and returns 0, if it has more fuel
  -- than the file has bytes. It reports a file that cannot be opened and returns 0.
  pub cmd_cat-unread :
      (fuel argc : ℕ) (fd : ℤ) (argv : ℕ → Option Str) (st st' : St)
      → libc.open_file (argv 1) headers.o_rdonly 0 st ≡ (fd, st')
      → output st' ≡ output st
      → length (unread fd st') < fuel
      → let run = cmd_cat libc headers fuel argc argv st in
        (below_zero fd ≡ true → run ≡ some (finished (pos 0) (libc.perror cat_text st')))
        × (below_zero fd ≡ false
            → (copied : St) × (run ≡ some (finished (pos 0) (libc.close fd copied)))
              × (cat_loop libc headers fuel fd st' ≡ some copied)
              × (output copied ≡ output st ++ unread fd st')
              × (output (libc.close fd copied) ≡ output copied))
  unfolding cmd_cat
  cmd_cat-unread fuel argc fd argv st st' given same enough = (
    λ failed. rw (given, failed) refl,
    λ opened.
        let (st1, run, printed) = cat_loop-unread fuel fd (unread fd st') st' refl enough in
        (
          st1,
          rw (given, opened, run) (rw given refl),
          run,
          printed ∙ ap (λ o. o ++ unread fd st') same,
          reads.closes fd st1,
        ),
  )
