-- ===== src/Shell/BuiltinTests.antt =====
-- A small world with one directory and one file, which every path names: runs of `ls`, `cat` and the loop of
-- the shell, and the theorems at them.
use mini_unix.Base.{
  length, ℕ, ◌<◌, ◌≡◌, refl, true, false, List, [], ◌∷◌, ◌++◌, Option, none, some, arith, ◌==◌,
  if◌then◌else◌,
}
use mini_unix.Base.Int.{ℤ, pos}
use mini_unix.Text.{Str, strcmp}
use mini_unix.Shell.{finished}
use mini_unix.Shell.Libc.{Libc, Headers}
use mini_unix.Shell.Builtins.{cat_text, below_zero, ls_loop, cat_loop, cmd_cat, ls_loop, cat_loop}
use mini_unix.Shell.Output.{Reads, listing, cmd_cat-unread}
use mini_unix.Shell.Loop.{Setting}

-- what has been printed, the names that are left of the directory, and the bytes that are left of the file
record World : Type 0 where
  printed : List ℕ
  names : List Str
  bytes : List ℕ

abbrev next_name : World → Option Str × World
next_name w = elim w.names [
  | [] ↦ (none, w)
  | name ∷ names ↦ (some name, record w { names = names })
]

-- one byte at a time
abbrev next_byte : World → (ℤ × Str) × World
next_byte w = elim w.bytes [
  | [] ↦ ((pos 0, []), w)
  | c ∷ bytes ↦ ((pos 1, c ∷ []), record w { bytes = bytes })
]

abbrev print : List Str → World → World
print [] w = w
print (word ∷ words) w = record w { printed = w.printed ++ (word ++ 10 ∷ []) }

abbrev libc : Libc World
libc = record {
  printf = λ format args w. print args w;
  fprintf_stderr = λ format args w. w;
  perror = λ s w. w;
  opendir = λ path w. (64, w);
  readdir = λ dir w. next_name w;
  closedir = λ dir w. w;
  getcwd = λ size w. (some (47 ∷ []), w);
  getenv = λ name w. (none, w);
  chdir = λ path w. (pos 0, w);
  open_file = λ path flags mode w. (pos 3, w);
  write = λ fd buffer count w. record w { printed = w.printed ++ buffer };
  read = λ fd count w. next_byte w;
  close = λ fd w. w;
  fork = λ w. (pos 5, w);
  execvp = λ file argv w. none;
  waitpid = λ pid options w. (0, w);
}

abbrev headers : Headers
headers = record {
  filename_max = 4096;
  o_rdonly = 0;
  for_writing = 577;
  wuntraced = 2;
  wifexited = λ status. true;
  wifsignaled = λ status. false;
}

abbrev output : World → List ℕ
output w = w.printed

abbrev entries : ℕ → World → List Str
entries dir w = w.names

abbrev unread : ℤ → World → List ℕ
unread fd w = w.bytes

libc-Reads : Reads libc output unread
libc-Reads = record {
  ends = λ fd w left. rw left (refl, refl);
  gives = λ fd c more w left. rw left (refl, omega arith, refl, refl);
  writes = λ fd buffer w. (refl, refl);
  closes = λ fd w. refl;
}

-- ".", "a" and "b"; a file with the bytes 7 and 8
abbrev world : World
world = record { printed = []; names = (46 ∷ []) ∷ (97 ∷ []) ∷ (98 ∷ []) ∷ []; bytes = 7 ∷ 8 ∷ [] }

abbrev two_words : ℕ → Option Str
two_words i = some (47 ∷ [])

cmd_cat_example :
    let run = cmd_cat libc headers 3 2 two_words world in
    (below_zero (pos 3) ≡ true → run ≡ some (finished (pos 0) (libc.perror cat_text world)))
    × (below_zero (pos 3) ≡ false
        → (w : World) × (run ≡ some (finished (pos 0) (libc.close (pos 3) w)))
          × (cat_loop libc headers 3 (pos 3) world ≡ some w)
          × (output w ≡ output world ++ unread (pos 3) world)
          × (output (libc.close (pos 3) w) ≡ output w))
cmd_cat_example =
    cmd_cat-unread libc headers output unread libc-Reads 3 2 (pos 3) two_words world world refl refl
      (omega arith)

listing_runs : listing (entries 64 world) ≡ 97 ∷ 10 ∷ 98 ∷ 10 ∷ []
unfolding strcmp
listing_runs = refl

-- The same library, for lines of one character.
abbrev alone : Setting World
alone = record {
  libc = libc;
  headers = headers;
  malloc = λ size. some (λ i. 7);
  realloc = λ old size block. some block;
  malloc_words = λ size. some (λ i. none);
  realloc_words = λ old size block. some block;
  strtok_all = λ line. if line 0 == 0 then [] else (line 0 ∷ []) ∷ [];
  at_literal = λ word. false;
  fuel = 8;
}

abbrev Small : World → Type 0
Small w = (length w.names < 8) × (length w.bytes < 8)
