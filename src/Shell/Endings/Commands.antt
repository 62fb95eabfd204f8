-- ===== src/Shell/Endings/Commands.antt =====
-- Every command of user/commands.c comes to an end.
use mini_unix.Base.{
  Bool, ℕ, refl, inl, inr, ◌||◌, List, [], ◌∷◌, Option, some, ltb, ◌==◌, if◌then◌else◌, Bool-cases,
  Option-cases,
}
use mini_unix.Base.Int.{pos, is_zero}
use mini_unix.Text.{Str, strlen}
use mini_unix.Shell.{commands, finished, crashed}
use mini_unix.Shell.Libc.{Libc, Headers}
use mini_unix.Shell.Builtins.{
  line_format, dot, below_zero, is_minus_one, cmd_ls, cmd_pwd, or_dot, change_to, cmd_cd, cmd_echo,
  cmd_cat, print_names, cmd_help, builtins, usage_ls, usage_pwd, usage_cd, cd_text, cat_text,
  pwd_text, home, empty_directory, help_first, help_second, name_format, help_last,
}
use mini_unix.Shell.Endings.{Finite, Complete, AllComplete, Ends, ls_loop-ends, cat_loop-ends}

module _ {St : Type 0} (libc : Libc St) (headers : Headers) (limit : ℕ) (Fine : St → Type 0)
    (finite : Finite libc headers limit Fine) where
  cmd_ls-Complete : Complete Fine (cmd_ls libc headers limit)
  unfolding cmd_ls
  cmd_ls-Complete argc argv st fine =
      let path = if ltb 1 argc then argv 1 else some dot in
      let (dir, st1) = libc.opendir path st in
      let fine1 = finite.opendir path st fine in
      elim (Bool-cases (ltb argc 2)) [
        | inl few ↦ (
          finished (pos 1) (libc.fprintf_stderr usage_ls [] st),
          rw few refl,
          finite.fprintf_stderr usage_ls [] st fine,
        )
        | inr many ↦ elim (Bool-cases (dir == 0)) [
          | inl missing ↦ (
            finished (pos 1) (libc.perror empty_directory st1),
            rw (many, missing) refl,
            finite.perror empty_directory st1 fine1,
          )
          | inr found ↦
              let (st2, run, fine2) =
                ls_loop-ends libc headers limit Fine finite limit dir st1 fine1
                  (finite.few_entries path st fine) in
              (
                finished (pos 0) (libc.closedir dir st2),
                rw (many, found, run) refl,
                finite.closedir dir st2 fine2,
              )
        ]
      ]

  cmd_pwd-Complete : Complete Fine (cmd_pwd libc headers)
  unfolding cmd_pwd
  cmd_pwd-Complete argc argv st fine =
      let st1 = (libc.getcwd headers.filename_max st).1 in
      let fine1 = finite.getcwd headers.filename_max st fine in
      elim (Bool-cases (ltb 1 argc)) [
        | inl many ↦ (
          finished (pos 1) (libc.fprintf_stderr usage_pwd [] st),
          rw many refl,
          finite.fprintf_stderr usage_pwd [] st fine,
        )
        | inr bare ↦ elim (Option-cases (libc.getcwd headers.filename_max st).0) [
          | inl failed ↦ (
            finished (pos 1) (libc.perror pwd_text st1),
            rw (bare, failed) refl,
            finite.perror pwd_text st1 fine1,
          )
          | inr (path, given) ↦ (
            finished (pos 0) (libc.printf line_format (path ∷ []) st1),
            rw (bare, given) refl,
            finite.printf line_format (path ∷ []) st1 fine1,
          )
        ]
      ]

  change_to-Ends : (path : Str) (st : St) → Fine st → Ends Fine (change_to libc headers path st)
  change_to-Ends path st fine =
      let st1 = (libc.chdir path st).1 in
      let fine1 = finite.chdir path st fine in
      elim (Bool-cases (is_zero (libc.chdir path st).0)) [
        | inl done ↦ (finished (pos 0) st1, rw done refl, fine1)
        | inr failed ↦ (
          finished (pos 0) (libc.perror cd_text st1),
          rw failed refl,
          finite.perror cd_text st1 fine1,
        )
      ]

  cmd_cd-Complete : Complete Fine (cmd_cd libc headers)
  unfolding cmd_cd
  cmd_cd-Complete argc argv st fine = elim (Bool-cases (ltb 2 argc)) [
    | inl many ↦ (
      finished (pos 0) (libc.fprintf_stderr usage_cd [] st),
      rw many refl,
      finite.fprintf_stderr usage_cd [] st fine,
    )
    | inr few ↦ elim (Bool-cases (argc == 2)) [
      | inl two ↦ rw (few, two) (change_to-Ends (or_dot (argv 1)) st fine)
      | inr one ↦
          rw (few, one)
            (change_to-Ends (or_dot (libc.getenv home st).0) (libc.getenv home st).1
              (finite.getenv home st fine))
    ]
  ]

  cmd_echo-Complete :
      (at_literal : Option Str → Bool) → Complete Fine (cmd_echo libc headers at_literal)
  unfolding cmd_echo
  cmd_echo-Complete at_literal argc argv st fine =
      let (fd, st1) = libc.open_file (argv 3) headers.for_writing 420 st in
      let fine1 = finite.open_file (argv 3) headers.for_writing 420 st fine in
      elim (Bool-cases (argc == 2)) [
        | inl two ↦ elim (Option-cases (argv 1)) [
          | inl missing ↦ (crashed, rw (two, missing) refl, tt)
          | inr (word, given) ↦ (
            finished (pos 0) (libc.printf line_format (word ∷ []) st),
            rw (two, given) refl,
            finite.printf line_format (word ∷ []) st fine,
          )
        ]
        | inr other ↦ elim (Bool-cases (ltb 2 argc || at_literal (argv 2))) [
          | inr neither ↦ (finished (pos 0) st, rw (other, neither) refl, fine)
          | inl to_file ↦ elim (Bool-cases (is_minus_one fd)) [
            | inl failed ↦ (finished (pos 1) st1, rw (other, to_file, failed) refl, fine1)
            | inr opened ↦ elim (Option-cases (argv 1)) [
              | inl missing ↦ (crashed, rw (other, to_file, opened, missing) refl, tt)
              | inr (word, given) ↦ (
                finished (pos 0) (libc.close fd (libc.write fd word (strlen word) st1)),
                rw (other, to_file, opened, given) refl,
                finite.close fd _ (finite.write fd word (strlen word) st1 fine1),
              )
            ]
          ]
        ]
      ]

  cmd_cat-Complete : Complete Fine (cmd_cat libc headers limit)
  unfolding cmd_cat
  cmd_cat-Complete argc argv st fine =
      let (fd, st1) = libc.open_file (argv 1) headers.o_rdonly 0 st in
      let fine1 = finite.open_file (argv 1) headers.o_rdonly 0 st fine in
      elim (Bool-cases (below_zero fd)) [
        | inl failed ↦ (
          finished (pos 0) (libc.perror cat_text st1),
          rw failed refl,
          finite.perror cat_text st1 fine1,
        )
        | inr opened ↦
            let (st2, run, fine2) =
              cat_loop-ends libc headers limit Fine finite limit fd st1 fine1
                (finite.few_bytes (argv 1) st fine) in
            (finished (pos 0) (libc.close fd st2), rw (opened, run) refl, finite.close fd st2 fine2)
      ]

  print_names-Fine :
      (names : List Str) (st : St) → Fine st → Fine (print_names libc headers names st)
  print_names-Fine [] st fine = fine
  print_names-Fine (name ∷ names) st fine =
      print_names-Fine names _ (finite.printf name_format (name ∷ []) st fine)

  cmd_help-Complete : (names : List Str) → Complete Fine (cmd_help libc headers names)
  unfolding cmd_help
  cmd_help-Complete names argc argv st fine = (
    _,
    refl,
    finite.printf help_last [] _ (
        print_names-Fine names _
          (finite.printf help_second [] _ (finite.printf help_first [] st fine))),
  )

  pub commands-AllComplete :
      (at_literal : Option Str → Bool)
      → AllComplete Fine (commands (builtins libc headers limit at_literal))
  commands-AllComplete at_literal = (
    cmd_ls-Complete,
    (
      cmd_pwd-Complete,
      (
        cmd_cd-Complete,
        (
          cmd_echo-Complete at_literal,
          (
            cmd_cat-Complete,
            (λ argc argv st fine. (finished (pos 1) st, refl, fine), (cmd_help-Complete _, tt)),
          ),
        ),
      ),
    ),
  )
