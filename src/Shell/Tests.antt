-- ===== src/Shell/Tests.antt =====
-- Command lines.
use mit_lab.Base.{true, ℕ, ◌≡◌, refl, [], ◌∷◌, arith, inr}
use mit_lab.Shell.{
  starts, skip_space, strchr, redir_loop, args_loop, token, word, after_gt, back_loop, push_arg,
  Cmd, exec, redir, pipe, list, back, parsed, syntax, parsecmd,
}
use mit_lab.Shell.Tokens.{is_plain, IsWord, IsCommand}
use mit_lab.Shell.Ends.{Ended, parsecmd-Ended}
use mit_lab.Shell.Print.{print}
use mit_lab.Shell.Commands.{parsecmd-print}

-- "ls | wc > x &", with a newline at the end
parsecmd_pipe :
    parsecmd (108 ∷ 115 ∷ 32 ∷ 124 ∷ 32 ∷ 119 ∷ 99 ∷ 32 ∷ 62 ∷ 32 ∷ 120 ∷ 32 ∷ 38 ∷ 10 ∷ [])
    ≡ parsed
        (back (
          pipe
            (exec ((108 ∷ 115 ∷ []) ∷ []))
            (redir (exec ((119 ∷ 99 ∷ []) ∷ [])) (120 ∷ []) 0x601 1)))
        []
unfolding parsecmd starts skip_space strchr redir_loop args_loop token word after_gt back_loop
    push_arg
parsecmd_pipe = refl

-- "(a"
parsecmd_open : parsecmd (40 ∷ 97 ∷ []) ≡ syntax
unfolding parsecmd starts skip_space strchr redir_loop args_loop token word after_gt back_loop
    push_arg
parsecmd_open = refl

-- (a ; b) >> c | d
abbrev sample : Cmd
sample =
    pipe (redir (list (exec ((97 ∷ []) ∷ [])) (exec ((98 ∷ []) ∷ []))) (99 ∷ []) 0x201 1)
      (exec ((100 ∷ []) ∷ []))

letter : (c : ℕ) → is_plain c ≡ true → IsWord (c ∷ [])
letter c h = (omega arith, (h, tt))

sample-IsCommand : IsCommand sample
unfolding IsCommand strchr
sample-IsCommand =
    let a : IsWord (97 ∷ []) = letter 97 refl in
    let b : IsWord (98 ∷ []) = letter 98 refl in
    let c : IsWord (99 ∷ []) = letter 99 refl in
    let d : IsWord (100 ∷ []) = letter 100 refl in
    (
      (((omega arith, (a, tt)), (omega arith, (b, tt))), c, inr (inr (refl, refl))),
      (omega arith, (d, tt)),
    )

parsecmd-print_example : parsecmd (print sample) ≡ parsed sample []
parsecmd-print_example = parsecmd-print sample sample-IsCommand

-- "(a|b&)>c;d": a block with a redirection, and what follows it
parsecmd-Ended_example : Ended (parsecmd (40 ∷ 97 ∷ 124 ∷ 98 ∷ 38 ∷ 41 ∷ 62 ∷ 99 ∷ 59 ∷ 100 ∷ []))
parsecmd-Ended_example = parsecmd-Ended (40 ∷ 97 ∷ 124 ∷ 98 ∷ 38 ∷ 41 ∷ 62 ∷ 99 ∷ 59 ∷ 100 ∷ [])
