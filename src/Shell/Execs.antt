-- ===== src/Shell/Execs.antt =====
-- The text of a command where `parseexec` reads it.
use mit_lab.Base.{
  ℕ, zero, suc, ◌+◌, ◌*◌, ◌≤◌, ◌<◌, ◌≡◌, refl, sym, ap as cong, ◌∙◌, inl, inr, true, false,
  Bool-cases, List, [], ◌∷◌, All, length, length-append, arith, ◌==◌,
}
use mit_lab.Shell.{
  Cmd, exec, redir, pipe, list, back, strchr, whitespace, symbols, skip_space, token, gettoken,
  starts, peek, Parsed, parsed, ◌>>>◌, parseredirs, args_loop, back_loop, parseline, parsepipe,
  parseexec, parseblock, maxargs,
}
use mit_lab.Shell.Tokens.{IsWord, IsCommand, IsClean}
use mit_lab.Shell.Print.{print_words, text, base, redirs, execs-base, Puts, text-Puts, redir_text}
use mit_lab.Shell.Words.{
  Follows, Follows-none, strchr-disjoint, after_exec, after_pipe, after_line, Follows-IsClean,
  skip-clean, word-IsClean,
}
use mit_lab.Shell.Read.{
  peek-clean, word-starts, parseredirs-redirs, parseredirs-word, redirs-IsClean, args_loop-end,
  args_loop-words,
}

pub texts-IsClean : (cmd : Cmd) → IsCommand cmd → Puts IsClean (text cmd)
unfolding strchr
texts-IsClean cmd h =
    text-Puts IsClean (λ c s e q. strchr-disjoint symbols whitespace c refl e)
      (λ w s w_ok q. word-IsClean w s w_ok) cmd h

pub texts-le : (n : ℕ) (cmd : Cmd) → IsCommand cmd → Puts (λ s. n ≤ length s) (text cmd)
texts-le n cmd h =
    text-Puts (λ s. n ≤ length s) (λ c s e q. omega (arith, q))
      (λ w s w_ok q. omega (arith, length-append w (32 ∷ s), q)) cmd h

abbrev pub LineReads : Cmd → Type 0
LineReads cmd =
    (fuel : ℕ) (s : List ℕ)
    → Follows after_line s
    → 4 * length ((text cmd).line s) + 4 ≤ fuel
    → parseline fuel ((text cmd).line s) ≡ parsed cmd s

abbrev pub PipeReads : Cmd → Type 0
PipeReads cmd =
    (fuel : ℕ) (s : List ℕ)
    → Follows after_pipe s
    → 4 * length ((text cmd).pipes s) + 3 ≤ fuel
    → parsepipe fuel ((text cmd).pipes s) ≡ parsed cmd s

abbrev pub ExecReads : Cmd → Type 0
ExecReads cmd =
    (fuel : ℕ) (s : List ℕ)
    → Follows after_exec s
    → 4 * length ((text cmd).execs s) + 2 ≤ fuel
    → parseexec fuel ((text cmd).execs s) ≡ parsed cmd s

-- What `parseline` does after a command.
abbrev pub tail : (fuel : ℕ) → Cmd → List ℕ → Parsed
tail fuel cmd s = elim (peek (59 ∷ []) s) [
  | true ↦ parseline fuel (gettoken s).rest >>> λ right s3. parsed (list cmd right) s3
  | false ↦ parsed cmd (skip_space s)
]

abbrev pub BacksReads : Cmd → Type 0
BacksReads cmd =
    (fuel : ℕ) (s : List ℕ)
    → Follows after_pipe s
    → 4 * length ((text cmd).backs s) + 4 ≤ suc fuel
    → parseline (suc fuel) ((text cmd).backs s) ≡ back_loop (length s + 1) cmd s >>> tail fuel

-- A command in parentheses, and its redirections.
parseexec-block :
    (fuel : ℕ) (b cmd : Cmd) (inner t s : List ℕ)
    → base cmd ≡ b
    → t ≡ redirs cmd s
    → IsClean inner
    → parseline fuel inner ≡ parsed b (41 ∷ t)
    → IsCommand cmd
    → Follows after_exec s
    → parseexec (suc (suc fuel)) (40 ∷ inner) ≡ parsed cmd s
unfolding parseexec parseblock token skip_space starts strchr
parseexec-block fuel b cmd inner t s eb et clean e c f =
    let t_clean : IsClean t = rw et (redirs-IsClean cmd s (Follows-IsClean s f)) in
    rw (skip-clean inner clean, e)
      (cong (λ x. parseredirs b x) (skip-clean t t_clean ∙ et)
        ∙ cong (λ x. parseredirs x (redirs cmd s)) (sym eb)
        ∙ parseredirs-redirs cmd s c f)

redir_text-no-block :
    (file : List ℕ) (mode : ℕ) (s : List ℕ) → starts (40 ∷ []) (redir_text file mode s) ≡ false
unfolding starts strchr
redir_text-no-block file mode s = elim (Bool-cases (mode == 0)) [
  | inl e ↦ rw e refl
  | inr e ↦ elim (Bool-cases (mode == 0x601)) [ inl f ↦ rw (e, f) refl | inr f ↦ rw (e, f) refl ]
]

redirs-no-block :
    (cmd : Cmd) (s : List ℕ) → starts (40 ∷ []) s ≡ false → starts (40 ∷ []) (redirs cmd s) ≡ false
unfolding redirs
redirs-no-block (redir cmd file mode fd) s h =
    redirs-no-block cmd _ (redir_text-no-block file mode s)
redirs-no-block (exec argv) s h = h
redirs-no-block (pipe left right) s h = h
redirs-no-block (list left right) s h = h
redirs-no-block (back cmd) s h = h

-- Words, and redirections after them.
parseexec-words :
    (fuel : ℕ) (argv : List (List ℕ)) (cmd : Cmd) (s : List ℕ)
    → base cmd ≡ exec argv
    → All IsWord argv
    → length argv < maxargs
    → IsCommand cmd
    → Follows after_exec s
    → parseexec (suc fuel) (print_words argv (redirs cmd s)) ≡ parsed cmd s
unfolding parseexec print_words strchr
parseexec-words fuel [] cmd s b h l c f =
    let t = redirs cmd s in
    let clean : IsClean t = redirs-IsClean cmd s (Follows-IsClean s f) in
    let no_block =
      peek-clean (40 ∷ []) t false clean
        (redirs-no-block cmd s (Follows-none after_exec (40 ∷ []) s refl f)) in
    rw (parseexec, no_block)
      (cong (λ x. parseredirs (exec []) x >>> λ ret s1. args_loop (length s1 + 1) 0 ret s1)
          (skip-clean t clean)
        ∙ cong (λ x. parseredirs x t >>> λ ret s1. args_loop (length s1 + 1) 0 ret s1) (sym b)
        ∙ cong (λ r. r >>> λ ret s1. args_loop (length s1 + 1) 0 ret s1)
            (parseredirs-redirs cmd s c f)
        ∙ args_loop-end (length s + 1) 0 cmd s f (omega arith))
parseexec-words fuel (w ∷ ws) cmd s b h l c f =
    let t = print_words (w ∷ ws) (redirs cmd s) in
    let clean : IsClean t = word-IsClean w _ h.0 in
    let no_block = peek-clean (40 ∷ []) t false clean (word-starts (40 ∷ []) w _ refl h.0) in
    rw (parseexec, no_block)
      (cong (λ x. parseredirs (exec []) x >>> λ ret s1. args_loop (length s1 + 1) 0 ret s1)
          (skip-clean t clean)
        ∙ cong (λ r. r >>> λ ret s1. args_loop (length s1 + 1) 0 ret s1)
            (parseredirs-word (exec []) w _ h.0)
        ∙ args_loop-words (length t + 1) [] w ws cmd s b h (omega (arith, l)) c f (omega arith))

-- What a command inside redirections needs.
abbrev pub Inside : Cmd → Type 0
Inside (exec argv) = Unit
Inside (redir cmd file mode fd) = Unit
Inside (pipe left right) = LineReads (pipe left right)
Inside (list left right) = LineReads (list left right)
Inside (back cmd) = LineReads (back cmd)

-- A command that is put in parentheses.
execs-parens :
    (b cmd : Cmd)
    → ((s : List ℕ) → (text b).execs s ≡ 40 ∷ (text b).line (41 ∷ s))
    → IsCommand b
    → base cmd ≡ b
    → IsCommand cmd
    → LineReads b
    → ExecReads cmd
unfolding strchr
execs-parens b cmd k cb eb c reads fuel s f l =
    let t = redirs cmd s in
    let shape : (text cmd).execs s ≡ 40 ∷ (text b).line (41 ∷ t) =
      execs-base cmd s ∙ cong (λ x. (text x).execs t) eb ∙ k t in
    let size = rw shape at l in cong (parseexec fuel) shape ∙ two fuel size
  where
    two :
        (fuel : ℕ)
        → 4 * length (40 ∷ (text b).line (41 ∷ redirs cmd s)) + 2 ≤ fuel
        → parseexec fuel (40 ∷ (text b).line (41 ∷ redirs cmd s)) ≡ parsed cmd s
    two zero size = absurd (omega arith)
    two (suc zero) size = absurd (omega arith)
    two (suc (suc fuel)) size =
        parseexec-block fuel b cmd ((text b).line (41 ∷ redirs cmd s)) (redirs cmd s) s eb refl
          ((texts-IsClean b cb).on_line _ refl)
          (reads fuel (41 ∷ redirs cmd s) refl (omega (arith, size))) c f

base-IsCommand : (cmd : Cmd) → IsCommand cmd → IsCommand (base cmd)
unfolding base IsCommand
base-IsCommand (redir cmd file mode fd) c = base-IsCommand cmd c.0
base-IsCommand (exec argv) c = c
base-IsCommand (pipe left right) c = c
base-IsCommand (list left right) c = c
base-IsCommand (back cmd) c = c

abbrev NoRedir : Cmd → Type 0
NoRedir (redir cmd file mode fd) = ⊥
NoRedir (exec argv) = Unit
NoRedir (pipe left right) = Unit
NoRedir (list left right) = Unit
NoRedir (back cmd) = Unit

base-NoRedir : (cmd : Cmd) → NoRedir (base cmd)
unfolding base
base-NoRedir (redir cmd file mode fd) = base-NoRedir cmd
base-NoRedir (exec argv) = tt
base-NoRedir (pipe left right) = tt
base-NoRedir (list left right) = tt
base-NoRedir (back cmd) = tt

execs-words :
    (argv : List (List ℕ)) (cmd : Cmd)
    → base cmd ≡ exec argv
    → All IsWord argv
    → length argv < maxargs
    → IsCommand cmd
    → ExecReads cmd
unfolding text
execs-words argv cmd eb h l c fuel s f size =
    cong (parseexec fuel) (execs-base cmd s ∙ cong (λ x. (text x).execs (redirs cmd s)) eb)
    ∙ one fuel size
  where
    one :
        (fuel : ℕ)
        → 4 * length ((text cmd).execs s) + 2 ≤ fuel
        → parseexec fuel (print_words argv (redirs cmd s)) ≡ parsed cmd s
    one zero size = absurd (omega arith)
    one (suc fuel) size = parseexec-words fuel argv cmd s eb h l c f

pub execs-Inside : (cmd : Cmd) → IsCommand cmd → Inside (base cmd) → ExecReads cmd
unfolding text IsCommand
execs-Inside cmd c inside = go (base cmd) refl (base-IsCommand cmd c) (base-NoRedir cmd) inside
  where
    go : (b : Cmd) → base cmd ≡ b → IsCommand b → NoRedir b → Inside b → ExecReads cmd
    go (exec argv) eb cb n i = execs-words argv cmd eb cb.1 cb.0 c
    go (redir b file mode fd) eb cb n i = absurd n
    go (pipe left right) eb cb n i = execs-parens (pipe left right) cmd (λ s. refl) cb eb c i
    go (list left right) eb cb n i = execs-parens (list left right) cmd (λ s. refl) cb eb c i
    go (back b) eb cb n i = execs-parens (back b) cmd (λ s. refl) cb eb c i
