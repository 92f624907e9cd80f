-- ===== src/Shell/Commands.antt =====
-- The text of a whole command, and the line.
use mit_lab.Base.{
  ℕ, zero, suc, ◌+◌, ◌*◌, ◌≤◌, ◌≡◌, refl, ap as cong, ◌∙◌, true, false, List, [], ◌∷◌, length,
  arith,
}
use mit_lab.Shell.{
  Cmd, exec, redir, pipe, list, back, strchr, skip_space, token, gettoken, starts, peek, Parsed,
  parsed, ◌>>>◌, back_loop, parseline, parsepipe, parseexec, parsecmd, whole,
}
use mit_lab.Shell.Tokens.{IsCommand, IsClean}
use mit_lab.Shell.Print.{text, print, base}
use mit_lab.Shell.Words.{
  Follows, Follows-none, after_exec, after_pipe, after_line, pipe-exec, line-pipe, Follows-IsClean,
  skip-clean,
}
use mit_lab.Shell.Read.{peek-clean}
use mit_lab.Shell.Execs.{
  texts-IsClean, texts-le, LineReads, PipeReads, ExecReads, tail, BacksReads, Inside, execs-Inside,
}

-- What `parsepipe` does after an element.
abbrev pipe_tail : (fuel : ℕ) → Cmd → List ℕ → Parsed
pipe_tail fuel cmd s = elim (peek (124 ∷ []) s) [
  | true ↦ parsepipe fuel (gettoken s).rest >>> λ right s2. parsed (pipe cmd right) s2
  | false ↦ parsed cmd (skip_space s)
]

pipe_tail-end :
    (fuel : ℕ) (cmd : Cmd) (s : List ℕ) → Follows after_pipe s → pipe_tail fuel cmd s ≡ parsed cmd s
unfolding strchr
pipe_tail-end fuel cmd s f =
    let clean = Follows-IsClean s (pipe-exec s f) in
    let none = peek-clean (124 ∷ []) s false clean (Follows-none after_pipe (124 ∷ []) s refl f) in
    rw (pipe_tail, none) (cong (parsed cmd) (skip-clean s clean))

back_loop-end :
    (fuel : ℕ) (cmd : Cmd) (s : List ℕ)
    → IsClean s
    → starts (38 ∷ []) s ≡ false
    → 1 ≤ fuel
    → back_loop fuel cmd s ≡ parsed cmd s
unfolding back_loop
back_loop-end zero cmd s clean e h = absurd (omega arith)
back_loop-end (suc fuel) cmd s clean e h =
    let none = peek-clean (38 ∷ []) s false clean e in
    rw (back_loop, none) (cong (parsed cmd) (skip-clean s clean))

tail-end :
    (fuel : ℕ) (cmd : Cmd) (s : List ℕ) → Follows after_line s → tail fuel cmd s ≡ parsed cmd s
unfolding strchr
tail-end fuel cmd s f =
    let clean = Follows-IsClean s (pipe-exec s (line-pipe s f)) in
    let none = peek-clean (59 ∷ []) s false clean (Follows-none after_line (59 ∷ []) s refl f) in
    rw (tail, none) (cong (parsed cmd) (skip-clean s clean))

-- `parsepipe` at an element of a pipe that is the last one.
pipes-last :
    (cmd : Cmd) (t : List ℕ → List ℕ)
    → ((fuel : ℕ) (s : List ℕ)
        → Follows after_exec s
        → 4 * length (t s) + 2 ≤ fuel
        → parseexec fuel (t s) ≡ parsed cmd s)
    → (fuel : ℕ) (s : List ℕ) → Follows after_pipe s
    → 4 * length (t s) + 3 ≤ fuel
    → parsepipe fuel (t s) ≡ parsed cmd s
unfolding parsepipe
pipes-last cmd t reads zero s f l = absurd (omega arith)
pipes-last cmd t reads (suc fuel) s f l =
    cong (λ r. r >>> pipe_tail fuel) (reads fuel s (pipe-exec s f) (omega (arith, l)))
    ∙ pipe_tail-end fuel cmd s f

-- `parseline` at a command that is no list.
line-plain :
    (cmd : Cmd)
    → IsCommand cmd
    → ((s : List ℕ) → (text cmd).line s ≡ (text cmd).backs s)
    → BacksReads cmd
    → LineReads cmd
unfolding strchr
line-plain cmd c same reads zero s f l = absurd (omega arith)
line-plain cmd c same reads (suc fuel) s f l =
    let clean = Follows-IsClean s (pipe-exec s (line-pipe s f)) in
    cong (parseline (suc fuel)) (same s)
    ∙ reads fuel s (line-pipe s f) (omega (arith, cong length (same s), l))
    ∙ cong (λ r. r >>> tail fuel)
        (back_loop-end (length s + 1) cmd s clean (Follows-none after_line (38 ∷ []) s refl f)
          (omega arith))
    ∙ tail-end fuel cmd s f

-- The end of a command without '&' behind.
backs-plain :
    (cmd : Cmd)
    → ((s : List ℕ) → (text cmd).backs s ≡ (text cmd).pipes s)
    → PipeReads cmd
    → BacksReads cmd
unfolding parseline
backs-plain cmd same reads fuel s f l =
    cong (parseline (suc fuel)) (same s)
    ∙ cong (λ r. r >>> λ cmd s1. back_loop (length s1 + 1) cmd s1 >>> tail fuel)
        (reads fuel s f (omega (arith, cong length (same s), l)))

-- The steps after a command.
pipe_tail-go :
    (fuel : ℕ) (cmd : Cmd) (t : List ℕ)
    → IsClean t
    → pipe_tail fuel cmd (124 ∷ t) ≡ parsepipe fuel t >>> λ right s2. parsed (pipe cmd right) s2
unfolding starts skip_space strchr token
pipe_tail-go fuel cmd t c =
    cong (λ x. parsepipe fuel x >>> λ right s2. parsed (pipe cmd right) s2) (skip-clean t c)

tail-go :
    (fuel : ℕ) (cmd : Cmd) (t : List ℕ)
    → IsClean t
    → tail fuel cmd (59 ∷ t) ≡ parseline fuel t >>> λ right s2. parsed (list cmd right) s2
unfolding starts skip_space strchr token
tail-go fuel cmd t c =
    cong (λ x. parseline fuel x >>> λ right s2. parsed (list cmd right) s2) (skip-clean t c)

back_loop-go :
    (fuel : ℕ) (cmd : Cmd) (t : List ℕ)
    → IsClean t
    → back_loop (suc fuel) cmd (38 ∷ t) ≡ back_loop fuel (back cmd) t
unfolding back_loop starts skip_space strchr token
back_loop-go fuel cmd t c = cong (back_loop fuel (back cmd)) (skip-clean t c)

-- The four places where a command is read.
record Reads (cmd : Cmd) : Type 0 where
  inside : Inside (base cmd)
  pipes_read : PipeReads cmd
  backs_read : BacksReads cmd
  line_read : LineReads cmd

-- A command that needs parentheses in a pipe.
pipes-parens :
    (cmd : Cmd)
    → ((s : List ℕ) → (text cmd).pipes s ≡ (text cmd).execs s)
    → ExecReads cmd
    → PipeReads cmd
pipes-parens cmd same reads fuel s f l =
    cong (parsepipe fuel) (same s)
    ∙ pipes-last cmd (text cmd).execs reads fuel s f (omega (arith, cong length (same s), l))

simple-Reads :
    (cmd : Cmd)
    → IsCommand cmd
    → Inside (base cmd)
    → ((s : List ℕ) → (text cmd).pipes s ≡ (text cmd).execs s)
    → ((s : List ℕ) → (text cmd).backs s ≡ (text cmd).pipes s)
    → ((s : List ℕ) → (text cmd).line s ≡ (text cmd).backs s)
    → Reads cmd
simple-Reads cmd c i p b l =
    let pipes = pipes-parens cmd p (execs-Inside cmd c i) in
    let backs = backs-plain cmd b pipes in
    record {
      inside = i;
      pipes_read = pipes;
      backs_read = backs;
      line_read = line-plain cmd c l backs;
    }

pipe-line :
    (left right : Cmd)
    → IsCommand left
    → IsCommand right
    → ExecReads left
    → PipeReads right
    → PipeReads (pipe left right)
unfolding strchr starts text parsepipe
pipe-line left right cl cr rl rr zero s f l = absurd (omega arith)
pipe-line left right cl cr rl rr (suc fuel) s f l =
    let t = (text right).pipes s in
    let clean = (texts-IsClean right cr).on_pipes s (Follows-IsClean s (pipe-exec s f)) in
    let size = (texts-le (length t + 1) left cl).on_execs (124 ∷ t) (omega arith) in
    cong (λ r. r >>> pipe_tail fuel) (rl fuel (124 ∷ t) refl (omega (arith, l)))
    ∙ pipe_tail-go fuel left t clean
    ∙ cong (λ r. r >>> λ right' s2. parsed (pipe left right') s2)
        (rr fuel s f (omega (arith, l, size)))

list-line :
    (left right : Cmd)
    → IsCommand left
    → IsCommand right
    → BacksReads left
    → LineReads right
    → LineReads (list left right)
unfolding strchr starts text back_loop
list-line left right cl cr rl rr zero s f l = absurd (omega arith)
list-line left right cl cr rl rr (suc fuel) s f l =
    let t = (text right).line s in
    let clean =
      (texts-IsClean right cr).on_line s (Follows-IsClean s (pipe-exec s (line-pipe s f))) in
    let size = (texts-le (length t + 1) left cl).on_backs (59 ∷ t) (omega arith) in
    rl fuel (59 ∷ t) refl l
    ∙ cong (λ r. r >>> tail fuel)
        (back_loop-end (length (59 ∷ t) + 1) left (59 ∷ t) refl refl (omega arith))
    ∙ tail-go fuel left t clean
    ∙ cong (λ r. r >>> λ right' s2. parsed (list left right') s2)
        (rr fuel s f (omega (arith, l, size)))

back-line : (cmd : Cmd) → IsCommand cmd → BacksReads cmd → BacksReads (back cmd)
unfolding strchr starts text
back-line cmd c reads fuel s f l =
    let clean = Follows-IsClean s (pipe-exec s f) in
    let n : length (38 ∷ s) + 1 ≡ suc (length s + 1) = omega arith in
    reads fuel (38 ∷ s) refl l
    ∙ cong (λ m. back_loop m cmd (38 ∷ s) >>> tail fuel) n
    ∙ cong (λ r. r >>> tail fuel) (back_loop-go (length s + 1) cmd s clean)

text-Reads : (cmd : Cmd) → IsCommand cmd → Reads cmd
unfolding text base IsCommand
text-Reads (exec argv) c = simple-Reads (exec argv) c tt (λ s. refl) (λ s. refl) (λ s. refl)
text-Reads (redir cmd file mode fd) c =
    simple-Reads (redir cmd file mode fd) c (text-Reads cmd c.0).inside (λ s. refl) (λ s. refl)
      (λ s. refl)
text-Reads (pipe left right) c =
    let l = text-Reads left c.0 in
    let r = text-Reads right c.1 in
    let pipes = pipe-line left right c.0 c.1 (execs-Inside left c.0 l.inside) r.pipes_read in
    let backs = backs-plain (pipe left right) (λ s. refl) pipes in
    let line = line-plain (pipe left right) c (λ s. refl) backs in
    record { inside = line; pipes_read = pipes; backs_read = backs; line_read = line }
text-Reads (list left right) c =
    let l = text-Reads left c.0 in
    let r = text-Reads right c.1 in
    let line = list-line left right c.0 c.1 l.backs_read r.line_read in
    let pipes =
      pipes-parens (list left right) (λ s. refl) (execs-Inside (list left right) c line) in
    let backs = backs-plain (list left right) (λ s. refl) pipes in
    record { inside = line; pipes_read = pipes; backs_read = backs; line_read = line }
text-Reads (back cmd) c =
    let r = text-Reads cmd c in
    let backs = back-line cmd c r.backs_read in
    let line = line-plain (back cmd) c (λ s. refl) backs in
    let pipes = pipes-parens (back cmd) (λ s. refl) (execs-Inside (back cmd) c line) in
    record { inside = line; pipes_read = pipes; backs_read = backs; line_read = line }

-- Every well-formed command has a text that `parsecmd` parses as this command: `print` puts a
-- command in parentheses where the grammar of the shell needs them.
pub parsecmd-print : (cmd : Cmd) → IsCommand cmd → parsecmd (print cmd) ≡ parsed cmd []
unfolding parsecmd print skip_space
parsecmd-print cmd c =
    cong (λ r. r >>> whole)
      ((text-Reads cmd c).line_read (4 * length ((text cmd).line []) + 4) [] tt (omega arith))
