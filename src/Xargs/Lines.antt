-- ===== src/Xargs/Lines.antt =====
-- `xargs` over a text of several lines.
use mit_lab.Base.{
  some, ℕ, ◌+◌, ◌-◌, ◌<◌, ◌≡◌, refl, ap, sym, ◌∙◌, ◌≢◌, true, false, List, [], ◌∷◌, ◌++◌, arith,
  All, length, length-append, ltb, ◌==◌,
}
use mit_lab.Xargs.Words.{IsSplit, split-words}
use mit_lab.Xargs.{run_line, maxarg, maxline, split, last_line, xargs}

-- A line without newline that fits the buffer.
abbrev pub IsLine : List ℕ → Type 0
IsLine l = All (λ c. c ≢ 10) l × (length l < maxline)

-- Complete lines, and the characters behind the last newline.
abbrev pub text : List (List ℕ) → List ℕ → List ℕ
text [] last = last
text (l ∷ ls) last = l ++ 10 ∷ text ls last

append_one : (done l : List ℕ) (c : ℕ) → (done ++ c ∷ []) ++ l ≡ done ++ c ∷ l
append_one [] l c = refl
append_one (d ∷ done) l c = ap (λ x. d ∷ x) (append_one done l c)

append_nil : (done : List ℕ) → done ++ [] ≡ done
append_nil [] = refl
append_nil (d ∷ done) = ap (λ x. d ∷ x) (append_nil done)

-- One more character that fits the buffer.
xargs-more :
    (command : List (List ℕ)) (done : List ℕ) (c : ℕ) (input : List ℕ)
    → c ≢ 10
    → length done + 1 < maxline
    → xargs command done (c ∷ input) ≡ xargs command (done ++ c ∷ []) input
unfolding xargs
xargs-more command done c input n lt =
    let a : (c == 10) ≡ false = ground arith in
    let b : ltb (length done) (maxline - 1) ≡ true = ground arith in rw (a, b)

xargs-append :
    (command : List (List ℕ)) (done l input : List ℕ)
    → All (λ c. c ≢ 10) l
    → length done + length l < maxline
    → xargs command done (l ++ input) ≡ xargs command (done ++ l) input
xargs-append command done [] input n lt = rw (append_nil done)
xargs-append command done (c ∷ l) input (n0, n) lt =
    xargs-more command done c (l ++ input) n0 (omega arith)
    ∙ xargs-append command (done ++ c ∷ []) l input n (omega (arith, length-append done (c ∷ [])))
    ∙ rw (append_one done l c)

xargs-nil :
    (command : List (List ℕ)) (line : List ℕ) → xargs command line [] ≡ last_line command line
unfolding xargs
xargs-nil command line = refl

xargs-newline :
    (command : List (List ℕ)) (line input : List ℕ)
    → xargs command line (10 ∷ input)
      ≡ run_line command (split (length command) line) (xargs command [] input)
unfolding xargs
xargs-newline command line input = refl

-- A line with its words, for which there is room behind the command.
abbrev pub IsRead : (command : List (List ℕ)) → List ℕ × List (List ℕ) → Type 0
IsRead command (l, ws) = IsLine l × IsSplit l ws × (length command + length ws < maxarg)

abbrev pub lines_of : List (List ℕ × List (List ℕ)) → List (List ℕ)
lines_of [] = []
lines_of ((l, ws) ∷ rest) = l ∷ lines_of rest

-- What is to run: the command with the words of each line, and of the rest if that is not empty.
abbrev pub runs :
    (command : List (List ℕ))
    → List (List ℕ × List (List ℕ))
    → List ℕ × List (List ℕ)
    → List (List (List ℕ))
runs command [] ([], ws) = []
runs command [] (c ∷ l, ws) = (command ++ ws) ∷ []
runs command ((l, ws) ∷ rest) last = (command ++ ws) ∷ runs command rest last

last_line-runs :
    (command : List (List ℕ)) (l : List ℕ) (ws : List (List ℕ))
    → split (length command) l ≡ some ws
    → last_line command l ≡ some (runs command [] (l, ws))
last_line-runs command [] ws e = refl
last_line-runs command (c ∷ l) ws e = ap (λ s. run_line command s (some [])) e

-- Let no line of a text, nor the rest behind the last newline, be longer than 511 characters, and
-- let there be room for the words of each and a null pointer in the array of arguments. Then `xargs` runs the command
-- once for each line, in order, an empty line included, and once for the rest if that is not empty,
-- with the fixed arguments followed by the words of that line.
pub xargs-text :
    (command : List (List ℕ)) (ls : List (List ℕ × List (List ℕ))) (last : List ℕ × List (List ℕ))
    → All (IsRead command) ls
    → IsRead command last
    → xargs command [] (text (lines_of ls) last.0) ≡ some (runs command ls last)
xargs-text command [] (l, ws) ok ((n, lt), h, room) =
    let e = split-words (length command) l ws h room in
    ap (xargs command []) (sym (append_nil l))
    ∙ xargs-append command [] l [] n (omega arith)
    ∙ xargs-nil command l
    ∙ last_line-runs command l ws e
xargs-text command ((l, ws) ∷ ls) last (((m, lm), g, room), ok) h =
    let e = split-words (length command) l ws g room in
    xargs-append command [] l (10 ∷ text (lines_of ls) last.0) m (omega arith)
    ∙ xargs-newline command l (text (lines_of ls) last.0)
    ∙ ap (λ s. run_line command s (xargs command [] (text (lines_of ls) last.0))) e
    ∙ ap (run_line command (some ws)) (xargs-text command ls last ok h)
