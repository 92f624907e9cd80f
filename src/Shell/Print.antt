-- ===== src/Shell/Print.antt =====
-- A text for every command. A printer puts its text in front of a list.
use mit_lab.Base.{
  ℕ, ◌≡◌, refl, true, Bool-cases, inl, inr, List, [], ◌∷◌, ◌++◌, All, ◌==◌, if◌then◌else◌,
}
use mit_lab.Shell.{Cmd, exec, redir, pipe, list, back, strchr, symbols}
use mit_lab.Shell.Tokens.{IsWord, IsCommand}

unfoldable pub print_words : List (List ℕ) → List ℕ → List ℕ
print_words [] s = s
print_words (w ∷ ws) s = w ++ (32 ∷ print_words ws s)

-- The symbol of a redirection.
abbrev pub redir_op : (mode : ℕ) → List ℕ → List ℕ
redir_op mode s = if mode == 0 then 60 ∷ s else if mode == 0x601 then 62 ∷ s else 62 ∷ 62 ∷ s

abbrev pub redir_text : (file : List ℕ) (mode : ℕ) → List ℕ → List ℕ
redir_text file mode s = redir_op mode (file ++ (32 ∷ s))

-- A command where `parseline`, the '&' of `parseline`, `parsepipe` and `parseexec` read it: in
-- parentheses where they would not.
pub record Texts : Type 0 where
  pub line : List ℕ → List ℕ
  pub backs : List ℕ → List ℕ
  pub pipes : List ℕ → List ℕ
  pub execs : List ℕ → List ℕ

abbrev everywhere : (List ℕ → List ℕ) → Texts
everywhere t = record { line = t; backs = t; pipes = t; execs = t }

abbrev parens : (List ℕ → List ℕ) → List ℕ → List ℕ
parens t s = 40 ∷ t (41 ∷ s)

unfoldable pub text : Cmd → Texts
unfolding print_words
text (exec argv) = everywhere (print_words argv)
text (redir cmd file mode fd) = everywhere (λ s. (text cmd).execs (redir_text file mode s))
text (pipe left right) =
    let t = λ (s : List ℕ). (text left).execs (124 ∷ (text right).pipes s) in
    record { line = t; backs = t; pipes = t; execs = parens t }
text (list left right) =
    let t = λ (s : List ℕ). (text left).backs (59 ∷ (text right).line s) in
    record { line = t; backs = parens t; pipes = parens t; execs = parens t }
text (back cmd) =
    let t = λ (s : List ℕ). (text cmd).backs (38 ∷ s) in
    record { line = t; backs = t; pipes = parens t; execs = parens t }

unfoldable pub print : Cmd → List ℕ
unfolding text
print cmd = (text cmd).line []

-- The command inside the redirections, and the text of these.
unfoldable pub base : Cmd → Cmd
base (redir cmd file mode fd) = base cmd
base (exec argv) = exec argv
base (pipe left right) = pipe left right
base (list left right) = list left right
base (back cmd) = back cmd

unfoldable pub redirs : Cmd → List ℕ → List ℕ
redirs (redir cmd file mode fd) s = redirs cmd (redir_text file mode s)
redirs (exec argv) s = s
redirs (pipe left right) s = s
redirs (list left right) s = s
redirs (back cmd) s = s

pub execs-base :
    (cmd : Cmd) (s : List ℕ) → (text cmd).execs s ≡ (text (base cmd)).execs (redirs cmd s)
unfolding text base redirs
execs-base (redir cmd file mode fd) s = execs-base cmd (redir_text file mode s)
execs-base (exec argv) s = refl
execs-base (pipe left right) s = refl
execs-base (list left right) s = refl
execs-base (back cmd) s = refl

-- What holds of every text that puts something in front.
pub record Puts (Q : List ℕ → Type 0) (t : Texts) : Type 0 where
  pub on_line : (s : List ℕ) → Q s → Q (t.line s)
  pub on_backs : (s : List ℕ) → Q s → Q (t.backs s)
  pub on_pipes : (s : List ℕ) → Q s → Q (t.pipes s)
  pub on_execs : (s : List ℕ) → Q s → Q (t.execs s)

module _ (Q : List ℕ → Type 0)
    (symbol : (c : ℕ) (s : List ℕ) → strchr symbols c ≡ true → Q s → Q (c ∷ s))
    (word_text : (w s : List ℕ) → IsWord w → Q s → Q (w ++ (32 ∷ s))) where
  redir_text-Puts :
      (file : List ℕ) (mode : ℕ) (s : List ℕ) → IsWord file → Q s → Q (redir_text file mode s)
  unfolding strchr
  redir_text-Puts file mode s w q = elim (Bool-cases (mode == 0)) [
    | inl e ↦ rw e (symbol 60 _ refl (word_text file s w q))
    | inr e ↦ elim (Bool-cases (mode == 0x601)) [
      | inl f ↦ rw (e, f) (symbol 62 _ refl (word_text file s w q))
      | inr f ↦ rw (e, f) (symbol 62 _ refl (symbol 62 _ refl (word_text file s w q)))
    ]
  ]

  pub print_words-Puts :
      (argv : List (List ℕ)) (s : List ℕ) → All IsWord argv → Q s → Q (print_words argv s)
  unfolding print_words
  print_words-Puts [] s h q = q
  print_words-Puts (w ∷ ws) s h q = word_text w _ h.0 (print_words-Puts ws s h.1 q)

  pub text-Puts : (cmd : Cmd) → IsCommand cmd → Puts Q (text cmd)
  unfolding text IsCommand strchr
  text-Puts (exec argv) h =
      let t = λ (s : List ℕ) (q : Q s). print_words-Puts argv s h.1 q in
      record { on_line = t; on_backs = t; on_pipes = t; on_execs = t }
  text-Puts (redir cmd file mode fd) h =
      let p = text-Puts cmd h.0 in
      let t = λ (s : List ℕ) (q : Q s). p.on_execs _ (redir_text-Puts file mode s h.1 q) in
      record { on_line = t; on_backs = t; on_pipes = t; on_execs = t }
  text-Puts (pipe left right) h =
      let p = text-Puts left h.0 in
      let r = text-Puts right h.1 in
      let t = λ (s : List ℕ) (q : Q s). p.on_execs _ (symbol 124 _ refl (r.on_pipes s q)) in
      record {
        on_line = t;
        on_backs = t;
        on_pipes = t;
        on_execs = λ s q. symbol 40 _ refl (t (41 ∷ s) (symbol 41 s refl q));
      }
  text-Puts (list left right) h =
      let p = text-Puts left h.0 in
      let r = text-Puts right h.1 in
      let t = λ (s : List ℕ) (q : Q s). p.on_backs _ (symbol 59 _ refl (r.on_line s q)) in
      let parens_t = λ (s : List ℕ) (q : Q s). symbol 40 _ refl (t (41 ∷ s) (symbol 41 s refl q)) in
      record { on_line = t; on_backs = parens_t; on_pipes = parens_t; on_execs = parens_t }
  text-Puts (back cmd) h =
      let p = text-Puts cmd h in
      let t = λ (s : List ℕ) (q : Q s). p.on_backs _ (symbol 38 _ refl q) in
      let parens_t = λ (s : List ℕ) (q : Q s). symbol 40 _ refl (t (41 ∷ s) (symbol 41 s refl q)) in
      record { on_line = t; on_backs = t; on_pipes = parens_t; on_execs = parens_t }
