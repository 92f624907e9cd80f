-- ===== src/Shell/Read.antt =====
-- The text of a command is parsed as this command.
use mit_lab.Base.{
  ℕ, zero, suc, ◌+◌, ◌≤◌, ◌<◌, ◌≡◌, refl, sym, ap as cong, ◌∙◌, inl, inr, Bool, true, false, ◌||◌,
  not, Bool-cases, leb, List, [], ◌∷◌, ◌++◌, All, length, length-append, arith, ◌==◌,
}
use mit_lab.Shell.{
  Cmd, exec, redir, pipe, list, back, strchr, symbols, skip_space, Token, after_gt, token, gettoken,
  starts, peek, Parsed, parsed, ◌>>>◌, redircmd, redir_loop, parseredirs, push_arg, args_loop,
  maxargs,
}
use mit_lab.Shell.Tokens.{IsWord, IsMode, IsCommand, IsClean}
use mit_lab.Shell.Print.{print_words, redir_text, base, redirs}
use mit_lab.Shell.Words.{
  skip-clean, Follows, after_exec, included, strchr-outside, Follows-none, Follows-IsClean,
  plain-symbol, token-word, word-IsClean, file-token, after_gt-word,
}

pub redir_loop-go :
    (fuel : ℕ) (cmd : Cmd) (s : List ℕ) (op : Token) (w t : List ℕ)
    → peek (60 ∷ 62 ∷ []) s ≡ true
    → gettoken s ≡ op
    → gettoken op.rest ≡ record { tok = 97; text = w; rest = t }
    → redir_loop (suc fuel) cmd s ≡ redir_loop fuel (redircmd op.tok cmd w) t
unfolding redir_loop
redir_loop-go fuel cmd s op w t p q r =
    let is_word : ((gettoken (gettoken s).rest).tok == 97) ≡ true =
      cong (λ o. (gettoken o.rest).tok == 97) q ∙ cong (λ k. k.tok == 97) r in
    rw (redir_loop, p, is_word)
      (cong
          (λ o. redir_loop fuel (redircmd o.tok cmd (gettoken o.rest).text) (gettoken o.rest).rest)
          q
        ∙ cong (λ k. redir_loop fuel (redircmd op.tok cmd k.text) k.rest) r)

pub redir_loop-step :
    (fuel : ℕ) (cmd : Cmd) (file : List ℕ) (mode fd : ℕ) (s : List ℕ)
    → IsWord file
    → IsMode mode fd
    → IsClean s
    → redir_loop (suc fuel) cmd (redir_text file mode s)
      ≡ redir_loop fuel (redir cmd file mode fd) s
unfolding token skip_space strchr starts after_gt
redir_loop-step fuel cmd file mode fd s w (inl (m, d)) c =
    rw (m, d)
      (redir_loop-go fuel cmd (60 ∷ file ++ (32 ∷ s)) _ file s refl refl (file-token file s w c))
redir_loop-step fuel cmd file mode fd s w (inr (inl (m, d))) c =
    rw (m, d)
      (redir_loop-go fuel cmd (62 ∷ file ++ (32 ∷ s)) _ file s refl (after_gt-word file s w)
        (file-token file s w c))
redir_loop-step fuel cmd file mode fd s w (inr (inr (m, d))) c =
    rw (m, d)
      (redir_loop-go fuel cmd (62 ∷ 62 ∷ file ++ (32 ∷ s)) _ file s refl refl
        (file-token file s w c))

pub redir_text-IsClean : (file : List ℕ) (mode : ℕ) (s : List ℕ) → IsClean (redir_text file mode s)
unfolding strchr
redir_text-IsClean file mode s = elim (Bool-cases (mode == 0)) [
  | inl e ↦ rw e refl
  | inr e ↦ elim (Bool-cases (mode == 0x601)) [ inl f ↦ rw (e, f) refl | inr f ↦ rw (e, f) refl ]
]

pub redir_text-lt :
    (file : List ℕ) (mode : ℕ) (s : List ℕ) → length s < length (redir_text file mode s)
redir_text-lt file mode s = elim (Bool-cases (mode == 0)) [
  | inl e ↦ rw e (omega (arith, length-append file (32 ∷ s)))
  | inr e ↦ elim (Bool-cases (mode == 0x601)) [
    | inl f ↦ rw (e, f) (omega (arith, length-append file (32 ∷ s)))
    | inr f ↦ rw (e, f) (omega (arith, length-append file (32 ∷ s)))
  ]
]

-- The end of the redirections.
pub redir_loop-end :
    (fuel : ℕ) (cmd : Cmd) (s : List ℕ)
    → IsClean s
    → starts (60 ∷ 62 ∷ []) s ≡ false
    → length s < fuel
    → redir_loop fuel cmd s ≡ parsed cmd s
unfolding redir_loop
redir_loop-end zero cmd s c e h = absurd (omega arith)
redir_loop-end (suc fuel) cmd s c e h =
    let none : peek (60 ∷ 62 ∷ []) s ≡ false = cong (starts (60 ∷ 62 ∷ [])) (skip-clean s c) ∙ e in
    rw (redir_loop, none) (cong (parsed cmd) (skip-clean s c))

-- All redirections of a command, after the command inside.
pub redir_loop-redirs :
    (cmd : Cmd) (fuel : ℕ) (s : List ℕ) (r : Parsed)
    → IsCommand cmd
    → IsClean s
    → ((fuel' : ℕ) → length s < fuel' → redir_loop fuel' cmd s ≡ r)
    → length (redirs cmd s) < fuel
    → redir_loop fuel (base cmd) (redirs cmd s) ≡ r
unfolding base redirs IsCommand
redir_loop-redirs (redir cmd file mode fd) fuel s r h c k l =
    redir_loop-redirs cmd fuel (redir_text file mode s) r h.0 (redir_text-IsClean file mode s) step
      l
  where
    step :
        (fuel' : ℕ)
        → length (redir_text file mode s) < fuel'
        → redir_loop fuel' cmd (redir_text file mode s) ≡ r
    step zero l' = absurd (omega arith)
    step (suc fuel') l' =
        redir_loop-step fuel' cmd file mode fd s h.1 h.2 c
        ∙ k fuel' (omega (arith, l', redir_text-lt file mode s))
redir_loop-redirs (exec argv) fuel s r h c k l = k fuel l
redir_loop-redirs (pipe left right) fuel s r h c k l = k fuel l
redir_loop-redirs (list left right) fuel s r h c k l = k fuel l
redir_loop-redirs (back cmd) fuel s r h c k l = k fuel l

pub parseredirs-redirs :
    (cmd : Cmd) (s : List ℕ)
    → IsCommand cmd
    → Follows after_exec s
    → parseredirs (base cmd) (redirs cmd s) ≡ parsed cmd s
unfolding strchr
parseredirs-redirs cmd s h f =
    redir_loop-redirs cmd (length (redirs cmd s) + 1) s (parsed cmd s) h (Follows-IsClean s f)
      (λ fuel' l.
        redir_loop-end fuel' cmd s (Follows-IsClean s f)
          (Follows-none after_exec (60 ∷ 62 ∷ []) s refl f) l)
      (omega arith)

pub redirs-IsClean : (cmd : Cmd) (s : List ℕ) → IsClean s → IsClean (redirs cmd s)
unfolding redirs
redirs-IsClean (redir cmd file mode fd) s c = redirs-IsClean cmd _ (redir_text-IsClean file mode s)
redirs-IsClean (exec argv) s c = c
redirs-IsClean (pipe left right) s c = c
redirs-IsClean (list left right) s c = c
redirs-IsClean (back cmd) s c = c

-- Symbols that a word does not begin with.
pub word-starts :
    (toks w s : List ℕ)
    → included toks symbols ≡ true
    → IsWord w
    → starts toks (w ++ (32 ∷ s)) ≡ false
unfolding starts
word-starts toks [] s k h = absurd (omega (arith, h.0))
word-starts toks (c ∷ w) s k h = strchr-outside toks symbols c k (plain-symbol c h.1.0)

-- `peek` at a line without whitespace in front.
pub peek-clean : (toks s : List ℕ) (b : Bool) → IsClean s → starts toks s ≡ b → peek toks s ≡ b
peek-clean toks s b c e = cong (starts toks) (skip-clean s c) ∙ e

pub args_loop-end :
    (fuel argc : ℕ) (cmd : Cmd) (s : List ℕ)
    → Follows after_exec s
    → length s < fuel
    → args_loop fuel argc cmd s ≡ parsed cmd s
unfolding args_loop starts token skip_space
args_loop-end zero argc cmd s f h = absurd (omega arith)
args_loop-end (suc fuel) argc cmd [] f h = refl
args_loop-end (suc fuel) argc cmd (c ∷ s) f h =
    let clean = Follows-IsClean (c ∷ s) f in
    rw (args_loop, peek-clean after_exec (c ∷ s) true clean f)
      (cong (parsed cmd) (skip-clean (c ∷ s) clean))

pub args_loop-go :
    (fuel argc : ℕ) (ret : Cmd) (s w t : List ℕ)
    → peek after_exec s ≡ false
    → gettoken s ≡ record { tok = 97; text = w; rest = t }
    → argc + 1 < maxargs
    → args_loop (suc fuel) argc ret s ≡ parseredirs (push_arg w ret) t >>> args_loop fuel (argc + 1)
unfolding args_loop
args_loop-go fuel argc ret s w t p q l =
    let is_some : ((gettoken s).tok == 0) ≡ false = cong (λ k. k.tok == 0) q in
    let is_word : (not ((gettoken s).tok == 97) || leb maxargs (argc + 1)) ≡ false =
      cong (λ k. not (k.tok == 97) || leb maxargs (argc + 1)) q ∙ ground (arith, l) in
    rw (args_loop, p, is_some, is_word)
      (cong (λ k. parseredirs (push_arg k.text ret) k.rest >>> args_loop fuel (argc + 1)) q)

pub print_words-IsClean :
    (ws : List (List ℕ)) (s : List ℕ) → All IsWord ws → IsClean s → IsClean (print_words ws s)
unfolding print_words
print_words-IsClean [] s h c = c
print_words-IsClean (w ∷ ws) s h c = word-IsClean w _ h.0

-- No redirection before a word.
pub parseredirs-word :
    (cmd : Cmd) (w s : List ℕ)
    → IsWord w
    → parseredirs cmd (w ++ (32 ∷ s)) ≡ parsed cmd (w ++ (32 ∷ s))
unfolding strchr
parseredirs-word cmd w s h =
    redir_loop-end (length (w ++ (32 ∷ s)) + 1) cmd (w ++ (32 ∷ s)) (word-IsClean w s h)
      (word-starts (60 ∷ 62 ∷ []) w s refl h) (omega arith)

pub snoc-append :
    (xs : List (List ℕ)) (x : List ℕ) (ys : List (List ℕ)) → (xs ++ (x ∷ [])) ++ ys ≡ xs ++ (x ∷ ys)
snoc-append [] x ys = refl
snoc-append (y ∷ xs) x ys = cong (λ l. y ∷ l) (snoc-append xs x ys)

pub redirs-le : (cmd : Cmd) (s : List ℕ) → length s ≤ length (redirs cmd s)
unfolding redirs
redirs-le (redir cmd file mode fd) s =
    omega (arith, redirs-le cmd (redir_text file mode s), redir_text-lt file mode s)
redirs-le (exec argv) s = omega arith
redirs-le (pipe left right) s = omega arith
redirs-le (list left right) s = omega arith
redirs-le (back cmd) s = omega arith

-- The words of a command, and then its redirections.
pub args_loop-words :
    (fuel : ℕ) (before : List (List ℕ)) (w : List ℕ) (ws : List (List ℕ)) (cmd : Cmd) (s : List ℕ)
    → base cmd ≡ exec (before ++ (w ∷ ws))
    → All IsWord (w ∷ ws)
    → length before + length (w ∷ ws) < maxargs
    → IsCommand cmd
    → Follows after_exec s
    → length (print_words (w ∷ ws) (redirs cmd s)) < fuel
    → args_loop fuel (length before) (exec before) (print_words (w ∷ ws) (redirs cmd s))
      ≡ parsed cmd s
unfolding print_words push_arg strchr
args_loop-words zero before w ws cmd s b h l c f k = absurd (omega arith)
args_loop-words (suc fuel) before w [] cmd s b h l c f k =
    let clean = redirs-IsClean cmd s (Follows-IsClean s f) in
    args_loop-go fuel (length before) (exec before) (w ++ (32 ∷ redirs cmd s)) w (redirs cmd s)
      (peek-clean after_exec _ false (word-IsClean w _ h.0) (word-starts after_exec w _ refl h.0))
      (token-word w _ h.0 clean) (omega (arith, l))
    ∙ cong (λ b'. parseredirs b' (redirs cmd s) >>> args_loop fuel (length before + 1)) (sym b)
    ∙ cong (λ r. r >>> args_loop fuel (length before + 1)) (parseredirs-redirs cmd s c f)
    ∙ args_loop-end fuel (length before + 1) cmd s f
        (omega (arith, k, redirs-le cmd s, length-append w (32 ∷ redirs cmd s)))
args_loop-words (suc fuel) before w (w' ∷ ws) cmd s b h l c f k =
    let clean = word-IsClean w' (print_words ws (redirs cmd s)) h.1.0 in
    let t = print_words (w' ∷ ws) (redirs cmd s) in
    let n : length (before ++ (w ∷ [])) ≡ length before + 1 =
      omega (arith, length-append before (w ∷ [])) in
    args_loop-go fuel (length before) (exec before) (w ++ (32 ∷ t)) w t
      (peek-clean after_exec _ false (word-IsClean w _ h.0) (word-starts after_exec w _ refl h.0))
      (token-word w _ h.0 clean) (omega (arith, l))
    ∙ cong (λ r. r >>> args_loop fuel (length before + 1))
        (parseredirs-word (exec (before ++ (w ∷ []))) w' _ h.1.0)
    ∙ cong (λ m. args_loop fuel m (exec (before ++ (w ∷ []))) t) (sym n)
    ∙ args_loop-words fuel (before ++ (w ∷ [])) w' ws cmd s
        (b ∙ cong exec (sym (snoc-append before w (w' ∷ ws)))) h.1 (omega (arith, l, n)) c f
        (omega (arith, k, length-append w (32 ∷ t)))
