-- ===== src/Shell/Ends.antt =====
-- The parser ends on every line, with a well-formed command or a syntax error.
use mit_lab.Base.{
  ℕ, zero, suc, ◌+◌, ◌*◌, ◌≤◌, ◌<◌, ◌≡◌, refl, inl, inr, ◌||◌, not, Bool-cases, ==_iff, leb, List,
  [], ◌∷◌, ◌++◌, All, length, length-append, arith, ◌==◌,
}
use mit_lab.Shell.{
  Cmd, exec, redir, pipe, list, back, skip_space, gettoken, peek, Parsed, parsed, syntax, ◌>>>◌,
  redircmd, redir_loop, parseredirs, push_arg, args_loop, back_loop, parseline, parsepipe,
  parseexec, parseblock, parsecmd, whole, maxargs,
}
use mit_lab.Shell.Tokens.{
  IsWord, IsMode, IsCommand, Fine, Fine-bind, Fine-weaken, skip_space-le, gettoken-lt, gettoken-le,
  starts-some, tok-some, gettoken-IsWord, failed, done,
}

redir_loop-Fine :
    (P : Cmd → Type 0)
    → ((tok : ℕ) (cmd : Cmd) (file : List ℕ) → P cmd → IsWord file → P (redircmd tok cmd file))
    → (fuel : ℕ) (cmd : Cmd) (s : List ℕ) → length s < fuel
    → P cmd
    → Fine P s (redir_loop fuel cmd s)
unfolding redir_loop
redir_loop-Fine P k zero cmd s h p = absurd (omega arith)
redir_loop-Fine P k (suc fuel) cmd s h p = elim (Bool-cases (peek (60 ∷ 62 ∷ []) s)) [
  | inr e ↦ rw (redir_loop, e) (done p (skip_space-le s))
  | inl e ↦
      let op = gettoken s in
      let file = gettoken op.rest in
      let l = gettoken-lt s (starts-some _ (skip_space s) e) in
      elim (Bool-cases (file.tok == 97)) [
        | inr f ↦ rw (redir_loop, e, f) failed
        | inl f ↦
            let word_tok = (==_iff file.tok 97).0 f in
            let m = gettoken-lt op.rest (tok-some (skip_space op.rest) (omega (arith, word_tok))) in
            rw (redir_loop, e, f)
              (Fine-weaken (omega (arith, l, m)) (
                redir_loop-Fine P k fuel (redircmd op.tok cmd file.text) file.rest
                  (omega (arith, h, l, m))
                  (k op.tok cmd file.text p (gettoken-IsWord op.rest word_tok))))
      ]
]

parseredirs-Fine :
    (P : Cmd → Type 0)
    → ((tok : ℕ) (cmd : Cmd) (file : List ℕ) → P cmd → IsWord file → P (redircmd tok cmd file))
    → (cmd : Cmd) (s : List ℕ) → P cmd
    → Fine P s (parseredirs cmd s)
parseredirs-Fine P k cmd s p = redir_loop-Fine P k (length s + 1) cmd s (omega arith) p

-- An `exec` with `n` arguments inside redirections.
abbrev IsSimple : ℕ → Cmd → Type 0
IsSimple n (exec argv) = (length argv ≡ n) × All IsWord argv
IsSimple n (redir cmd file mode fd) = IsSimple n cmd × IsWord file × IsMode mode fd
IsSimple n (pipe left right) = ⊥
IsSimple n (list left right) = ⊥
IsSimple n (back cmd) = ⊥

redircmd-mode :
    (Q : Cmd → Type 0) (tok : ℕ) (cmd : Cmd) (file : List ℕ)
    → ((mode fd : ℕ) → IsMode mode fd → Q (redir cmd file mode fd))
    → Q (redircmd tok cmd file)
redircmd-mode Q tok cmd file k = elim (Bool-cases (tok == 60)) [
  | inl e ↦ rw e (k 0 0 (inl (refl, refl)))
  | inr e ↦ elim (Bool-cases (tok == 62)) [
    | inl f ↦ rw (e, f) (k 0x601 1 (inr (inl (refl, refl))))
    | inr f ↦ rw (e, f) (k 0x201 1 (inr (inr (refl, refl))))
  ]
]

All-snoc :
    (argv : List (List ℕ)) (q : List ℕ) → All IsWord argv → IsWord q → All IsWord (argv ++ (q ∷ []))
All-snoc [] q h w = (w, tt)
All-snoc (a ∷ argv) q h w = (h.0, All-snoc argv q h.1 w)

push_arg-IsSimple :
    (n : ℕ) (q : List ℕ) (cmd : Cmd) → IsSimple n cmd → IsWord q → IsSimple (n + 1) (push_arg q cmd)
unfolding push_arg
push_arg-IsSimple n q (exec argv) h w =
    (omega (arith, length-append argv (q ∷ []), h.0), All-snoc argv q h.1 w)
push_arg-IsSimple n q (redir cmd file mode fd) h w = (push_arg-IsSimple n q cmd h.0 w, h.1, h.2)
push_arg-IsSimple n q (pipe left right) h w = absurd h
push_arg-IsSimple n q (list left right) h w = absurd h
push_arg-IsSimple n q (back cmd) h w = absurd h

IsSimple-IsCommand : (n : ℕ) (cmd : Cmd) → n < maxargs → IsSimple n cmd → IsCommand cmd
unfolding IsCommand
IsSimple-IsCommand n (exec argv) l h = (omega (arith, l, h.0), h.1)
IsSimple-IsCommand n (redir cmd file mode fd) l h = (IsSimple-IsCommand n cmd l h.0, h.1, h.2)
IsSimple-IsCommand n (pipe left right) l h = absurd h
IsSimple-IsCommand n (list left right) l h = absurd h
IsSimple-IsCommand n (back cmd) l h = absurd h

args_loop-Fine :
    (fuel argc : ℕ) (ret : Cmd) (s : List ℕ)
    → length s < fuel
    → argc < maxargs
    → IsSimple argc ret
    → Fine IsCommand s (args_loop fuel argc ret s)
unfolding args_loop
args_loop-Fine zero argc ret s h l p = absurd (omega arith)
args_loop-Fine (suc fuel) argc ret s h l p = elim (Bool-cases (peek (124 ∷ 41 ∷ 38 ∷ 59 ∷ []) s)) [
  | inl e ↦ rw (args_loop, e) (done (IsSimple-IsCommand argc ret l p) (skip_space-le s))
  | inr e ↦
      let t = gettoken s in
      elim (Bool-cases (t.tok == 0)) [
        | inl z ↦ rw (args_loop, e, z) (done (IsSimple-IsCommand argc ret l p) (gettoken-le s))
        | inr z ↦ elim (Bool-cases (not (t.tok == 97) || leb maxargs (argc + 1))) [
          | inl b ↦ rw (args_loop, e, z, b) failed
          | inr b ↦
              let is_word : t.tok ≡ 97 = ground (arith, b) in
              let m = gettoken-lt s (tok-some (skip_space s) (omega (arith, is_word))) in
              rw (args_loop, e, z, b)
                (Fine-bind (omega (arith, m))
                  (parseredirs-Fine (IsSimple (argc + 1))
                    (λ tok cmd file q w.
                      redircmd-mode (IsSimple (argc + 1)) tok cmd file (λ mode fd r. (q, w, r)))
                    (push_arg t.text ret) t.rest
                    (push_arg-IsSimple argc t.text ret p (gettoken-IsWord s is_word)))
                  (λ cmd rest q r. Fine-weaken (omega (arith, r, m)) (
                    args_loop-Fine fuel (argc + 1) cmd rest (omega (arith, h, r, m))
                      (ground (arith, b)) q)))
        ]
      ]
]

back_loop-Fine :
    (fuel : ℕ) (cmd : Cmd) (s : List ℕ)
    → length s < fuel
    → IsCommand cmd
    → Fine IsCommand s (back_loop fuel cmd s)
unfolding back_loop IsCommand
back_loop-Fine zero cmd s h p = absurd (omega arith)
back_loop-Fine (suc fuel) cmd s h p = elim (Bool-cases (peek (38 ∷ []) s)) [
  | inr e ↦ rw (back_loop, e) (done p (skip_space-le s))
  | inl e ↦
      let l = gettoken-lt s (starts-some _ (skip_space s) e) in
      rw (back_loop, e)
        (Fine-weaken (omega (arith, l))
          (back_loop-Fine fuel (back cmd) (gettoken s).rest (omega (arith, h, l)) p))
]

redircmd-IsCommand :
    (tok : ℕ) (cmd : Cmd) (file : List ℕ)
    → IsCommand cmd
    → IsWord file
    → IsCommand (redircmd tok cmd file)
unfolding IsCommand
redircmd-IsCommand tok cmd file h w = redircmd-mode IsCommand tok cmd file λ mode fd r. (h, w, r)

-- With enough fuel for the line.
mutual
  unfolding parseline parsepipe parseexec parseblock IsCommand

  parseline-Fine :
      (fuel : ℕ) (s : List ℕ) → 4 * length s + 4 ≤ fuel → Fine IsCommand s (parseline fuel s)
  parseline-Fine zero s h = absurd (omega (arith, h))
  parseline-Fine (suc fuel) s h =
      Fine-bind (omega arith) (parsepipe-Fine fuel s (omega (arith, h))) λ cmd s1 p l.
        Fine-weaken l (
          Fine-bind (omega arith) (back_loop-Fine (length s1 + 1) cmd s1 (omega arith) p)
            λ cmd2 s2 p2 l2. elim (Bool-cases (peek (59 ∷ []) s2)) [
              | inr e ↦ rw e (done p2 (omega (arith, l2, skip_space-le s2)))
              | inl e ↦
                  let m = gettoken-lt s2 (starts-some _ (skip_space s2) e) in
                  rw e (
                    Fine-bind (omega (arith, m, l2))
                      (parseline-Fine fuel (gettoken s2).rest (omega (arith, h, l, l2, m)))
                      λ right s3 q l3. done (p2, q) (omega (arith, l3, m, l2)))
            ])

  parsepipe-Fine :
      (fuel : ℕ) (s : List ℕ) → 4 * length s + 3 ≤ fuel → Fine IsCommand s (parsepipe fuel s)
  parsepipe-Fine zero s h = absurd (omega (arith, h))
  parsepipe-Fine (suc fuel) s h =
      Fine-bind (omega arith) (parseexec-Fine fuel s (omega (arith, h))) λ cmd s1 p l.
        elim (Bool-cases (peek (124 ∷ []) s1)) [
          | inr e ↦ rw e (done p (omega (arith, l, skip_space-le s1)))
          | inl e ↦
              let m = gettoken-lt s1 (starts-some _ (skip_space s1) e) in
              rw e (
                Fine-bind (omega (arith, m, l))
                  (parsepipe-Fine fuel (gettoken s1).rest (omega (arith, h, l, m)))
                  λ right s3 q l3. done (p, q) (omega (arith, l3, m, l)))
        ]

  parseexec-Fine :
      (fuel : ℕ) (s : List ℕ) → 4 * length s + 2 ≤ fuel → Fine IsCommand s (parseexec fuel s)
  parseexec-Fine zero s h = absurd (omega (arith, h))
  parseexec-Fine (suc fuel) s h = elim (Bool-cases (peek (40 ∷ []) s)) [
    | inl e ↦ rw (parseexec, e) (parseblock-Fine fuel s (omega (arith, h)))
    | inr e ↦
        rw (parseexec, e)
          (Fine-bind (skip_space-le s)
            (parseredirs-Fine (IsSimple 0)
              (λ tok cmd file q w. redircmd-mode (IsSimple 0) tok cmd file (λ mode fd r. (q, w, r)))
              (exec []) (skip_space s) (refl, tt))
            λ ret s1 p l.
              Fine-weaken (omega (arith, l, skip_space-le s))
                (args_loop-Fine (length s1 + 1) 0 ret s1 (omega arith) (omega arith) p))
  ]

  parseblock-Fine :
      (fuel : ℕ) (s : List ℕ) → 4 * length s + 1 ≤ fuel → Fine IsCommand s (parseblock fuel s)
  parseblock-Fine zero s h = absurd (omega (arith, h))
  parseblock-Fine (suc fuel) s h = elim (Bool-cases (peek (40 ∷ []) s)) [
    | inr e ↦ rw (parseblock, e) failed
    | inl e ↦
        let m = gettoken-lt s (starts-some _ (skip_space s) e) in
        rw (parseblock, e)
          (Fine-bind (omega (arith, m))
            (parseline-Fine fuel (gettoken s).rest (omega (arith, h, m)))
            λ cmd s1 p l. elim (Bool-cases (peek (41 ∷ []) s1)) [
              | inr f ↦ rw f failed
              | inl f ↦ rw f (
                  Fine-weaken (omega (arith, gettoken-le s1, l, m))
                    (parseredirs-Fine IsCommand redircmd-IsCommand cmd (gettoken s1).rest p))
            ])
  ]

-- A whole line.
pub data Ended : Parsed → Type 0 where
  refused : Ended syntax
  accepted : {cmd : Cmd} → IsCommand cmd → Ended (parsed cmd [])

-- On every line `parsecmd` ends, by a syntax error or with a command whose words are words, whose
-- redirections are redirections, and which has less than MAXARGS arguments each; nothing of the line
-- is left then.
pub parsecmd-Ended : (s : List ℕ) → Ended (parsecmd s)
unfolding parsecmd
parsecmd-Ended s = go (parseline-Fine (4 * length s + 4) s (omega arith))
  where
    at_end : (cmd : Cmd) (rest : List ℕ) → IsCommand cmd → Ended (whole cmd rest)
    at_end cmd rest p = split (skip_space rest)
      where
        split : (r : List ℕ) → Ended (elim r [ [] ↦ parsed cmd [] | (c ∷ left) ↦ syntax ])
        split [] = accepted p
        split (c ∷ left) = refused

    go : {r : Parsed} → Fine IsCommand s r → Ended (r >>> whole)
    go failed = refused
    go (done {cmd} {rest} p l) = at_end cmd rest p
