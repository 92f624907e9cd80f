-- ===== src/Shell.antt =====
-- The parser of user/sh.c. A place in the line is the list of the characters from there to the end,
-- where the source has the NUL. A token is its characters, where the source keeps its two ends and
-- `nulterminate` later cuts the line there. `syntax` is any call of `panic`.
pub mod Tokens
pub mod Ends
pub mod Print
pub mod Words
pub mod Read
pub mod Execs
pub mod Commands
mod Tests
use mit_lab.Base.{
  ℕ, zero, suc, ◌+◌, ◌*◌, Bool, true, false, ◌&&◌, ◌||◌, not, List, [], ◌∷◌, ◌++◌, ltb, leb, ◌==◌,
  if◌then◌else◌, length,
}

abbrev pub maxargs : ℕ
maxargs = 10

-- `struct cmd` and the five that extend it. The arguments end where `argv` has its null pointer.
pub data Cmd : Type 0 where
  exec : (argv : List (List ℕ)) → Cmd
  redir : (cmd : Cmd) (file : List ℕ) (mode fd : ℕ) → Cmd
  pipe : (left right : Cmd) → Cmd
  list : (left right : Cmd) → Cmd
  back : (cmd : Cmd) → Cmd

-- Whether `strchr` of user/ulib.c finds the character.
pub strchr : List ℕ → ℕ → Bool
strchr [] c = false
strchr (t ∷ ts) c = if t == c then true else strchr ts c

-- Space, tab, carriage return, newline, vertical tab.
abbrev pub whitespace : List ℕ
whitespace = 32 ∷ 9 ∷ 13 ∷ 10 ∷ 11 ∷ []

-- The characters "<|>&;()".
abbrev pub symbols : List ℕ
symbols = 60 ∷ 124 ∷ 62 ∷ 38 ∷ 59 ∷ 40 ∷ 41 ∷ []

-- The symbols that are a token whatever follows: "|();&<".
abbrev pub single : List ℕ
single = 124 ∷ 40 ∷ 41 ∷ 59 ∷ 38 ∷ 60 ∷ []

unfoldable pub skip_space : List ℕ → List ℕ
skip_space [] = []
skip_space (c ∷ s) = if strchr whitespace c then skip_space s else c ∷ s

-- The characters up to whitespace or a symbol, and the rest.
unfoldable pub word : List ℕ → List ℕ × List ℕ
word [] = ([], [])
word (c ∷ s) =
    let rest = word s in
    if not (strchr whitespace c) && not (strchr symbols c)
    then (c ∷ rest.0, rest.1)
    else ([], c ∷ s)

pub record Token : Type 0 where
  pub tok : ℕ
  pub text : List ℕ
  pub rest : List ℕ

-- After '>': the token is '+' if another one follows.
unfoldable pub after_gt : List ℕ → Token
after_gt [] = record { tok = 62; text = 62 ∷ []; rest = [] }
after_gt (c ∷ s) =
    if c == 62
    then record { tok = 43; text = 62 ∷ 62 ∷ []; rest = skip_space s }
    else record { tok = 62; text = 62 ∷ []; rest = skip_space (c ∷ s) }

-- `gettoken` from its first character on; 'a' is the token of a word.
unfoldable pub token : List ℕ → Token
token [] = record { tok = 0; text = []; rest = [] }
token (c ∷ s) =
    if strchr single c
    then record { tok = c; text = c ∷ []; rest = skip_space s }
    else if c == 62
    then after_gt s
    else record { tok = 97; text = (word (c ∷ s)).0; rest = skip_space (word (c ∷ s)).1 }

abbrev pub gettoken : List ℕ → Token
gettoken s = token (skip_space s)

unfoldable pub starts : (toks : List ℕ) → List ℕ → Bool
starts toks [] = false
starts toks (c ∷ s) = strchr toks c

-- The test of `peek`, which also moves past the whitespace.
abbrev pub peek : (toks : List ℕ) → List ℕ → Bool
peek toks s = starts toks (skip_space s)

pub data Parsed : Type 0 where
  parsed : Cmd → (rest : List ℕ) → Parsed
  syntax : Parsed
  out_of_fuel : Parsed

infixl 5 ◌>>>◌
abbrev pub ◌>>>◌ : Parsed → (Cmd → List ℕ → Parsed) → Parsed
parsed cmd s >>> f = f cmd s
syntax >>> f = syntax
out_of_fuel >>> f = out_of_fuel

-- The redirection of a token '<', '>' or '+': O_RDONLY; O_WRONLY with O_CREATE and O_TRUNC; O_WRONLY
-- with O_CREATE.
abbrev pub redircmd : (tok : ℕ) → Cmd → List ℕ → Cmd
redircmd tok cmd file =
    if tok == 60
    then redir cmd file 0 0
    else if tok == 62
    then redir cmd file 0x601 1
    else redir cmd file 0x201 1

unfoldable pub redir_loop : (fuel : ℕ) → Cmd → List ℕ → Parsed
redir_loop zero cmd s = out_of_fuel
redir_loop (suc fuel) cmd s = elim (peek (60 ∷ 62 ∷ []) s) [
  | false ↦ parsed cmd (skip_space s)
  | true ↦
      let op = gettoken s in
      let file = gettoken op.rest in
      elim (file.tok == 97) [
        | true ↦ redir_loop fuel (redircmd op.tok cmd file.text) file.rest
        | false ↦ syntax
      ]
]

-- Each round takes a character at least.
abbrev pub parseredirs : Cmd → List ℕ → Parsed
parseredirs cmd s = redir_loop (length s + 1) cmd s

-- `cmd->argv[argc] = q`: `cmd` is the innermost command of `ret`.
unfoldable pub push_arg : List ℕ → Cmd → Cmd
push_arg q (exec argv) = exec (argv ++ (q ∷ []))
push_arg q (redir cmd file mode fd) = redir (push_arg q cmd) file mode fd
push_arg q cmd = cmd

-- The loop of `parseexec`; "|)&;" ends it.
unfoldable pub args_loop : (fuel argc : ℕ) → Cmd → List ℕ → Parsed
args_loop zero argc ret s = out_of_fuel
args_loop (suc fuel) argc ret s = elim (peek (124 ∷ 41 ∷ 38 ∷ 59 ∷ []) s) [
  | true ↦ parsed ret (skip_space s)
  | false ↦
      let t = gettoken s in
      if t.tok == 0
      then parsed ret t.rest
      else if not (t.tok == 97) || leb maxargs (argc + 1)
      then syntax
      else parseredirs (push_arg t.text ret) t.rest >>> args_loop fuel (argc + 1)
]

-- The loop over '&' in `parseline`.
unfoldable pub back_loop : (fuel : ℕ) → Cmd → List ℕ → Parsed
back_loop zero cmd s = out_of_fuel
back_loop (suc fuel) cmd s = elim (peek (38 ∷ []) s) [
  | true ↦ back_loop fuel (back cmd) (gettoken s).rest
  | false ↦ parsed cmd (skip_space s)
]

-- A call costs a unit of fuel.
unfoldable mutual
  pub parseline : (fuel : ℕ) → List ℕ → Parsed
  parseline zero s = out_of_fuel
  parseline (suc fuel) s = parsepipe fuel s >>> λ cmd s1.
      back_loop (length s1 + 1) cmd s1 >>> λ cmd s2. elim (peek (59 ∷ []) s2) [
        | true ↦ parseline fuel (gettoken s2).rest >>> λ right s3. parsed (list cmd right) s3
        | false ↦ parsed cmd (skip_space s2)
      ]

  pub parsepipe : (fuel : ℕ) → List ℕ → Parsed
  parsepipe zero s = out_of_fuel
  parsepipe (suc fuel) s = parseexec fuel s >>> λ cmd s1. elim (peek (124 ∷ []) s1) [
    | true ↦ parsepipe fuel (gettoken s1).rest >>> λ right s2. parsed (pipe cmd right) s2
    | false ↦ parsed cmd (skip_space s1)
  ]

  pub parseexec : (fuel : ℕ) → List ℕ → Parsed
  parseexec zero s = out_of_fuel
  parseexec (suc fuel) s = elim (peek (40 ∷ []) s) [
    | true ↦ parseblock fuel s
    | false ↦ parseredirs (exec []) (skip_space s) >>> λ ret s1. args_loop (length s1 + 1) 0 ret s1
  ]

  pub parseblock : (fuel : ℕ) → List ℕ → Parsed
  parseblock zero s = out_of_fuel
  parseblock (suc fuel) s = elim (peek (40 ∷ []) s) [
    | false ↦ syntax
    | true ↦ parseline fuel (gettoken s).rest >>> λ cmd s1. elim (peek (41 ∷ []) s1) [
      | false ↦ syntax
      | true ↦ parseredirs cmd (gettoken s1).rest
    ]
  ]

abbrev pub whole : Cmd → List ℕ → Parsed
whole cmd s = elim (skip_space s) [ [] ↦ parsed cmd [] | (c ∷ left) ↦ syntax ]

-- Between two characters there are at most four calls.
unfoldable pub parsecmd : List ℕ → Parsed
unfolding parseline
parsecmd s = parseline (4 * length s + 4) s >>> whole
