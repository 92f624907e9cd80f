-- ===== src/Shell/Tokens.antt =====
-- The tokens of a command line, and what a well-formed command is.
use mit_lab.Base.{
  ℕ, ◌≤◌, ◌<◌, ◌≡◌, refl, ◌≢◌, ◌⊎◌, inl, inr, Bool, true, false, ◌&&◌, not, Bool-cases, List, [],
  ◌∷◌, All, length, arith, ◌==◌,
}
use mit_lab.Shell.{
  Cmd, exec, redir, pipe, list, back, strchr, whitespace, symbols, single, skip_space, word,
  after_gt, token, gettoken, starts, Parsed, parsed, syntax, ◌>>>◌, maxargs,
}

abbrev pub is_plain : ℕ → Bool
is_plain c = not (strchr whitespace c) && not (strchr symbols c)

-- A word of a command line: not empty, without whitespace and symbols.
abbrev pub IsWord : List ℕ → Type 0
IsWord w = (1 ≤ length w) × All (λ c. is_plain c ≡ true) w

-- The mode and the descriptor are those of a redirection.
abbrev pub IsMode : ℕ → ℕ → Type 0
IsMode mode fd = (mode ≡ 0) × (fd ≡ 0) ⊎ ((mode ≡ 0x601) × (fd ≡ 1) ⊎ (mode ≡ 0x201) × (fd ≡ 1))

-- All words are words, and no command has MAXARGS arguments.
unfoldable pub IsCommand : Cmd → Type 0
IsCommand (exec argv) = (length argv < maxargs) × All IsWord argv
IsCommand (redir cmd file mode fd) = IsCommand cmd × IsWord file × IsMode mode fd
IsCommand (pipe left right) = IsCommand left × IsCommand right
IsCommand (list left right) = IsCommand left × IsCommand right
IsCommand (back cmd) = IsCommand cmd

-- A parse that does not run out of fuel, and does not go back in the line.
pub data Fine (P : Cmd → Type 0) (s : List ℕ) : Parsed → Type 0 where
  failed : Fine P s syntax
  done : {cmd : Cmd} {rest : List ℕ} → P cmd → length rest ≤ length s → Fine P s (parsed cmd rest)

pub Fine-bind :
    {P Q : Cmd → Type 0} {s s' : List ℕ} {r : Parsed} {f : Cmd → List ℕ → Parsed}
    → length s' ≤ length s
    → Fine P s' r
    → ((cmd : Cmd) (rest : List ℕ) → P cmd → length rest ≤ length s' → Fine Q s (f cmd rest))
    → Fine Q s (r >>> f)
Fine-bind h failed k = failed
Fine-bind h (done p l) k = k _ _ p l

pub Fine-weaken :
    {P : Cmd → Type 0} {s s' : List ℕ} {r : Parsed}
    → length s' ≤ length s
    → Fine P s' r
    → Fine P s r
Fine-weaken h failed = failed
Fine-weaken h (done p l) = done p (omega (arith, h, l))

pub skip_space-le : (s : List ℕ) → length (skip_space s) ≤ length s
unfolding skip_space
skip_space-le [] = omega arith
skip_space-le (c ∷ s) = elim (Bool-cases (strchr whitespace c)) [
  | inl e ↦ rw e (omega (arith, skip_space-le s))
  | inr e ↦ rw e (omega arith)
]

word-le : (s : List ℕ) → length (word s).1 ≤ length s
unfolding word
word-le [] = omega arith
word-le (c ∷ s) = elim (Bool-cases (is_plain c)) [
  | inl e ↦ rw e (omega (arith, word-le s))
  | inr e ↦ rw e (omega arith)
]

-- The first character is not whitespace.
abbrev pub IsClean : List ℕ → Type 0
IsClean [] = Unit
IsClean (c ∷ s) = strchr whitespace c ≡ false

pub skip_space-IsClean : (s : List ℕ) → IsClean (skip_space s)
unfolding skip_space
skip_space-IsClean [] = tt
skip_space-IsClean (c ∷ s) = elim (Bool-cases (strchr whitespace c)) [
  | inl e ↦ rw e (skip_space-IsClean s)
  | inr e ↦ rw e e
]

no_symbol : (c : ℕ) → strchr single c ≡ false → (c == 62) ≡ false → strchr symbols c ≡ false
unfolding strchr
no_symbol c s g = elim (Bool-cases (strchr symbols c)) [
  | inr e ↦ e
  | inl e ↦ let k : c ≢ 62 = ground (arith, g) in absurd (ground (arith, s, e, k))
]

-- A symbol is a token by itself or '>'.
symbol-plain :
    (c : ℕ)
    → strchr whitespace c ≡ false
    → strchr single c ≡ false
    → (c == 62) ≡ false
    → is_plain c ≡ true
unfolding strchr
symbol-plain c w s g = rw (w, no_symbol c s g) refl

after_gt-le : (s : List ℕ) → length (after_gt s).rest ≤ length s
unfolding after_gt
after_gt-le [] = omega arith
after_gt-le (c ∷ s) = elim (Bool-cases (c == 62)) [
  | inl e ↦ rw e (omega (arith, skip_space-le s))
  | inr e ↦ rw e (skip_space-le (c ∷ s))
]

after_gt-tok : (s : List ℕ) → (after_gt s).tok ≢ 97
unfolding after_gt
after_gt-tok [] = omega arith
after_gt-tok (c ∷ s) = elim (Bool-cases (c == 62)) [
  | inl e ↦ rw e (omega arith)
  | inr e ↦ rw e (omega arith)
]

single-letter : (c : ℕ) → strchr single c ≡ true → c ≢ 97
unfolding strchr
single-letter c h e = absurd (cc (rw e at h))

-- What a token takes, and that a word is one.
token-lt : (c : ℕ) (s : List ℕ) → IsClean (c ∷ s) → length (token (c ∷ s)).rest ≤ length s
unfolding token word
token-lt c s clean = elim (Bool-cases (strchr single c)) [
  | inl e ↦ rw e (skip_space-le s)
  | inr e ↦ elim (Bool-cases (c == 62)) [
    | inl g ↦ rw (e, g) (after_gt-le s)
    | inr g ↦
        rw (e, g, symbol-plain c clean e g) (omega (arith, skip_space-le (word s).1, word-le s))
  ]
]

word-plain : (s : List ℕ) → All (λ c. is_plain c ≡ true) (word s).0
unfolding word
word-plain [] = tt
word-plain (c ∷ s) = elim (Bool-cases (is_plain c)) [
  | inl e ↦ rw e (e, word-plain s)
  | inr e ↦ rw e tt
]

token-IsWord : (s : List ℕ) → IsClean s → (token s).tok ≡ 97 → IsWord (token s).text
unfolding token word
token-IsWord [] clean h = absurd (omega (arith, h))
token-IsWord (c ∷ s) clean h = elim (Bool-cases (strchr single c)) [
  | inl e ↦ absurd (single-letter c e (rw (token, e) at h))
  | inr e ↦ elim (Bool-cases (c == 62)) [
    | inl g ↦ absurd (after_gt-tok s (rw (token, e, g) at h))
    | inr g ↦ let p = symbol-plain c clean e g in rw (e, g, p) (omega arith, (p, word-plain s))
  ]
]

pub gettoken-lt : (s : List ℕ) → skip_space s ≢ [] → length (gettoken s).rest < length s
gettoken-lt s h = go (skip_space s) (skip_space-IsClean s) (skip_space-le s) h
  where
    go : (r : List ℕ) → IsClean r → length r ≤ length s → r ≢ [] → length (token r).rest < length s
    go [] clean l ne = absurd (ne refl)
    go (c ∷ r) clean l ne = omega (arith, token-lt c r clean, l)

pub gettoken-le : (s : List ℕ) → length (gettoken s).rest ≤ length s
unfolding token
gettoken-le s = go (skip_space s) (skip_space-IsClean s) (skip_space-le s)
  where
    go : (r : List ℕ) → IsClean r → length r ≤ length s → length (token r).rest ≤ length s
    go [] clean l = omega arith
    go (c ∷ r) clean l = omega (arith, token-lt c r clean, l)

pub starts-some : (toks s : List ℕ) → starts toks s ≡ true → s ≢ []
unfolding starts
starts-some toks [] h = absurd (cc h)
starts-some toks (c ∷ s) h = λ e. cc e

pub tok-some : (s : List ℕ) → (token s).tok ≢ 0 → s ≢ []
unfolding token
tok-some [] h = λ e. h refl
tok-some (c ∷ s) h = λ e. cc e

-- The text of a word.
pub gettoken-IsWord : (s : List ℕ) → (gettoken s).tok ≡ 97 → IsWord (gettoken s).text
gettoken-IsWord s = token-IsWord (skip_space s) (skip_space-IsClean s)
