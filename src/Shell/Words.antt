-- ===== src/Shell/Words.antt =====
-- What may follow a command, and words read off the front of a line.
use mit_lab.Base.{
  ℕ, ◌≡◌, refl, inl, inr, Bool, true, false, ◌&&◌, not, Bool-cases, ==_iff, List, [], ◌∷◌, ◌++◌,
  All, arith, ◌==◌,
}
use mit_lab.Shell.{
  strchr, whitespace, symbols, single, skip_space, word, after_gt, token, gettoken, starts,
}
use mit_lab.Shell.Tokens.{is_plain, IsWord, IsClean}

pub skip-clean : (s : List ℕ) → IsClean s → skip_space s ≡ s
unfolding skip_space
skip-clean [] h = refl
skip-clean (c ∷ s) h = rw h refl

-- The next character is one of `toks`, or the line ends.
abbrev pub Follows : List ℕ → List ℕ → Type 0
Follows toks [] = Unit
Follows toks (c ∷ s) = strchr toks c ≡ true

-- "|)&;", ")&;" and ")".
abbrev pub after_exec : List ℕ
after_exec = 124 ∷ 41 ∷ 38 ∷ 59 ∷ []

abbrev pub after_pipe : List ℕ
after_pipe = 41 ∷ 38 ∷ 59 ∷ []

abbrev pub after_line : List ℕ
after_line = 41 ∷ []

-- Sets of characters.
abbrev pub disjoint : (toks others : List ℕ) → Bool
disjoint [] others = true
disjoint (t ∷ toks) others = not (strchr others t) && disjoint toks others

abbrev pub included : (toks others : List ℕ) → Bool
included [] others = true
included (t ∷ toks) others = strchr others t && included toks others

pub strchr-disjoint :
    (toks others : List ℕ) (c : ℕ)
    → disjoint toks others ≡ true
    → strchr toks c ≡ true
    → strchr others c ≡ false
unfolding strchr
strchr-disjoint [] others c d h = absurd (cc h)
strchr-disjoint (t ∷ toks) others c d h = elim (Bool-cases (t == c)) [
  | inl e ↦ rw (← (==_iff t c).0 e) (ground (arith, d))
  | inr e ↦ strchr-disjoint toks others c (ground (arith, d)) (rw e at h)
]

pub strchr-included :
    (toks others : List ℕ) (c : ℕ)
    → included toks others ≡ true
    → strchr toks c ≡ true
    → strchr others c ≡ true
unfolding strchr
strchr-included [] others c d h = absurd (cc h)
strchr-included (t ∷ toks) others c d h = elim (Bool-cases (t == c)) [
  | inl e ↦ rw (← (==_iff t c).0 e) (ground (arith, d))
  | inr e ↦ strchr-included toks others c (ground (arith, d)) (rw e at h)
]

pub strchr-outside :
    (toks others : List ℕ) (c : ℕ)
    → included toks others ≡ true
    → strchr others c ≡ false
    → strchr toks c ≡ false
strchr-outside toks others c d h = elim (Bool-cases (strchr toks c)) [
  | inr e ↦ e
  | inl e ↦ absurd (cc (h, strchr-included toks others c d e))
]

pub Follows-none :
    (toks others s : List ℕ)
    → disjoint toks others ≡ true
    → Follows toks s
    → starts others s ≡ false
unfolding starts
Follows-none toks others [] d f = refl
Follows-none toks others (c ∷ s) d f = strchr-disjoint toks others c d f

pub Follows-included :
    (toks others s : List ℕ) → included toks others ≡ true → Follows toks s → Follows others s
Follows-included toks others [] d f = tt
Follows-included toks others (c ∷ s) d f = strchr-included toks others c d f

pub pipe-exec : (s : List ℕ) → Follows after_pipe s → Follows after_exec s
unfolding strchr
pipe-exec s = Follows-included after_pipe after_exec s refl

pub line-pipe : (s : List ℕ) → Follows after_line s → Follows after_pipe s
unfolding strchr
line-pipe s = Follows-included after_line after_pipe s refl

pub Follows-IsClean : (s : List ℕ) → Follows after_exec s → IsClean s
unfolding strchr
Follows-IsClean [] f = tt
Follows-IsClean (c ∷ s) f = strchr-disjoint after_exec whitespace c refl f

-- A word is read off the front.
pub word-append :
    (w s : List ℕ) → All (λ c. is_plain c ≡ true) w → word (w ++ (32 ∷ s)) ≡ (w, 32 ∷ s)
unfolding word strchr
word-append [] s h = refl
word-append (c ∷ w) s h = rw (h.0, word-append w s h.1) refl

pub plain-white : (c : ℕ) → is_plain c ≡ true → strchr whitespace c ≡ false
plain-white c h = ground (arith, h)

pub plain-symbol : (c : ℕ) → is_plain c ≡ true → strchr symbols c ≡ false
plain-symbol c h = ground (arith, h)

pub plain-single : (c : ℕ) → is_plain c ≡ true → (strchr single c ≡ false) × ((c == 62) ≡ false)
unfolding strchr
plain-single c h =
    let k = plain-symbol c h in
    let g : (c == 62) ≡ false = elim (Bool-cases (c == 62)) [
      | inr e ↦ e
      | inl e ↦ let q = (==_iff c 62).0 e in absurd (cc (rw q at k))
    ] in
    let f = strchr-outside single symbols c refl k in (f, g)

pub token-word :
    (w s : List ℕ)
    → IsWord w
    → IsClean s
    → gettoken (w ++ (32 ∷ s)) ≡ record { tok = 97; text = w; rest = s }
unfolding token skip_space strchr
token-word [] s h c = absurd (omega (arith, h.0))
token-word (x ∷ w) s h c =
    let p = plain-single x h.1.0 in
    let white = plain-white x h.1.0 in
    rw (white, p.0, p.1, word-append (x ∷ w) s h.1) (rw (skip-clean s c) refl)

pub word-IsClean : (w s : List ℕ) → IsWord w → IsClean (w ++ (32 ∷ s))
word-IsClean [] s h = absurd (omega (arith, h.0))
word-IsClean (c ∷ w) s h = plain-white c h.1.0

-- The file after the symbol.
pub file-token :
    (w s : List ℕ)
    → IsWord w
    → IsClean s
    → gettoken (skip_space (w ++ (32 ∷ s))) ≡ record { tok = 97; text = w; rest = s }
file-token w s h c = rw (skip-clean (w ++ (32 ∷ s)) (word-IsClean w s h)) (token-word w s h c)

pub after_gt-word :
    (w s : List ℕ)
    → IsWord w
    → after_gt (w ++ (32 ∷ s))
      ≡ record { tok = 62; text = 62 ∷ []; rest = skip_space (w ++ (32 ∷ s)) }
unfolding after_gt
after_gt-word [] s h = absurd (omega (arith, h.0))
after_gt-word (c ∷ w) s h = rw (plain-single c h.1.0).1 refl
