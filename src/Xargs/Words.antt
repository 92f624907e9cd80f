-- ===== src/Xargs/Words.antt =====
-- The words of a line, and that `split` finds them.
use mit_lab.Base.{
  Option, none, some, ltb, if◌then◌else◌, ◌<◌, ℕ, zero, suc, ◌+◌, ◌≤◌, ◌<◌, ◌≡◌, refl, ap, sym,
  subst, ◌∙◌, ◌≢◌, inl, inr, true, false, List, [], ◌∷◌, ◌++◌, arith, All, length, length-append,
  Bool-cases, ◌==◌,
}
use mit_lab.Xargs.{maxarg, last_arg, one_arg, split_loop, at_end, skip_spaces, word, split}

-- A character of a word.
abbrev pub Visible : ℕ → Type 0
Visible c = (c ≢ 0) × (c ≢ 32)

-- A word ends at the end of the line or at a space.
abbrev pub IsBreak : List ℕ → Type 0
IsBreak [] = Unit
IsBreak (c ∷ s) = c ≡ 32

-- The words of a line, as many as there are.
words : (fuel : ℕ) → List ℕ → List (List ℕ)
words zero p = []
words (suc fuel) p = elim (at_end p) [
  | true ↦ []
  | false ↦ elim (at_end (skip_spaces p)) [
    | true ↦ []
    | false ↦ (word (skip_spaces p)).0 ∷ words fuel (word (skip_spaces p)).1
  ]
]

-- All of them, if there is room for them and a null pointer.
abbrev fitting : (arg_cnt : ℕ) → List (List ℕ) → Option (List (List ℕ))
fitting arg_cnt ws = if ltb (arg_cnt + length ws) maxarg then some ws else none

fitting-nil : (n : ℕ) → last_arg n ≡ fitting n []
fitting-nil n = let e : n + 0 ≡ n = omega arith in rw e refl

fitting-cons :
    (n : ℕ) (w : List ℕ) (ws : List (List ℕ))
    → one_arg n w (fitting (n + 1) ws) ≡ fitting n (w ∷ ws)
fitting-cons n w ws =
    let e : n + 1 + length ws ≡ n + suc (length ws) = omega arith in
    elim (Bool-cases (ltb (n + suc (length ws)) maxarg)) [
      | inl f ↦ let g : ltb n maxarg ≡ true = ground arith in rw (e, f, g) refl
      | inr f ↦ rw (e, f) refl
    ]

-- `IsSplit s ws`: the line `s` consists of the words `ws` and of spaces, and no word can be extended.
pub data IsSplit : List ℕ → List (List ℕ) → Type 0 where
  empty : IsSplit [] []
  space : {s : List ℕ} {ws : List (List ℕ)} → IsSplit s ws → IsSplit (32 ∷ s) ws
  next_word :
      {s : List ℕ} {ws : List (List ℕ)} (c : ℕ) (w : List ℕ)
      → Visible c
      → All Visible w
      → IsBreak s
      → IsSplit s ws
      → IsSplit (c ∷ w ++ s) ((c ∷ w) ∷ ws)

abbrev pub NoNul : List ℕ → Type 0
NoNul s = All (λ c. c ≢ 0) s

skip_spaces-IsSplit : (p : List ℕ) (ws : List (List ℕ)) → IsSplit (skip_spaces p) ws → IsSplit p ws
unfolding skip_spaces
skip_spaces-IsSplit [] ws h = h
skip_spaces-IsSplit (c ∷ p) ws h = elim (Bool-cases (c == 32)) [
  | inl e ↦
      let q : 32 ≡ c = ground arith in
      let k = rw e at h in rw (← q) (space (skip_spaces-IsSplit p ws k))
  | inr e ↦ rw e at h
]

-- What `word` returns for a line without NUL: the line is cut there, and the rest is shorter.
record Cut (p w r : List ℕ) : Type 0 where
  whole : p ≡ w ++ r
  visible : All Visible w
  break : IsBreak r
  no_nul : NoNul r
  shorter : length w + length r ≡ length p

word-Cut : (p : List ℕ) → NoNul p → Cut p (word p).0 (word p).1
unfolding word
word-Cut [] n = record {
  whole = refl;
  visible = tt;
  break = tt;
  no_nul = tt;
  shorter = omega arith;
}
word-Cut (c ∷ p) (n0, n) =
    let z : (c == 0) ≡ false = ground arith in
    elim (Bool-cases (c == 32)) [
      | inl e ↦
          let q : c ≡ 32 = ground arith in
          rw (z, e)
            (record {
              whole = refl;
              visible = tt;
              break = q;
              no_nul = (n0, n);
              shorter = omega arith;
            })
      | inr e ↦
          let k = word-Cut p n in
          let sh = k.shorter in
          rw (z, e)
            (record {
              whole = ap (λ x. c ∷ x) k.whole;
              visible = ((n0, ground arith), k.visible);
              break = k.break;
              no_nul = k.no_nul;
              shorter = omega arith;
            })
    ]

-- After `skip_spaces`.
record Skipped (p q : List ℕ) : Type 0 where
  no_nul : NoNul q
  no_longer : length q ≤ length p
  no_space : skip_spaces q ≡ q

skip_spaces-Skipped : (p : List ℕ) → NoNul p → Skipped p (skip_spaces p)
unfolding skip_spaces
skip_spaces-Skipped [] n = record { no_nul = tt; no_longer = omega arith; no_space = refl }
skip_spaces-Skipped (c ∷ p) (n0, n) = elim (Bool-cases (c == 32)) [
  | inl e ↦
      let k = skip_spaces-Skipped p n in
      let l = k.no_longer in
      rw e (record { no_nul = k.no_nul; no_longer = omega arith; no_space = k.no_space })
  | inr e ↦ rw e (record { no_nul = (n0, n); no_longer = omega arith; no_space = rw e })
]

skip_one : (d : ℕ) (q : List ℕ) → (d == 32) ≡ true → skip_spaces (d ∷ q) ≡ skip_spaces q
unfolding skip_spaces
skip_one d q e = rw e

word_head :
    (d : ℕ) (q : List ℕ)
    → (d == 0) ≡ false
    → (d == 32) ≡ false
    → word (d ∷ q) ≡ (d ∷ (word q).0, (word q).1)
unfolding word
word_head d q z e = rw (z, e)

-- A line that begins with a word.
IsSplit-step :
    (fuel : ℕ) (q : List ℕ)
    → NoNul q
    → skip_spaces q ≡ q
    → ((r : List ℕ) → NoNul r → length r < length q → IsSplit r (words fuel r))
    → IsSplit q (elim (at_end q) [ true ↦ [] | false ↦ (word q).0 ∷ words fuel (word q).1 ])
IsSplit-step fuel [] n sk rec = empty
IsSplit-step fuel (d ∷ q) (n0, n) sk rec =
    let z : (d == 0) ≡ false = ground arith in
    let k = word-Cut q n in
    let sh = k.shorter in
    elim (Bool-cases (d == 32)) [
      | inl e ↦
          let same : length (skip_spaces q) ≡ length (d ∷ q) =
            ap length (sym (skip_one d q e) ∙ sk) in
          let short = skip_spaces-Skipped q n in let l = short.no_longer in absurd (omega arith)
      | inr e ↦
          rw (z, word_head d q z e)
            (subst (λ x. IsSplit (d ∷ x) ((d ∷ (word q).0) ∷ words fuel (word q).1)) (sym k.whole)
              (next_word d (word q).0 (n0, ground arith) k.visible k.break
                (rec (word q).1 k.no_nul (omega arith))))
    ]

words-IsSplit : (fuel : ℕ) (p : List ℕ) → NoNul p → length p ≤ fuel → IsSplit p (words fuel p)
unfolding words
words-IsSplit zero [] n l = empty
words-IsSplit zero (c ∷ p) n l = absurd (omega arith)
words-IsSplit (suc fuel) [] n l = empty
words-IsSplit (suc fuel) (c ∷ p) (n0, n) l =
    let z : (c == 0) ≡ false = ground arith in
    let k = skip_spaces-Skipped (c ∷ p) (n0, n) in
    let kl = k.no_longer in
    rw (z, words)
      (skip_spaces-IsSplit (c ∷ p) _ (
        IsSplit-step fuel (skip_spaces (c ∷ p)) k.no_nul k.no_space
          (λ r nr lr. words-IsSplit fuel r nr (omega arith))))

split_loop-words : (fuel n : ℕ) (p : List ℕ) → split_loop fuel n p ≡ fitting n (words fuel p)
unfolding split_loop words
split_loop-words zero n p = fitting-nil n
split_loop-words (suc fuel) n p = elim (Bool-cases (at_end p)) [
  | inl e ↦ rw (split_loop, words, e) (fitting-nil n)
  | inr e ↦ elim (Bool-cases (at_end (skip_spaces p))) [
    | inl f ↦ rw (split_loop, words, e, f) (fitting-nil n)
    | inr f ↦
        rw (split_loop, words, e, f)
          (ap (one_arg n (word (skip_spaces p)).0)
              (split_loop-words fuel (n + 1) (word (skip_spaces p)).1)
            ∙ fitting-cons n (word (skip_spaces p)).0 (words fuel (word (skip_spaces p)).1))
  ]
]

-- The words of a line are determined.
word-break : (w s : List ℕ) → All Visible w → IsBreak s → word (w ++ s) ≡ (w, s)
unfolding word
word-break [] [] v b = refl
word-break [] (c ∷ s) v b =
    let z : (c == 0) ≡ false = ground arith in let e : (c == 32) ≡ true = ground arith in rw (z, e)
word-break (c ∷ w) s ((v0, v1), v) b =
    let z : (c == 0) ≡ false = ground arith in
    let e : (c == 32) ≡ false = ground arith in rw (z, e, word-break w s v b)

skip_spaces-stop : (c : ℕ) (p : List ℕ) → Visible c → skip_spaces (c ∷ p) ≡ c ∷ p
unfolding skip_spaces
skip_spaces-stop c p (v0, v1) = let e : (c == 32) ≡ false = ground arith in rw e

words-space : (fuel : ℕ) (p : List ℕ) → words (suc fuel) (32 ∷ p) ≡ words (suc fuel) p
unfolding words skip_spaces
words-space fuel [] = refl
words-space fuel (c ∷ p) = elim (Bool-cases (c == 0)) [
  | inl e ↦ let f : (c == 32) ≡ false = ground arith in rw (words, f, e)
  | inr e ↦ rw (words, e)
]

words-nil : (fuel : ℕ) → words fuel [] ≡ []
unfolding words
words-nil zero = refl
words-nil (suc fuel) = refl

words-word :
    (fuel c : ℕ) (w s : List ℕ)
    → Visible c
    → All Visible w
    → IsBreak s
    → words (suc fuel) (c ∷ w ++ s) ≡ (c ∷ w) ∷ words fuel s
unfolding words
words-word fuel c w s v vs b =
    let z : (c == 0) ≡ false = ground arith in
    let e : (c == 32) ≡ false = ground arith in
    let cut : word (c ∷ w ++ s) ≡ (c ∷ w, s) =
      word_head c (w ++ s) z e ∙ ap (λ r. (c ∷ r.0, r.1)) (word-break w s vs b) in
    let sk = skip_spaces-stop c (w ++ s) v in
    rw (words, z, sk, z)
      (ap (λ q. (word q).0 ∷ words fuel (word q).1) sk ∙ ap (λ r. r.0 ∷ words fuel r.1) cut)

IsSplit-words :
    (fuel : ℕ) {p : List ℕ} {ws : List (List ℕ)}
    → IsSplit p ws
    → length p ≤ fuel
    → words fuel p ≡ ws
IsSplit-words fuel empty l = words-nil fuel
IsSplit-words zero (space h) l = absurd (omega arith)
IsSplit-words (suc fuel) (space {s = s} h) l =
    words-space fuel s ∙ IsSplit-words (suc fuel) h (omega arith)
IsSplit-words zero (next_word c w v vs b h) l = absurd (omega arith)
IsSplit-words (suc fuel) (next_word {s = s} c w v vs b h) l =
    words-word fuel c w s v vs b
    ∙ ap (λ x. (c ∷ w) ∷ x) (IsSplit-words fuel h (omega (arith, length-append w s)))

-- Words for which there is room are what `split` returns.
pub split-words :
    (cmd_cnt : ℕ) (line : List ℕ) (ws : List (List ℕ))
    → IsSplit line ws
    → cmd_cnt + length ws < maxarg
    → split cmd_cnt line ≡ some ws
unfolding split
split-words cmd_cnt line ws h l =
    let e : ltb (cmd_cnt + length ws) maxarg ≡ true = ground arith in
    split_loop-words (length line) cmd_cnt line
    ∙ ap (fitting cmd_cnt) (IsSplit-words (length line) h (omega arith))
    ∙ rw e

-- What `split` makes of a line: its words, or a write past the array.
pub data Splits (cmd_cnt : ℕ) (line : List ℕ) : Option (List (List ℕ)) → Type 0 where
  fits :
      {ws : List (List ℕ)}
      → IsSplit line ws
      → cmd_cnt + length ws < maxarg
      → Splits cmd_cnt line (some ws)
  overflows :
      {ws : List (List ℕ)}
      → IsSplit line ws
      → maxarg ≤ cmd_cnt + length ws
      → Splits cmd_cnt line none

-- A line without NUL characters consists of spaces and of words, each of them as long as it can be.
-- `split` finds exactly these words if there is room for them and a null pointer in the array of
-- MAXARG behind the command; else, and only then, it writes past the end of the array.
pub split-IsSplit :
    (cmd_cnt : ℕ) (line : List ℕ) → NoNul line → Splits cmd_cnt line (split cmd_cnt line)
unfolding split
split-IsSplit cmd_cnt line n =
    let ws = words (length line) line in
    let whole = words-IsSplit (length line) line n (omega arith) in
    subst (Splits cmd_cnt line) (sym (split_loop-words (length line) cmd_cnt line))
      (elim (Bool-cases (ltb (cmd_cnt + length ws) maxarg)) [
        | inl e ↦ rw e (fits whole (ground arith))
        | inr e ↦ rw e (overflows whole (ground arith))
      ])
