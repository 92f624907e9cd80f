-- ===== src/Grep/Match.antt =====
-- The matcher decides the language of the pattern.
use mathlib.Core.Path.{fun_ext}
use mit_lab.Base.{
  ℕ, ◌≡◌, refl, sym, ap, ◌∙◌, ◌↔◌, ◌⊎◌, inl, inr, Bool, true, false, List, [], ◌∷◌, ◌++◌, arith,
  ◌==◌, Bool-cases,
}
use mit_lab.Grep.{is_end, matchstar, match_one, matchhere, match_from, match}
use mit_lab.Grep.Lang.{
  Item, one, many, Pattern, parse, Lang, nil, take_one, stop, more, Here, Somewhere,
}

-- The matcher over a parsed pattern.
run : List Item → Bool → List ℕ → Bool
run [] false text = true
run [] true text = is_end text
run (one c ∷ is) e text = match_one (run is e) c text
run (many c ∷ is) e text = matchstar (run is e) c text

matchhere-run : (re text : List ℕ) → matchhere re text ≡ run (parse re).items (parse re).at_end text
unfolding matchhere run parse
matchhere-run [] text = refl
matchhere-run (c ∷ []) text = elim (Bool-cases (c == b'$')) [
  | inl e ↦ rw e
  | inr e ↦ rw (e, fun_ext one_end)
]
  where
    one_end : (t : List ℕ) → run [] false t ≡ true
    one_end t = refl
matchhere-run (c ∷ d ∷ re) text = elim (Bool-cases (d == b'*')) [
  | inl e ↦ rw e (rw (fun_ext (matchhere-run re)))
  | inr e ↦ rw e (rw (fun_ext (matchhere-run (d ∷ re))))
]

abbrev pattern_of : List Item → Bool → Pattern
pattern_of is e = record { items = is; at_end = e }

module _ (is : List Item) (e : Bool) where
  one_sound :
      (c : ℕ) (text : List ℕ)
      → ((t : List ℕ) → run is e t ≡ true → Here (pattern_of is e) t)
      → match_one (run is e) c text ≡ true
      → Here (pattern_of (one c ∷ is) e) text
  unfolding match_one
  one_sound c [] sound h = cc
  one_sound c (x ∷ text) sound h =
      let r = sound text (ground arith) in
      record {
        front = x ∷ r.front;
        rest = r.rest;
        split = ap (λ l. x ∷ l) r.split;
        fits = take_one (ground arith) r.fits;
        ends = r.ends;
      }

  star_sound :
      (c : ℕ) (text : List ℕ)
      → ((t : List ℕ) → run is e t ≡ true → Here (pattern_of is e) t)
      → matchstar (run is e) c text ≡ true
      → Here (pattern_of (many c ∷ is) e) text
  unfolding matchstar
  star_sound c [] sound h =
      let r = sound [] h in
      record { front = r.front; rest = r.rest; split = r.split; fits = stop r.fits; ends = r.ends }
  star_sound c (x ∷ text) sound h = elim (Bool-cases (run is e (x ∷ text))) [
    | inl now ↦
        let r = sound (x ∷ text) now in
        record {
          front = r.front;
          rest = r.rest;
          split = r.split;
          fits = stop r.fits;
          ends = r.ends;
        }
    | inr later ↦
        let r = star_sound c text sound (ground arith) in
        record {
          front = x ∷ r.front;
          rest = r.rest;
          split = ap (λ l. x ∷ l) r.split;
          fits = more (ground arith) r.fits;
          ends = r.ends;
        }
  ]

  star_now : (c : ℕ) (text : List ℕ) → run is e text ≡ true → matchstar (run is e) c text ≡ true
  unfolding matchstar
  star_now c [] h = h
  star_now c (x ∷ text) h = ground arith

run_sound :
    (is : List Item) (e : Bool) (text : List ℕ) → run is e text ≡ true → Here (pattern_of is e) text
unfolding run is_end
run_sound [] false text h = record {
  front = [];
  rest = text;
  split = refl;
  fits = nil;
  ends = λ p. cc;
}
run_sound [] true [] h = record {
  front = [];
  rest = [];
  split = refl;
  fits = nil;
  ends = λ p. refl;
}
run_sound [] true (x ∷ text) h = cc
run_sound (one c ∷ is) e text h = one_sound is e c text (run_sound is e) h
run_sound (many c ∷ is) e text h = star_sound is e c text (run_sound is e) h

run_complete :
    (e : Bool) {is : List Item} {front : List ℕ} (rest : List ℕ)
    → Lang is front
    → (e ≡ true → rest ≡ [])
    → run is e (front ++ rest) ≡ true
unfolding run match_one matchstar is_end
run_complete false rest nil ends = refl
run_complete true [] nil ends = refl
run_complete true (x ∷ rest) nil ends = cc (ends refl)
run_complete e rest (take_one a l) ends = ground (arith, run_complete e rest l ends)
run_complete e {front} rest (stop {c} {is} l) ends =
    star_now is e c (front ++ rest) (run_complete e rest l ends)
run_complete e rest (more a l) ends = ground (arith, run_complete e rest l ends)

-- `matchhere` returns true exactly when a front part of the text is in the pattern's language, the
-- whole text if the pattern ends in `$`.
pub matchhere_iff : (re text : List ℕ) → (matchhere re text ≡ true) ↔ Here (parse re) text
matchhere_iff re text = (
  λ h. run_sound _ _ text (sym (matchhere-run re text) ∙ h),
  λ r. matchhere-run re text ∙ subst-split r,
)
  where
    subst-split : Here (parse re) text → run (parse re).items (parse re).at_end text ≡ true
    subst-split r = rw r.split at (run_complete (parse re).at_end r.rest r.fits r.ends)

match_from_sound :
    (re text : List ℕ) → match_from (matchhere re) text ≡ true → Somewhere (parse re) text
unfolding match_from
match_from_sound re [] h = record {
  skipped = [];
  tail = [];
  split = refl;
  here = (matchhere_iff re []).0 h;
}
match_from_sound re (x ∷ text) h = elim (Bool-cases (matchhere re (x ∷ text))) [
  | inl now ↦ record {
    skipped = [];
    tail = x ∷ text;
    split = refl;
    here = (matchhere_iff re (x ∷ text)).0 now;
  }
  | inr later ↦
      let r = match_from_sound re text (ground arith) in
      record {
        skipped = x ∷ r.skipped;
        tail = r.tail;
        split = ap (λ l. x ∷ l) r.split;
        here = r.here;
      }
]

match_from_complete :
    (re skipped tail : List ℕ)
    → Here (parse re) tail
    → match_from (matchhere re) (skipped ++ tail) ≡ true
unfolding match_from
match_from_complete re [] [] h = (matchhere_iff re []).1 h
match_from_complete re [] (x ∷ tail) h = ground (arith, (matchhere_iff re (x ∷ tail)).1 h)
match_from_complete re (x ∷ skipped) tail h = ground (arith, match_from_complete re skipped tail h)

-- What `match` looks for: under `^` a match at the beginning, else one anywhere.
abbrev pub Found : List ℕ → List ℕ → Type 0
Found [] text = Somewhere (parse []) text
Found (c ∷ re) text =
    ((c ≡ b'^') × Here (parse re) text) ⊎ ((c == b'^') ≡ false) × Somewhere (parse (c ∷ re)) text

-- `match` returns true exactly when the text has a part in the pattern's language: at its beginning
-- if the pattern begins with `^`, up to its end if the pattern ends in `$`.
pub match_iff : (re text : List ℕ) → (match re text ≡ true) ↔ Found re text
unfolding match
match_iff [] text =
    (match_from_sound [] text, λ r. rw r.split at (match_from_complete [] r.skipped r.tail r.here))
match_iff (c ∷ re) text = elim (Bool-cases (c == b'^')) [
  | inl e ↦ (
    λ h. inl (ground arith, (matchhere_iff re text).0 (ground arith)),
    elim [ inl (p, r) ↦ rw e ((matchhere_iff re text).1 r) | inr (p, r) ↦ cc ],
  )
  | inr e ↦ (
    λ h. inr (e, match_from_sound (c ∷ re) text (ground arith)),
    elim [
      | inl (p, r) ↦ ground arith
      | inr (p, r) ↦ rw e (rw r.split at (match_from_complete (c ∷ re) r.skipped r.tail r.here))
    ],
  )
]
