-- ===== src/Path/Elements.antt =====
-- What `skipelem` takes from a path.
use mathlib.Core.List.{append-nil}
use mit_lab.Base.{
  ℕ, zero, suc, ◌≤◌, ◌≡◌, refl, sym, ◌∙◌, ap as cong, subst, ◌≢◌, false, Bool-cases, ==_iff, inl,
  inr, Option, none, some, List, [], ◌∷◌, ◌++◌, All, arith, length, take, ltb, ◌==◌,
}
use mit_lab.Path.{dirsiz, slash, skip_slashes, element, copy_name, from_element, skipelem}

abbrev pub Slashes : List ℕ → Type 0
Slashes l = All (λ c. c ≡ slash) l

abbrev pub Plain : List ℕ → Type 0
Plain l = All (λ c. c ≢ slash) l

-- The path does not begin with a slash.
abbrev pub Starts : List ℕ → Type 0
Starts [] = Unit
Starts (c ∷ l) = c ≢ slash

-- The path is slashes alone; or slashes, an element, which is not empty, slashes and a rest, and no
-- slash is left before the rest nor missing before it.
pub data Elem (path : List ℕ) : Option (List ℕ × List ℕ) → Type 0 where
  ended : Slashes path → Elem path none
  found :
      (before name after rest : List ℕ)
      → path ≡ before ++ (name ++ (after ++ rest))
      → Slashes before
      → Plain name
      → name ≢ []
      → Slashes after
      → (after ≡ [] → rest ≡ [])
      → Starts rest
      → Elem path (some (take dirsiz name, rest))

pub record Skipped (path : List ℕ) (rest : List ℕ) : Type 0 where
  pub before : List ℕ
  pub split : path ≡ before ++ rest
  pub slashes : Slashes before
  pub starts : Starts rest

skip_slashes-Skipped : (path : List ℕ) → Skipped path (skip_slashes path)
unfolding skip_slashes
skip_slashes-Skipped [] = record { before = []; split = refl; slashes = tt; starts = tt }
skip_slashes-Skipped (c ∷ path) = elim (Bool-cases (c == slash)) [
  | inl e ↦
      let r = skip_slashes-Skipped path in
      rw e (record {
        before = c ∷ r.before;
        split = cong (λ l. c ∷ l) r.split;
        slashes = ((==_iff c slash).0 e, r.slashes);
        starts = r.starts;
      })
  | inr e ↦ rw e (record { before = []; split = refl; slashes = tt; starts = ground (arith, e) })
]

-- Where an element ends, the path ends or goes on with a slash.
abbrev Stops : List ℕ → Type 0
Stops [] = Unit
Stops (c ∷ l) = c ≡ slash

element-split :
    (path : List ℕ)
    → (path ≡ (element path).0 ++ (element path).1)
      × Plain (element path).0
      × Stops (element path).1
unfolding element
element-split [] = (refl, tt, tt)
element-split (c ∷ path) = elim (Bool-cases (c == slash)) [
  | inl e ↦ rw e (refl, tt, (==_iff c slash).0 e)
  | inr e ↦
      let (a, b, d) = element-split path in rw e (cong (λ l. c ∷ l) a, (ground (arith, e), b), d)
]

take_all : (n : ℕ) (l : List ℕ) → length l ≤ n → take n l ≡ l
take_all zero [] h = refl
take_all zero (x ∷ l) h = absurd (omega arith)
take_all (suc n) [] h = refl
take_all (suc n) (x ∷ l) h = cong (λ l'. x ∷ l') (take_all n l (omega arith))

copy_name-take : (s : List ℕ) → copy_name s ≡ take dirsiz s
copy_name-take s = elim (Bool-cases (ltb (length s) dirsiz)) [
  | inl e ↦ rw e (sym (take_all dirsiz s (ground (arith, e))))
  | inr e ↦ rw e refl
]

element_begins : (c : ℕ) (l : List ℕ) → c ≢ slash → (element (c ∷ l)).0 ≢ []
unfolding element
element_begins c l ne = let e : (c == slash) ≡ false = ground (arith, ne) in rw e (λ h. cc h)

-- Without a slash between them, nothing is left after the element.
no_more :
    (rest : List ℕ) (r : Skipped rest (skip_slashes rest))
    → r.before ≡ []
    → Stops rest
    → skip_slashes rest ≡ []
unfolding skip_slashes
no_more [] r e stops = refl
no_more (c ∷ l) r e stops =
    let same : c ∷ l ≡ skip_slashes (c ∷ l) = r.split ∙ cong (λ b. b ++ skip_slashes (c ∷ l)) e in
    absurd (subst Starts (sym same) r.starts stops)

-- The element that begins here, and the rest.
from_element-Elem :
    (path : List ℕ) (c : ℕ) (l : List ℕ) → Skipped path (c ∷ l) → Elem path (from_element (c ∷ l))
from_element-Elem path c l s =
    let (split, plain, stops) = element-split (c ∷ l) in
    let r = skip_slashes-Skipped (element (c ∷ l)).1 in
    rw (copy_name-take (element (c ∷ l)).0) (
      found s.before (element (c ∷ l)).0 r.before (skip_slashes (element (c ∷ l)).1)
        (s.split ∙ cong (λ x. s.before ++ x) (split ∙ cong (λ x. (element (c ∷ l)).0 ++ x) r.split))
        s.slashes plain (element_begins c l s.starts) r.slashes
        (λ none_left. no_more (element (c ∷ l)).1 r none_left stops) r.starts)

-- `skipelem` returns the null pointer only on a path of slashes alone. Else the path is slashes,
-- an element without a slash that is not empty, slashes, and the rest that it returns, which does
-- not begin with a slash and is empty if no slash follows the element; and the name is the element
-- or its first 14 characters.
pub skipelem-Elem : (path : List ℕ) → Elem path (skipelem path)
unfolding skipelem
skipelem-Elem path = go (skip_slashes path) (skip_slashes-Skipped path)
  where
    go : (rest : List ℕ) → Skipped path rest → Elem path (from_element rest)
    go [] s = ended (subst Slashes (sym (s.split ∙ append-nil s.before)) s.slashes)
    go (c ∷ l) s = from_element-Elem path c l s
