-- ===== src/Grep/Lang.antt =====
-- The meaning of a grep pattern, independent of the matcher: items, what text they stand for, and
-- the two anchors.
use mit_lab.Base.{ℕ, ◌≡◌, ◌⊎◌, Bool, true, false, List, [], ◌∷◌, ◌++◌, ◌==◌, if◌then◌else◌}

-- One byte that `c` accepts, or any number of them.
pub data Item : Type 0 where
  one : ℕ → Item
  many : ℕ → Item

pub record Pattern : Type 0 where
  pub items : List Item
  pub at_end : Bool

-- A byte followed by `*` is repeated, and a last `$` is the anchor at the end.
unfoldable pub parse : List ℕ → Pattern
parse [] = record { items = []; at_end = false }
parse (c ∷ []) =
    if c == b'$'
    then record { items = []; at_end = true }
    else record { items = one c ∷ []; at_end = false }
parse (c ∷ d ∷ re) =
    let rest = parse re in
    let next = parse (d ∷ re) in
    if d == b'*'
    then record rest { items = many c ∷ rest.items }
    else record next { items = one c ∷ next.items }

abbrev pub Accepts : ℕ → ℕ → Type 0
Accepts c x = (c ≡ b'.') ⊎ (c ≡ x)

-- The texts that a list of items stands for.
pub data Lang : List Item → List ℕ → Type 0 where
  nil : Lang [] []
  take_one :
      {c x : ℕ} {is : List Item} {t : List ℕ} → Accepts c x → Lang is t → Lang (one c ∷ is) (x ∷ t)
  stop : {c : ℕ} {is : List Item} {t : List ℕ} → Lang is t → Lang (many c ∷ is) t
  more :
      {c x : ℕ} {is : List Item} {t : List ℕ}
      → Accepts c x
      → Lang (many c ∷ is) t
      → Lang (many c ∷ is) (x ∷ t)

-- A front part of the text, all of it under an end anchor, is in the language.
pub record Here (p : Pattern) (text : List ℕ) : Type 0 where
  pub front : List ℕ
  pub rest : List ℕ
  pub split : front ++ rest ≡ text
  pub fits : Lang p.items front
  pub ends : p.at_end ≡ true → rest ≡ []

-- Such a part stands somewhere in the text.
pub record Somewhere (p : Pattern) (text : List ℕ) : Type 0 where
  pub skipped : List ℕ
  pub tail : List ℕ
  pub split : skipped ++ tail ≡ text
  pub here : Here p tail
