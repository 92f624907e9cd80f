-- ===== src/Grep.antt =====
-- The pattern matcher of user/grep.c. A NUL-terminated string is the list of its bytes, so that
-- `re[0] == '\0'` is the empty list; a pattern of one byte has a NUL as `re[1]`.
pub mod Lang
pub mod Match
mod Tests
use mit_lab.Base.{ℕ, Bool, true, false, ◌&&◌, ◌||◌, List, [], ◌∷◌, ◌==◌, if◌then◌else◌}

is_end : List ℕ → Bool
is_end [] = true
is_end (x ∷ text) = false

-- `matchstar(c, re, text)`, with `matchhere` at the pattern `re` as its first argument.
matchstar : (List ℕ → Bool) → ℕ → List ℕ → Bool
matchstar here c [] = here []
matchstar here c (x ∷ text) = here (x ∷ text) || ((x == c || c == b'.') && matchstar here c text)

-- The last test of `matchhere`: one byte of the pattern `c`, and then the rest of both.
match_one : (List ℕ → Bool) → ℕ → List ℕ → Bool
match_one here c [] = false
match_one here c (x ∷ text) = (c == b'.' || c == x) && here text

pub matchhere : List ℕ → List ℕ → Bool
unfolding matchstar match_one is_end
matchhere [] text = true
matchhere (c ∷ []) text = if c == b'$' then is_end text else match_one (λ rest. true) c text
matchhere (c ∷ d ∷ re) text =
    if d == b'*' then matchstar (matchhere re) c text else match_one (matchhere (d ∷ re)) c text

-- The `do` loop of `match`: at each place of the text, the empty end included.
match_from : (List ℕ → Bool) → List ℕ → Bool
match_from here [] = here []
match_from here (x ∷ text) = here (x ∷ text) || match_from here text

pub match : List ℕ → List ℕ → Bool
unfolding match_from matchhere
match [] text = match_from (matchhere []) text
match (c ∷ re) text = if c == b'^' then matchhere re text else match_from (matchhere (c ∷ re)) text
