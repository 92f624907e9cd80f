-- ===== src/Grep/Tests.antt =====
-- Runs of the matcher, and its theorems at concrete patterns.
use mit_lab.Base.{ℕ, ◌≡◌, refl, ◌↔◌, true, false, List, [], ◌∷◌}
use mit_lab.Grep.{match}
use mit_lab.Grep.Match.{Found, match_iff}

-- `^ab*$`
abbrev pattern_ab : List ℕ
pattern_ab = b'^' ∷ b'a' ∷ b'b' ∷ b'*' ∷ b'$' ∷ []

match_runs :
    (match pattern_ab (b'a' ∷ b'b' ∷ b'b' ∷ []) ≡ true)
    × (match pattern_ab (b'a' ∷ b'b' ∷ b'c' ∷ []) ≡ false)
    × (match (b'.' ∷ b'*' ∷ b'c' ∷ []) (b'a' ∷ b'c' ∷ []) ≡ true)
unfolding match
match_runs = (refl, refl, refl)

match_iff_example :
    (match pattern_ab (b'a' ∷ b'b' ∷ []) ≡ true) ↔ Found pattern_ab (b'a' ∷ b'b' ∷ [])
match_iff_example = match_iff pattern_ab (b'a' ∷ b'b' ∷ [])
