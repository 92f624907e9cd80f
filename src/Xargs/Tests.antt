-- ===== src/Xargs/Tests.antt =====
-- The theorems about xargs at concrete inputs.
use mit_lab.Base.{ℕ, ◌≡◌, ◌≢◌, refl, some, none, List, [], ◌∷◌, arith}
use mit_lab.Xargs.{split, xargs}
use mit_lab.Xargs.Words.{IsSplit, empty, next_word, Splits, split-IsSplit}
use mit_lab.Xargs.Lines.{xargs-text}

-- " ab c"
abbrev spaced : List ℕ
spaced = 32 ∷ 97 ∷ 98 ∷ 32 ∷ 99 ∷ []

splits_spaced : split 1 spaced ≡ some ((97 ∷ 98 ∷ []) ∷ (99 ∷ []) ∷ [])
unfolding split
splits_spaced = refl

-- No room for the null pointer.
overflows_spaced : split 30 spaced ≡ none
unfolding split
overflows_spaced = refl

split-IsSplit_example : Splits 1 spaced (split 1 spaced)
split-IsSplit_example =
    split-IsSplit 1 spaced
      (omega arith, (omega arith, (omega arith, (omega arith, (omega arith, tt)))))

one_word : (c : ℕ) → (c ≢ 0) × (c ≢ 32) → IsSplit (c ∷ []) ((c ∷ []) ∷ [])
one_word c v = next_word c [] v tt tt empty

xargs-text_example :
    xargs ((120 ∷ []) ∷ []) [] (97 ∷ 10 ∷ 10 ∷ 98 ∷ [])
    ≡ some (((120 ∷ []) ∷ (97 ∷ []) ∷ []) ∷ ((120 ∷ []) ∷ []) ∷ ((120 ∷ []) ∷ (98 ∷ []) ∷ []) ∷ [])
xargs-text_example =
    xargs-text ((120 ∷ []) ∷ []) ((97 ∷ [], (97 ∷ []) ∷ []) ∷ ([], []) ∷ [])
      (98 ∷ [], (98 ∷ []) ∷ [])
      (
        (((omega arith, tt), omega arith), one_word 97 (omega arith, omega arith), omega arith),
        (((tt, omega arith), empty, omega arith), tt),
      )
      (((omega arith, tt), omega arith), one_word 98 (omega arith, omega arith), omega arith)
