-- ===== src/Path/Tests.antt =====
-- Paths of kernel/fs.c's comment.
use mit_lab.Base.{◌≡◌, refl, none, some, [], ◌∷◌}
use mit_lab.Path.{skipelem}
use mit_lab.Path.Elements.{Elem, skipelem-Elem}

-- "///a//bb"
skipelem_slashes :
    skipelem (47 ∷ 47 ∷ 47 ∷ 97 ∷ 47 ∷ 47 ∷ 98 ∷ 98 ∷ []) ≡ some (97 ∷ [], 98 ∷ 98 ∷ [])
unfolding skipelem
skipelem_slashes = refl

-- "////"
skipelem-none : skipelem (47 ∷ 47 ∷ 47 ∷ 47 ∷ []) ≡ none
unfolding skipelem
skipelem-none = refl

skipelem-Elem_example : Elem (97 ∷ 47 ∷ 98 ∷ []) (skipelem (97 ∷ 47 ∷ 98 ∷ []))
skipelem-Elem_example = skipelem-Elem (97 ∷ 47 ∷ 98 ∷ [])
