-- ===== src/Path.antt =====
-- The path elements of kernel/fs.c, over lists of characters; the end of a list is the NUL.
pub mod Elements
mod Tests
use mit_lab.Base.{
  ℕ, Bool, true, false, Option, none, some, List, [], ◌∷◌, ltb, ◌==◌, if◌then◌else◌, not, length,
  take,
}

abbrev pub dirsiz : ℕ
dirsiz = 14

-- '/'
abbrev pub slash : ℕ
slash = 47

pub skip_slashes : List ℕ → List ℕ
skip_slashes [] = []
skip_slashes (c ∷ path) = if c == slash then skip_slashes path else c ∷ path

-- The characters up to the next slash or the end, and what follows.
pub element : List ℕ → List ℕ × List ℕ
element [] = ([], [])
element (c ∷ path) =
    let rest = element path in if c == slash then ([], c ∷ path) else (c ∷ rest.0, rest.1)

-- `name` holds DIRSIZ characters, without a NUL if all are used.
abbrev pub copy_name : List ℕ → List ℕ
copy_name s = if not (ltb (length s) dirsiz) then take dirsiz s else s

-- From the path without its leading slashes.
abbrev pub from_element : List ℕ → Option (List ℕ × List ℕ)
from_element [] = none
from_element (c ∷ path) =
    some (copy_name (element (c ∷ path)).0, skip_slashes (element (c ∷ path)).1)

-- The name and the rest of the path, or `none` for the null pointer.
unfoldable pub skipelem : List ℕ → Option (List ℕ × List ℕ)
unfolding skip_slashes element
skipelem path = from_element (skip_slashes path)
