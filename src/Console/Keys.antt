-- ===== src/Console/Keys.antt =====
-- What the keys mean, on two lists in place of the buffer.
use mit_lab.Base.{
  ℕ, zero, suc, ◌+◌, Bool, true, false, ◌&&◌, ◌||◌, not, List, [], ◌∷◌, ◌++◌, length, ◌==◌, ltb,
  if◌then◌else◌,
}
use mit_lab.Console.{Cons, input_buf_size, ctrl_h, ctrl_p, ctrl_u, delete_key}
use mit_lab.Console.Window.{ready, line}

-- Two lists in place of the buffer.
pub record Typed : Type 0 where
  pub ready : List ℕ
  pub line : List ℕ

abbrev pub typed : Cons → Typed
typed c = record { ready = ready c; line = line c }

abbrev pub but_last : List ℕ → List ℕ
but_last [] = []
but_last (x ∷ []) = []
but_last (x ∷ y ∷ l) = x ∷ but_last (y ∷ l)

-- The character that a key stands for: the return key ends a line.
abbrev pub meaning : ℕ → ℕ
meaning ch = if ch == 13 then 10 else ch

-- The keys on the two lists; the second part tells whether a line is finished.
abbrev pub type_char : ℕ → Typed → Typed × Bool
type_char ch t =
    let line' = t.line ++ (ch ∷ []) in
    if (ch == 10) || ((ch == 4) || (length t.ready + length line' == input_buf_size))
    then (record { ready = t.ready ++ line'; line = [] }, true)
    else (record { ready = t.ready; line = line' }, false)

unfoldable pub press : ℕ → Typed → Typed × Bool
press ch t =
    if ch == ctrl_p
    then (t, false)
    else if ch == ctrl_u
    then (record t { line = [] }, false)
    else if (ch == ctrl_h) || (ch == delete_key)
    then (record t { line = but_last t.line }, false)
    else if not (ch == 0) && ltb (length t.ready + length t.line) input_buf_size
    then type_char (meaning ch) t
    else (t, false)

-- Whether a key finishes the line: a return, a newline or an end of file, or the last byte that there
-- is room for.
abbrev pub finishes : ℕ → Typed → Bool
finishes ch t =
    not
      ((ch == ctrl_p) || ((ch == ctrl_u) || ((ch == ctrl_h) || ((ch == delete_key) || (ch == 0)))))
    && (ltb (length t.ready + length t.line) input_buf_size
        && ((ch == 13)
            || ((ch == 10)
                || ((ch == 4) || (length t.ready + length t.line + 1 == input_buf_size)))))

-- What is echoed for bytes that are taken back.
abbrev pub wipes : ℕ → List ℕ
wipes zero = []
wipes (suc k) = ctrl_h ∷ 32 ∷ ctrl_h ∷ wipes k

-- What is echoed for a key.
abbrev pub echo : ℕ → Typed → List ℕ
echo ch t =
    if ch == ctrl_p
    then []
    else if ch == ctrl_u
    then wipes (length t.line)
    else if (ch == ctrl_h) || (ch == delete_key)
    then (if length t.line == 0 then [] else wipes 1)
    else if not (ch == 0) && ltb (length t.ready + length t.line) input_buf_size
    then meaning ch ∷ []
    else []
