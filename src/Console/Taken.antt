-- ===== src/Console/Taken.antt =====
-- What a run of `consoleread` has taken, and how it ends.
use mit_lab.Base.{
  ℕ, suc, ◌+◌, ◌-◌, ◌%◌, ◌^◌, ◌≤◌, ◌<◌, ◌≡◌, refl, ap, ◌≢◌, Bool, true, false, Option, some, none,
  List, [], ◌∷◌, ◌++◌, arith, length,
}
use mit_lab.Base.Int.{pos, negsuc}
use mit_lab.Console.{Cons, returned, asleep, Reading, input_buf_size}
use mit_lab.Console.Window.{between, ready, line, IsValid}

-- No byte before the last one ends a line, and no byte is the end of the file.
abbrev pub OneLine : List ℕ → Type 0
OneLine [] = Unit
OneLine (x ∷ []) = x ≢ 4
OneLine (x ∷ y ∷ l) = (x ≢ 4) × (x ≢ 10) × OneLine (y ∷ l)

abbrev pub last_of : List ℕ → Option ℕ
last_of [] = none
last_of (x ∷ []) = some x
last_of (x ∷ y ∷ l) = last_of (y ∷ l)

-- What `target - n` is at the end.
abbrev pub count : (target left : ℕ) → Reading → ℕ
count target left x = target - (left - length x.out)

-- The ways in which a run ends: the user has all the bytes asked for; it sleeps; it is killed; after
-- a newline; before an end of file, which stays for the next call; after one, with no byte read; at
-- an address that does not take the byte.
pub data Ended (killed : Bool) (writable : ℕ → Bool) (target dst left : ℕ) (x : Reading)
    : Type 0 where
  full :
      length x.out ≡ left
      → x.dropped ≡ []
      → x.turn ≡ returned (pos target)
      → Ended killed writable target dst left x
  waits :
      killed ≡ false
      → ready x.cons ≡ []
      → x.dropped ≡ []
      → x.turn ≡ asleep (left - length x.out)
      → Ended killed writable target dst left x
  dead :
      killed ≡ true
      → ready x.cons ≡ []
      → x.dropped ≡ []
      → x.turn ≡ returned (negsuc 0)
      → Ended killed writable target dst left x
  line_end :
      last_of x.out ≡ some 10
      → x.dropped ≡ []
      → x.turn ≡ returned (pos (count target left x))
      → Ended killed writable target dst left x
  eof_later :
      (more : List ℕ)
      → ready x.cons ≡ 4 ∷ more
      → x.dropped ≡ []
      → 1 ≤ count target left x
      → x.turn ≡ returned (pos (count target left x))
      → Ended killed writable target dst left x
  eof :
      x.out ≡ []
      → left ≡ target
      → x.dropped ≡ 4 ∷ []
      → x.turn ≡ returned (pos 0)
      → Ended killed writable target dst left x
  fault :
      (ch : ℕ)
      → x.dropped ≡ ch ∷ []
      → writable (dst + length x.out) ≡ false
      → x.turn ≡ returned (pos (count target left x))
      → Ended killed writable target dst left x

pub record Took (killed : Bool) (writable : ℕ → Bool) (target dst left : ℕ) (c : Cons) (x : Reading)
    : Type 0 where
  pub valid : IsValid x.cons
  pub bytes : x.out ++ (x.dropped ++ ready x.cons) ≡ ready c
  pub line_kept : line x.cons ≡ line c
  pub one_line : OneLine x.out
  pub reached : (t : ℕ) → t < length x.out → writable (dst + t) ≡ true
  pub room : length x.out ≤ left
  pub ended : Ended killed writable target dst left x

-- The console after one byte is taken.
abbrev pub shift : Cons → Cons
shift c = record c { r = (c.r + 1) % 2 ^ 32 }

pub shift-ready :
    (c : Cons) → IsValid c → c.r ≢ c.w → ready c ≡ c.buf (c.r % input_buf_size) ∷ ready (shift c)
shift-ready c v h =
    let n : between c.r c.w ≡ suc (between ((c.r + 1) % 2 ^ 32) c.w) =
      omega (arith, v.bounds.r_fits, v.bounds.w_fits) in
    rw n refl

pub shift-IsValid : (c : Cons) → IsValid c → c.r ≢ c.w → IsValid (shift c)
shift-IsValid c v h = record {
  bounds = record {
    r_fits = omega arith;
    w_fits = v.bounds.w_fits;
    e_fits = v.bounds.e_fits;
    within = omega (arith, v.bounds.within, v.bounds.r_fits, v.bounds.w_fits, v.bounds.e_fits);
  };
  unfinished = v.unfinished;
}

pub no-ready : (c : Cons) → IsValid c → c.r ≡ c.w → ready c ≡ []
no-ready c v e =
    let n : between c.r c.w ≡ 0 = omega (arith, v.bounds.r_fits, v.bounds.w_fits) in rw n refl

pub OneLine-cons : (x : ℕ) (l : List ℕ) → x ≢ 4 → x ≢ 10 → OneLine l → OneLine (x ∷ l)
OneLine-cons x [] h k o = h
OneLine-cons x (y ∷ l) h k o = (h, k, o)

pub last-cons : (x y : ℕ) (l : List ℕ) → last_of l ≡ some y → last_of (x ∷ l) ≡ some y
last-cons x y [] h = cc
last-cons x y (z ∷ l) h = h

-- One more byte at the beginning.
pub Ended-cons :
    (killed : Bool) (writable : ℕ → Bool) (target dst left ch : ℕ) (x : Reading)
    → suc left ≤ target
    → Ended killed writable target (dst + 1) left x
    → Ended killed writable target dst (suc left) (record x { out = ch ∷ x.out })
Ended-cons killed writable target dst left ch x h ended =
    let n : suc left - suc (length x.out) ≡ left - length x.out = omega arith in
    elim ended [
      | full a b d ↦ full (ap suc a) b d
      | waits a b d e ↦ waits a b d (rw n e)
      | dead a b d e ↦ dead a b d e
      | line_end a b d ↦ line_end (last-cons ch 10 x.out a) b (rw n d)
      | eof_later m a b d e ↦ eof_later m a b (rw n d) (rw n e)
      | eof a b d e ↦ absurd (omega arith)
      | fault b a d e ↦
          let p : dst + suc (length x.out) ≡ dst + 1 + length x.out = omega arith in
          fault b a (rw p d) (rw n e)
    ]
