-- ===== src/Console/Window.antt =====
-- What the console's buffer holds: the lines that are ready, and the line that is being edited.
use mit_lab.Base.{
  ℕ, zero, suc, ◌+◌, ◌-◌, ◌%◌, ◌^◌, ◌≤◌, ◌<◌, ◌≡◌, refl, ap, ◌≢◌, List, [], ◌∷◌, ◌++◌, arith,
  update, length, All,
}
use mit_lab.Console.{Cons, input_buf_size}

abbrev pub window : (ℕ → ℕ) → ℕ → ℕ → List ℕ
window buf r zero = []
window buf r (suc k) = buf (r % input_buf_size) ∷ window buf ((r + 1) % 2 ^ 32) k

-- The number of bytes between two indices.
abbrev pub between : ℕ → ℕ → ℕ
between r w = (w + 2 ^ 32 - r) % 2 ^ 32

abbrev pub ready : Cons → List ℕ
ready c = window c.buf c.r (between c.r c.w)

abbrev pub line : Cons → List ℕ
line c = window c.buf c.w (between c.w c.e)

pub record IsBounded (c : Cons) : Type 0 where
  pub r_fits : c.r < 2 ^ 32
  pub w_fits : c.w < 2 ^ 32
  pub e_fits : c.e < 2 ^ 32
  pub within : between c.r c.w + between c.w c.e ≤ input_buf_size

pub record IsValid (c : Cons) : Type 0 where
  pub bounds : IsBounded c
  pub unfinished : All (λ ch. ch ≢ 10) (line c)

pub length-window : (buf : ℕ → ℕ) (k r : ℕ) → length (window buf r k) ≡ k
length-window buf zero r = refl
length-window buf (suc k) r = ap suc (length-window buf k ((r + 1) % 2 ^ 32))

-- The last byte of a window.
pub window-last :
    (buf : ℕ → ℕ) (k r : ℕ)
    → r < 2 ^ 32
    → window buf r (suc k) ≡ window buf r k ++ (buf ((r + k) % input_buf_size) ∷ [])
window-last buf zero r hr = ground arith
window-last buf (suc k) r hr = ground (arith, window-last buf k ((r + 1) % 2 ^ 32) (omega arith))

pub window-split :
    (buf : ℕ → ℕ) (m k r : ℕ)
    → r < 2 ^ 32
    → window buf r (m + k) ≡ window buf r m ++ window buf ((r + m) % 2 ^ 32) k
window-split buf zero k r hr = ground arith
window-split buf (suc m) k r hr =
    let e : suc m + k ≡ suc (m + k) = omega arith in
    let f : (r + suc m) % 2 ^ 32 ≡ ((r + 1) % 2 ^ 32 + m) % 2 ^ 32 = omega arith in
    rw (e, f)
      (ap (λ l. buf (r % input_buf_size) ∷ l)
        (window-split buf m k ((r + 1) % 2 ^ 32) (omega arith)))

-- A byte is stored behind a window.
pub window-after :
    (buf : ℕ → ℕ) (k r j ch : ℕ)
    → k + j < input_buf_size
    → r < 2 ^ 32
    → window (update buf ((r + (k + j)) % input_buf_size) ch) r k ≡ window buf r k
window-after buf zero r j ch h hr = refl
window-after buf (suc k) r j ch h hr =
    ground (arith, window-after buf k ((r + 1) % 2 ^ 32) j ch (omega arith) (omega arith))

-- `cons` is zero when the kernel starts.
abbrev pub fresh_cons : Cons
fresh_cons = record { buf = λ i. 0; r = 0; w = 0; e = 0 }

pub fresh-IsValid : IsValid fresh_cons
fresh-IsValid = record {
  bounds = record {
    r_fits = omega arith;
    w_fits = omega arith;
    e_fits = omega arith;
    within = omega arith;
  };
  unfinished = tt;
}
