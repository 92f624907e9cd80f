-- ===== src/Console/Enter.antt =====
-- A byte that is stored behind the line, and the end of a line.
use mit_lab.Base.{
  ℕ, suc, ◌+◌, ◌%◌, ◌^◌, ◌<◌, ◌≡◌, refl, ◌≢◌, false, ◌||◌, List, [], ◌∷◌, ◌++◌, arith, update,
  length, All, Bool-cases, inl, inr, ◌==◌,
}
use mit_lab.Console.{Cons, input_buf_size, ctrl_d, newline, consputc, used, store, enter}
use mit_lab.Console.Window.{
  window, between, ready, line, IsBounded, IsValid, length-window, window-last, window-split,
  window-after,
}
use mit_lab.Console.Keys.{typed, type_char}

pub sizes : (c : Cons) → IsBounded c → used c ≡ length (ready c) + length (line c)
sizes c v =
    rw (length-window c.buf (between c.r c.w) c.r, length-window c.buf (between c.w c.e) c.w)
      (omega (arith, v.within, v.e_fits, v.w_fits, v.r_fits))

-- A byte is stored behind the line.
pub store-ready :
    (ch : ℕ) (c : Cons) → IsBounded c → used c < input_buf_size → ready (store ch c) ≡ ready c
store-ready ch c v h =
    let e : c.e % input_buf_size ≡ (c.r + (between c.r c.w + between c.w c.e)) % input_buf_size =
      omega (arith, v.within, v.e_fits, v.w_fits, v.r_fits) in
    rw e (
      window-after c.buf (between c.r c.w) c.r (between c.w c.e) (ch % 2 ^ 8)
        (omega (arith, v.within, v.e_fits, v.w_fits, v.r_fits)) v.r_fits)

pub store-line :
    (ch : ℕ) (c : Cons)
    → IsBounded c
    → used c < input_buf_size
    → ch < 256
    → line (store ch c) ≡ line c ++ (ch ∷ [])
store-line ch c v h hc =
    let k = between c.w c.e in
    let n : between c.w ((c.e + 1) % 2 ^ 32) ≡ suc k =
      omega (arith, v.within, v.e_fits, v.w_fits, v.r_fits) in
    let e : c.e % input_buf_size ≡ (c.w + (k + 0)) % input_buf_size =
      omega (arith, v.within, v.e_fits, v.w_fits, v.r_fits) in
    let buf' = update c.buf (c.e % input_buf_size) (ch % 2 ^ 8) in
    let kept : window buf' c.w k ≡ window c.buf c.w k = rw e (
      window-after c.buf k c.w 0 (ch % 2 ^ 8)
        (omega (arith, v.within, v.e_fits, v.w_fits, v.r_fits)) v.w_fits) in
    let p : (c.w + k) % input_buf_size ≡ c.e % input_buf_size = omega arith in
    let new : buf' ((c.w + k) % input_buf_size) ≡ ch = ground (arith, p) in
    rw (n, window-last buf' k c.w v.w_fits, kept, new) refl

-- The whole line becomes ready.
abbrev pub finish : Cons → Cons
finish c = record c { w = c.e }

pub finish-ready : (c : Cons) → IsBounded c → ready (finish c) ≡ ready c ++ line c
finish-ready c v =
    let n : between c.r c.e ≡ between c.r c.w + between c.w c.e =
      omega (arith, v.within, v.e_fits, v.w_fits, v.r_fits) in
    let p : (c.r + between c.r c.w) % 2 ^ 32 ≡ c.w = omega (arith, v.w_fits, v.r_fits) in
    rw n (rw (window-split c.buf (between c.r c.w) (between c.w c.e) c.r v.r_fits, p) refl)

pub finish-line : (c : Cons) → IsBounded c → line (finish c) ≡ []
finish-line c v = let n : between c.e c.e ≡ 0 = omega (arith, v.e_fits) in rw n refl

pub All-append : (P : ℕ → Type 0) (l : List ℕ) (x : ℕ) → All P l → P x → All P (l ++ (x ∷ []))
All-append P [] x h p = (p, tt)
All-append P (y ∷ l) x h p = (h.0, All-append P l x h.1 p)

pub store-IsBounded :
    (ch : ℕ) (c : Cons) → IsBounded c → used c < input_buf_size → IsBounded (store ch c)
store-IsBounded ch c v h = record {
  r_fits = v.r_fits;
  w_fits = v.w_fits;
  e_fits = omega arith;
  within = omega (arith, v.within, v.e_fits, v.w_fits, v.r_fits);
}

pub store-IsValid :
    (ch : ℕ) (c : Cons)
    → IsValid c
    → used c < input_buf_size
    → ch < 256
    → ch ≢ 10
    → IsValid (store ch c)
store-IsValid ch c v h hc ne = record {
  bounds = store-IsBounded ch c v.bounds h;
  unfinished =
      rw (store-line ch c v.bounds h hc) (All-append (λ x. x ≢ 10) (line c) ch v.unfinished ne);
}

pub finish-IsValid : (c : Cons) → IsBounded c → IsValid (finish c)
finish-IsValid c v = record {
  bounds = record {
    r_fits = v.r_fits;
    w_fits = v.e_fits;
    e_fits = v.e_fits;
    within = omega (arith, v.within, v.e_fits, v.w_fits, v.r_fits);
  };
  unfinished = rw (finish-line c v) tt;
}

-- A character that is stored.
pub enter-Pressed :
    (ch : ℕ) (c : Cons)
    → IsValid c
    → used c < input_buf_size
    → ch < 256
    → IsValid (enter ch c).cons
      × ((typed (enter ch c).cons, (enter ch c).wakes) ≡ type_char ch (typed c))
      × ((enter ch c).echoed ≡ ch ∷ [])
      × ((enter ch c).dumps ≡ false)
unfolding enter
enter-Pressed ch c v h hc =
    let b = store-IsBounded ch c v.bounds h in
    let n : used (store ch c) ≡ length (ready c) + length (line c ++ (ch ∷ [])) =
      rw (← store-line ch c v.bounds h hc, ← store-ready ch c v.bounds h) (sizes (store ch c) b) in
    let l = store-line ch c v.bounds h hc in
    let r = store-ready ch c v.bounds h in
    let shown : consputc ch ≡ ch ∷ [] = ground arith in
    rw n
      (elim (Bool-cases (
        (ch == newline)
        || ((ch == ctrl_d)
            || (length (ready c) + length (line c ++ (ch ∷ [])) == input_buf_size)))) [
              | inl e ↦ rw e (
                finish-IsValid (store ch c) b,
                rw (finish-ready (store ch c) b, finish-line (store ch c) b, l, r) refl,
                shown,
                refl,
              )
              | inr e ↦
                  rw e (store-IsValid ch c v h hc (ground (arith, e)), rw (l, r) refl, shown, refl)
            ])
