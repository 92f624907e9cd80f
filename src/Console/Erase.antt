-- ===== src/Console/Erase.antt =====
-- Bytes that are taken back from the line: the loop of C('U') and the backspace.
use mit_lab.Base.{
  ℕ, zero, suc, ◌+◌, ◌-◌, ◌%◌, ◌^◌, ◌≤◌, ◌≡◌, refl, ap, ◌≢◌, false, List, [], ◌∷◌, ◌++◌, arith,
  length, All, Bool-cases, ==_iff, inl, inr, ◌==◌, if◌then◌else◌,
}
use mit_lab.Console.{Cons, input_buf_size, erase, kill_line}
use mit_lab.Console.Window.{between, ready, line, IsValid, length-window, window-last}
use mit_lab.Console.Keys.{but_last, wipes}

pub but_last-append : (l : List ℕ) (x : ℕ) → but_last (l ++ (x ∷ [])) ≡ l
but_last-append [] x = refl
but_last-append (y ∷ []) x = refl
but_last-append (y ∷ z ∷ l) x = ap (λ l'. y ∷ l') (but_last-append (z ∷ l) x)

pub All-init : (P : ℕ → Type 0) (l : List ℕ) (x : ℕ) → All P (l ++ (x ∷ [])) → All P l × P x
All-init P [] x h = (tt, h.0)
All-init P (y ∷ l) x h = let rest = All-init P l x h.1 in ((h.0, rest.0), rest.1)

-- The editing of the line before its newest byte.
pub line-shrinks :
    (c : Cons)
    → IsValid c
    → c.e ≢ c.w
    → line c
      ≡ line (record c { e = (c.e + 2 ^ 32 - 1) % 2 ^ 32 })
        ++ (c.buf ((c.e + 2 ^ 32 - 1) % 2 ^ 32 % input_buf_size) ∷ [])
line-shrinks c v h =
    let k = between c.w ((c.e + 2 ^ 32 - 1) % 2 ^ 32) in
    let n : between c.w c.e ≡ suc k =
      omega (arith, v.bounds.within, v.bounds.e_fits, v.bounds.w_fits) in
    let p : (c.w + k) % input_buf_size ≡ (c.e + 2 ^ 32 - 1) % 2 ^ 32 % input_buf_size =
      omega (arith, v.bounds.within, v.bounds.e_fits, v.bounds.w_fits) in
    rw (n, ← p) (window-last c.buf k c.w v.bounds.w_fits)

pub shrink-IsValid :
    (c : Cons) → IsValid c → c.e ≢ c.w → IsValid (record c { e = (c.e + 2 ^ 32 - 1) % 2 ^ 32 })
shrink-IsValid c v h = record {
  bounds = record {
    r_fits = v.bounds.r_fits;
    w_fits = v.bounds.w_fits;
    e_fits = omega arith;
    within = omega (arith, v.bounds.within, v.bounds.e_fits, v.bounds.w_fits, v.bounds.r_fits);
  };
  unfinished =
      (All-init (λ ch. ch ≢ 10) (line (record c { e = (c.e + 2 ^ 32 - 1) % 2 ^ 32 })) _
        (rw (line-shrinks c v h) at v.unfinished)).0;
}

pub last-unfinished :
    (c : Cons) → IsValid c → c.e ≢ c.w → c.buf ((c.e + 2 ^ 32 - 1) % 2 ^ 32 % input_buf_size) ≢ 10
last-unfinished c v h =
    (All-init (λ ch. ch ≢ 10) (line (record c { e = (c.e + 2 ^ 32 - 1) % 2 ^ 32 })) _
      (rw (line-shrinks c v h) at v.unfinished)).1

-- The loop removes the whole line.
pub kill_line-all :
    (fuel : ℕ) (c : Cons)
    → IsValid c
    → between c.w c.e ≤ fuel
    → kill_line fuel c ≡ (record c { e = c.w }, wipes (between c.w c.e))
unfolding kill_line
kill_line-all zero c v h =
    let e : c.e ≡ c.w = omega (arith, v.bounds.e_fits, v.bounds.w_fits) in ground (arith, e)
kill_line-all (suc fuel) c v h = elim (Bool-cases (c.e == c.w)) [
  | inl same ↦ let e = (==_iff c.e c.w).0 same in ground (arith, same, e)
  | inr differ ↦
      let ne : c.e ≢ c.w = ground (arith, differ) in
      let c1 : Cons = record c { e = (c.e + 2 ^ 32 - 1) % 2 ^ 32 } in
      let n : between c.w c.e ≡ suc (between c.w c1.e) =
        omega (arith, v.bounds.e_fits, v.bounds.w_fits) in
      ground (
        arith,
        n,
        last-unfinished c v ne,
        kill_line-all fuel c1 (shrink-IsValid c v ne)
            (omega (arith, v.bounds.e_fits, v.bounds.w_fits)),
      )
]

-- The last byte of the line is taken back.
pub erase-line : (c : Cons) → IsValid c → line (erase c).0 ≡ but_last (line c)
erase-line c v = elim (Bool-cases (c.e == c.w)) [
  | inl e ↦
      let n : between c.w c.e ≡ 0 = ground (arith, v.bounds, (==_iff c.e c.w).0 e) in rw (e, n) refl
  | inr e ↦
      let ne : c.e ≢ c.w = ground (arith, e) in
      rw e (
        rw
          (
            line-shrinks c v ne,
            but_last-append (line (record c { e = (c.e + 2 ^ 32 - 1) % 2 ^ 32 }))
                (c.buf ((c.e + 2 ^ 32 - 1) % 2 ^ 32 % input_buf_size)),
          )
          refl)
]

pub erase-IsValid : (c : Cons) → IsValid c → IsValid (erase c).0
erase-IsValid c v = elim (Bool-cases (c.e == c.w)) [
  | inl e ↦ rw e v
  | inr e ↦ let ne : c.e ≢ c.w = ground (arith, e) in rw e (shrink-IsValid c v ne)
]

pub erase-echo :
    (c : Cons) → IsValid c → (erase c).1 ≡ (if length (line c) == 0 then [] else wipes 1)
erase-echo c v = rw (length-window c.buf (between c.w c.e) c.w) (elim (Bool-cases (c.e == c.w)) [
  | inl e ↦
      let n : between c.w c.e ≡ 0 = ground (arith, v.bounds, (==_iff c.e c.w).0 e) in rw (e, n) refl
  | inr e ↦
      let n : (between c.w c.e == 0) ≡ false =
        ground (arith, v.bounds.e_fits, v.bounds.w_fits, e) in
      rw (e, n) refl
])

pub erase-ready : (c : Cons) → ready (erase c).0 ≡ ready c
erase-ready c = elim (Bool-cases (c.e == c.w)) [ inl e ↦ rw e refl | inr e ↦ rw e refl ]

pub killed-IsValid :
    (c : Cons) → IsValid c → IsValid (record c { e = c.w }) × (line (record c { e = c.w }) ≡ [])
killed-IsValid c v =
    let n : between c.w c.w ≡ 0 = omega (arith, v.bounds.w_fits) in
    (
      record {
        bounds = record {
          r_fits = v.bounds.r_fits;
          w_fits = v.bounds.w_fits;
          e_fits = v.bounds.w_fits;
          within = omega (arith, v.bounds);
        };
        unfinished = rw n tt;
      },
      rw n refl,
    )
