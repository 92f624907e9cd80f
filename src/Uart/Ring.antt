-- ===== src/Uart/Ring.antt =====
-- What the ring holds, and a run of `uartstart`.
use mit_lab.Base.{
  ℕ, zero, suc, ◌+◌, ◌-◌, ◌%◌, ◌^◌, ◌≤◌, ◌<◌, ◌≡◌, refl, ap as cong, ◌≢◌, Bool, true, false, List,
  [], ◌∷◌, ◌++◌, arith, Bool-cases, ==_iff, ◌⊎◌, inl, inr, ◌==◌, if◌then◌else◌, update, length,
}
use mit_lab.Uart.{Uart, Started, uart_tx_buf_size, put, is_full, start_loop, uartstart}

abbrev pub window : (ℕ → ℕ) → ℕ → ℕ → List ℕ
window buf r zero = []
window buf r (suc k) = buf (r % uart_tx_buf_size) ∷ window buf ((r + 1) % 2 ^ 64) k

abbrev pub held : Uart → ℕ
held u = (u.w + 2 ^ 64 - u.r) % 2 ^ 64

abbrev pub queued : Uart → List ℕ
queued u = window u.buf u.r (held u)

pub record IsValid (u : Uart) : Type 0 where
  pub r_fits : u.r < 2 ^ 64
  pub w_fits : u.w < 2 ^ 64
  pub within : held u ≤ uart_tx_buf_size

pub length-window : (buf : ℕ → ℕ) (k r : ℕ) → length (window buf r k) ≡ k
length-window buf zero r = refl
length-window buf (suc k) r = cong suc (length-window buf k ((r + 1) % 2 ^ 64))

window-put :
    (buf : ℕ → ℕ) (k r w ch : ℕ)
    → k < uart_tx_buf_size
    → r < 2 ^ 64
    → w ≡ (r + k) % 2 ^ 64
    → window (update buf (w % uart_tx_buf_size) ch) r (suc k) ≡ window buf r k ++ (ch ∷ [])
window-put buf zero r w ch h hr e = ground arith
window-put buf (suc k) r w ch h hr e =
    ground
      (arith, window-put buf k ((r + 1) % 2 ^ 64) w ch (omega arith) (omega arith) (omega arith))

room : (u : Uart) → IsValid u → is_full u ≡ false → held u < uart_tx_buf_size
room u v h =
    let ne : u.w ≢ (u.r + uart_tx_buf_size) % 2 ^ 64 = ground (arith, h) in
    omega (arith, v.within, v.r_fits, v.w_fits)

pub put-IsValid : (ch : ℕ) (u : Uart) → IsValid u → is_full u ≡ false → IsValid (put ch u)
put-IsValid ch u v h = record {
  r_fits = v.r_fits;
  w_fits = omega arith;
  within = omega (arith, room u v h, v.r_fits, v.w_fits);
}

pub queued-put :
    (ch : ℕ) (u : Uart)
    → IsValid u
    → is_full u ≡ false
    → queued (put ch u) ≡ queued u ++ (ch % 2 ^ 8 ∷ [])
queued-put ch u v h =
    let n : held (put ch u) ≡ suc (held u) = omega (arith, room u v h, v.r_fits, v.w_fits) in
    rw n (
      window-put u.buf (held u) u.r u.w (ch % 2 ^ 8) (room u v h) v.r_fits
        (omega (arith, v.r_fits, v.w_fits)))

-- What a run from look `k` on does.
pub record Sent (idle : ℕ → Bool) (k : ℕ) (u : Uart) (s : Started) : Type 0 where
  pub valid : IsValid s.uart
  pub order : queued u ≡ s.sent ++ queued s.uart
  pub looked : (j : ℕ) → j < length s.sent → idle (k + j) ≡ true
  pub ends : (queued s.uart ≡ []) ⊎ (idle (k + length s.sent) ≡ false)
  pub woken : s.wakes ≡ (if length s.sent == 0 then false else true)

looked-suc :
    (idle : ℕ → Bool) (k m : ℕ)
    → idle k ≡ true
    → ((j : ℕ) → j < m → idle (k + 1 + j) ≡ true)
    → (j : ℕ) → j < suc m
    → idle (k + j) ≡ true
looked-suc idle k m e h zero l = let at_k : k + 0 ≡ k = omega arith in rw at_k e
looked-suc idle k m e h (suc j) l =
    let at_j : k + suc j ≡ k + 1 + j = omega arith in rw at_j (h j (omega arith))

start_loop-Sent :
    (idle : ℕ → Bool) (fuel k : ℕ) (u : Uart)
    → IsValid u
    → held u < fuel
    → Sent idle k u (start_loop idle fuel k u)
unfolding start_loop
start_loop-Sent idle zero k u v h = absurd (omega arith)
start_loop-Sent idle (suc fuel) k u v h = elim (Bool-cases (u.w == u.r)) [
  | inl e ↦
      let n : held u ≡ 0 = ground (arith, (==_iff u.w u.r).0 e, v.r_fits) in
      rw e (record {
        valid = v;
        order = refl;
        looked = λ j l. absurd (omega arith);
        ends = inl (rw n refl);
        woken = refl;
      })
  | inr e ↦ elim (Bool-cases (idle k)) [
    | inr busy ↦
        let at_k : k + 0 ≡ k = omega arith in
        rw (e, busy)
          (record {
            valid = v;
            order = refl;
            looked = λ j l. absurd (omega arith);
            ends = inr (rw at_k busy);
            woken = refl;
          })
    | inl free ↦
        let u1 : Uart = record u { r = (u.r + 1) % 2 ^ 64 } in
        let ne : u.w ≢ u.r = ground (arith, e) in
        let n : held u ≡ suc (held u1) = omega (arith, v.r_fits, v.w_fits) in
        let v1 : IsValid u1 = record {
          r_fits = omega arith;
          w_fits = v.w_fits;
          within = omega (arith, v.within, n);
        } in
        let rest = start_loop-Sent idle fuel (k + 1) u1 v1 (omega (arith, n, h)) in
        let m = length (start_loop idle fuel (k + 1) u1).sent in
        let at : k + suc m ≡ k + 1 + m = omega arith in
        rw (e, free)
          (record {
            valid = rest.valid;
            order = rw (n, rest.order) refl;
            looked = looked-suc idle k m free rest.looked;
            ends = rw at rest.ends;
            woken = ground arith;
          })
  ]
]

-- A run of `uartstart` on a well-formed ring writes characters from its front to the device, in
-- order, each when the device was idle, and wakes the writers if it writes any. It ends only with an
-- empty ring or with a device that is busy.
pub uartstart-Sent : (idle : ℕ → Bool) (u : Uart) → IsValid u → Sent idle 0 u (uartstart idle u)
unfolding uartstart
uartstart-Sent idle u v =
    start_loop-Sent idle (uart_tx_buf_size + 1) 0 u v (omega (arith, v.within))
