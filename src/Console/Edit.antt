-- ===== src/Console/Edit.antt =====
-- What `consoleintr` does on every key.
use mit_lab.Base.{ℕ, ◌<◌, ◌≡◌, refl, ◌&&◌, ◌||◌, not, arith, Bool-cases, inl, inr, ◌==◌, ltb}
use mit_lab.Console.{
  Cons, Handled, input_buf_size, ctrl_h, ctrl_p, ctrl_u, delete_key, unreturn, used, consoleintr,
}
use mit_lab.Console.Window.{between, IsValid, length-window}
use mit_lab.Console.Keys.{typed, press, echo}
use mit_lab.Console.Erase.{
  kill_line-all, erase-line, erase-IsValid, erase-echo, erase-ready, killed-IsValid,
}
use mit_lab.Console.Enter.{sizes, enter-Pressed}

pub record Pressed (ch : ℕ) (c : Cons) (h : Handled) : Type 0 where
  pub valid : IsValid h.cons
  pub does : (typed h.cons, h.wakes) ≡ press ch (typed c)
  pub echoes : h.echoed ≡ echo ch (typed c)
  pub dumps : h.dumps ≡ (ch == ctrl_p)

-- The handler keeps the console well formed: at most 128 bytes are held, and the line that is being
-- edited has no newline. For a byte from the serial line it does to the ready lines and to this line
-- what `press` says: C('U') drops the whole line and a backspace its last byte, and neither reaches
-- into a finished line; a byte is appended if there is room; a newline, a C('D') or a full buffer
-- makes the line ready and, these alone, wake the readers. `echo` gives the bytes echoed, and only
-- C('P') prints the processes.
pub consoleintr-Pressed :
    (ch : ℕ) (c : Cons) → IsValid c → ch < 256 → Pressed ch c (consoleintr ch c)
unfolding consoleintr press
consoleintr-Pressed ch c v hc = elim (Bool-cases (ch == ctrl_p)) [
  | inl p ↦ rw p (record { valid = v; does = rw p refl; echoes = rw p refl; dumps = rw p refl })
  | inr p ↦ elim (Bool-cases (ch == ctrl_u)) [
    | inl u ↦
        let k = kill_line-all input_buf_size c v (omega (arith, v.bounds.within)) in
        let cleared = killed-IsValid c v in
        rw (p, u, k)
          (record {
            valid = cleared.0;
            does = rw (p, u, cleared.1) refl;
            echoes = rw (p, u, length-window c.buf (between c.w c.e) c.w) refl;
            dumps = rw p refl;
          })
    | inr u ↦ elim (Bool-cases ((ch == ctrl_h) || (ch == delete_key))) [
      | inl h ↦
          rw (p, u, h)
            (record {
              valid = erase-IsValid c v;
              does = rw (p, u, h, erase-ready c, erase-line c v) refl;
              echoes = rw (p, u, h) (erase-echo c v);
              dumps = rw p refl;
            })
      | inr h ↦ elim (Bool-cases (not (ch == 0) && ltb (used c) input_buf_size)) [
        | inl f ↦
            let entered =
              enter-Pressed (unreturn ch) c v (ground (arith, f)) (ground (arith, hc)) in
            let f' = rw (sizes c v.bounds) at f in
            rw (p, u, h, f)
              (record {
                valid = entered.0;
                does = rw (p, u, h, f') entered.1;
                echoes = rw (p, u, h, f') entered.2;
                dumps = rw p entered.3;
              })
        | inr f ↦
            let f' = rw (sizes c v.bounds) at f in
            rw (p, u, h, f)
              (record {
                valid = v;
                does = rw (p, u, h, f') refl;
                echoes = rw (p, u, h, f') refl;
                dumps = rw p refl;
              })
      ]
    ]
  ]
]
