-- ===== src/Uart/Fifo.antt =====
-- Writers and interrupts in any order.
use mathlib.Core.List.{append_assoc, append-nil}
use mit_lab.Base.{
  ℕ, ◌%◌, ◌^◌, ◌≤◌, ◌<◌, ◌≡◌, refl, sym, ap as cong, ◌∙◌, Bool, Bool-cases, inl, inr, List, [], ◌∷◌,
  ◌++◌, All, arith, length,
}
use mit_lab.Console.{Cons, consoleintr}
use mit_lab.Console.Edit.{consoleintr-Pressed}
use mit_lab.Console.Window.{IsValid as IsConsole, fresh_cons, fresh-IsValid}
use mit_lab.Uart.{
  Uart, Putting, asleep, returned, uart_tx_buf_size, put, is_full, uartputc, uartstart, input_loop,
  uartintr,
}
use mit_lab.Uart.Ring.{
  held, queued, length-window, IsValid, put-IsValid, queued-put, uartstart-Sent,
}

-- The console, the ring, all characters that `uartputc` took, and all that the device got from the
-- ring, in order.
pub record Sys : Type 0 where
  pub cons : Cons
  pub uart : Uart
  pub accepted : List ℕ
  pub sent : List ℕ

-- The ring after a run of `uartputc`, what was accepted, and what the device got.
abbrev pub ring_of : Uart → Putting → Uart
ring_of u asleep = u
ring_of u (returned s) = s.uart

abbrev pub accepted_of : ℕ → Putting → List ℕ
accepted_of ch asleep = []
accepted_of ch (returned s) = ch % 2 ^ 8 ∷ []

abbrev pub sent_of : Putting → List ℕ
sent_of asleep = []
sent_of (returned s) = s.sent

pub data Step (s : Sys) : Sys → Type 0 where
  write :
      (idle : ℕ → Bool) (ch : ℕ)
      → Step s (record s {
        uart = ring_of s.uart (uartputc idle ch s.uart);
        accepted = s.accepted ++ accepted_of ch (uartputc idle ch s.uart);
        sent = s.sent ++ sent_of (uartputc idle ch s.uart);
      })
  interrupt :
      (idle : ℕ → Bool) (arrived : List ℕ)
      → All (λ ch. ch < 256) arrived
      → Step s (record s {
        cons = (uartintr idle arrived s.cons s.uart).0.0;
        uart = (uartintr idle arrived s.cons s.uart).1.uart;
        sent = s.sent ++ (uartintr idle arrived s.cons s.uart).1.sent;
      })

pub data Reach (s : Sys) : Sys → Type 0 where
  here : Reach s s
  next : {t u : Sys} → Reach s t → Step t u → Reach s u

pub record InOrder (s : Sys) : Type 0 where
  pub cons_valid : IsConsole s.cons
  pub valid : IsValid s.uart
  pub order : s.accepted ≡ s.sent ++ queued s.uart

-- A run of `uartputc`.
pub record Put (ch : ℕ) (u : Uart) (p : Putting) : Type 0 where
  pub valid : IsValid (ring_of u p)
  pub order : queued u ++ accepted_of ch p ≡ sent_of p ++ queued (ring_of u p)

uartputc-Put : (idle : ℕ → Bool) (ch : ℕ) (u : Uart) → IsValid u → Put ch u (uartputc idle ch u)
unfolding uartputc
uartputc-Put idle ch u v = elim (Bool-cases (is_full u)) [
  | inl e ↦ rw e (record { valid = v; order = append-nil (queued u) })
  | inr e ↦
      let started = uartstart-Sent idle (put ch u) (put-IsValid ch u v e) in
      rw e (record { valid = started.valid; order = sym (queued-put ch u v e) ∙ started.order })
]

input_loop-IsValid :
    (arrived : List ℕ) (c : Cons)
    → All (λ ch. ch < 256) arrived
    → IsConsole c
    → IsConsole (input_loop arrived c).0
unfolding input_loop
input_loop-IsValid [] c h v = v
input_loop-IsValid (ch ∷ arrived) c h v =
    input_loop-IsValid arrived (consoleintr ch c).cons h.1 (consoleintr-Pressed ch c v h.0).valid

Step-InOrder : {s t : Sys} → Step s t → InOrder s → InOrder t
unfolding uartintr
Step-InOrder {s} (write idle ch) o =
    let p = uartputc idle ch s.uart in
    let w = uartputc-Put idle ch s.uart o.valid in
    record {
      cons_valid = o.cons_valid;
      valid = w.valid;
      order =
          cong (λ l. l ++ accepted_of ch p) o.order
          ∙ append_assoc s.sent (queued s.uart) (accepted_of ch p)
          ∙ cong (λ l. s.sent ++ l) w.order
          ∙ sym (append_assoc s.sent (sent_of p) (queued (ring_of s.uart p)));
    }
Step-InOrder {s} (interrupt idle arrived h) o =
    let x = uartstart idle s.uart in
    let w = uartstart-Sent idle s.uart o.valid in
    record {
      cons_valid = input_loop-IsValid arrived s.cons h o.cons_valid;
      valid = w.valid;
      order =
          o.order
          ∙ cong (λ l. s.sent ++ l) w.order
          ∙ sym (append_assoc s.sent x.sent (queued x.uart));
    }

Reach-InOrder : {s t : Sys} → Reach s t → InOrder s → InOrder t
Reach-InOrder here o = o
Reach-InOrder (next r step) o = Step-InOrder step (Reach-InOrder r o)

-- The console and the ring are zero when the kernel starts.
abbrev pub fresh_sys : Sys
fresh_sys = record {
  cons = fresh_cons;
  uart = record { buf = λ i. 0; w = 0; r = 0 };
  accepted = [];
  sent = [];
}

fresh-InOrder : InOrder fresh_sys
fresh-InOrder = record {
  cons_valid = fresh-IsValid;
  valid = record { r_fits = omega arith; w_fits = omega arith; within = omega arith };
  order = refl;
}

-- After any sequence of runs of `uartputc` and of interrupts with any bytes, from the start: the
-- characters that the ring gave to the device, followed by those it holds, are the characters that
-- `uartputc` took, in order; the ring holds at most 32; and the console is well formed.
pub Reach-queue :
    {s : Sys}
    → Reach fresh_sys s
    → (s.accepted ≡ s.sent ++ queued s.uart)
      × (length (queued s.uart) ≤ uart_tx_buf_size)
      × IsConsole s.cons
Reach-queue {s} r =
    let o = Reach-InOrder r fresh-InOrder in
    (o.order, rw (length-window s.uart.buf (held s.uart) s.uart.r) o.valid.within, o.cons_valid)
