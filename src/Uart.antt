-- ===== src/Uart.antt =====
-- kernel/uart.c: the ring of characters to send, and the interrupt handler. The lock of the ring is
-- held from `acquire` to the next `sleep` or `release`, so one such run is one step. The device is a
-- parameter: `idle k` is what LSR_TX_IDLE is at the k-th look of a run, and `arrived` the bytes that
-- `uartgetc` returns until it returns -1. `panicked` is not set.
pub mod Ring
pub mod Fifo
mod Tests
use mit_lab.Base.{
  ℕ, zero, suc, ◌+◌, ◌%◌, ◌^◌, Bool, true, false, List, [], ◌∷◌, ◌++◌, ◌==◌, if◌then◌else◌, update,
}
use mit_lab.Console.{Cons, Handled, consoleintr}

abbrev pub uart_tx_buf_size : ℕ
uart_tx_buf_size = 32

-- `uart_tx_buf`, `uart_tx_w` and `uart_tx_r`; the two indices are 64 bits wide and wrap.
pub record Uart : Type 0 where
  pub buf : ℕ → ℕ
  pub w : ℕ
  pub r : ℕ

-- The ring after a run, the characters written to THR, and whether the run wakes the writers.
pub record Started : Type 0 where
  pub uart : Uart
  pub sent : List ℕ
  pub wakes : Bool

-- The loop of `uartstart`, from look `k` on.
pub start_loop : (idle : ℕ → Bool) (fuel k : ℕ) → Uart → Started
start_loop idle zero k u = record { uart = u; sent = []; wakes = false }
start_loop idle (suc fuel) k u =
    let ch = u.buf (u.r % uart_tx_buf_size) in
    let rest = start_loop idle fuel (k + 1) (record u { r = (u.r + 1) % 2 ^ 64 }) in
    if u.w == u.r
    then record { uart = u; sent = []; wakes = false }
    else if idle k
    then record { uart = rest.uart; sent = ch ∷ rest.sent; wakes = true }
    else record { uart = u; sent = []; wakes = false }

-- Each round takes a character, and the ring holds 32 at most.
unfoldable pub uartstart : (idle : ℕ → Bool) → Uart → Started
unfolding start_loop
uartstart idle u = start_loop idle (uart_tx_buf_size + 1) 0 u

-- A run of `uartputc`: it sleeps on a full ring, or stores the character and starts the device.
pub data Putting : Type 0 where
  asleep : Putting
  returned : Started → Putting

abbrev pub is_full : Uart → Bool
is_full u = u.w == (u.r + uart_tx_buf_size) % 2 ^ 64

-- An element of the buffer is 8 bits wide.
abbrev pub put : ℕ → Uart → Uart
put ch u = record u {
  buf = update u.buf (u.w % uart_tx_buf_size) (ch % 2 ^ 8);
  w = (u.w + 1) % 2 ^ 64;
}

unfoldable pub uartputc : (idle : ℕ → Bool) → ℕ → Uart → Putting
unfolding uartstart
uartputc idle ch u = if is_full u then asleep else returned (uartstart idle (put ch u))

-- The loop of `uartintr` over the bytes that have arrived: the console and the bytes echoed.
pub input_loop : (arrived : List ℕ) → Cons → Cons × List ℕ
input_loop [] c = (c, [])
input_loop (ch ∷ arrived) c =
    let h = consoleintr ch c in let rest = input_loop arrived h.cons in (rest.0, h.echoed ++ rest.1)

-- The console, the bytes echoed, and the run of `uartstart`.
unfoldable pub uartintr :
    (idle : ℕ → Bool) (arrived : List ℕ) → Cons → Uart → (Cons × List ℕ) × Started
unfolding input_loop
uartintr idle arrived c u = (input_loop arrived c, uartstart idle u)
