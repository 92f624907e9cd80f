-- ===== src/Uart/Tests.antt =====
-- Runs of the serial line.
use mit_lab.Base.{ℕ, ◌+◌, ◌≤◌, ◌≡◌, refl, Bool, false, List, [], ◌∷◌, ◌++◌, arith, length, ltb}
use mit_lab.Console.Window.{IsValid as IsConsole}
use mit_lab.Uart.{Uart, Started, Putting, asleep, uart_tx_buf_size, uartstart, uartputc, uartintr}
use mit_lab.Console.{Cons}
use mit_lab.Uart.Ring.{IsValid, queued}
use mit_lab.Uart.Fifo.{
  write, interrupt, here, next, Reach-queue, fresh_sys, ring_of, accepted_of, sent_of,
}

-- The indices are about to wrap, and three characters are queued.
abbrev wrapping : Uart
wrapping = record { buf = λ i. i + 65; w = 1; r = 18446744073709551614 }

wrapping-IsValid : IsValid wrapping
wrapping-IsValid = record { r_fits = omega arith; w_fits = omega arith; within = omega arith }

-- The device takes two characters and is busy then.
abbrev idle_twice : ℕ → Bool
idle_twice k = ltb k 2

uartstart_two : (uartstart idle_twice wrapping).sent ≡ 95 ∷ 96 ∷ []
unfolding uartstart
uartstart_two = refl

uartputc_full : uartputc idle_twice 7 (record { buf = λ i. 0; w = 40; r = 8 }) ≡ asleep
unfolding uartputc
uartputc_full = refl

-- A character is written to a busy device, and an interrupt with a newline sends it.
abbrev written : Putting
written = uartputc (λ k. false) 65 fresh_sys.uart

abbrev after : (Cons × List ℕ) × Started
after = uartintr idle_twice (13 ∷ []) fresh_sys.cons (ring_of fresh_sys.uart written)

Reach-queue_example :
    ([] ++ accepted_of 65 written
      ≡ (([] ++ sent_of written) ++ after.1.sent) ++ queued after.1.uart)
    × (length (queued after.1.uart) ≤ uart_tx_buf_size)
    × IsConsole after.0.0
Reach-queue_example =
    Reach-queue
      (next (next here (write (λ k. false) 65)) (interrupt idle_twice (13 ∷ []) (omega arith, tt)))
