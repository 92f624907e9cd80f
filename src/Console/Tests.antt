-- ===== src/Console/Tests.antt =====
-- Runs of the console.
use mit_lab.Base.{
  if◌then◌else◌, ◌==◌, ◌+◌, ◌≤◌, ◌≡◌, refl, true, false, [], ◌∷◌, ◌++◌, arith, length,
}
use mit_lab.Console.{Cons, Handled, Reading, returned, consoleintr, consoleread, input_buf_size}
use mit_lab.Console.Window.{IsValid, ready, line}
use mit_lab.Console.Edit.{Pressed, consoleintr-Pressed}
use mit_lab.Console.Taken.{Took}
use mit_lab.Console.Read.{consoleread-Took}
use mit_lab.Console.Lines.{fresh_sys, new_line, key, read, here, next, Reach-lines}
use mit_lab.Base.Int.{pos}

-- The indices are about to wrap: "ab" and a newline are ready, and "c" is being edited.
abbrev wrapping : Cons
wrapping = record {
  buf = λ i. if i == 126 then 97 else if i == 127 then 98 else if i == 0 then 10 else 99;
  r = 4294967294;
  w = 1;
  e = 2;
}

wrapping-IsValid : IsValid wrapping
wrapping-IsValid = record {
  bounds = record {
    r_fits = omega arith;
    w_fits = omega arith;
    e_fits = omega arith;
    within = omega arith;
  };
  unfinished = (omega arith, tt);
}

consoleread_line : (consoleread false (λ a. true) 100 0 100 wrapping).out ≡ 97 ∷ 98 ∷ 10 ∷ []
unfolding consoleread
consoleread_line = refl

consoleread_short : (consoleread false (λ a. true) 2 0 2 wrapping).turn ≡ returned (pos 2)
unfolding consoleread
consoleread_short = refl

consoleintr_kill : (consoleintr 21 wrapping).cons.e ≡ 1
unfolding consoleintr
consoleintr_kill = refl

consoleintr_newline : (consoleintr 13 wrapping).cons.w ≡ 3
unfolding consoleintr
consoleintr_newline = refl

consoleintr-Pressed_example : Pressed 21 wrapping (consoleintr 21 wrapping)
consoleintr-Pressed_example = consoleintr-Pressed 21 wrapping wrapping-IsValid (omega arith)

consoleread-Took_example :
    Took false (λ a. true) 2 500 2 wrapping (consoleread false (λ a. true) 2 500 2 wrapping)
consoleread-Took_example =
    consoleread-Took false (λ a. true) 2 500 2 wrapping (omega arith) wrapping-IsValid

abbrev typed_d : Handled
typed_d = consoleintr 4 fresh_sys.cons

abbrev read_d : Reading
read_d = consoleread false (λ a. true) 9 0 9 typed_d.cons

Reach-lines_example :
    ([] ++ new_line 4 fresh_sys.cons ≡ ([] ++ (read_d.out ++ read_d.dropped)) ++ ready read_d.cons)
    × (length (ready read_d.cons) + length (line read_d.cons) ≤ input_buf_size)
Reach-lines_example =
    Reach-lines
      (next (next here (key 4 (omega arith))) (read false (λ a. true) 9 0 9 (omega arith)))
