-- ===== src/Console/Read.antt =====
-- A run of `consoleread`.
use mit_lab.Base.{
  ℕ, zero, suc, ◌+◌, ◌-◌, ◌%◌, ◌^◌, ◌≤◌, ◌≡◌, refl, ◌≢◌, Bool, arith, Bool-cases, ==_iff, inl, inr,
  ◌==◌, ltb,
}
use mit_lab.Console.{Cons, input_buf_size, ctrl_d, newline, read_loop, consoleread}
use mit_lab.Console.Window.{ready, IsValid}
use mit_lab.Console.Taken.{
  Took, shift, shift-ready, shift-IsValid, no-ready, OneLine-cons, Ended-cons, full, waits, dead,
  line_end, eof_later, eof, fault,
}

read_loop-Took :
    (killed : Bool) (writable : ℕ → Bool) (target dst left : ℕ) (c : Cons)
    → left ≤ target
    → IsValid c
    → Took killed writable target dst left c (read_loop killed writable target dst left c)
unfolding read_loop
read_loop-Took killed writable target dst zero c h v = record {
  valid = v;
  bytes = refl;
  line_kept = refl;
  one_line = tt;
  reached = λ t lt. absurd (omega arith);
  room = omega arith;
  ended = full refl refl refl;
}
read_loop-Took killed writable target dst (suc left) c h v =
    let ch = c.buf (c.r % input_buf_size) in
    let none_out : suc left - 0 ≡ suc left = omega arith in
    let one_out : suc left - 1 ≡ left = omega arith in
    elim (Bool-cases (c.r == c.w)) [
      | inl e ↦
          let nothing = no-ready c v ((==_iff c.r c.w).0 e) in
          rw e (record {
            valid = v;
            bytes = refl;
            line_kept = refl;
            one_line = tt;
            reached = λ t lt. absurd (omega arith);
            room = omega arith;
            ended = elim (Bool-cases killed) [
              | inl k ↦ dead k nothing refl (rw k refl)
              | inr k ↦ waits k nothing refl (rw (k, none_out) refl)
            ];
          })
      | inr e ↦
          let ne : c.r ≢ c.w = ground (arith, e) in
          let some_ready = shift-ready c v ne in
          let valid' = shift-IsValid c v ne in
          elim (Bool-cases (ch == ctrl_d)) [
            | inl d ↦
                let is_eof : ch ≡ 4 = (==_iff ch 4).0 d in
                elim (Bool-cases (ltb (suc left) target)) [
                  | inl l ↦
                      let back : ((c.r + 1) % 2 ^ 32 + 2 ^ 32 - 1) % 2 ^ 32 ≡ c.r =
                        omega (arith, v.bounds.r_fits) in
                      rw (e, d, l, back)
                        (record {
                          valid = v;
                          bytes = refl;
                          line_kept = refl;
                          one_line = tt;
                          reached = λ t lt. absurd (omega arith);
                          room = omega arith;
                          ended =
                              eof_later (ready (shift c)) (rw (some_ready, is_eof) refl) refl
                                (ground (arith, l)) (rw none_out refl);
                        })
                  | inr l ↦
                      rw (e, d, l)
                        (record {
                          valid = valid';
                          bytes = rw some_ready refl;
                          line_kept = refl;
                          one_line = tt;
                          reached = λ t lt. absurd (omega arith);
                          room = omega arith;
                          ended =
                              let whole : suc left ≡ target = ground (arith, l, h) in
                              let no_bytes : target - suc left ≡ 0 = omega arith in
                              eof refl whole (rw is_eof refl) (rw no_bytes refl);
                        })
                ]
            | inr d ↦ elim (Bool-cases (writable dst)) [
              | inr w ↦
                  rw (e, d, w)
                    (record {
                      valid = valid';
                      bytes = rw some_ready refl;
                      line_kept = refl;
                      one_line = tt;
                      reached = λ t lt. absurd (omega arith);
                      room = omega arith;
                      ended =
                          let here : dst + 0 ≡ dst = omega arith in
                          fault ch refl (rw here w) (rw none_out refl);
                    })
              | inl w ↦ elim (Bool-cases (ch == newline)) [
                | inl n ↦
                    rw (e, d, w, n)
                      (record {
                        valid = valid';
                        bytes = rw some_ready refl;
                        line_kept = refl;
                        one_line = ground (arith, d);
                        reached = λ t lt. let q : dst + t ≡ dst = omega arith in rw q w;
                        room = omega arith;
                        ended = line_end (rw ((==_iff ch 10).0 n) refl) refl (rw one_out refl);
                      })
                | inr n ↦
                    let rest =
                      read_loop-Took killed writable target (dst + 1) left (shift c) (omega arith)
                        valid' in
                    rw (e, d, w, n)
                      (record {
                        valid = rest.valid;
                        bytes = rw (some_ready, ← rest.bytes) refl;
                        line_kept = rest.line_kept;
                        one_line =
                            OneLine-cons ch _ (ground (arith, d)) (ground (arith, n)) rest.one_line;
                        reached = λ t lt. elim (Bool-cases (t == 0)) [
                          | inl z ↦ let q : dst + t ≡ dst = ground arith in rw q w
                          | inr z ↦
                              let q : dst + t ≡ dst + 1 + (t - 1) = ground arith in
                              rw q (rest.reached (t - 1) (ground (arith, lt)))
                        ];
                        room = omega (arith, rest.room);
                        ended = Ended-cons killed writable target dst left ch _ h rest.ended;
                      })
              ]
            ]
          ]
    ]

-- A run of `consoleread` on a well-formed console takes bytes from the front of what is ready, in
-- order: first those that reach the user, at addresses that can be written, then at most one that
-- does not. It leaves the line that is
-- being edited. The user gets at most the bytes asked for, no end of file, and no newline but as the
-- last byte; `Ended` lists the ways in which the run ends, with its result.
pub consoleread-Took :
    (killed : Bool) (writable : ℕ → Bool) (target dst left : ℕ) (c : Cons)
    → left ≤ target
    → IsValid c
    → Took killed writable target dst left c (consoleread killed writable target dst left c)
unfolding consoleread
consoleread-Took = read_loop-Took
