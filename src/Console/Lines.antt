-- ===== src/Console/Lines.antt =====
-- The console through any sequence of keys and reads.
use mathlib.Core.List.{append_assoc, append-nil}
use mit_lab.Base.{
  ℕ, ◌+◌, ◌≤◌, ◌<◌, ◌≡◌, refl, sym, ap as cong, ◌∙◌, Bool, ◌&&◌, ◌||◌, not, inl, inr, Bool-cases,
  List, [], ◌∷◌, ◌++◌, length, length-append, arith, ◌==◌, ltb, if◌then◌else◌,
}
use mit_lab.Console.{
  Cons, input_buf_size, ctrl_h, ctrl_p, ctrl_u, delete_key, consoleintr, consoleread,
}
use mit_lab.Console.Window.{ready, line, length-window, between, IsValid, fresh_cons, fresh-IsValid}
use mit_lab.Console.Keys.{Typed, typed, press, meaning, finishes}
use mit_lab.Console.Edit.{consoleintr-Pressed}
use mit_lab.Console.Read.{consoleread-Took}

-- The console with all lines that were finished, and all bytes that were taken out, in order.
pub record Sys : Type 0 where
  pub cons : Cons
  pub finished : List ℕ
  pub taken : List ℕ

-- What a key adds to the finished lines.
abbrev pub new_line : ℕ → Cons → List ℕ
new_line ch c = if finishes ch (typed c) then line c ++ (meaning ch ∷ []) else []

pub data Step (s : Sys) : Sys → Type 0 where
  key :
      (ch : ℕ)
      → ch < 256
      → Step s (record {
        cons = (consoleintr ch s.cons).cons;
        finished = s.finished ++ new_line ch s.cons;
        taken = s.taken;
      })
  read :
      (killed : Bool) (writable : ℕ → Bool) (target dst left : ℕ)
      → left ≤ target
      → Step s (record {
        cons = (consoleread killed writable target dst left s.cons).cons;
        finished = s.finished;
        taken =
            s.taken
            ++ ((consoleread killed writable target dst left s.cons).out
                ++ (consoleread killed writable target dst left s.cons).dropped);
      })

pub data Reach (s : Sys) : Sys → Type 0 where
  here : Reach s s
  next : {t u : Sys} → Reach s t → Step t u → Reach s u

pub record InOrder (s : Sys) : Type 0 where
  pub valid : IsValid s.cons
  pub order : s.finished ≡ s.taken ++ ready s.cons

abbrev pub fresh_sys : Sys
fresh_sys = record { cons = fresh_cons; finished = []; taken = [] }

-- What is ready after a key, as `press` has it.
press-ready :
    (ch : ℕ) (t : Typed)
    → (press ch t).0.ready ≡ t.ready ++ (if (press ch t).1 then t.line ++ (meaning ch ∷ []) else [])
unfolding press
press-ready ch t = elim (Bool-cases (ch == ctrl_p)) [
  | inl p ↦ rw (p, append-nil t.ready) refl
  | inr p ↦ elim (Bool-cases (ch == ctrl_u)) [
    | inl u ↦ rw (p, u, append-nil t.ready) refl
    | inr u ↦ elim (Bool-cases ((ch == ctrl_h) || (ch == delete_key))) [
      | inl h ↦ rw (p, u, h, append-nil t.ready) refl
      | inr h ↦
          elim (Bool-cases (not (ch == 0) && ltb (length t.ready + length t.line) input_buf_size)) [
            | inr f ↦ rw (p, u, h, f, append-nil t.ready) refl
            | inl f ↦
                elim (Bool-cases (
                  (meaning ch == 10)
                  || ((meaning ch == 4)
                      || (length t.ready + length (t.line ++ (meaning ch ∷ []))
                          == input_buf_size)))) [
                            | inl k ↦ rw (p, u, h, f, k) refl
                            | inr k ↦ rw (p, u, h, f, k, append-nil t.ready) refl
                          ]
          ]
    ]
  ]
]

press-finishes : (ch : ℕ) (t : Typed) → (press ch t).1 ≡ finishes ch t
unfolding press
press-finishes ch t = ground (arith, length-append t.line (meaning ch ∷ []))

Step-InOrder : {s t : Sys} → Step s t → InOrder s → InOrder t
Step-InOrder {s} (key ch hc) o =
    let p = consoleintr-Pressed ch s.cons o.valid hc in
    let lines : ready (consoleintr ch s.cons).cons ≡ ready s.cons ++ new_line ch s.cons =
      cong (λ q. q.0.ready) p.does
      ∙ press-ready ch (typed s.cons)
      ∙ cong (λ wakes. ready s.cons ++ (if wakes then line s.cons ++ (meaning ch ∷ []) else []))
          (press-finishes ch (typed s.cons)) in
    record {
      valid = p.valid;
      order = rw (o.order, lines) (append_assoc s.taken (ready s.cons) (new_line ch s.cons));
    }
Step-InOrder {s} (read killed writable target dst left h) o =
    let x = consoleread killed writable target dst left s.cons in
    let t = consoleread-Took killed writable target dst left s.cons h o.valid in
    record {
      valid = t.valid;
      order =
          rw (o.order, ← t.bytes)
            (cong (λ l. s.taken ++ l) (sym (append_assoc x.out x.dropped (ready x.cons)))
              ∙ sym (append_assoc s.taken (x.out ++ x.dropped) (ready x.cons)));
    }

Reach-InOrder : {s t : Sys} → Reach s t → InOrder s → InOrder t
Reach-InOrder here o = o
Reach-InOrder (next r step) o = Step-InOrder step (Reach-InOrder r o)

fresh-InOrder : InOrder fresh_sys
fresh-InOrder = record { valid = fresh-IsValid; order = refl }

-- After any sequence of keys and of runs of `consoleread`, from the empty console: the bytes taken
-- out so far, given to readers or dropped at an end of file or a fault, followed by those that are
-- ready, are the finished lines in the order in which they were typed. A line is finished by a
-- return, a newline, an end of file or the last byte that there is room for. No byte of the line that
-- is being edited is among them, and at most 128 are held.
pub Reach-lines :
    {s : Sys}
    → Reach fresh_sys s
    → (s.finished ≡ s.taken ++ ready s.cons)
      × (length (ready s.cons) + length (line s.cons) ≤ input_buf_size)
Reach-lines {s} r =
    let o = Reach-InOrder r fresh-InOrder in
    (
      o.order,
      rw
          (
            length-window s.cons.buf (between s.cons.r s.cons.w) s.cons.r,
            length-window s.cons.buf (between s.cons.w s.cons.e) s.cons.w,
          )
          o.valid.bounds.within,
    )
