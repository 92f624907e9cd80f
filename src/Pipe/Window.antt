-- ===== src/Pipe/Window.antt =====
-- What a pipe holds: the bytes between its counters, oldest first.
use mit_lab.Base.{
  ℕ, zero, suc, ◌+◌, ◌-◌, ◌%◌, ◌^◌, ◌≤◌, ◌<◌, ◌≡◌, refl, ap, ◌≢◌, List, [], ◌∷◌, ◌++◌, arith,
  update, length,
}
use mit_lab.Pipe.{Pipe, pipe_size, put}

abbrev pub window : (ℕ → ℕ) → ℕ → ℕ → List ℕ
window buffer r zero = []
window buffer r (suc k) = buffer (r % pipe_size) ∷ window buffer ((r + 1) % 2 ^ 32) k

-- The number of bytes, as the unsigned difference of the counters.
abbrev pub held : Pipe → ℕ
held pi = (pi.nwrite + 2 ^ 32 - pi.nread) % 2 ^ 32

abbrev pub contents : Pipe → List ℕ
contents pi = window pi.buffer pi.nread (held pi)

pub record IsValid (pi : Pipe) : Type 0 where
  pub nread_fits : pi.nread < 2 ^ 32
  pub nwrite_fits : pi.nwrite < 2 ^ 32
  pub within : held pi ≤ pipe_size

pub length-window : (buffer : ℕ → ℕ) (k r : ℕ) → length (window buffer r k) ≡ k
length-window buffer zero r = refl
length-window buffer (suc k) r = ap suc (length-window buffer k ((r + 1) % 2 ^ 32))

window-update :
    (buffer : ℕ → ℕ) (k r w ch : ℕ)
    → k < pipe_size
    → r < 2 ^ 32
    → w ≡ (r + k) % 2 ^ 32
    → window (update buffer (w % pipe_size) ch) r (suc k) ≡ window buffer r k ++ (ch ∷ [])
window-update buffer zero r w ch h hr e = ground arith
window-update buffer (suc k) r w ch h hr e = ground (
  arith,
  window-update buffer k ((r + 1) % 2 ^ 32) w ch (omega arith) (omega arith) (omega arith),
)

pub put-IsValid : (pi : Pipe) (ch : ℕ) → IsValid pi → held pi ≢ pipe_size → IsValid (put pi ch)
unfolding put
put-IsValid pi ch v free = record {
  nread_fits = v.nread_fits;
  nwrite_fits = omega arith;
  within = omega (arith, v.within, v.nread_fits, v.nwrite_fits);
}

pub contents-put :
    (pi : Pipe) (ch : ℕ)
    → IsValid pi
    → held pi ≢ pipe_size
    → contents (put pi ch) ≡ contents pi ++ (ch ∷ [])
unfolding put
contents-put pi ch v free =
    let e : held (put pi ch) ≡ suc (held pi) =
      omega (arith, v.within, v.nread_fits, v.nwrite_fits) in
    rw e (
      window-update pi.buffer (held pi) pi.nread pi.nwrite ch (omega (arith, v.within)) v.nread_fits
        (omega (arith, v.nread_fits, v.nwrite_fits)))

pub held-put :
    (pi : Pipe) (ch : ℕ) → IsValid pi → held pi ≢ pipe_size → held (put pi ch) ≡ held pi + 1
unfolding put
held-put pi ch v free = omega (arith, v.within, v.nread_fits, v.nwrite_fits)
