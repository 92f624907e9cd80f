-- ===== src/Proc/Life.antt =====
-- What `exit` does to the children: `reparent` gives each of them to init and wakes it.
use mit_lab.Base.{
  ℕ, zero, suc, ◌+◌, ◌≤◌, ◌<◌, ◌≡◌, refl, ◌∙◌, ◌≢◌, ◌⊎◌, inl, inr, true, false, ◌&&◌, some, arith,
  ltb, leb, ◌==◌, if◌then◌else◌, Bool-cases,
}
use mit_lab.Proc.{nproc, is_parent, Table, set_proc, wakeup, reparent_loop}
use mit_lab.Proc.Scan.{
  in_wait, Woken, Woken-refl, Woken-trans, in_wait-wakeup, adopt, Woken-adopt, parent-adopt,
}

initproc-adopt : (me i : ℕ) (t : Table) → (adopt me i t).initproc ≡ t.initproc
unfolding wakeup
initproc-adopt me i t = ground arith

pub in_wait_down :
    (j : ℕ) (t t' : Table)
    → Woken (t.procs j) (t'.procs j)
    → in_wait t j ≡ false
    → in_wait t' j ≡ false
in_wait_down j t t' w h = let x = w.sleepers in rw w.channel (ground (arith, x))

pub in_wait_at : {i j : ℕ} (t : Table) → i ≡ j → in_wait t i ≡ false → in_wait t j ≡ false
in_wait_at t e h = rw (← e) h

in_wait-adopt :
    (me i : ℕ) (t : Table)
    → t.initproc < nproc
    → me ≢ t.initproc
    → is_parent (t.procs i).parent me ≡ true
    → in_wait (adopt me i t) t.initproc ≡ false
in_wait-adopt me i t lt ne h = rw h (
    in_wait-wakeup me t.initproc (set_proc i (record (t.procs i) { parent = some t.initproc }) t) lt
      ne)

-- What some rounds of `reparent` by `me`, for the processes from `i` on, leave of a table.
pub record Adopted (me r i : ℕ) (t t' : Table) : Type 0 where
  pub woken : (j : ℕ) → Woken (t.procs j) (t'.procs j)
  pub init : t'.initproc ≡ t.initproc
  pub parents :
      (j : ℕ)
      → (t'.procs j).parent ≡ (
          if (leb i j && ltb j (i + r)) && is_parent (t.procs j).parent me
          then some t.initproc
          else (t.procs j).parent)
  pub told :
      (j : ℕ)
      → t.initproc < nproc
      → i ≤ j
      → j < i + r
      → is_parent (t.procs j).parent me ≡ true
      → in_wait t' t.initproc ≡ false

pub reparent_loop-Adopted :
    (me r i : ℕ) (t : Table) → me ≢ t.initproc → Adopted me r i t (reparent_loop me r i t)
unfolding reparent_loop
reparent_loop-Adopted me zero i t ne = record {
  woken = λ j. Woken-refl (t.procs j);
  init = refl;
  parents = λ j. ground arith;
  told = λ j l a b h. absurd (omega arith);
}
reparent_loop-Adopted me (suc r) i t ne =
    let t1 = adopt me i t in
    let same = initproc-adopt me i t in
    let rest = reparent_loop-Adopted me r (i + 1) t1 (rw same ne) in
    let final = reparent_loop me r (i + 1) t1 in
    record {
      woken = λ j. Woken-trans (Woken-adopt me i j t) (rest.woken j);
      init = rest.init ∙ same;
      parents =
          λ j. rest.parents j ∙ rw (parent-adopt me i j t, same) (moved j (Bool-cases (i == j)));
      told = λ j l a b h. elim (Bool-cases (i == j)) [
        | inl e ↦
            let q : i ≡ j = ground arith in
            in_wait_down t.initproc t1 final (rest.woken t.initproc)
              (in_wait-adopt me i t l ne (rw q h))
        | inr e ↦
            let g : is_parent (t1.procs j).parent me ≡ true = rw (parent-adopt me i j t, e) h in
            let x = rest.told j (rw same l) (ground arith) (omega arith) g in
            in_wait_at final same x
      ];
    }
  where
    moved :
        (j : ℕ)
        → ((i == j) ≡ true) ⊎ ((i == j) ≡ false)
        → (if (leb (i + 1) j && ltb j (i + 1 + r))
              && is_parent
                  (if (i == j) && is_parent (t.procs j).parent me
                    then some t.initproc
                    else (t.procs j).parent)
                  me
            then some t.initproc
            else (if (i == j) && is_parent (t.procs j).parent me
                then some t.initproc
                else (t.procs j).parent))
          ≡ (if (leb i j && ltb j (i + suc r)) && is_parent (t.procs j).parent me
              then some t.initproc
              else (t.procs j).parent)
    moved j (inl e) =
        let a : leb (i + 1) j ≡ false = ground arith in
        let b : leb i j ≡ true = ground arith in
        let c : ltb j (i + suc r) ≡ true = ground arith in rw (e, a, b, c)
    moved j (inr e) =
        let a : leb (i + 1) j ≡ leb i j = ground arith in
        let b : ltb j (i + 1 + r) ≡ ltb j (i + suc r) = ground arith in rw (e, a, b)
