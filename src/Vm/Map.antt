-- ===== src/Vm/Map.antt =====
-- `mappages`: what the pages of a range translate to.
use mit_lab.Base.{
  Run, ok, ◌>>=◌, ℕ, zero, suc, ◌+◌, ◌-◌, ◌*◌, ◌/◌, ◌%◌, ◌^◌, ◌<◌, ◌≤◌, ◌≡◌, refl, sym, subst,
  ap as cong, ◌∙◌, ◌≢◌, ◌⊎◌, inl, inr, Bool, true, false, not, ◌||◌, ◌==◌, Bool-cases, some, [],
  arith, if◌then◌else◌,
}
use mit_lab.Kalloc.{pgsize, Kmem}
use mit_lab.Vm.{is_valid, px, maxva, entry, set_pte, map_round, map_loop, mappages}
use mit_lab.Vm.Tables.{leaf, Apart, leaf_table, entry_of, translate, Spares}
use mit_lab.Vm.Slots.{px-inj, written-others, written-here, with_pte}
use mit_lab.Vm.Walk.{no_page, found, Walked, walk-Walked}

module _ (kernel_end root perm : ℕ) where
  -- The `m` pages from `a` on translate to those from `pa` on, and all others to what they did.
  pub record Maps (m a pa : ℕ) (mem mem' : ℕ → ℕ) : Type 0 where
    pub on_range : (t : ℕ) → t < m → translate root (a + 4096 * t) mem' ≡ entry (pa + 4096 * t) perm
    pub others :
        (va : ℕ)
        → va < maxva
        → (va < a) ⊎ (a + 4096 * m ≤ va)
        → translate root va mem' ≡ translate root va mem

  -- How `mappages` ends: the range is mapped, or a first part of it and there is no free page.
  pub data Mapped (n a pa : ℕ) (k : Kmem) (ap : Apart kernel_end root k)
      : Run (Bool × Kmem) → Type 0 where
    mapped :
        {k' : Kmem} (a' : Apart kernel_end root k')
        → Spares kernel_end root ap a'
        → Maps n a pa k.mem k'.mem
        → Mapped n a pa k ap (ok (true, k'))
    no_memory :
        {k' : Kmem} {m : ℕ} (a' : Apart kernel_end root k')
        → Spares kernel_end root ap a'
        → m < n
        → Maps m a pa k.mem k'.mem
        → a'.free ≡ []
        → Mapped n a pa k ap (ok (false, k'))

  Maps-none :
      (a pa : ℕ) (mem mem' : ℕ → ℕ)
      → ((va : ℕ) → translate root va mem' ≡ translate root va mem)
      → Maps 0 a pa mem mem'
  Maps-none a pa mem mem' same = record {
    on_range = λ t l. omega arith;
    others = λ va l o. same va;
  }

  Maps-suc :
      (m a pa : ℕ) (mem mem1 mem2 : ℕ → ℕ)
      → a + 4096 * suc m ≤ maxva
      → Maps 1 a pa mem mem1
      → Maps m (a + 4096) (pa + 4096) mem1 mem2
      → Maps (suc m) a pa mem mem2
  Maps-suc m a pa mem mem1 mem2 top_end one rest = record {
    on_range = λ t l. elim (Bool-cases (t == 0)) [
      | inl e ↦
          let f : t ≡ 0 = ground arith in
          let u : a + 4096 * t ≡ a + 4096 * 0 = omega arith in
          let v : pa + 4096 * t ≡ pa + 4096 * 0 = omega arith in
          rw (u, v)
            (rest.others (a + 4096 * 0) (omega arith) (inl (omega arith))
              ∙ one.on_range 0 (omega arith))
      | inr e ↦
          let f : t ≢ 0 = ground arith in
          let u : a + 4096 * t ≡ (a + 4096) + 4096 * (t - 1) = omega arith in
          let v : pa + 4096 * t ≡ (pa + 4096) + 4096 * (t - 1) = omega arith in
          rw (u, v) (rest.on_range (t - 1) (omega arith))
    ];
    others = λ va l o. rest.others va l (omega (arith, o)) ∙ one.others va l (omega (arith, o));
  }

  Mapped-suc :
      (n a pa : ℕ) (k k1 : Kmem) (ap : Apart kernel_end root k) (a1 : Apart kernel_end root k1)
      {r : Run (Bool × Kmem)}
      → Spares kernel_end root ap a1
      → a + 4096 * suc n ≤ maxva
      → Maps 1 a pa k.mem k1.mem
      → Mapped n (a + 4096) (pa + 4096) k1 a1 r
      → Mapped (suc n) a pa k ap r
  Mapped-suc n a pa k k1 ap a1 sp l one (mapped {k' = k2} a' sp' h) =
      mapped a'
        (λ y nt nf. let (no1, nf1) = sp.0 y nt nf in sp'.0 y no1 nf1, λ y own. sp'.1 y (sp.1 y own))
        (Maps-suc n a pa k.mem k1.mem k2.mem l one h)
  Mapped-suc n a pa k k1 ap a1 sp l one (no_memory {k' = k2} {m = m} a' sp' lm h e) =
      no_memory {m = suc m} a'
        (λ y nt nf. let (no1, nf1) = sp.0 y nt nf in sp'.0 y no1 nf1, λ y own. sp'.1 y (sp.1 y own))
        (omega arith) (Maps-suc m a pa k.mem k1.mem k2.mem (omega arith) one h) e

  -- One page.
  slot-Maps :
      (va pa q : ℕ) (k k1 : Kmem) (a : Apart kernel_end root k1)
      → va < maxva
      → va % 4096 ≡ 0
      → ((vb : ℕ) → translate root vb k1.mem ≡ translate root vb k.mem)
      → a.role q ≡ some (leaf (px 2 va) (px 1 va))
      → leaf_table root k1.mem (px 2 va) (px 1 va) ≡ some q
      → Maps 1 va pa k.mem (set_pte (q + 8 * px 0 va) (entry pa perm) k1).mem
  slot-Maps va pa q k k1 a l al same h e =
      let i = px 2 va in
      let j = px 1 va in
      let p = px 0 va in
      record {
        on_range = λ t lt.
            let u : va + 4096 * t ≡ va = omega arith in
            let v : pa + 4096 * t ≡ pa = omega arith in
            rw (u, v)
              (written-here kernel_end root i j p q (entry pa perm) a.role k1.mem a.table h
                (omega arith) va refl refl refl e);
        others = λ vb lb o.
            let apart : vb / pgsize ≢ va / pgsize = λ f. omega (arith, o, f) in
            written-others kernel_end root i j p q (entry pa perm) a.role k1.mem a.table h
              (omega arith) vb (λ (f, g, u). apart (px-inj vb va lb l f g u))
            ∙ same vb;
      }

  Range-tail :
      (n a : ℕ) (k k1 : Kmem)
      → a + 4096 * suc (suc n) ≤ maxva
      → ((vb : ℕ)
          → vb < maxva
          → (vb < a) ⊎ (a + 4096 * 1 ≤ vb)
          → translate root vb k1.mem ≡ translate root vb k.mem)
      → ((t : ℕ) → t < suc (suc n) → is_valid (translate root (a + 4096 * t) k.mem) ≡ false)
      → (t : ℕ) → t < suc n
      → is_valid (translate root ((a + 4096) + 4096 * t) k1.mem) ≡ false
  Range-tail n a k k1 l others free t lt =
      let u : a + 4096 * suc t ≡ (a + 4096) + 4096 * t = omega arith in
      cong is_valid (others ((a + 4096) + 4096 * t) (omega arith) (inr (omega arith)))
      ∙ cong (λ v. is_valid (translate root v k.mem)) (sym u)
      ∙ free (suc t) (omega arith)

  module _ (nonzero : 0 < kernel_end) where
    module _ (a last pa : ℕ) (k : Kmem) (go_on : Kmem → Run (Bool × Kmem)) (n : ℕ) where
      -- A round, given what the rest of the loop does after the page is mapped.
      map_round-Mapped :
          {r : Run (ℕ × Kmem)} (ap : Apart kernel_end root k)
          → a < maxva
          → a % 4096 ≡ 0
          → is_valid (translate root a k.mem) ≡ false
          → Walked kernel_end root a k ap r
          → ((k1 : Kmem)
              → (a1 : Apart kernel_end root k1) → Spares kernel_end root ap a1
              → Maps 1 a pa k.mem k1.mem
              → Mapped
                  (suc n)
                  a
                  pa
                  k
                  ap
                  (let rest = go_on k1 in if a == last then ok (true, k1) else rest))
          → Mapped (suc n) a pa k ap (r >>= map_round a last pa perm go_on)
      map_round-Mapped ap l al v (no_page a' same sp e) rest =
          no_memory {m = 0} a' sp (omega arith) (Maps-none a pa k.mem _ same) e
      map_round-Mapped ap l al v (found {k' = k1} {t = q} a' same sp h e) rest =
          let some_slot : (q + 8 * px 0 a == 0) ≡ false =
            ground (arith, nonzero, (a'.table.pages q _ h).1) in
          let free_slot : is_valid (k1.mem (q + 8 * px 0 a)) ≡ false =
            cong is_valid (sym (cong (entry_of k1.mem (px 0 a)) e) ∙ same a) ∙ v in
          rw (some_slot, free_slot)
            (rest (set_pte (q + 8 * px 0 a) (entry pa perm) k1)
              (with_pte kernel_end root (px 2 a) (px 1 a) (px 0 a) q (entry pa perm) k1 a' h
                (omega arith))
              sp (slot-Maps a pa q k k1 a' l al same h e))

    map_loop-Mapped :
        (n a last pa : ℕ) (k : Kmem)
        → (ap : Apart kernel_end root k) → a % 4096 ≡ 0
        → a + 4096 * suc n ≤ maxva
        → pa + 4096 * suc n ≤ 2 ^ 64
        → last ≡ a + 4096 * n
        → ((t : ℕ) → t < suc n → is_valid (translate root (a + 4096 * t) k.mem) ≡ false)
        → Mapped (suc n) a pa k ap (map_loop root (suc n) a last pa perm k)
    unfolding map_loop
    map_loop-Mapped zero a last pa k ap al l lp at_last free =
        map_round-Mapped a last pa k
          (map_loop root 0 ((a + pgsize) % 2 ^ 64) last ((pa + pgsize) % 2 ^ 64) perm) 0 ap
          (omega arith) al
          (cong (λ v. is_valid (translate root v k.mem)) (omega arith) ∙ free 0 (omega arith))
          (walk-Walked kernel_end root nonzero a k ap (omega arith))
          (λ k1 a1 sp one. let f : (a == last) ≡ true = ground arith in rw f (mapped a1 sp one))
    map_loop-Mapped (suc n) a last pa k ap al l lp at_last free =
        map_round-Mapped a last pa k
          (map_loop root (suc n) ((a + pgsize) % 2 ^ 64) last ((pa + pgsize) % 2 ^ 64) perm) (suc n)
          ap (omega arith) al
          (cong (λ v. is_valid (translate root v k.mem)) (omega arith) ∙ free 0 (omega arith))
          (walk-Walked kernel_end root nonzero a k ap (omega arith))
          (λ k1 a1 sp one.
            let f : (a == last) ≡ false = ground arith in
            let u : (a + pgsize) % 2 ^ 64 ≡ a + 4096 = omega arith in
            let v : (pa + pgsize) % 2 ^ 64 ≡ pa + 4096 = omega arith in
            rw (f, u, v)
              (Mapped-suc (suc n) a pa k k1 ap a1 sp l one (
                map_loop-Mapped n (a + 4096) last (pa + 4096) k1 a1 (omega arith) (omega arith)
                  (omega arith) (omega arith) (Range-tail n a k k1 l one.others free))))

    pages-Mapped :
        (n va pa : ℕ) (k : Kmem)
        → (ap : Apart kernel_end root k) → va % 4096 ≡ 0
        → va + 4096 * suc n ≤ maxva
        → pa + 4096 * suc n ≤ 2 ^ 64
        → ((t : ℕ) → t < suc n → is_valid (translate root (va + 4096 * t) k.mem) ≡ false)
        → Mapped (suc n) va pa k ap (mappages root va (4096 * suc n) pa perm k)
    unfolding mappages
    pages-Mapped n va pa k ap al l lp free =
        let fine : (not (va % pgsize == 0)
              || (not (4096 * suc n % pgsize == 0) || (4096 * suc n == 0)))
            ≡ false =
          ground arith in
        let rounds : 4096 * suc n / pgsize ≡ suc n = omega arith in
        let at_last : (va + 4096 * suc n + 2 ^ 64 - pgsize) % 2 ^ 64 ≡ va + 4096 * n =
          omega arith in
        rw (fine, rounds, at_last) (map_loop-Mapped n va (va + 4096 * n) pa k ap al l lp refl free)

    pub mappages-Mapped :
        (va size pa : ℕ) (k : Kmem)
        → (ap : Apart kernel_end root k) → va % pgsize ≡ 0
        → size % pgsize ≡ 0
        → 0 < size
        → va + size ≤ maxva
        → pa + size ≤ 2 ^ 64
        → ((t : ℕ) → t < size / pgsize → is_valid (translate root (va + 4096 * t) k.mem) ≡ false)
        → Mapped (size / pgsize) va pa k ap (mappages root va size pa perm k)
    mappages-Mapped va size pa k ap al als pos_size l lp free =
        let e : size ≡ 4096 * suc (size / pgsize - 1) = omega arith in
        let f : size / pgsize ≡ suc (size / pgsize - 1) = omega arith in
        subst (λ s. Mapped s va pa k ap (mappages root va size pa perm k)) (sym f)
          (subst (λ s. Mapped (suc (size / pgsize - 1)) va pa k ap (mappages root va s pa perm k))
            (sym e)
            (pages-Mapped (size / pgsize - 1) va pa k ap al (omega arith) (omega arith)
              (λ t lt. free t (omega arith))))
