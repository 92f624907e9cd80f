-- ===== src/Vm/Unmap.antt =====
-- `uvmunmap` and `uvmdealloc` on user pages.
use mit_lab.Base.{
  Run, ok, panic, ◌>>=◌, ltb, leb, ℕ, zero, suc, ◌+◌, ◌-◌, ◌*◌, ◌/◌, ◌%◌, ◌^◌, ◌<◌, ◌≤◌, ◌≡◌, refl,
  sym, subst, ap as cong, ◌∙◌, ◌≢◌, ◌⊎◌, inl, inr, Bool, true, false, not, ◌==◌, Bool-cases, some,
  ◌∷◌, arith, if◌then◌else◌, update,
}
use mit_lab.Kalloc.{pgsize, Kmem, kfree}
use mit_lab.Kalloc.Chain.{kfree_lem}
use mit_lab.Vm.{
  is_valid, pte2pa, pte_flags, px, maxva, walk, set_pte, leaf_slot, unmap_at, unmap_loop, uvmunmap,
  round_up, uvmdealloc,
}
use mit_lab.Vm.Tables.{Owned, leaf, Apart, leaf_table, entry_of, translate}
use mit_lab.Vm.Slots.{px-inj, written-others, written-here, with_pte}
use mit_lab.Vm.Lookup.{walk-leaf_table}
use mit_lab.Vm.Space.{
  IsUser, Space, Space-ext, frame-IsTable, frame-translate, frame-leaf_table, slot-of,
}

-- The translations of all pages but one.
abbrev pub Others : (root t : ℕ) (mem mem' : ℕ → ℕ) → Type 0
Others root t mem mem' =
    (va : ℕ) → va < maxva → va / pgsize ≢ t → translate root va mem' ≡ translate root va mem

module _ (kernel_end root : ℕ) where
  -- No page is lost: one that was free or a table, or that one of the pages from `m` to `n` was mapped
  -- to, is free or a table.
  abbrev pub Regains :
      (m n : ℕ) {k k' : Kmem} → Apart kernel_end root k → Apart kernel_end root k' → Type 0
  Regains m n {k = k} a a' =
      (y : ℕ)
      → Owned kernel_end root a y
        ⊎ (i : ℕ) × (m ≤ i) × (i < n) × (pte2pa (translate root (4096 * i) k.mem) ≡ y)
      → Owned kernel_end root a' y

  Regains-none : (m n : ℕ) {k : Kmem} (a : Apart kernel_end root k) → n ≤ m → Regains m n a a
  Regains-none m n a l y (inl own) = own
  Regains-none m n a l y (inr (i, lo, hi, e)) = absurd (omega (arith, lo, hi))

  Regains-step :
      (t n : ℕ) (k k1 : Kmem) {k2 : Kmem} (a : Apart kernel_end root k)
      (a1 : Apart kernel_end root k1) (a2 : Apart kernel_end root k2)
      → ((i : ℕ)
          → suc t ≤ i
          → i < n
          → translate root (4096 * i) k1.mem ≡ translate root (4096 * i) k.mem)
      → Regains t (suc t) a a1
      → Regains (suc t) n a1 a2
      → Regains t n a a2
  Regains-step t n k k1 a a1 a2 same once later y (inl own) = later y (inl (once y (inl own)))
  Regains-step t n k k1 a a1 a2 same once later y (inr (i, lo, hi, e)) =
      elim (Bool-cases (i == t)) [
        | inl f ↦ later y (inl (once y (inr (i, lo, ground (arith, f), e))))
        | inr f ↦
            let above : suc t ≤ i = ground (arith, f, lo) in
            later y (inr (i, above, hi, cong pte2pa (same i above hi) ∙ e))
      ]

  -- The same user pages, their number written in another way.
  unfoldable pub resize :
      (limit m n : ℕ) (k : Kmem)
      → m ≡ n
      → Space kernel_end root limit (λ i. ltb i m) k
      → Space kernel_end root limit (λ i. ltb i n) k
  unfolding Space-ext
  resize limit m n k e s =
      Space-ext kernel_end root limit (λ i. ltb i m) (λ i. ltb i n) k (λ i. cong (ltb i) (sym e)) s

module _ (kernel_end root limit : ℕ) (nonzero : 0 < kernel_end) (fits : limit ≤ maxva) where
  -- A page of user memory is unmapped and freed.
  abbrev Unmapped :
      (held : ℕ → Bool) (t : ℕ) (k : Kmem) → Space kernel_end root limit held k → Run Kmem → Type 0
  Unmapped held t k s r =
      (k' : Kmem) × (r ≡ ok k')
      × ((s' : Space kernel_end root limit (update held t false) k') × Regains kernel_end root t
            (suc t) s.apart s'.apart)
      × Others root t k.mem k'.mem

  module _ (held : ℕ → Bool) (t : ℕ) (k : Kmem) (s : Space kernel_end root limit held k)
      (h : held t ≡ true) where
    held-other : (i : ℕ) → update held t false i ≡ true → (i ≢ t) × (held i ≡ true)
    held-other i hi = elim (Bool-cases (i == t)) [
      | inl e ↦
          let f : false ≡ true = sym (cong (λ b. if b then false else held i) e) ∙ hi in absurd (cc)
      | inr e ↦ (ground arith, sym (cong (λ b. if b then false else held i) e) ∙ hi)
    ]

    unmap_at-Unmapped :
        (q : ℕ)
        → leaf_table root k.mem (px 2 (4096 * t)) (px 1 (4096 * t)) ≡ some q
        → s.apart.role q ≡ some (leaf (px 2 (4096 * t)) (px 1 (4096 * t)))
        → Unmapped held t k s (unmap_at kernel_end true (q + 8 * px 0 (4096 * t), k))
    unmap_at-Unmapped q at_q role_q =
        let va = 4096 * t in
        let (u, lt) = s.users t h in
        let pte = translate root va k.mem in
        let pa = pte2pa pte in
        let slot = q + 8 * px 0 va in
        let at_slot : k.mem slot ≡ pte = sym (cong (entry_of k.mem (px 0 va)) at_q) in
        let some_slot : (slot == 0) ≡ false =
          ground (arith, nonzero, (s.apart.table.pages q _ role_q).1) in
        let valid : is_valid (k.mem slot) ≡ true = cong is_valid at_slot ∙ u.valid in
        let is_leaf : (pte_flags (k.mem slot) == 1) ≡ false =
          cong (λ w. pte_flags w == 1) at_slot ∙ ground (arith, u.is_leaf) in
        let (k1, freed, is_free, same) =
          kfree_lem kernel_end pa k s.apart.free nonzero u.page u.not_free s.apart.is_free in
        let freed' : kfree kernel_end (pte2pa (k.mem slot)) k ≡ ok k1 =
          cong (λ w. kfree kernel_end (pte2pa w) k) at_slot ∙ freed in
        let a1 : Apart kernel_end root k1 = record {
          role = s.apart.role;
          table =
              frame-IsTable kernel_end root pa s.apart.role k.mem k1.mem s.apart.table u.page.0
                u.no_table same;
          free = pa ∷ s.apart.free;
          is_free = is_free;
          no_role = (u.no_table, s.apart.no_role);
        } in
        let frame : (vb : ℕ) → translate root vb k1.mem ≡ translate root vb k.mem =
          frame-translate kernel_end root pa s.apart.role k.mem k1.mem s.apart.table u.page.0
            u.no_table same in
        let k2 : Kmem = set_pte slot 0 k1 in
        let others : Others root t k.mem k2.mem = λ vb lb ne.
          written-others kernel_end root (px 2 va) (px 1 va) (px 0 va) q 0 a1.role k1.mem a1.table
            role_q (omega arith) vb
            (λ (e, f, g). ne (px-inj vb va lb (omega arith) e f g ∙ omega arith))
          ∙ frame vb in
        let here : translate root va k2.mem ≡ 0 =
          written-here kernel_end root (px 2 va) (px 1 va) (px 0 va) q 0 a1.role k1.mem a1.table
            role_q (omega arith) va refl refl refl
            (frame-leaf_table kernel_end root pa s.apart.role k.mem k1.mem s.apart.table u.page.0
                u.no_table same (px 2 va) (px 1 va) (omega arith) (omega arith)
              ∙ at_q) in
        let kept : (i : ℕ)
            → i ≢ t
            → 4096 * i < limit
            → translate root (4096 * i) k2.mem ≡ translate root (4096 * i) k.mem =
          λ i ne li. others (4096 * i) (omega arith) (omega arith) in
        (
          k2,
          rw (some_slot, valid, is_leaf, freed') refl,
          (
            record {
              apart =
                  with_pte kernel_end root (px 2 va) (px 1 va) (px 0 va) q 0 k1 a1 role_q
                    (omega arith);
              users = λ i hi.
                  let (ne, hi') = held-other i hi in
                  let (ui, li) = s.users i hi' in
                  let apart : pa ≢ pte2pa (translate root (4096 * i) k.mem) =
                    λ e. ne (s.once i t hi' h (sym e)) in
                  (
                    subst (IsUser kernel_end s.apart.role (pa ∷ s.apart.free)) (sym (kept i ne li))
                        (record {
                          valid = ui.valid;
                          is_leaf = ui.is_leaf;
                          page = ui.page;
                          no_table = ui.no_table;
                          not_free = (apart, ui.not_free);
                        }),
                    li,
                  );
              once = λ i j hi hj e.
                  let (ni, hi') = held-other i hi in
                  let (nj, hj') = held-other j hj in
                  s.once i j hi' hj' (
                    sym (cong pte2pa (kept i ni (s.users i hi').1))
                    ∙ e
                    ∙ cong pte2pa (kept j nj (s.users j hj').1));
              unmapped = λ i hi li. elim (Bool-cases (i == t)) [
                | inl e ↦
                    let f : i ≡ t = ground arith in
                    cong (λ v. is_valid (translate root (4096 * v) k2.mem)) f ∙ cong is_valid here
                | inr e ↦
                    let f : i ≢ t = ground arith in
                    cong is_valid (kept i f li)
                    ∙ s.unmapped i (sym (cong (λ b. if b then false else held i) e) ∙ hi) li
              ];
            },
            λ y own. elim own [
              | inl o ↦ elim o [ inl m ↦ inl (inr m) | inr x ↦ inr x ]
              | inr (i, lo, hi, e) ↦
                  let f : i ≡ t = omega (arith, lo, hi) in
                  inl (inl (sym e ∙ cong (λ v. pte2pa (translate root (4096 * v) k.mem)) f))
            ],
          ),
          others,
        )

    unmap_walk-Unmapped :
        Unmapped held t k s (walk root (4096 * t) false k >>= unmap_at kernel_end true)
    unmap_walk-Unmapped =
        let (u, lt) = s.users t h in
        let (q, at_q, role_q) =
          slot-of kernel_end root (4096 * t) s.apart.role k.mem s.apart.table u.valid in
        let e : walk root (4096 * t) false k ≡ ok (q + 8 * px 0 (4096 * t), k) =
          walk-leaf_table root (4096 * t) k (omega arith)
          ∙ cong (λ o. ok (leaf_slot (4096 * t) (o, k))) at_q in
        subst (λ r. Unmapped held t k s (r >>= unmap_at kernel_end true)) (sym e)
          (unmap_at-Unmapped q at_q role_q)

  abbrev clear : (n t : ℕ) → (ℕ → Bool) → ℕ → Bool
  clear zero t held = held
  clear (suc n) t held = clear n (suc t) (update held t false)

  unmap_loop-step :
      (n a last : ℕ) (k k1 : Kmem)
      → ltb a last ≡ true
      → (walk root a false k >>= unmap_at kernel_end true) ≡ ok k1
      → unmap_loop kernel_end root true (suc n) a last k
        ≡ unmap_loop kernel_end root true n ((a + pgsize) % 2 ^ 64) last k1
  unfolding unmap_loop
  unmap_loop-step n a last k k1 go_on e =
      cong
        (λ b. elim b [
          | false ↦ ok k
          | true ↦
              walk root a false k
              >>= unmap_at kernel_end true
              >>= unmap_loop kernel_end root true n ((a + pgsize) % 2 ^ 64) last
        ])
        go_on
      ∙ cong (λ r. r >>= unmap_loop kernel_end root true n ((a + pgsize) % 2 ^ 64) last) e

  -- The pages from `t` on, `n` of them.
  unmap_loop-Space :
      (n t : ℕ) (held : ℕ → Bool) (k : Kmem) (s : Space kernel_end root limit held k)
      → ((i : ℕ) → t ≤ i → i < t + n → held i ≡ true)
      → 4096 * (t + n) ≤ limit
      → (k' : Kmem) × (unmap_loop kernel_end root true n (4096 * t) (4096 * (t + n)) k ≡ ok k')
        × ((s' : Space kernel_end root limit (clear n t held) k') × Regains kernel_end root t
              (t + n)
              s.apart
              s'.apart)
        × ((va : ℕ)
            → va < maxva
            → (va / pgsize < t) ⊎ (t + n ≤ va / pgsize)
            → translate root va k'.mem ≡ translate root va k.mem)
  unfolding unmap_loop
  unmap_loop-Space zero t held k s h l =
      (k, refl, (s, Regains-none kernel_end root t (t + 0) s.apart (omega arith)), λ va lv o. refl)
  unmap_loop-Space (suc n) t held k s h l =
      let (k1, e1, (s1, once), o1) =
        unmap_walk-Unmapped held t k s (h t (omega arith) (omega arith)) in
      let (k2, e2, (s2, later), o2) =
        unmap_loop-Space n (suc t) (update held t false) k1 s1
          (λ i li lt.
            let f : (i == t) ≡ false = ground arith in
            cong (λ b. if b then false else held i) f ∙ h i (omega arith) (omega arith))
          (omega arith) in
      let go_on : ltb (4096 * t) (4096 * (t + suc n)) ≡ true = ground arith in
      let next : (4096 * t + pgsize) % 2 ^ 64 ≡ 4096 * suc t = omega arith in
      let end_same : t + suc n ≡ suc t + n = omega arith in
      (
        k2,
        unmap_loop-step n (4096 * t) (4096 * (t + suc n)) k k1 go_on e1
            ∙ cong (λ v. unmap_loop kernel_end root true n v (4096 * (t + suc n)) k1) next
            ∙ cong (λ v. unmap_loop kernel_end root true n (4096 * suc t) (4096 * v) k1) end_same
            ∙ e2,
        (
          s2,
          subst (λ v. Regains kernel_end root t v s.apart s2.apart) (sym end_same)
              (Regains-step kernel_end root t (suc t + n) k k1 s.apart s1.apart s2.apart
                (λ i lo hi. o1 (4096 * i) (omega (arith, lo, hi)) (omega (arith, lo))) once later),
        ),
        λ va lv o. o2 va lv (omega (arith, o)) ∙ o1 va lv (omega (arith, o)),
      )

  clear-get :
      (n t : ℕ) (held : ℕ → Bool) (i : ℕ)
      → ((i < t) ⊎ (t + n ≤ i) → clear n t held i ≡ held i)
        × (t ≤ i → i < t + n → clear n t held i ≡ false)
  clear-get zero t held i = (λ o. refl, λ l g. absurd (ground arith))
  clear-get (suc n) t held i =
      let (a, b) = clear-get n (suc t) (update held t false) i in
      (
        λ o.
            let f : (i == t) ≡ false = ground (arith, o) in
            a (omega (arith, o)) ∙ cong (λ b. if b then false else held i) f,
        λ l g. elim (Bool-cases (i == t)) [
          | inl e ↦ a (inl (ground arith)) ∙ cong (λ b. if b then false else held i) e
          | inr e ↦ b (ground arith) (omega arith)
        ],
      )

  uvmunmap-Space :
      (m n : ℕ) (k : Kmem) (s : Space kernel_end root limit (λ i. ltb i (m + n)) k)
      → 4096 * (m + n) ≤ limit
      → (k' : Kmem) × (uvmunmap kernel_end root (4096 * m) n true k ≡ ok k')
        × ((s' : Space kernel_end root limit (λ i. ltb i m) k') × Regains kernel_end root m
              (m + n)
              s.apart
              s'.apart)
        × ((va : ℕ)
            → va < maxva
            → (va / pgsize < m) ⊎ (m + n ≤ va / pgsize)
            → translate root va k'.mem ≡ translate root va k.mem)
  unfolding uvmunmap Space-ext
  uvmunmap-Space m n k s l =
      let (k1, e, (s1, regains), o) =
        unmap_loop-Space n m (λ i. ltb i (m + n)) k s (λ i li lt. ground arith) l in
      let aligned : not (4096 * m % pgsize == 0) ≡ false = ground arith in
      let last : (4096 * m + n * pgsize) % 2 ^ 64 ≡ 4096 * (m + n) = omega arith in
      (
        k1,
        cong
              (λ b.
                if b
                then panic
                else unmap_loop kernel_end root true n (4096 * m) ((4096 * m + n * pgsize) % 2 ^ 64)
                    k)
              aligned
            ∙ cong (λ v. unmap_loop kernel_end root true n (4096 * m) v k) last
            ∙ e,
        (
          Space-ext kernel_end root limit (clear n m (λ i. ltb i (m + n))) (λ i. ltb i m) k1
              (below m n) s1,
          regains,
        ),
        o,
      )
    where
      below : (m n i : ℕ) → ltb i m ≡ clear n m (λ i. ltb i (m + n)) i
      below m n i =
          let (a, b) = clear-get n m (λ i. ltb i (m + n)) i in
          elim (Bool-cases (ltb i m)) [
            | inl e ↦ e ∙ sym (a (inl (ground arith)) ∙ ground arith)
            | inr e ↦ elim (Bool-cases (ltb i (m + n))) [
              | inl f ↦ e ∙ sym (b (ground arith) (ground arith))
              | inr f ↦ e ∙ sym (a (inr (ground arith)) ∙ f)
            ]
          ]

  -- On the user pages of a page table `uvmdealloc` does not panic and returns the new size. It
  -- unmaps and frees the pages from there on, leaves the pages below user pages, and changes no other
  -- translation.
  pub uvmdealloc-Space :
      (oldsz newsz : ℕ) (k : Kmem)
      → newsz ≤ oldsz
      → round_up oldsz ≤ limit
      → oldsz ≤ limit
      → (s : Space kernel_end root limit (λ i. ltb i (round_up oldsz / pgsize)) k)
      → (k' : Kmem) × (uvmdealloc kernel_end root oldsz newsz k ≡ ok (newsz, k'))
        × ((s' : Space kernel_end root limit (λ i. ltb i (round_up newsz / pgsize)) k') × Regains
              kernel_end root
              (round_up newsz / pgsize)
              (round_up oldsz / pgsize)
              s.apart
              s'.apart)
        × ((va : ℕ)
            → va < maxva
            → (va < round_up newsz) ⊎ (round_up oldsz ≤ va)
            → translate root va k'.mem ≡ translate root va k.mem)
  unfolding uvmdealloc resize
  uvmdealloc-Space oldsz newsz k le lr lo s = elim (Bool-cases (leb oldsz newsz)) [
    | inl same ↦
        let e : oldsz ≡ newsz = ground arith in
        (
          k,
          cong (λ b. if b then ok (oldsz, k) else shrink) same ∙ cong (λ v. ok (v, k)) e,
          (
            resize kernel_end root limit (round_up oldsz / pgsize) (round_up newsz / pgsize) k
                (omega arith) s,
            Regains-none kernel_end root (round_up newsz / pgsize) (round_up oldsz / pgsize) s.apart
                (omega arith),
          ),
          λ va l o. refl,
        )
    | inr smaller ↦ elim (Bool-cases (ltb (round_up newsz) (round_up oldsz))) [
      | inl e ↦
          let m = round_up newsz / pgsize in
          let n = (round_up oldsz - round_up newsz) / pgsize in
          let old : round_up oldsz / pgsize ≡ m + n = ground arith in
          let new : round_up newsz ≡ 4096 * m = omega arith in
          let (k1, run, (s1, regains), o1) =
            uvmunmap-Space m n k
              (resize kernel_end root limit (round_up oldsz / pgsize) (m + n) k old s)
              (ground arith) in
          (
            k1,
            cong (λ b. if b then ok (oldsz, k) else shrink) smaller
                ∙ cong (λ b. if b then unmapped else ok (newsz, k)) e
                ∙ cong (λ v. uvmunmap kernel_end root v n true k >>= (λ k1. ok (newsz, k1))) new
                ∙ cong (λ r. r >>= (λ k1. ok (newsz, k1))) run,
            (s1, subst (λ v. Regains kernel_end root m v s.apart s1.apart) (sym old) regains),
            λ va l o. o1 va l (ground (arith, o)),
          )
      | inr e ↦
          let f : round_up oldsz / pgsize ≡ round_up newsz / pgsize = ground arith in
          (
            k,
            cong (λ b. if b then ok (oldsz, k) else shrink) smaller
                ∙ cong (λ b. if b then unmapped else ok (newsz, k)) e,
            (
              resize kernel_end root limit (round_up oldsz / pgsize) (round_up newsz / pgsize) k f
                  s,
              Regains-none kernel_end root (round_up newsz / pgsize) (round_up oldsz / pgsize)
                  s.apart (omega arith),
            ),
            λ va l o. refl,
          )
    ]
  ]
    where
      unmapped : Run (ℕ × Kmem)
      unmapped =
          uvmunmap kernel_end root (round_up newsz) ((round_up oldsz - round_up newsz) / pgsize)
            true k
          >>= (λ k1. ok (newsz, k1))

      shrink : Run (ℕ × Kmem)
      shrink = if ltb (round_up newsz) (round_up oldsz) then unmapped else ok (newsz, k)
