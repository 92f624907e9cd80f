-- ===== src/Vm/Round.antt =====
-- A round of the loop in `uvmalloc`: one user page more, or no memory.
use mit_lab.Base.{
  Run, ◌>>=◌, ltb, ℕ, suc, ◌+◌, ◌*◌, ◌/◌, ◌%◌, ◌<◌, ◌≤◌, ◌≡◌, refl, sym, subst, ap as cong, ◌∙◌,
  ◌≢◌, ◌⊎◌, inl, inr, Bool, false, ◌==◌, Bool-cases, Option, none, List, [], ◌∷◌, All, length,
  arith,
}
use mit_lab.Kalloc.{pgsize, phystop, Kmem, kfree, kalloc, fill_page}
use mit_lab.Kalloc.Chain.{IsPage, IsFree, kfree_lem, kalloc-cons, kalloc-nil, Chain-frame}
use mit_lab.Vm.{user_perm, is_valid, pte2pa, maxva, entry, alloc_mapped, alloc_round}
use mit_lab.Vm.Tables.{In, Owned, Saves, Role, Apart, translate, Spares}
use mit_lab.Vm.Map.{mapped, no_memory, Mapped, mappages-Mapped}
use mit_lab.Vm.Space.{IsUser, Space, frame-IsTable, frame-translate}
use mit_lab.Vm.Unmap.{Others}

IsUser-keep :
    (kernel_end : ℕ) (role role' : ℕ → Option Role) (free free' : List ℕ) (pte pte' : ℕ)
    → pte' ≡ pte
    → role' (pte2pa pte) ≡ none
    → All (λ z. z ≢ pte2pa pte) free'
    → IsUser kernel_end role free pte
    → IsUser kernel_end role' free' pte'
IsUser-keep kernel_end role role' free free' pte pte' e nt nf u =
    subst (IsUser kernel_end role' free') (sym e)
      (record { valid = u.valid; is_leaf = u.is_leaf; page = u.page; no_table = nt; not_free = nf })

entry-IsUser :
    (kernel_end q perm : ℕ) (role : ℕ → Option Role) (free : List ℕ)
    → IsPage kernel_end q
    → 2 ≤ perm
    → perm < 1024
    → role q ≡ none
    → All (λ z. z ≢ q) free
    → IsUser kernel_end role free (entry q perm) × (pte2pa (entry q perm) ≡ q)
entry-IsUser kernel_end q perm role free page low high nt nf =
    let al : q % 4096 ≡ 0 = page.0 in
    let small : q < phystop = page.2 in
    let e : pte2pa (entry q perm) ≡ q = omega arith in
    (
      record {
        valid = ground arith;
        is_leaf = omega arith;
        page = rw e page;
        no_table = rw e nt;
        not_free = rw e nf;
      },
      e,
    )

-- An entry that the user can read and use, and write or execute as PTE_W and PTE_X in `xperm` say.
abbrev pub Perms : (xperm pte : ℕ) → Type 0
Perms xperm pte =
    (pte / 2 % 2 ≡ 1)
    × (pte / 4 % 2 ≡ xperm / 4 % 2)
    × (pte / 8 % 2 ≡ xperm / 8 % 2)
    × (pte / 16 % 2 ≡ 1)

user_perm-Perms :
    (xperm q : ℕ) → xperm ≤ 12 → q % pgsize ≡ 0 → Perms xperm (entry q (user_perm xperm))
user_perm-Perms xperm q l al = (omega arith, omega arith, omega arith, omega arith)

-- The pages below `n`.
abbrev pub below : ℕ → ℕ → Bool
below n i = ltb i n

module _ (kernel_end root limit : ℕ) (nonzero : 0 < kernel_end) (fits : limit ≤ maxva) where
  -- A state with the same user pages, but for page `t`, whose pages are still neither tables nor
  -- free.
  module _ (t : ℕ) (k k' : Kmem) (s : Space kernel_end root limit (below t) k)
      (a' : Apart kernel_end root k')
      (sp : (i : ℕ)
        → i < t
        → (a'.role (pte2pa (translate root (4096 * i) k.mem)) ≡ none)
          × All (λ z. z ≢ pte2pa (translate root (4096 * i) k.mem)) a'.free)
      (others : Others root t k.mem k'.mem) where
    kept :
        (i : ℕ)
        → i ≢ t
        → 4096 * i < limit
        → translate root (4096 * i) k'.mem ≡ translate root (4096 * i) k.mem
    kept i ne l = others (4096 * i) (omega arith) (omega arith)

    old-IsUser :
        (i : ℕ)
        → i < t
        → IsUser kernel_end a'.role a'.free (translate root (4096 * i) k'.mem) × (4096 * i < limit)
    old-IsUser i l =
        let (u, li) = s.users i (ground arith) in
        let (nt, nf) = sp i l in
        (
          IsUser-keep kernel_end s.apart.role a'.role s.apart.free a'.free
              (translate root (4096 * i) k.mem) (translate root (4096 * i) k'.mem)
              (kept i (omega arith) li) nt nf u,
          li,
        )

    old_pa :
        (i : ℕ)
        → i < t
        → pte2pa (translate root (4096 * i) k'.mem) ≡ pte2pa (translate root (4096 * i) k.mem)
    old_pa i l = cong pte2pa (kept i (omega arith) (s.users i (ground arith)).1)

    -- Page `t` is still not mapped.
    same_space :
        is_valid (translate root (4096 * t) k'.mem) ≡ false
        → Space kernel_end root limit (below t) k'
    same_space free_entry = record {
      apart = a';
      users = λ i h. old-IsUser i (ground arith);
      once = λ i j hi hj e.
          s.once i j hi hj (sym (old_pa i (ground arith)) ∙ e ∙ old_pa j (ground arith));
      unmapped = λ i h l. elim (Bool-cases (i == t)) [
        | inl e ↦
            let f : i ≡ t = ground arith in
            cong (λ v. is_valid (translate root (4096 * v) k'.mem)) f ∙ free_entry
        | inr e ↦ cong is_valid (kept i (ground arith) l) ∙ s.unmapped i h l
      ];
    }

    -- Page `t` is mapped to a page that no other is mapped to.
    more-Space :
        (q : ℕ)
        → IsUser kernel_end a'.role a'.free (translate root (4096 * t) k'.mem)
        → pte2pa (translate root (4096 * t) k'.mem) ≡ q
        → ((i : ℕ) → i < t → pte2pa (translate root (4096 * i) k.mem) ≢ q)
        → 4096 * t < limit
        → Space kernel_end root limit (below (suc t)) k'
    more-Space q u at_q fresh lt = record {
      apart = a';
      users = λ i h. elim (Bool-cases (i == t)) [
        | inl e ↦
            let f : t ≡ i = ground arith in
            subst
              (λ v.
                IsUser kernel_end a'.role a'.free (translate root (4096 * v) k'.mem)
                × (4096 * v < limit))
              f (u, lt)
        | inr e ↦ old-IsUser i (ground arith)
      ];
      once = λ i j hi hj e. elim (Bool-cases (i == t)) [
        | inl ei ↦ elim (Bool-cases (j == t)) [
          | inl ej ↦ ground arith
          | inr ej ↦
              let f : i ≡ t = ground arith in
              let lj : j < t = ground arith in
              absurd (
                fresh j lj (
                  sym (old_pa j lj)
                  ∙ sym e
                  ∙ cong (λ v. pte2pa (translate root (4096 * v) k'.mem)) f
                  ∙ at_q))
        ]
        | inr ei ↦
            let li : i < t = ground arith in
            elim (Bool-cases (j == t)) [
              | inl ej ↦
                  let f : j ≡ t = ground arith in
                  absurd (
                    fresh i li (
                      sym (old_pa i li)
                      ∙ e
                      ∙ cong (λ v. pte2pa (translate root (4096 * v) k'.mem)) f
                      ∙ at_q))
              | inr ej ↦
                  let lj : j < t = ground arith in
                  s.once i j (ground arith) (ground arith) (sym (old_pa i li) ∙ e ∙ old_pa j lj)
            ]
      ];
      unmapped = λ i h l.
          let ne : i ≢ t = ground arith in
          cong is_valid (kept i ne l) ∙ s.unmapped i (ground arith) l;
    }

  -- A round: it gives up with the user pages as they were, at most one free page and no page lost, or
  -- goes on with one user page more that has the permissions.
  unfoldable pub Rounded :
      (t xperm : ℕ) (k : Kmem) (s : Space kernel_end root limit (below t) k)
      (go_on give_up : Kmem → Run (ℕ × Kmem))
      → Run (ℕ × Kmem)
      → Type 0
  Rounded t xperm k s go_on give_up r =
      ((k' : Kmem) × (r ≡ give_up k')
        × ((s' : Space kernel_end root limit (below t) k') × (length s'.apart.free ≤ 1)
            × Saves kernel_end root s.apart s'.apart)
        × Others root t k.mem k'.mem)
      ⊎ ((k' : Kmem) × (r ≡ go_on k')
          × ((s' : Space kernel_end root limit (below (suc t)) k') × ((y : ℕ)
                → Owned kernel_end root s.apart y
                → Owned kernel_end root s'.apart y
                  ⊎ (pte2pa (translate root (4096 * t) k'.mem) ≡ y)))
          × Others root t k.mem k'.mem
          × Perms xperm (translate root (4096 * t) k'.mem))

  module _ (t xperm : ℕ) (k : Kmem) (go_on give_up : Kmem → Run (ℕ × Kmem))
      (s : Space kernel_end root limit (below t) k) (l : 4096 * suc t ≤ limit) (perm : xperm ≤ 12)
      (k1 : Kmem) (q : ℕ) (xs : List ℕ) (page : IsPage kernel_end q) (a1 : Apart kernel_end root k1)
      (table_q : a1.role q ≡ none) (free_q : All (λ z. z ≢ q) a1.free)
      (same : (va : ℕ) → translate root va k1.mem ≡ translate root va k.mem)
      (sp1 : (i : ℕ)
        → i < t
        → (a1.role (pte2pa (translate root (4096 * i) k.mem)) ≡ none)
          × All (λ z. z ≢ pte2pa (translate root (4096 * i) k.mem)) (q ∷ a1.free))
      (saved : (y : ℕ)
        → Owned kernel_end root s.apart y
        → (y ≡ q) ⊎ Owned kernel_end root a1 y) where
    fresh : (i : ℕ) → i < t → pte2pa (translate root (4096 * i) k.mem) ≢ q
    fresh i li e = (sp1 i li).1.0 (sym e)

    -- `mappages` had no page: `kfree` gives the page back.
    freed-Rounded :
        (k2 : Kmem) (a2 : Apart kernel_end root k2)
        → Spares kernel_end root a1 a2
        → a2.free ≡ []
        → Others root t k1.mem k2.mem
        → is_valid (translate root (4096 * t) k2.mem) ≡ false
        → Rounded t xperm k s go_on give_up (kfree kernel_end q k2 >>= give_up)
    unfolding Rounded same_space
    freed-Rounded k2 a2 sp e others free_entry =
        let (table_q2, free_q2) = sp.0 q table_q free_q in
        let (k3, run, is_free, out) =
          kfree_lem kernel_end q k2 a2.free nonzero page free_q2 a2.is_free in
        let frame : (va : ℕ) → translate root va k3.mem ≡ translate root va k2.mem =
          frame-translate kernel_end root q a2.role k2.mem k3.mem a2.table page.0 table_q2 out in
        let a3 : Apart kernel_end root k3 = record {
          role = a2.role;
          table =
              frame-IsTable kernel_end root q a2.role k2.mem k3.mem a2.table page.0 table_q2 out;
          free = q ∷ a2.free;
          is_free = is_free;
          no_role = (table_q2, a2.no_role);
        } in
        let all_others : Others root t k.mem k3.mem =
          λ va lv ne. frame va ∙ others va lv ne ∙ same va in
        inl (
          k3,
          cong (λ r. r >>= give_up) run,
          (
            same_space t k k3 s a3
                (λ i li.
                  let (nt, nf) = sp.0 _ ((sp1 i li).0) ((sp1 i li).1.1) in
                  (nt, ((sp1 i li).1.0, nf)))
                all_others (cong is_valid (frame (4096 * t)) ∙ free_entry),
            ground (arith, cong length e),
            λ y own. elim (saved y own) [
              | inl z ↦ inl (inl z)
              | inr own1 ↦ elim (sp.1 y own1) [ inl m ↦ inl (inr m) | inr r ↦ inr r ]
            ],
          ),
          all_others,
        )

    Mapped-Rounded :
        {r : Run (Bool × Kmem)}
        → Mapped kernel_end root (user_perm xperm) 1 (4096 * t) q k1 a1 r
        → Rounded t xperm k s go_on give_up (r >>= alloc_mapped kernel_end q go_on give_up)
    unfolding Rounded more-Space
    Mapped-Rounded (mapped {k' = k2} a2 sp maps) =
        let others : Others root t k.mem k2.mem =
          λ va lv ne. maps.others va lv (ground arith) ∙ same va in
        let (table_q2, free_q2) = sp.0 q table_q free_q in
        let (u, at_q) =
          entry-IsUser kernel_end q (user_perm xperm) a2.role a2.free page (omega arith)
            (omega arith) table_q2 free_q2 in
        let here : translate root (4096 * t) k2.mem ≡ entry q (user_perm xperm) =
          cong (λ v. translate root v k2.mem) (omega arith)
          ∙ maps.on_range 0 (omega arith)
          ∙ cong (λ v. entry v (user_perm xperm)) (omega arith) in
        inr (
          k2,
          refl,
          (
            more-Space t k k2 s a2 (λ i li. sp.0 _ ((sp1 i li).0) ((sp1 i li).1.1)) others q
                (subst (IsUser kernel_end a2.role a2.free) (sym here) u) (cong pte2pa here ∙ at_q)
                fresh (omega arith),
            λ y own. elim (saved y own) [
              | inl z ↦ inr (cong pte2pa here ∙ at_q ∙ sym z)
              | inr own1 ↦ inl (sp.1 y own1)
            ],
          ),
          others,
          subst (Perms xperm) (sym here) (user_perm-Perms xperm q perm page.0),
        )
    Mapped-Rounded (no_memory {k' = k2} {m = m} a2 sp lm maps e) =
        let every : (va : ℕ) → va < maxva → translate root va k2.mem ≡ translate root va k1.mem =
          λ va lv. maps.others va lv (ground arith) in
        freed-Rounded k2 a2 sp e (λ va lv ne. every va lv)
          (cong is_valid (every (4096 * t) (omega arith) ∙ same (4096 * t))
            ∙ s.unmapped t (ground arith) (omega arith))

  module _ (t xperm : ℕ) (k : Kmem) (go_on give_up : Kmem → Run (ℕ × Kmem))
      (s : Space kernel_end root limit (below t) k) (l : 4096 * suc t ≤ limit)
      (perm : xperm ≤ 12) where
    taken-Rounded :
        (k1 : Kmem) (q : ℕ) (xs : List ℕ)
        → s.apart.free ≡ q ∷ xs
        → IsFree kernel_end k (q ∷ xs)
        → All (λ y. s.apart.role y ≡ none) (q ∷ xs)
        → IsFree kernel_end k1 xs
        → ((a : ℕ) → (a < q) ⊎ (q + pgsize ≤ a) → k1.mem a ≡ k.mem a)
        → Rounded t xperm k s go_on give_up
            (alloc_round kernel_end root (4096 * t) xperm go_on give_up (q, k1))
    taken-Rounded k1 q xs at f nr rest out =
        let page : IsPage kernel_end q = f.pages.0 in
        let mem' : ℕ → ℕ = fill_page q 0 k1.mem in
        let k2 : Kmem = record { freelist = k1.freelist; mem = mem' } in
        let out' : (a : ℕ) → (a < q) ⊎ (q + pgsize ≤ a) → mem' a ≡ k.mem a =
          λ a o. ground (arith, o, out a o) in
        let some_page : (q == 0) ≡ false = ground (arith, f.chain.1) in
        let a2 : Apart kernel_end root k2 = record {
          role = s.apart.role;
          table =
              frame-IsTable kernel_end root q s.apart.role k.mem mem' s.apart.table page.0 nr.0
                out';
          free = xs;
          is_free = record {
            chain =
                Chain-frame kernel_end q k1.freelist xs k1.mem mem' page.0
                  (λ b o. ground (arith, o)) rest.pages f.distinct.0 rest.chain;
            pages = rest.pages;
            distinct = rest.distinct;
          };
          no_role = nr.1;
        } in
        let frame : (va : ℕ) → translate root va mem' ≡ translate root va k.mem =
          frame-translate kernel_end root q s.apart.role k.mem mem' s.apart.table page.0 nr.0
            out' in
        let small : q < phystop = page.2 in
        rw some_page (
          Mapped-Rounded t xperm k go_on give_up s l perm k2 q xs page a2 nr.0 f.distinct.0 frame
            (λ i li.
              let (u, lu) = s.users i (ground arith) in
              (
                u.no_table,
                subst (All (λ z. z ≢ pte2pa (translate root (4096 * i) k.mem))) at u.not_free,
              ))
            (λ y own. elim own [
              | inl there ↦
                  let here : In y (q ∷ xs) = subst (In y) at there in
                  elim here [ inl z ↦ inl z | inr m ↦ inr (inl m) ]
              | inr r ↦ inr (inr r)
            ])
            (mappages-Mapped kernel_end root (user_perm xperm) nonzero (4096 * t) 4096 q k2 a2
              (omega arith) refl (omega arith) (omega arith) (omega arith)
              (λ i li.
                cong (λ v. is_valid (translate root v mem')) (omega arith)
                ∙ cong is_valid (frame (4096 * t))
                ∙ s.unmapped t (ground arith) (omega arith))))

    pub round-Rounded :
        (xs : List ℕ)
        → s.apart.free ≡ xs
        → IsFree kernel_end k xs
        → All (λ y. s.apart.role y ≡ none) xs
        → Rounded t xperm k s go_on give_up
            (alloc_round kernel_end root (4096 * t) xperm go_on give_up (kalloc k))
    unfolding Rounded
    round-Rounded [] e f nr = inl (
      k,
      cong (alloc_round kernel_end root (4096 * t) xperm go_on give_up) (kalloc-nil kernel_end k f),
      (s, ground (arith, cong length e), λ y own. own),
      λ va l ne. refl,
    )
    round-Rounded (q ∷ xs) e f nr =
        let (at_q, rest, same) = kalloc-cons kernel_end k q xs f in
        let g : (kalloc k).0 ≡ q = at_q in
        subst
          (λ u.
            Rounded t xperm k s go_on give_up
              (alloc_round kernel_end root (4096 * t) xperm go_on give_up u))
          (cong (λ w. (w, (kalloc k).1)) (sym g)) (taken-Rounded (kalloc k).1 q xs e f nr rest same)
