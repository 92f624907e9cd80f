-- ===== src/Vm/Walk.antt =====
-- `walk` with `alloc` keeps a table a table, changes no translation, and finds the entry or has no
-- page left.
use mit_lab.Base.{
  Run, ok, leb, ℕ, ◌+◌, ◌*◌, ◌%◌, ◌<◌, ◌≤◌, ◌≡◌, refl, sym, subst, ap as cong, ◌∙◌, ◌≢◌, ◌⊎◌, inl,
  inr, true, false, ◌==◌, Bool-cases, Option, none, some, List, [], ◌∷◌, All, arith, if◌then◌else◌,
  update,
}
use mit_lab.Kalloc.{pgsize, Kmem, kalloc, fill_page}
use mit_lab.Kalloc.Chain.{IsPage, Chain, Chain-frame, IsFree, kalloc-cons, kalloc-nil}
use mit_lab.Vm.{
  is_valid, pa2pte, pte2pa, px, walk_step, walk_loop, new_table, walk, leaf_slot, maxva,
}
use mit_lab.Vm.Tables.{
  Role, top, mid, leaf, next, Apart, child, behind, leaf_table, translate, Spares, In,
}
use mit_lab.Vm.Grow.{
  add_role, Added, fill_page-Added, add_role-keeps, Added-IsTable, Added-translate, Added-child,
  Added-keeps,
}
use mit_lab.Vm.Slots.{no_role-ne, Chain-update}

add_role-none :
    (q : ℕ) (c : Role) (role : ℕ → Option Role) (xs : List ℕ)
    → All (λ y. y ≢ q) xs
    → All (λ y. role y ≡ none) xs
    → All (λ y. add_role q c role y ≡ none) xs
add_role-none q c role [] ne n = tt
add_role-none q c role (y ∷ xs) ne n =
    let e : (y == q) ≡ false = ground (arith, ne.0) in
    (rw e n.0, add_role-none q c role xs ne.1 n.1)

module _ (kernel_end root : ℕ) where
  -- The translation of every address, the roles of pages and the tables behind entries stay.
  pub record Keeps (k k' : Kmem) (a : Apart kernel_end root k) (a' : Apart kernel_end root k')
      : Type 0 where
    pub same : (va : ℕ) → translate root va k'.mem ≡ translate root va k.mem
    pub roles : (y : ℕ) (s : Role) → a.role y ≡ some s → a'.role y ≡ some s
    pub tables :
        (y z : ℕ) (s : Role) (o : ℕ)
        → a.role y ≡ some s
        → z < 512
        → child k.mem (y + 8 * z) ≡ some o
        → child k'.mem (y + 8 * z) ≡ some o
    pub spares : Spares kernel_end root a a'

  -- A round at the entry `x` of the page `p`, behind which is a page with the role `c`.
  pub data Stepped (p x : ℕ) (c : Role) (k : Kmem) (a : Apart kernel_end root k)
      : Option ℕ × Kmem → Type 0 where
    no_page : a.free ≡ [] → Stepped p x c k a (none, k)
    found :
        {k' : Kmem} {q : ℕ} (a' : Apart kernel_end root k')
        → Keeps k k' a a'
        → a'.role q ≡ some c
        → child k'.mem (p + 8 * x) ≡ some q
        → Stepped p x c k a (some q, k')

  module _ (p x : ℕ) (r c : Role) (k : Kmem) (a : Apart kernel_end root k)
      (nonzero : 0 < kernel_end) (at : a.role p ≡ some r) (nx : next r x ≡ some c)
      (lx : x < 512) where
    add-Chain :
        (k1 : Kmem) (q : ℕ) (xs : List ℕ)
        → IsFree kernel_end k1 xs
        → q % pgsize ≡ 0
        → All (λ y. y ≢ q) xs
        → All (λ y. y ≢ p) xs
        → Chain (update (fill_page q 0 k1.mem) (p + 8 * x) (pa2pte q + 1)) k1.freelist xs
    add-Chain k1 q xs f al nq np =
        Chain-update kernel_end p x k1.freelist (pa2pte q + 1) xs (fill_page q 0 k1.mem)
          ((a.table.pages p r at).0) lx f.pages np
          (Chain-frame kernel_end q k1.freelist xs k1.mem (fill_page q 0 k1.mem) al
            (λ b out. ground arith) f.pages nq f.chain)

    new_table-found :
        (k1 : Kmem) (q : ℕ) (xs : List ℕ)
        → a.free ≡ q ∷ xs
        → is_valid (k.mem (p + 8 * x)) ≡ false
        → IsFree kernel_end k1 xs
        → IsPage kernel_end q
        → a.role q ≡ none
        → All (λ y. y ≢ q) xs
        → All (λ y. a.role y ≡ none) xs
        → ((b : ℕ) → (b < q) ⊎ (q + pgsize ≤ b) → k1.mem b ≡ k.mem b)
        → Stepped p x c k a (new_table (p + 8 * x) (q, k1))
    new_table-found k1 q xs e v f page fresh nq n same =
        let some_page : (q == 0) ≡ false = ground (arith, nonzero, page.1) in
        let p_page : IsPage kernel_end p = a.table.pages p r at in
        let ne : p ≢ q = λ e. absurd (cc) in
        let mem' : ℕ → ℕ = update (fill_page q 0 k1.mem) (p + 8 * x) (pa2pte q + 1) in
        let ad : Added p x q k.mem mem' =
          fill_page-Added p x q k.mem k1.mem p_page.0 page.0 ne lx same in
        let k' : Kmem = record { freelist = k1.freelist; mem = mem' } in
        let a' : Apart kernel_end root k' = record {
          role = add_role q c a.role;
          table =
              Added-IsTable kernel_end root p x q r c a.role k.mem mem' a.table at nx lx v page
                fresh ad;
          free = xs;
          is_free = record {
            chain = add-Chain k1 q xs f page.0 nq (no_role-ne a.role p r xs at n);
            pages = f.pages;
            distinct = f.distinct;
          };
          no_role = add_role-none q c a.role xs nq n;
        } in
        rw some_page (
          found {k' = k'} {q = q} a'
            (record {
              same =
                  Added-translate kernel_end root p x q r c a.role k.mem mem' a.table at nx lx v
                    page fresh ad;
              roles =
                  add_role-keeps kernel_end root p x q r c a.role k.mem mem' a.table at nx lx v page
                    fresh ad;
              tables =
                  Added-keeps kernel_end root p x q r c a.role k.mem mem' a.table at nx lx v page
                    fresh ad;
              spares = (
                λ y nt h.
                    let h' : All (λ z. z ≢ y) (q ∷ xs) = subst (All (λ z. z ≢ y)) e h in
                    let f : (y == q) ≡ false = ground (arith, h'.0) in
                    (cong (λ b. if b then some c else a.role y) f ∙ nt, h'.1),
                λ y own. elim own [
                  | inl there ↦
                      let here : In y (q ∷ xs) = subst (In y) e there in
                      elim here [
                        | inl z ↦
                            let f : (y == q) ≡ true = ground (arith, z) in
                            inr (c, cong (λ b. if b then some c else a.role y) f)
                        | inr m ↦ inl m
                      ]
                  | inr (r', h) ↦ inr (
                    r',
                    add_role-keeps kernel_end root p x q r c a.role k.mem mem' a.table at nx lx v
                        page fresh ad y r' h,
                  )
                ],
              );
            })
            (let e : (q == q) ≡ true = ground arith in cong (λ b. if b then some c else a.role q) e)
            (Added-child kernel_end root p x q r c a.role k.mem mem' a.table at nx lx v page fresh
              ad))

    new_table-Stepped :
        (xs : List ℕ)
        → a.free ≡ xs
        → is_valid (k.mem (p + 8 * x)) ≡ false
        → IsFree kernel_end k xs
        → All (λ y. a.role y ≡ none) xs
        → Stepped p x c k a (new_table (p + 8 * x) (kalloc k))
    new_table-Stepped [] e v f n = rw (kalloc-nil kernel_end k f) (no_page e)
    new_table-Stepped (q ∷ xs) e v f n =
        let (at_q, rest, same) = kalloc-cons kernel_end k q xs f in
        let g : (kalloc k).0 ≡ q = at_q in
        subst (λ u. Stepped p x c k a (new_table (p + 8 * x) u))
          (cong (λ w. (w, (kalloc k).1)) (sym g))
          (new_table-found (kalloc k).1 q xs e v rest f.pages.0 n.0 f.distinct.0 n.1 same)

    pub walk_step-Stepped : Stepped p x c k a (walk_step true (p + 8 * x) k)
    unfolding walk_step
    walk_step-Stepped = elim (Bool-cases (is_valid (k.mem (p + 8 * x)))) [
      | inl v ↦ rw v (
          found a
            (record {
              same = λ va. refl;
              roles = λ y s h. h;
              tables = λ y z s o h l e. e;
              spares = (λ y nt h. (nt, h), λ y own. own);
            })
            (a.table.inner p x r c at nx lx v)
            (cong (λ b. if b then some (pte2pa (k.mem (p + 8 * x))) else none) v))
      | inr v ↦ rw v (new_table-Stepped a.free refl v a.is_free a.no_role)
    ]

  -- How `walk` ends.
  pub data Walked (va : ℕ) (k : Kmem) (a : Apart kernel_end root k) : Run (ℕ × Kmem) → Type 0 where
    no_page :
        {k' : Kmem} (a' : Apart kernel_end root k')
        → ((vb : ℕ) → translate root vb k'.mem ≡ translate root vb k.mem)
        → Spares kernel_end root a a'
        → a'.free ≡ []
        → Walked va k a (ok (0, k'))
    found :
        {k' : Kmem} {t : ℕ} (a' : Apart kernel_end root k')
        → ((vb : ℕ) → translate root vb k'.mem ≡ translate root vb k.mem)
        → Spares kernel_end root a a'
        → a'.role t ≡ some (leaf (px 2 va) (px 1 va))
        → leaf_table root k'.mem (px 2 va) (px 1 va) ≡ some t
        → Walked va k a (ok (t + 8 * px 0 va, k'))

  module _ (nonzero : 0 < kernel_end) (va : ℕ) (k : Kmem) (a : Apart kernel_end root k) where
    second :
        (k1 : Kmem) (t1 : ℕ) (a1 : Apart kernel_end root k1)
        → Keeps k k1 a a1
        → a1.role root ≡ some top
        → child k1.mem (root + 8 * px 2 va) ≡ some t1
        → {o : Option ℕ × Kmem} → Stepped t1 (px 1 va) (leaf (px 2 va) (px 1 va)) k1 a1 o
        → Walked va k a (ok (leaf_slot va o))
    second k1 t1 a1 ks h e (no_page f) = no_page a1 ks.same ks.spares f
    second k1 t1 a1 ks h e (found {k' = k2} a2 ks2 role2 child2) =
        found a2 (λ vb. ks2.same vb ∙ ks.same vb)
          (
            λ y nt h. let (no1, h1) = ks.spares.0 y nt h in ks2.spares.0 y no1 h1,
            λ y own. ks2.spares.1 y (ks.spares.1 y own),
          )
          role2
          (cong (behind k2.mem (px 1 va)) (ks2.tables root (px 2 va) top t1 h (omega arith) e)
            ∙ child2)

    first :
        {o : Option ℕ × Kmem}
        → Stepped root (px 2 va) (mid (px 2 va)) k a o
        → Walked va k a (ok (leaf_slot va (walk_loop true va 1 o)))
    unfolding walk_loop
    first (no_page f) = no_page a (λ vb. refl) (λ y nt h. (nt, h), λ y own. own) f
    first (found {k' = k1} {q = t1} a1 ks role1 child1) =
        second k1 t1 a1 ks (ks.roles root top a.table.root_role) child1 (
          walk_step-Stepped t1 (px 1 va) (mid (px 2 va)) (leaf (px 2 va) (px 1 va)) k1 a1 nonzero
            role1 refl (omega arith))

    pub walk-Walked : va < maxva → Walked va k a (walk root va true k)
    unfolding walk walk_loop
    walk-Walked l =
        let e : leb maxva va ≡ false = ground arith in
        rw e (
          first (
            walk_step-Stepped root (px 2 va) top (mid (px 2 va)) k a nonzero a.table.root_role refl
              (omega arith)))
