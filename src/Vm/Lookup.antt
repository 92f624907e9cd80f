-- ===== src/Vm/Lookup.antt =====
-- `walk` without `alloc`, `walkaddr` and `uvmcreate`.
use mit_lab.Base.{
  ok, ltb, leb, ℕ, ◌+◌, ◌*◌, ◌<◌, ◌≡◌, refl, sym, ap as cong, ◌∙◌, ◌≢◌, inl, inr, true, false, not,
  ◌||◌, ◌==◌, Bool-cases, Option, none, some, some_inj, List, [], ◌∷◌, All, arith, if◌then◌else◌,
}
use mit_lab.Kalloc.{Kmem, kalloc, fill_page}
use mit_lab.Kalloc.Chain.{IsFree, Chain-frame, kalloc-cons}
use mit_lab.Vm.{
  is_valid, is_user, pte2pa, px, walk, walk_step, walk_loop, leaf_slot, maxva, user_pa, walkaddr,
  uvmcreate,
}
use mit_lab.Vm.Tables.{
  Role, top, mid, leaf, IsTable, Apart, child, behind, leaf_table, entry_of, translate,
}

walk_step-child : (slot : ℕ) (k : Kmem) → walk_step false slot k ≡ (child k.mem slot, k)
unfolding walk_step
walk_step-child slot k = elim (Bool-cases (is_valid (k.mem slot))) [
  | inl v ↦ rw v refl
  | inr v ↦ rw v refl
]

walk_loop-behind :
    (va : ℕ) (k : Kmem) (o : Option ℕ) → walk_loop false va 1 (o, k) ≡ (behind k.mem (px 1 va) o, k)
unfolding walk_loop
walk_loop-behind va k none = refl
walk_loop-behind va k (some t) = walk_step-child (t + 8 * px 1 va) k

-- Without `alloc` below MAXVA `walk` changes nothing, and finds the entry behind the tables.
pub walk-leaf_table :
    (root va : ℕ) (k : Kmem)
    → va < maxva
    → walk root va false k ≡ ok (leaf_slot va (leaf_table root k.mem (px 2 va) (px 1 va), k))
unfolding walk walk_loop
walk-leaf_table root va k l =
    let e : leb maxva va ≡ false = ground arith in
    rw e (
      cong (λ u. ok (leaf_slot va (walk_loop false va 1 u)))
        (walk_step-child (root + 8 * px 2 va) k)
      ∙ cong (λ u. ok (leaf_slot va u)) (walk_loop-behind va k (child k.mem (root + 8 * px 2 va))))

-- The roles of the tables on the way.
pub child-role :
    (kernel_end root : ℕ) (role : ℕ → Option Role) (mem : ℕ → ℕ)
    → IsTable kernel_end root role mem
    → (i j t : ℕ) → i < 512
    → j < 512
    → leaf_table root mem i j ≡ some t
    → role t ≡ some (leaf i j)
child-role kernel_end root role mem tb i j t li lj e =
    elim (Bool-cases (is_valid (mem (root + 8 * i)))) [
      | inl v ↦
          let c : child mem (root + 8 * i) ≡ some (pte2pa (mem (root + 8 * i))) =
            cong (λ b. if b then some (pte2pa (mem (root + 8 * i))) else none) v in
          let r1 = tb.inner root i top _ tb.root_role refl li v in
          second (pte2pa (mem (root + 8 * i))) r1 (sym (cong (behind mem j) c) ∙ e)
      | inr v ↦
          let c : child mem (root + 8 * i) ≡ none =
            cong (λ b. if b then some (pte2pa (mem (root + 8 * i))) else none) v in
          let f : none ≡ some t = sym (cong (behind mem j) c) ∙ e in absurd (cc)
    ]
  where
    second :
        (t1 : ℕ)
        → role t1 ≡ some (mid i)
        → child mem (t1 + 8 * j) ≡ some t
        → role t ≡ some (leaf i j)
    second t1 r1 e1 = elim (Bool-cases (is_valid (mem (t1 + 8 * j)))) [
      | inl v ↦
          let f : pte2pa (mem (t1 + 8 * j)) ≡ t =
            some_inj
              (sym (cong (λ b. if b then some (pte2pa (mem (t1 + 8 * j))) else none) v) ∙ e1) in
          cong role (sym f) ∙ tb.inner t1 j (mid i) _ r1 refl lj v
      | inr v ↦
          let f : none ≡ some t =
            sym (cong (λ b. if b then some (pte2pa (mem (t1 + 8 * j))) else none) v) ∙ e1 in
          absurd (cc)
    ]

-- The physical address that a user entry means.
abbrev pub user_addr : (pte : ℕ) → ℕ
user_addr pte = if not (is_valid pte) || not (is_user pte) then 0 else pte2pa pte

module _ (kernel_end root : ℕ) (nonzero : 0 < kernel_end) where
  -- `walkaddr` never panics: below MAXVA it gives what the table translates the address to, if that
  -- is a user's page, and 0 for any other.
  pub walkaddr_lem :
      (va : ℕ) (k : Kmem)
      → Apart kernel_end root k
      → walkaddr root va k ≡ ok (if ltb va maxva then user_addr (translate root va k.mem) else 0)
  unfolding walkaddr
  walkaddr_lem va k a = elim (Bool-cases (leb maxva va)) [
    | inl e ↦ let f : ltb va maxva ≡ false = ground arith in rw (e, f) refl
    | inr e ↦
        let f : ltb va maxva ≡ true = ground arith in
        let l : va < maxva = ground arith in
        rw (e, f, walk-leaf_table root va k l)
          (at_slot (leaf_table root k.mem (px 2 va) (px 1 va)) (λ t g.
            child-role kernel_end root a.role k.mem a.table (px 2 va) (px 1 va) t (omega arith)
              (omega arith) g))
  ]
    where
      at_slot :
          (o : Option ℕ)
          → ((t : ℕ) → o ≡ some t → a.role t ≡ some (leaf (px 2 va) (px 1 va)))
          → ok (user_pa (leaf_slot va (o, k)).0 (leaf_slot va (o, k)).1)
            ≡ ok (user_addr (entry_of k.mem (px 0 va) o))
      at_slot none r = refl
      at_slot (some t) r =
          let f : (t + 8 * px 0 va == 0) ≡ false =
            ground (arith, nonzero, (a.table.pages t _ (r t refl)).1) in
          rw f refl

abbrev only : ℕ → ℕ → Option Role
only x y = if y == x then some top else none

only-none : (x : ℕ) (xs : List ℕ) → All (λ y. y ≢ x) xs → All (λ y. only x y ≡ none) xs
only-none x [] ne = tt
only-none x (y ∷ xs) ne =
    let e : (y == x) ≡ false = ground (arith, ne.0) in
    (cong (λ b. if b then some top else none) e, only-none x xs ne.1)

only-eq : (x y : ℕ) (r : Role) → only x y ≡ some r → (y ≡ x) × (r ≡ top)
only-eq x y r h = elim (Bool-cases (y == x)) [
  | inl e ↦
      let f : y ≡ x = ground arith in
      (f, sym (some_inj (sym (cong (λ b. if b then some top else none) e) ∙ h)))
  | inr e ↦
      let f : none ≡ some r = sym (cong (λ b. if b then some top else none) e) ∙ h in absurd (cc)
]

-- With a free page `uvmcreate` makes it a table, apart from the pages that are left, in which nothing
-- is mapped.
pub uvmcreate-Apart :
    (kernel_end : ℕ) (k : Kmem) (x : ℕ) (xs : List ℕ)
    → IsFree kernel_end k (x ∷ xs)
    → (k' : Kmem) × (uvmcreate k ≡ (x, k'))
      × Apart kernel_end x k'
      × ((va : ℕ) → translate x va k'.mem ≡ 0)
unfolding uvmcreate
uvmcreate-Apart kernel_end k x xs f =
    let (at, rest, same) = kalloc-cons kernel_end k x xs f in
    let g : (kalloc k).0 ≡ x = at in
    let k1 = (kalloc k).1 in
    let mem' : ℕ → ℕ = fill_page x 0 k1.mem in
    let k' : Kmem = record { freelist = k1.freelist; mem = mem' } in
    let blank : (b : ℕ) → b < 512 → mem' (x + 8 * b) ≡ 0 = λ b l. ground arith in
    let some_page : (x == 0) ≡ false = ground (arith, f.chain.1) in
    (
      k',
      cong (λ u. if u == 0 then (0, k1) else (u, record k1 { mem = fill_page u 0 k1.mem })) g
          ∙ cong (λ b. if b then (0, k1) else (x, k')) some_page,
      record {
        role = only x;
        table = record {
          root_role =
              let e : (x == x) ≡ true = ground arith in cong (λ b. if b then some top else none) e;
          pages = λ p r h. let e : p ≡ x = (only-eq x p r h).0 in rw e f.pages.0;
          inner = λ p z r c h n l v.
              let e : p ≡ x = (only-eq x p r h).0 in
              let w : mem' (p + 8 * z) ≡ 0 = cong (λ i. mem' (i + 8 * z)) e ∙ blank z l in
              let u : false ≡ true = sym (cong is_valid w) ∙ v in absurd (cc);
        };
        free = xs;
        is_free = record {
          chain =
              Chain-frame kernel_end x k1.freelist xs k1.mem mem' f.pages.0.0
                (λ b out. ground arith) rest.pages f.distinct.0 rest.chain;
          pages = rest.pages;
          distinct = rest.distinct;
        };
        no_role = only-none x xs f.distinct.0;
      },
      λ va.
          let e : child mem' (x + 8 * px 2 va) ≡ none =
            cong (λ w. if is_valid w then some (pte2pa w) else none)
              (blank (px 2 va) (omega arith)) in
          cong (λ o. entry_of mem' (px 0 va) (behind mem' (px 1 va) o)) e,
    )
