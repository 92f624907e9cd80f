-- ===== src/Vm/Grow.antt =====
-- A new page behind an entry of a table: what is a table stays one, and it translates as before.
use mit_lab.Base.{
  ℕ, ◌+◌, ◌*◌, ◌%◌, ◌<◌, ◌≤◌, ◌≡◌, refl, sym, ap as cong, ◌∙◌, ◌≢◌, ◌⊎◌, inl, inr, true, false,
  ◌==◌, Bool-cases, Option, none, some, some_inj, arith, if◌then◌else◌, update,
}
use mit_lab.Kalloc.{pgsize, phystop, fill_page}
use mit_lab.Kalloc.Chain.{IsPage}
use mit_lab.Vm.{is_valid, pa2pte, pte2pa, px}
use mit_lab.Vm.Tables.{Role, top, mid, leaf, next, IsTable, child, behind, entry_of, translate}

pub pa2pte-valid : (q : ℕ) → is_valid (pa2pte q + 1) ≡ true
pa2pte-valid q = ground arith

pub pte2pa-pa2pte : (q : ℕ) → q % pgsize ≡ 0 → q < phystop → pte2pa (pa2pte q + 1) ≡ q
pte2pa-pa2pte q al small = omega arith

-- Entries of page-aligned tables are the same one only at the same index of the same table.
pub slot-inj :
    (p x p' x' : ℕ)
    → p % pgsize ≡ 0
    → p' % pgsize ≡ 0
    → x < 512
    → x' < 512
    → p + 8 * x ≡ p' + 8 * x'
    → (p ≡ p') × (x ≡ x')
slot-inj p x p' x' a a' l l' e = (omega arith, omega arith)

-- `mem'` is `mem` with the zeroed page `q` behind the entry `x` of the page `p`.
pub record Added (p x q : ℕ) (mem mem' : ℕ → ℕ) : Type 0 where
  pub points : mem' (p + 8 * x) ≡ pa2pte q + 1
  pub blank : (b : ℕ) → b < 512 → mem' (q + 8 * b) ≡ 0
  pub others :
      (y z : ℕ)
      → y % pgsize ≡ 0
      → z < 512
      → y ≢ q
      → (y + 8 * z ≢ p + 8 * x)
      → mem' (y + 8 * z) ≡ mem (y + 8 * z)

pub fill_page-Added :
    (p x q : ℕ) (mem : ℕ → ℕ) (k : ℕ → ℕ)
    → p % pgsize ≡ 0
    → q % pgsize ≡ 0
    → p ≢ q
    → x < 512
    → ((a : ℕ) → (a < q) ⊎ (q + pgsize ≤ a) → k a ≡ mem a)
    → Added p x q mem (update (fill_page q 0 k) (p + 8 * x) (pa2pte q + 1))
fill_page-Added p x q mem k ap aq ne lx same = record {
  points = ground arith;
  blank = λ b l. ground arith;
  others = λ y z ay lz nq ns.
      let out : (y + 8 * z < q) ⊎ (q + pgsize ≤ y + 8 * z) = omega arith in
      ground (arith, same (y + 8 * z) out);
}

abbrev pub add_role : (q : ℕ) → Role → (ℕ → Option Role) → ℕ → Option Role
add_role q c role y = if y == q then some c else role y

module _ (kernel_end root p x q : ℕ) (r c : Role) (role : ℕ → Option Role) (mem mem' : ℕ → ℕ)
    (t : IsTable kernel_end root role mem) (at : role p ≡ some r) (nx : next r x ≡ some c)
    (lx : x < 512) (free_entry : is_valid (mem (p + 8 * x)) ≡ false) (page : IsPage kernel_end q)
    (fresh : role q ≡ none) (added : Added p x q mem mem') where
  pub role-ne : (y : ℕ) (r' : Role) → role y ≡ some r' → y ≢ q
  role-ne y r' h e = absurd (cc)

  pub add_role-keeps : (y : ℕ) (r' : Role) → role y ≡ some r' → add_role q c role y ≡ some r'
  add_role-keeps y r' h =
      let ne : y ≢ q = role-ne y r' h in let f : (y == q) ≡ false = ground (arith, ne) in rw f h

  -- An entry of the table is the new one or as before.
  entry-cases :
      (y z : ℕ) (r' : Role)
      → role y ≡ some r'
      → z < 512
      → ((y ≡ p) × (z ≡ x)) ⊎ (mem' (y + 8 * z) ≡ mem (y + 8 * z))
  entry-cases y z r' h lz = elim (Bool-cases (y + 8 * z == p + 8 * x)) [
    | inl e ↦
        let f : y + 8 * z ≡ p + 8 * x = ground arith in
        inl (slot-inj y z p x ((t.pages y r' h).0) ((t.pages p r at).0) lz lx f)
    | inr e ↦
        let f : y + 8 * z ≢ p + 8 * x = ground arith in
        inr (added.others y z ((t.pages y r' h).0) lz (role-ne y r' h) f)
  ]

  old_role :
      (y : ℕ) (r' : Role) → (y == q) ≡ false → add_role q c role y ≡ some r' → role y ≡ some r'
  old_role y r' e h = sym (cong (λ b. if b then some c else role y) e) ∙ h

  new_role : add_role q c role (pte2pa (mem' (p + 8 * x))) ≡ some c
  new_role =
      let e : pte2pa (mem' (p + 8 * x)) ≡ q =
        cong pte2pa added.points ∙ pte2pa-pa2pte q page.0 page.2 in
      let f : (q == q) ≡ true = ground arith in
      cong (add_role q c role) e ∙ cong (λ b. if b then some c else role q) f

  inner-old :
      (y z : ℕ) (r' c' : Role)
      → role y ≡ some r'
      → next r' z ≡ some c'
      → z < 512
      → is_valid (mem' (y + 8 * z)) ≡ true
      → add_role q c role (pte2pa (mem' (y + 8 * z))) ≡ some c'
  inner-old y z r' c' h n lz v = elim (entry-cases y z r' h lz) [
    | inl (e, f) ↦
        let g : some r ≡ some r' = sym at ∙ cong role (sym e) ∙ h in
        let k : c ≡ c' =
          some_inj
            (sym nx ∙ cong (λ i. next r i) (sym f) ∙ cong (λ o. next o z) (some_inj g) ∙ n) in
        cong (λ s. add_role q c role (pte2pa (mem' s)))
          (cong (λ i. i + 8 * z) e ∙ cong (λ i. p + 8 * i) f)
        ∙ new_role
        ∙ cong some k
    | inr e ↦
        let v' : is_valid (mem (y + 8 * z)) ≡ true = sym (cong is_valid e) ∙ v in
        cong (λ w. add_role q c role (pte2pa w)) e
        ∙ add_role-keeps (pte2pa (mem (y + 8 * z))) c' (t.inner y z r' c' h n lz v')
  ]

  pub Added-IsTable : IsTable kernel_end root (add_role q c role) mem'
  Added-IsTable = record {
    root_role = add_role-keeps root top t.root_role;
    pages = λ y r' h. elim (Bool-cases (y == q)) [
      | inl e ↦ let f : y ≡ q = ground arith in rw f page
      | inr e ↦ t.pages y r' (old_role y r' e h)
    ];
    inner = λ y z r' c' h n lz v. elim (Bool-cases (y == q)) [
      | inl e ↦
          let f : y ≡ q = ground arith in
          let zero_entry : mem' (y + 8 * z) ≡ 0 =
            cong (λ i. mem' (i + 8 * z)) f ∙ added.blank z lz in
          absurd (ground (arith, zero_entry, v))
      | inr e ↦ inner-old y z r' c' (old_role y r' e h) n lz v
    ];
  }

  -- What a way through the table reaches before and after: the same table, or nothing before and
  -- nothing or an empty table after.
  data Same (s : Role) : Option ℕ → Option ℕ → Type 0 where
    both : {y : ℕ} → role y ≡ some s → Same s (some y) (some y)
    neither : Same s none none
    empty : {y : ℕ} → ((b : ℕ) → b < 512 → mem' (y + 8 * b) ≡ 0) → Same s none (some y)

  child-Same :
      (y z : ℕ) (s d : Role)
      → role y ≡ some s
      → next s z ≡ some d
      → z < 512
      → Same d (child mem (y + 8 * z)) (child mem' (y + 8 * z))
  child-Same y z s d h n lz = elim (entry-cases y z s h lz) [
    | inl (e, f) ↦
        let g : y + 8 * z ≡ p + 8 * x = omega arith in
        let v : is_valid (mem' (p + 8 * x)) ≡ true = cong is_valid added.points ∙ pa2pte-valid q in
        let w : pte2pa (mem' (p + 8 * x)) ≡ q =
          cong pte2pa added.points ∙ pte2pa-pa2pte q page.0 page.2 in
        rw (g, free_entry, v, w) (empty added.blank)
    | inr e ↦ elim (Bool-cases (is_valid (mem (y + 8 * z)))) [
      | inl v ↦ rw (e, v) (both (t.inner y z s d h n lz v))
      | inr v ↦ rw (e, v) neither
    ]
  ]

  behind-Same :
      (z : ℕ) (s d : Role) {o o' : Option ℕ}
      → next s z ≡ some d
      → z < 512
      → Same s o o'
      → Same d (behind mem z o) (behind mem' z o')
  behind-Same z s d n lz (both {y} h) = child-Same y z s d h n lz
  behind-Same z s d n lz neither = neither
  behind-Same z s d n lz (empty {y} h) =
      let v : is_valid (mem' (y + 8 * z)) ≡ false = cong is_valid (h z lz) in rw v neither

  entry_of-Same :
      (i j l : ℕ) {o o' : Option ℕ}
      → l < 512
      → Same (leaf i j) o o'
      → entry_of mem' l o' ≡ entry_of mem l o
  entry_of-Same i j l ll (both {y} h) = elim (entry-cases y l (leaf i j) h ll) [
    | inl (e, f) ↦ let g : r ≡ leaf i j = some_inj (sym at ∙ cong role (sym e) ∙ h) in absurd (cc)
    | inr e ↦ e
  ]
  entry_of-Same i j l ll neither = refl
  entry_of-Same i j l ll (empty h) = h l ll

  -- Every address is translated as before.
  pub Added-translate : (va : ℕ) → translate root va mem' ≡ translate root va mem
  Added-translate va = entry_of-Same (px 2 va) (px 1 va) (px 0 va) (omega arith) (
      behind-Same (px 1 va) (mid (px 2 va)) (leaf (px 2 va) (px 1 va)) refl (omega arith)
        (behind-Same (px 2 va) top (mid (px 2 va)) refl (omega arith) (both t.root_role)))

  pub Added-child : child mem' (p + 8 * x) ≡ some q
  Added-child =
      let v : is_valid (mem' (p + 8 * x)) ≡ true = cong is_valid added.points ∙ pa2pte-valid q in
      rw v (cong some (cong pte2pa added.points ∙ pte2pa-pa2pte q page.0 page.2))

  -- The tables that the table reached are reached as before.
  pub Added-keeps :
      (y z : ℕ) (s : Role) (o : ℕ)
      → role y ≡ some s
      → z < 512
      → child mem (y + 8 * z) ≡ some o
      → child mem' (y + 8 * z) ≡ some o
  Added-keeps y z s o h lz e = elim (entry-cases y z s h lz) [
    | inl (f, g) ↦
        let k : child mem (y + 8 * z) ≡ none =
          cong (λ i. child mem i) (cong (λ i. i + 8 * z) f ∙ cong (λ i. p + 8 * i) g)
          ∙ cong (λ b. if b then some (pte2pa (mem (p + 8 * x))) else none) free_entry in
        absurd (cc)
    | inr f ↦ cong (λ w. if is_valid w then some (pte2pa w) else none) f ∙ e
  ]
