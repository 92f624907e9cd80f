-- ===== src/Vm/Slots.antt =====
-- A write to an entry of a last table.
use mit_lab.Base.{
  ℕ, ◌+◌, ◌*◌, ◌/◌, ◌%◌, ◌<◌, ◌≡◌, refl, sym, ap as cong, ◌∙◌, ◌≢◌, inl, inr, Bool-cases, Option,
  none, some, some_inj, List, [], ◌∷◌, All, arith, if◌then◌else◌, update,
}
use mit_lab.Kalloc.{pgsize, Kmem}
use mit_lab.Kalloc.Chain.{IsPage, Chain, Chain-frame}
use mit_lab.Vm.{is_valid, pte2pa, px, maxva, set_pte}
use mit_lab.Vm.Tables.{
  Role, top, mid, leaf, next, IsTable, Apart, behind, leaf_table, entry_of, translate,
}
use mit_lab.Vm.Grow.{slot-inj}

-- Pages without a role are none of the table's pages.
pub no_role-ne :
    (role : ℕ → Option Role) (p : ℕ) (r : Role) (xs : List ℕ)
    → role p ≡ some r
    → All (λ x. role x ≡ none) xs
    → All (λ x. x ≢ p) xs
no_role-ne role p r [] h a = tt
no_role-ne role p r (x ∷ xs) h a = (λ e. absurd (cc), no_role-ne role p r xs h a.1)

-- A write to an entry leaves the free pages as they are.
pub Chain-update :
    (kernel_end p x f v : ℕ) (xs : List ℕ) (mem : ℕ → ℕ)
    → p % pgsize ≡ 0
    → x < 512
    → All (IsPage kernel_end) xs
    → All (λ y. y ≢ p) xs
    → Chain mem f xs
    → Chain (update mem (p + 8 * x) v) f xs
Chain-update kernel_end p x f v xs mem al l pages ne c =
    Chain-frame kernel_end p f xs mem (update mem (p + 8 * x) v) al (λ a out. ground arith) pages ne
      c

-- Two addresses of the same page.
pub px-inj :
    (va vb : ℕ)
    → va < maxva
    → vb < maxva
    → px 2 va ≡ px 2 vb
    → px 1 va ≡ px 1 vb
    → px 0 va ≡ px 0 vb
    → va / pgsize ≡ vb / pgsize
px-inj va vb a b e f g = omega arith

module _ (kernel_end root i j l q e : ℕ) (role : ℕ → Option Role) (mem : ℕ → ℕ)
    (t : IsTable kernel_end root role mem) (at : role q ≡ some (leaf i j)) (ll : l < 512) where
  abbrev written : ℕ → ℕ
  written = update mem (q + 8 * l) e

  -- The entries of other tables.
  other :
      (y z : ℕ) (s d : Role)
      → role y ≡ some s
      → next s z ≡ some d
      → z < 512
      → written (y + 8 * z) ≡ mem (y + 8 * z)
  other y z s d h n lz =
      let ne : y + 8 * z ≢ q + 8 * l = λ f.
        let g : y ≡ q =
          (slot-inj y z q l ((t.pages y s h).0) ((t.pages q (leaf i j) at).0) lz ll f).0 in
        let k : s ≡ leaf i j = some_inj (sym h ∙ cong role g ∙ at) in
        let w : none ≡ some d = cong (λ u. next u z) (sym k) ∙ n in absurd (cc) in
      ground (arith, ne)

  pub written-IsTable : IsTable kernel_end root role written
  written-IsTable = record {
    root_role = t.root_role;
    pages = t.pages;
    inner = λ y z s d h n lz v.
        let f = other y z s d h n lz in
        cong (λ w. role (pte2pa w)) f ∙ t.inner y z s d h n lz (sym (cong is_valid f) ∙ v);
  }

  behind-written :
      (z : ℕ) (s d : Role) (o : Option ℕ)
      → ((y : ℕ) → o ≡ some y → role y ≡ some s)
      → next s z ≡ some d
      → z < 512
      → (behind written z o ≡ behind mem z o)
        × ((y : ℕ) → behind mem z o ≡ some y → role y ≡ some d)
  behind-written z s d none h n lz = (refl, λ y f. absurd (cc))
  behind-written z s d (some y) h n lz =
      let f : written (y + 8 * z) ≡ mem (y + 8 * z) = other y z s d (h y refl) n lz in
      (
        cong (λ w. if is_valid w then some (pte2pa w) else none) f,
        λ y' g. elim (Bool-cases (is_valid (mem (y + 8 * z)))) [
          | inl v ↦
              let k : pte2pa (mem (y + 8 * z)) ≡ y' =
                some_inj
                  (sym (cong (λ b. if b then some (pte2pa (mem (y + 8 * z))) else none) v) ∙ g) in
              cong role (sym k) ∙ t.inner y z s d (h y refl) n lz v
          | inr v ↦
              let k : none ≡ some y' =
                sym (cong (λ b. if b then some (pte2pa (mem (y + 8 * z))) else none) v) ∙ g in
              absurd (cc)
        ],
      )

  leaf_table-written :
      (a b : ℕ)
      → a < 512
      → b < 512
      → (leaf_table root written a b ≡ leaf_table root mem a b)
        × ((y : ℕ) → leaf_table root mem a b ≡ some y → role y ≡ some (leaf a b))
  leaf_table-written a b la lb =
      let (e1, r1) =
        behind-written a top (mid a) (some root) (λ y f. cong role (sym (some_inj f)) ∙ t.root_role)
          refl la in
      let (e2, r2) = behind-written b (mid a) (leaf a b) (behind mem a (some root)) r1 refl lb in
      (cong (behind written b) e1 ∙ e2, r2)

  -- What an address of another page translates to does not change.
  pub written-others :
      (va : ℕ)
      → ¬ ((px 2 va ≡ i) × (px 1 va ≡ j) × (px 0 va ≡ l))
      → translate root va written ≡ translate root va mem
  written-others va ne =
      let (f, r) = leaf_table-written (px 2 va) (px 1 va) (omega arith) (omega arith) in
      cong (entry_of written (px 0 va)) f ∙ entries (leaf_table root mem (px 2 va) (px 1 va)) r
    where
      entries :
          (o : Option ℕ)
          → ((y : ℕ) → o ≡ some y → role y ≡ some (leaf (px 2 va) (px 1 va)))
          → entry_of written (px 0 va) o ≡ entry_of mem (px 0 va) o
      entries none r = refl
      entries (some y) r =
          let h : role y ≡ some (leaf (px 2 va) (px 1 va)) = r y refl in
          let apart : y + 8 * px 0 va ≢ q + 8 * l = λ g.
            let (a, b) =
              slot-inj y (px 0 va) q l ((t.pages y _ h).0) ((t.pages q _ at).0) (omega arith) ll
                g in
            let k : leaf (px 2 va) (px 1 va) ≡ leaf i j = some_inj (sym h ∙ cong role a ∙ at) in
            ne (cc, cc, b) in
          ground (arith, apart)

  -- The address whose entry it is translates to what is written.
  pub written-here :
      (va : ℕ)
      → px 2 va ≡ i
      → px 1 va ≡ j
      → px 0 va ≡ l
      → leaf_table root mem i j ≡ some q
      → translate root va written ≡ e
  written-here va a b d h =
      let (f, r) = leaf_table-written (px 2 va) (px 1 va) (omega arith) (omega arith) in
      let g : leaf_table root mem (px 2 va) (px 1 va) ≡ some q =
        cong (λ u. leaf_table root mem u (px 1 va)) a ∙ cong (leaf_table root mem i) b ∙ h in
      cong (entry_of written (px 0 va)) (f ∙ g) ∙ cong (λ u. written (q + 8 * u)) d ∙ ground arith

-- `set_pte` on an entry of a last table keeps the table and the free pages apart.
abbrev pub with_pte :
    (kernel_end root i j l q e : ℕ) (k : Kmem) (a : Apart kernel_end root k)
    → a.role q ≡ some (leaf i j)
    → l < 512
    → Apart kernel_end root (set_pte (q + 8 * l) e k)
with_pte kernel_end root i j l q e k a at ll = record {
  role = a.role;
  table = written-IsTable kernel_end root i j l q e a.role k.mem a.table at ll;
  free = a.free;
  is_free = record {
    chain =
        Chain-update kernel_end q l k.freelist e a.free k.mem ((a.table.pages q (leaf i j) at).0) ll
          a.is_free.pages (no_role-ne a.role q (leaf i j) a.free at a.no_role) a.is_free.chain;
    pages = a.is_free.pages;
    distinct = a.is_free.distinct;
  };
  no_role = a.no_role;
}
