-- ===== src/Vm/Space.antt =====
-- The user pages of a page table: mapped, and neither a table nor free nor mapped twice.
use mit_lab.Base.{
  ℕ, ◌+◌, ◌*◌, ◌%◌, ◌<◌, ◌≤◌, ◌≡◌, refl, sym, ap as cong, ◌∙◌, ◌≢◌, ◌⊎◌, inl, inr, Bool, true,
  false, Bool-cases, Option, none, some, some_inj, Option-cases, List, All, arith, if◌then◌else◌,
}
use mit_lab.Kalloc.{pgsize, Kmem}
use mit_lab.Kalloc.Chain.{IsPage}
use mit_lab.Vm.{is_valid, pte2pa, pte_flags, px}
use mit_lab.Vm.Tables.{
  Role, top, mid, leaf, IsTable, Apart, child, behind, leaf_table, entry_of, translate,
}
use mit_lab.Vm.Lookup.{child-role}

-- The entry of a user page that is in nobody else's use.
pub record IsUser (kernel_end : ℕ) (role : ℕ → Option Role) (free : List ℕ) (pte : ℕ) : Type 0 where
  pub valid : is_valid pte ≡ true
  pub is_leaf : pte_flags pte ≢ 1
  pub page : IsPage kernel_end (pte2pa pte)
  pub no_table : role (pte2pa pte) ≡ none
  pub not_free : All (λ z. z ≢ pte2pa pte) free

-- Below `limit` the table maps the pages that `held` says, and no other.
pub record Space (kernel_end root limit : ℕ) (held : ℕ → Bool) (k : Kmem) : Type 0 where
  pub apart : Apart kernel_end root k
  pub users :
      (t : ℕ)
      → held t ≡ true
      → IsUser kernel_end apart.role apart.free (translate root (4096 * t) k.mem)
        × (4096 * t < limit)
  pub once :
      (s t : ℕ)
      → held s ≡ true
      → held t ≡ true
      → pte2pa (translate root (4096 * s) k.mem) ≡ pte2pa (translate root (4096 * t) k.mem)
      → s ≡ t
  pub unmapped :
      (t : ℕ)
      → held t ≡ false
      → 4096 * t < limit
      → is_valid (translate root (4096 * t) k.mem) ≡ false

unfoldable pub Space-ext :
    (kernel_end root limit : ℕ) (held held' : ℕ → Bool) (k : Kmem)
    → ((t : ℕ) → held' t ≡ held t)
    → Space kernel_end root limit held k
    → Space kernel_end root limit held' k
Space-ext kernel_end root limit held held' k e s = record {
  apart = s.apart;
  users = λ t h. s.users t (sym (e t) ∙ h);
  once = λ i t h g. s.once i t (sym (e i) ∙ h) (sym (e t) ∙ g);
  unmapped = λ t h. s.unmapped t (sym (e t) ∙ h);
}

-- A change to a page that is no table leaves the table as it is.
module _ (kernel_end root q : ℕ) (role : ℕ → Option Role) (mem mem' : ℕ → ℕ)
    (t : IsTable kernel_end root role mem) (al : q % pgsize ≡ 0) (nt : role q ≡ none)
    (same : (a : ℕ) → (a < q) ⊎ (q + pgsize ≤ a) → mem' a ≡ mem a) where
  entry-same : (y z : ℕ) (s : Role) → role y ≡ some s → z < 512 → mem' (y + 8 * z) ≡ mem (y + 8 * z)
  entry-same y z s h lz =
      let ne : y ≢ q = λ e. absurd (cc) in
      let ay : y % pgsize ≡ 0 = (t.pages y s h).0 in same (y + 8 * z) (omega arith)

  pub frame-IsTable : IsTable kernel_end root role mem'
  frame-IsTable = record {
    root_role = t.root_role;
    pages = t.pages;
    inner = λ y z s d h n lz v.
        let f = entry-same y z s h lz in
        cong (λ w. role (pte2pa w)) f ∙ t.inner y z s d h n lz (sym (cong is_valid f) ∙ v);
  }

  behind-same :
      (z : ℕ) (s : Role) (o : Option ℕ)
      → ((y : ℕ) → o ≡ some y → role y ≡ some s)
      → z < 512
      → behind mem' z o ≡ behind mem z o
  behind-same z s none r lz = refl
  behind-same z s (some y) r lz =
      cong (λ w. if is_valid w then some (pte2pa w) else none) (entry-same y z s (r y refl) lz)

  child-mid : (i t1 : ℕ) → i < 512 → child mem (root + 8 * i) ≡ some t1 → role t1 ≡ some (mid i)
  child-mid i t1 li e = elim (Bool-cases (is_valid (mem (root + 8 * i)))) [
    | inl v ↦
        let f : pte2pa (mem (root + 8 * i)) ≡ t1 =
          some_inj
            (sym (cong (λ b. if b then some (pte2pa (mem (root + 8 * i))) else none) v) ∙ e) in
        cong role (sym f) ∙ t.inner root i top (mid i) t.root_role refl li v
    | inr v ↦
        let f : none ≡ some t1 =
          sym (cong (λ b. if b then some (pte2pa (mem (root + 8 * i))) else none) v) ∙ e in
        absurd (cc)
  ]

  entry_of-same :
      (l : ℕ) (s : Role) (o : Option ℕ)
      → ((y : ℕ) → o ≡ some y → role y ≡ some s)
      → l < 512
      → entry_of mem' l o ≡ entry_of mem l o
  entry_of-same l s none r ll = refl
  entry_of-same l s (some y) r ll = entry-same y l s (r y refl) ll

  pub frame-leaf_table :
      (i j : ℕ) → i < 512 → j < 512 → leaf_table root mem' i j ≡ leaf_table root mem i j
  frame-leaf_table i j li lj =
      let e1 : child mem' (root + 8 * i) ≡ child mem (root + 8 * i) =
        behind-same i top (some root) (λ y f. cong role (sym (some_inj f)) ∙ t.root_role) li in
      cong (behind mem' j) e1
      ∙ behind-same j (mid i) (child mem (root + 8 * i)) (λ y f. child-mid i y li f) lj

  pub frame-translate : (va : ℕ) → translate root va mem' ≡ translate root va mem
  frame-translate va =
      let i = px 2 va in
      let j = px 1 va in
      cong (entry_of mem' (px 0 va)) (frame-leaf_table i j (omega arith) (omega arith))
      ∙ entry_of-same (px 0 va) (leaf i j) (leaf_table root mem i j)
          (λ y f. child-role kernel_end root role mem t i j y (omega arith) (omega arith) f)
          (omega arith)

-- A translation that is valid comes from an entry of a last table.
pub slot-of :
    (kernel_end root va : ℕ) (role : ℕ → Option Role) (mem : ℕ → ℕ)
    → IsTable kernel_end root role mem
    → is_valid (translate root va mem) ≡ true
    → (q : ℕ) × (leaf_table root mem (px 2 va) (px 1 va) ≡ some q)
      × (role q ≡ some (leaf (px 2 va) (px 1 va)))
slot-of kernel_end root va role mem t v =
    elim (Option-cases (leaf_table root mem (px 2 va) (px 1 va))) [
      | inl e ↦
          let f : false ≡ true = sym (cong (λ o. is_valid (entry_of mem (px 0 va) o)) e) ∙ v in
          absurd (cc)
      | inr (q, e) ↦ (
        q,
        e,
        child-role kernel_end root role mem t (px 2 va) (px 1 va) q (omega arith) (omega arith) e,
      )
    ]
