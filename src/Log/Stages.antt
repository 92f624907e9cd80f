-- ===== src/Log/Stages.antt =====
-- What each loop of a commit leaves in the buffers and on the disk, however much power is left.
use mit_lab.Base.{
  ℕ, zero, suc, ◌+◌, ◌-◌, ◌≤◌, ◌<◌, min, ◌≡◌, refl, ◌⊎◌, inl, inr, Bool, true, false, ◌&&◌, ◌||◌,
  arith, ltb, leb, ◌==◌, if◌then◌else◌, update, Bool-cases,
}
use mit_lab.Buffers.{Block, Store, data_of, bread, set_data, bwrite, bunpin}
use mit_lab.Log.{
  Log, install_one, install_loop, write_log_one, write_log_loop, write_blocks, read_blocks,
}

-- Block `c` is one of `block[i .. i + r)`.
unfoldable pub logged : (ℕ → ℕ) → ℕ → ℕ → ℕ → Bool
logged block i zero c = false
logged block i (suc r) c = (block i == c) || logged block (i + 1) r c

-- `c` is the place in the log of one of the entries `i .. i + r`.
abbrev pub in_log : ℕ → ℕ → ℕ → ℕ → Bool
in_log start i r c = ltb (start + i) c && leb c (start + i + r)

module _ (l : Log) where
  data_of-write_log_one :
      (i c : ℕ) (s : Store)
      → data_of (write_log_one l i s) c
        ≡ (if c == l.start + i + 1 then data_of s (l.block i) else data_of s c)
  unfolding write_log_one data_of bread set_data bwrite
  data_of-write_log_one i c s = ground arith

  disk-write_log_one :
      (i c : ℕ) (s : Store)
      → (write_log_one l i s).disk c ≡ (
          if s.power == 0
          then s.disk c
          else if c == l.start + i + 1
          then data_of s (l.block i)
          else s.disk c)
  unfolding write_log_one data_of bread set_data bwrite
  disk-write_log_one i c s = ground arith

  power-write_log_one : (i : ℕ) (s : Store) → (write_log_one l i s).power ≡ s.power - 1
  unfolding write_log_one bread set_data bwrite
  power-write_log_one i s = ground arith

  data_of-install_one :
      (recovering : Bool) (i c : ℕ) (s : Store)
      → data_of (install_one recovering l i s) c
        ≡ (if c == l.block i then data_of s (l.start + i + 1) else data_of s c)
  unfolding install_one data_of bread set_data bwrite bunpin
  data_of-install_one recovering i c s = ground arith

  disk-install_one :
      (recovering : Bool) (i c : ℕ) (s : Store)
      → (install_one recovering l i s).disk c ≡ (
          if s.power == 0
          then s.disk c
          else if c == l.block i
          then data_of s (l.start + i + 1)
          else s.disk c)
  unfolding install_one data_of bread set_data bwrite bunpin
  disk-install_one recovering i c s = ground arith

  power-install_one :
      (recovering : Bool) (i : ℕ) (s : Store) → (install_one recovering l i s).power ≡ s.power - 1
  unfolding install_one bread set_data bwrite bunpin
  power-install_one recovering i s = ground arith

  pub power-write_log_loop : (r i : ℕ) (s : Store) → (write_log_loop l r i s).power ≡ s.power - r
  unfolding write_log_loop
  power-write_log_loop zero i s = omega arith
  power-write_log_loop (suc r) i s =
      omega (arith, power-write_log_loop r (i + 1) (write_log_one l i s), power-write_log_one i s)

  -- No home block lies in the log.
  abbrev pub Apart : ℕ → ℕ → Type 0
  Apart i r = (j : ℕ) → i ≤ j → j < i + r → (l.block j < l.start) ⊎ (l.start + l.size ≤ l.block j)

  Apart-next : (i r : ℕ) → Apart i (suc r) → Apart (i + 1) r
  Apart-next i r h j a b = h j (omega arith) (omega arith)

  -- The log blocks hold what the home blocks' buffers held.
  pub data_of-write_log_loop :
      (r i c : ℕ) (s : Store)
      → Apart i r
      → i + r < l.size
      → data_of (write_log_loop l r i s) c
        ≡ (if in_log l.start i r c then data_of s (l.block (c - l.start - 1)) else data_of s c)
  unfolding write_log_loop
  data_of-write_log_loop zero i c s apart fits = ground arith
  data_of-write_log_loop (suc r) i c s apart fits = ground (
    arith,
    data_of-write_log_loop r (i + 1) c (write_log_one l i s) (Apart-next i r apart) (omega arith),
    data_of-write_log_one i c s,
    data_of-write_log_one i (l.block (c - l.start - 1)) s,
    apart (c - l.start - 1),
  )

  -- The same on the disk, for the writes that power was left for.
  pub disk-write_log_loop :
      (r i c : ℕ) (s : Store)
      → Apart i r
      → i + r < l.size
      → (write_log_loop l r i s).disk c ≡ (
          if in_log l.start i (min r s.power) c
          then data_of s (l.block (c - l.start - 1))
          else s.disk c)
  unfolding write_log_loop
  disk-write_log_loop zero i c s apart fits = ground arith
  disk-write_log_loop (suc r) i c s apart fits = ground (
    arith,
    disk-write_log_loop r (i + 1) c (write_log_one l i s) (Apart-next i r apart) (omega arith),
    disk-write_log_one i c s,
    power-write_log_one i s,
    data_of-write_log_one i (l.block (c - l.start - 1)) s,
    apart (c - l.start - 1),
  )

  pub power-install_loop :
      (recovering : Bool) (r i : ℕ) (s : Store)
      → (install_loop recovering l r i s).power ≡ s.power - r
  unfolding install_loop
  power-install_loop recovering zero i s = omega arith
  power-install_loop recovering (suc r) i s = omega (
    arith,
    power-install_loop recovering r (i + 1) (install_one recovering l i s),
    power-install_one recovering i s,
  )

  -- The log blocks hold the contents `new` of their home blocks.
  abbrev pub Holds : (ℕ → Block) → ℕ → ℕ → Store → Type 0
  Holds new i r s = (j : ℕ) → i ≤ j → j < i + r → data_of s (l.start + j + 1) ≡ new (l.block j)

  Holds-next :
      (recovering : Bool) (new : ℕ → Block) (i r : ℕ) (s : Store)
      → Apart i (suc r)
      → i + suc r < l.size
      → Holds new i (suc r) s
      → Holds new (i + 1) r (install_one recovering l i s)
  Holds-next recovering new i r s apart fits h j a b = ground (
    arith,
    data_of-install_one recovering i (l.start + j + 1) s,
    apart i (omega arith) (omega arith),
    h j (omega arith) (omega arith),
  )

  pub data_of-install_loop :
      (recovering : Bool) (new : ℕ → Block) (r i c : ℕ) (s : Store)
      → Apart i r
      → i + r < l.size
      → Holds new i r s
      → data_of (install_loop recovering l r i s) c
        ≡ (if logged l.block i r c then new c else data_of s c)
  unfolding install_loop logged
  data_of-install_loop recovering new zero i c s apart fits h = refl
  data_of-install_loop recovering new (suc r) i c s apart fits h = ground (
    arith,
    data_of-install_loop recovering new r (i + 1) c (install_one recovering l i s)
        (Apart-next i r apart) (omega arith) (Holds-next recovering new i r s apart fits h),
    data_of-install_one recovering i c s,
    h i (omega arith) (omega arith),
  )

  pub disk-install_loop :
      (recovering : Bool) (new : ℕ → Block) (r i c : ℕ) (s : Store)
      → Apart i r
      → i + r < l.size
      → Holds new i r s
      → (install_loop recovering l r i s).disk c
        ≡ (if logged l.block i (min r s.power) c then new c else s.disk c)
  unfolding install_loop logged
  disk-install_loop recovering new zero i c s apart fits h = ground arith
  disk-install_loop recovering new (suc r) i c s apart fits h = elim (Bool-cases (s.power == 0)) [
    | inl off ↦
        let e : min (suc r) s.power ≡ 0 = ground arith in
        let one = install_one recovering l i s in
        let e1 : min r one.power ≡ 0 = ground (arith, power-install_one recovering i s) in
        let ih : (install_loop recovering l r (i + 1) one).disk c ≡ one.disk c = rw e1 at (
          disk-install_loop recovering new r (i + 1) c one (Apart-next i r apart) (omega arith)
            (Holds-next recovering new i r s apart fits h)) in
        rw e (ground (arith, ih, disk-install_one recovering i c s))
    | inr on ↦
        let e : min (suc r) s.power ≡ suc (min r (s.power - 1)) = ground arith in
        rw e (
          ground (
            arith,
            disk-install_loop recovering new r (i + 1) c (install_one recovering l i s)
                (Apart-next i r apart) (omega arith) (Holds-next recovering new i r s apart fits h),
            disk-install_one recovering i c s,
            power-install_one recovering i s,
            h i (omega arith) (omega arith),
          ))
  ]

-- The header block's words.
pub head_n : (r i : ℕ) (block : ℕ → ℕ) (head : Block) → write_blocks r i block head 0 ≡ head 0
unfolding write_blocks
head_n zero i block head = refl
head_n (suc r) i block head = ground (arith, head_n r (i + 1) block (update head (i + 1) (block i)))

pub head_block :
    (r i j : ℕ) (block : ℕ → ℕ) (head : Block)
    → write_blocks r i block head (j + 1)
      ≡ (if leb i j && ltb j (i + r) then block j else head (j + 1))
unfolding write_blocks
head_block zero i j block head = ground arith
head_block (suc r) i j block head =
    ground (arith, head_block r (i + 1) j block (update head (i + 1) (block i)))

pub read_block :
    (r i j : ℕ) (head : Block) (block : ℕ → ℕ)
    → read_blocks r i head block j ≡ (if leb i j && ltb j (i + r) then head (j + 1) else block j)
unfolding read_blocks
read_block zero i j head block = ground arith
read_block (suc r) i j head block =
    ground (arith, read_block r (i + 1) j head (update block i (head (i + 1))))

pub logged-ext :
    (r i c : ℕ) (f g : ℕ → ℕ)
    → ((j : ℕ) → i ≤ j → j < i + r → f j ≡ g j)
    → logged f i r c ≡ logged g i r c
unfolding logged
logged-ext zero i c f g h = refl
logged-ext (suc r) i c f g h = ground (
  arith,
  h i (omega arith) (omega arith),
  logged-ext r (i + 1) c f g (λ j a b. h j (omega arith) (omega arith)),
)

-- A logged block is no block of the log.
pub logged-Apart :
    (l : Log) (r i c : ℕ)
    → Apart l i r
    → logged l.block i r c ≡ true
    → (c < l.start) ⊎ (l.start + l.size ≤ c)
unfolding logged
logged-Apart l zero i c apart h = cc
logged-Apart l (suc r) i c apart h = elim (Bool-cases (l.block i == c)) [
  | inl e ↦ ground (arith, apart i (omega arith) (omega arith))
  | inr e ↦ logged-Apart l r (i + 1) c (Apart-next l i r apart) (ground arith)
]
