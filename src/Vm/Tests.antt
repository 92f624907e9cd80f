-- ===== src/Vm/Tests.antt =====
-- A page table in a small memory.
use mit_lab.Base.{ℕ, ◌≡◌, ◌<◌, refl, List, [], ◌+◌, ◌*◌, ◌==◌, if◌then◌else◌, arith, ok, ltb, ◌∷◌}
use mit_lab.Kalloc.{Kmem}
use mit_lab.Kalloc.Chain.{IsFree, IsPage}
use mit_lab.Vm.Space.{Space}
use mit_lab.Vm.{uvmcreate, walkaddr, maxva}
use mit_lab.Vm.Tables.{Apart, translate}
use mit_lab.Vm.Lookup.{uvmcreate-Apart, walkaddr_lem, user_addr}

-- Four free pages.
abbrev first_page : ℕ
first_page = 0x80000000

abbrev boot : Kmem
boot = record {
  freelist = first_page;
  mem = λ a.
      if a == first_page
      then first_page + 4096
      else if a == first_page + 4096
      then first_page + 8192
      else if a == first_page + 8192
      then first_page + 12288
      else 0;
}

in_range : (n : ℕ) → n < 4 → IsPage first_page (first_page + 4096 * n)
in_range n l = (omega arith, omega arith, omega arith)

abbrev others : List ℕ
others = 0x80001000 ∷ (0x80002000 ∷ (0x80003000 ∷ []))

boot-IsFree : IsFree first_page boot (first_page ∷ others)
boot-IsFree = record {
  chain = (refl, omega arith, (refl, omega arith, (refl, omega arith, (refl, omega arith, refl))));
  pages = (
    in_range 0 (omega arith),
    (in_range 1 (omega arith), (in_range 2 (omega arith), (in_range 3 (omega arith), tt))),
  );
  distinct = (
    (omega arith, (omega arith, (omega arith, tt))),
    ((omega arith, (omega arith, tt)), ((omega arith, tt), (tt, tt))),
  );
}

abbrev created :
    (k' : Kmem) × (uvmcreate boot ≡ (first_page, k'))
    × Apart first_page first_page k'
    × ((va : ℕ) → translate first_page va k'.mem ≡ 0)
created = uvmcreate-Apart first_page boot first_page others boot-IsFree

nonzero : 0 < first_page
nonzero = omega arith

walkaddr_example :
    walkaddr first_page 0x1ff000 created.0
    ≡ ok (if ltb 0x1ff000 maxva then user_addr (translate first_page 0x1ff000 created.0.mem) else 0)
walkaddr_example = walkaddr_lem first_page first_page nonzero 0x1ff000 created.0 created.2
