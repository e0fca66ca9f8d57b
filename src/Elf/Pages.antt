-- ===== src/Elf/Pages.antt =====
-- src/kernel/elf.c: the loop over the pages of a segment maps each of them and moves none.
use lighth_os.Pmm.{alloc_frame}
use lighth_os.Vmm.{Vm, addr_of, alloc_table, pte_of, map_in, get_physical_in}
use lighth_os.Vmm.Words.{addr_of-pte_of}
use lighth_os.Vmm.Tree.{Place, IsTree, top_at}
use lighth_os.Vmm.Store.{phys_of, physical-value}
use lighth_os.Vmm.Map.{Mapped, MapsTo, map_in-MapsTo}
use lighth_os.Vmm.Create.{Starved}
use lighth_os.Vmm.Keep.{cleared, fresh, cleared-IsTree, cleared-physical}
use lighth_os.Elf.{Load, panics, fails, goes_on, and_then, mapped, map_page, map_pages}
use lighth_os.Common.{
  ℕ, zero, suc, ◌+◌, ◌-◌, ◌*◌, ◌%◌, ◌/◌, ◌^◌, ◌≤◌, ◌<◌, ◌≡◌, ◌≢◌, refl, ap, sym, subst, ◌∙◌, Option,
  none, some, ◌==◌, arith, ◌⊎◌, inl, inr, Bool-cases, ==→eq, ==→ne,
}

-- The tables are still a tree, and every page that was mapped is where it was. A page is taken by
-- its first address, as the code does.
pub record Kept (root : ℕ) (s s' : Vm) : Type 0 where
  pub place : Place
  pub tree : IsTree place root s'
  pub pages :
      (a : ℕ)
      → a < 2 ^ 47
      → a % 4096 ≡ 0
      → get_physical_in root a s ≢ 0
      → get_physical_in root a s' ≡ get_physical_in root a s

-- The `n` pages from `a` on are mapped, and no other address has changed.
pub record Covered (root a n : ℕ) (s s' : Vm) : Type 0 where
  pub kept : Kept root s s'
  pub covered : (i : ℕ) → i < n → get_physical_in root (a + 4096 * i) s' ≢ 0
  pub others :
      (va : ℕ)
      → va < 2 ^ 47
      → (va < a) ⊎ (a + 4096 * n ≤ va)
      → get_physical_in root va s' ≡ get_physical_in root va s

-- How the loop ends early: with the tree and the mapped pages kept, the frame allocator gives no
-- frame for a page, or alloc_table none for a table.
pub record OutOfFrames (root : ℕ) (s s' : Vm) : Type 0 where
  pub last : Vm
  pub kept : Kept root s last
  pub no_frame : (alloc_frame last.pmm).0 ≡ 0
  pub result : s' ≡ record last { pmm = (alloc_frame last.pmm).1 }

pub record OutOfTables (root : ℕ) (s : Vm) : Type 0 where
  pub last : Vm
  pub kept : Kept root s last
  pub no_table : alloc_table last ≡ none

pub Outcome : ℕ → ℕ → ℕ → Vm → Load → Type 0
Outcome root a n s panics = OutOfTables root s
Outcome root a n s (fails s') = OutOfFrames root s s'
Outcome root a n s (goes_on s') = Covered root a n s s'

Kept-then : {root : ℕ} {s s1 s2 : Vm} → Kept root s s1 → Kept root s1 s2 → Kept root s s2
Kept-then {root} a b = record {
  place = b.place;
  tree = b.tree;
  pages = λ v l h m. b.pages v l h (subst (λ x. x ≢ 0) (sym (a.pages v l h m)) m) ∙ a.pages v l h m;
}

Kept-refl : (place : Place) (root : ℕ) (s : Vm) → IsTree place root s → Kept root s s
Kept-refl place root s tree = record { place = place; tree = tree; pages = λ a l h m. refl }

module _ (place : Place) (root a : ℕ) (s : Vm) (tree : IsTree place root s) (aligned : a % 4096 ≡ 0)
    (low : a < 2 ^ 47) where
  here-Covered : get_physical_in root a s ≢ 0 → Covered root a 1 s s
  here-Covered m = record {
    kept = Kept-refl place root s tree;
    covered = λ i h. subst (λ x. get_physical_in root x s ≢ 0) (omega (arith, h)) m;
    others = λ va l o. refl;
  }

  module _ (ne : (alloc_frame s.pmm).0 ≢ 0) (unmapped : get_physical_in root a s ≡ 0) where
    abbrev z : Vm
    z = cleared place root s tree ne

    abbrev frame : ℕ
    frame = (alloc_frame s.pmm).0

    frame_address : addr_of (pte_of frame 6) + a % 4096 ≡ frame
    unfolding addr_of
    frame_address = omega (
      arith,
      addr_of-pte_of frame 6,
      (fresh place root s tree ne).aligned,
      (fresh place root s tree ne).low,
      aligned,
    )

    new-Covered : (s' : Vm) → Mapped place root a (pte_of frame 6) z s' → Covered root a 1 s s'
    new-Covered s' m = record {
      kept = record {
        place = m.place';
        tree = m.tree;
        pages = λ p l h n.
            m.others p l (λ e.
              n (ap (λ x. get_physical_in root x s) (omega (arith, e, h, aligned)) ∙ unmapped))
            ∙ cleared-physical place root s tree ne p l;
      };
      covered = λ i h x. ne (
          sym (m.address ∙ frame_address)
          ∙ ap (λ v. get_physical_in root v s') (omega (arith, h))
          ∙ x);
      others = λ va l o. m.others va l (apart va o) ∙ cleared-physical place root s tree ne va l;
    }
      where
        apart : (va : ℕ) → (va < a) ⊎ (a + 4096 * 1 ≤ va) → va / 4096 ≢ a / 4096
        apart va (inl h) e = omega (arith, h, e, aligned)
        apart va (inr h) e = omega (arith, h, e, aligned)

    cleared-Kept : Kept root s z
    cleared-Kept = record {
      place = place;
      tree = cleared-IsTree place root s tree ne;
      pages = λ p l h n. cleared-physical place root s tree ne p l;
    }

    map_in-OutOfTables : Starved place root 3 z → OutOfTables root s
    map_in-OutOfTables e = record {
      last = e.last;
      kept = Kept-then cleared-Kept (record {
        place = e.place';
        tree = e.grows.tree;
        pages = λ p l h n.
            physical-value root p e.last
            ∙ ap (λ v. phys_of v p)
                (e.grows.same 3 root p
                  (top_at place root z (cleared-IsTree place root s tree ne) p l) l)
            ∙ sym (physical-value root p z);
      });
      no_table = e.no_table;
    }

    new-Outcome :
        (o : Option Vm) → MapsTo place root a (pte_of frame 6) z o → Outcome root a 1 s (mapped o)
    unfolding mapped MapsTo Outcome
    new-Outcome none m = map_in-OutOfTables m
    new-Outcome (some s') m = new-Covered s' m

  map_page-Outcome : Outcome root a 1 s (map_page root a s)
  unfolding map_page Outcome
  map_page-Outcome = elim (Bool-cases (get_physical_in root a s == 0)) [
    | inr m ↦ rw m (here-Covered (==→ne (get_physical_in root a s) 0 m))
    | inl m ↦ elim (Bool-cases ((alloc_frame s.pmm).0 == 0)) [
      | inl e ↦
          rw (m, e)
            (record {
              last = s;
              kept = Kept-refl place root s tree;
              no_frame = ==→eq (alloc_frame s.pmm).0 0 e;
              result = refl;
            })
      | inr e ↦
          rw (m, e) (step (==→ne (alloc_frame s.pmm).0 0 e) (==→eq (get_physical_in root a s) 0 m))
    ]
  ]
    where
      step :
          (ne : (alloc_frame s.pmm).0 ≢ 0)
          → get_physical_in root a s ≡ 0
          → Outcome root a 1 s
              (mapped (map_in root a (alloc_frame s.pmm).0 6 (cleared place root s tree ne)))
      step ne u =
          new-Outcome ne u (map_in root a (alloc_frame s.pmm).0 6 (cleared place root s tree ne)) (
            map_in-MapsTo place root a (alloc_frame s.pmm).0 6 (cleared place root s tree ne)
              (cleared-IsTree place root s tree ne) low)

-- one page and the rest
Covered-then :
    {root a n : ℕ} {s s1 s2 : Vm}
    → a % 4096 ≡ 0
    → a + 4096 * suc n ≤ 2 ^ 47
    → Covered root a 1 s s1
    → Covered root (a + 4096) n s1 s2
    → Covered root a (suc n) s s2
Covered-then {root} {a} {n} {s} {s1} {s2} al fit p q = record {
  kept = Kept-then p.kept q.kept;
  covered = λ i h. elim (Bool-cases (i == 0)) [
    | inl e ↦ first i (==→eq i 0 e)
    | inr e ↦ later i h (==→ne i 0 e)
  ];
  others = λ va l o. q.others va l (right va o) ∙ p.others va l (left va o);
}
  where
    first : (i : ℕ) → i ≡ 0 → get_physical_in root (a + 4096 * i) s2 ≢ 0
    first i e =
        subst (λ x. x ≢ 0)
          (sym (q.others (a + 4096 * i) (omega (arith, e, fit)) (inl (omega (arith, e)))))
          (p.covered i (omega (arith, e)))

    later : (i : ℕ) → i < suc n → i ≢ 0 → get_physical_in root (a + 4096 * i) s2 ≢ 0
    later i h e =
        subst (λ x. get_physical_in root x s2 ≢ 0) (omega (arith, h, e))
          (q.covered (i - 1) (omega (arith, h, e)))

    left : (va : ℕ) → (va < a) ⊎ (a + 4096 * suc n ≤ va) → (va < a) ⊎ (a + 4096 * 1 ≤ va)
    left va (inl h) = inl h
    left va (inr h) = inr (omega (arith, h))

    right :
        (va : ℕ) → (va < a) ⊎ (a + 4096 * suc n ≤ va) → (va < a + 4096) ⊎ (a + 4096 + 4096 * n ≤ va)
    right va (inl h) = inl (omega (arith, h))
    right va (inr h) = inr (omega (arith, h))

-- The first page is mapped, and the loop is at the next.
then-Outcome :
    (n : ℕ) {root a : ℕ} {s s1 : Vm}
    → a % 4096 ≡ 0
    → a + 4096 * suc n ≤ 2 ^ 47
    → Covered root a 1 s s1
    → (r : Load) → Outcome root (a + 4096) n s1 r
    → Outcome root a (suc n) s r
unfolding Outcome
then-Outcome n al fit p panics o = record {
  last = o.last;
  kept = Kept-then p.kept o.kept;
  no_table = o.no_table;
}
then-Outcome n al fit p (fails s') o = record {
  last = o.last;
  kept = Kept-then p.kept o.kept;
  no_frame = o.no_frame;
  result = o.result;
}
then-Outcome n al fit p (goes_on s') o = Covered-then al fit p o

-- An early end at the first page ends the loop.
chain-Outcome :
    (n : ℕ) {root a : ℕ} {s : Vm}
    → (r : Load) (next : Vm → Load) → Outcome root a 1 s r
    → ((s1 : Vm) → Covered root a 1 s s1 → Outcome root a (suc n) s (next s1))
    → Outcome root a (suc n) s (and_then r next)
unfolding and_then Outcome
chain-Outcome n panics next o h = o
chain-Outcome n (fails s') next o h = o
chain-Outcome n (goes_on s1) next o h = h s1 o

-- From page tables that form a tree, the loop of elf_load_at over the pages of a segment
-- below 2^47 ends with each of them mapped, every address outside of them as before and
-- every page that was mapped where it was; it returns 0 or panics only where the frame
-- allocator gives no frame or alloc_table no table, and the tree and the mapped pages are
-- kept then too.
pub map_pages-Outcome :
    (n : ℕ) (place : Place) (root a : ℕ) (s : Vm)
    → IsTree place root s
    → a % 4096 ≡ 0
    → a + 4096 * n ≤ 2 ^ 47
    → Outcome root a n s (map_pages n root a s)
unfolding map_pages Outcome
map_pages-Outcome zero place root a s tree al fit = record {
  kept = Kept-refl place root s tree;
  covered = λ i h. absurd (omega (arith, h));
  others = λ va l o. refl;
}
map_pages-Outcome (suc n) place root a s tree al fit =
    chain-Outcome n (map_page root a s) (λ t. map_pages n root (a + 4096) t)
      (map_page-Outcome place root a s tree al (omega (arith, fit)))
      (λ s1 c. then-Outcome n al fit c (map_pages n root (a + 4096) s1) (
        map_pages-Outcome n c.kept.place root (a + 4096) s1 c.kept.tree (omega (arith, al))
          (omega (arith, fit))))
