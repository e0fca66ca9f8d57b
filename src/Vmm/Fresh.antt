-- ===== src/Vmm/Fresh.antt =====
-- src/mm/vmm.c: a new table, as alloc_table makes it and walk_create links it.
use lighth_os.Pmm.{alloc_frame}
use lighth_os.Pmm.Inv as Inv
use lighth_os.Pmm.Alloc.{Alloc, alloc_frame-Alloc}
use lighth_os.Vmm.{
  Mem, Vm, put, zero_page, idx, entry_at, present, addr_of, leads, mid_flags, alloc_table,
  direct_map_limit, huge, is_huge,
}
use lighth_os.Vmm.Words.{
  same_word, put-here, put-there, zero_page-inside, zero_page-outside, addr_of-link, leads-link,
  is_huge-link,
}
use lighth_os.Vmm.Tree.{Place, IsUser, IsTree, value, AtPlace, child_at}
use lighth_os.Vmm.Grow.{Grows, one_level, one_prefix, other_level}
use lighth_os.Common.{
  ℕ, zero, suc, ◌+◌, ◌*◌, ◌%◌, ◌^◌, ◌/◌, ◌<◌, ◌≡◌, ◌≢◌, refl, ap, sym, subst, ◌∙◌, Bool, true,
  false, ◌||◌, none, some, ◌==◌, leb, if◌then◌else◌, arith, ◌⊎◌, inl, inr, Bool-cases, ==→eq, ==→ne,
  ==_self, ne→==, true≢false,
}

-- What alloc_table has done to get the frame `f`.
pub record Fresh (s : Vm) (f : ℕ) (s' : Vm) : Type 0 where
  pub aligned : f % 4096 ≡ 0
  pub low : f < 2 ^ 52
  pub unused : Inv.is_used s.pmm (f / 4096) ≡ false
  pub valid : Inv.IsValid s'.pmm
  pub used : (g : ℕ) → Inv.is_used s'.pmm g ≡ ((g == f / 4096) || Inv.is_used s.pmm g)
  pub result : s' ≡ record s { pmm = s'.pmm; mem = zero_page f s.mem }

pub alloc_frame-Fresh :
    (s : Vm)
    → Inv.IsValid s.pmm
    → Alloc s.pmm (alloc_frame s.pmm)
    → (alloc_frame s.pmm).0 ≢ 0
    → Fresh s
        (alloc_frame s.pmm).0
        (record s { pmm = (alloc_frame s.pmm).1; mem = zero_page (alloc_frame s.pmm).0 s.mem })
alloc_frame-Fresh s v (inl (g, below, e, free, first, t)) h = record {
  aligned = omega (arith, e);
  low = omega (arith, e, below, v.small);
  unused = ap (Inv.is_used s.pmm) number ∙ free;
  valid = subst Inv.IsValid (sym t) (Inv.taken-IsValid v g below free);
  used = λ x.
      ap (λ q. Inv.is_used q x) t
      ∙ Inv.used-taken v g below x
      ∙ ap (λ n. (x == n) || Inv.is_used s.pmm x) (sym number);
  result = refl;
}
  where
    number : (alloc_frame s.pmm).0 / 4096 ≡ g
    number = omega (arith, e)
alloc_frame-Fresh s v (inr (e, t, full)) h = absurd (h e)

pub alloc_table-Fresh :
    (s : Vm) (f : ℕ) (s' : Vm) → Inv.IsValid s.pmm → alloc_table s ≡ some (f, s') → Fresh s f s'
unfolding alloc_table
alloc_table-Fresh s f s' v e =
    elim (Bool-cases ((alloc_frame s.pmm).0 == 0 || leb direct_map_limit (alloc_frame s.pmm).0)) [
      | inl h ↦ absurd (no_some (rw h at e))
      | inr h ↦
          let q = rw h at e in
          subst (λ (x : ℕ × Vm). Fresh s x.0 x.1) (one_some q)
            (alloc_frame-Fresh s v (alloc_frame-Alloc v) (λ z. ground (arith, h, z)))
    ]
  where
    pair : ℕ × Vm
    pair = (f, s')

    no_some : none ≡ some pair → ⊥
    no_some x = cc

    one_some : {x : ℕ × Vm} → some x ≡ some pair → x ≡ pair
    one_some x = cc

module _ (place : Place) (root : ℕ) (s : Vm) (tree : IsTree place root s) (t k p i : ℕ)
    (e : place t ≡ some (suc k, p)) (inside : i < 512) (half : IsUser (suc k) i)
    (missing : present (s.mem (t + 8 * i)) ≡ false) (f : ℕ) (s1 : Vm) (fresh : Fresh s f s1)
    (user : Bool) where
  abbrev pub linked : Mem
  linked = put (t + 8 * i) (f + mid_flags user) (zero_page f s.mem)

  abbrev pub grown : Place
  grown u = if u == f then some (k, p * 512 + i) else place u

  placed-ne : (u j q : ℕ) → place u ≡ some (j, q) → u ≢ f
  placed-ne u j q h x =
      true≢false
        (sym (tree.taken u j q h) ∙ ap (λ n. Inv.is_used s.pmm (n / 4096)) x ∙ fresh.unused)

  grown-extends : (u j q : ℕ) → place u ≡ some (j, q) → grown u ≡ some (j, q)
  grown-extends u j q h = rw (ne→== u f (placed-ne u j q h)) h

  grown-f : grown f ≡ some (k, p * 512 + i)
  grown-f = rw (==_self f) refl

  word-kept :
      (u j q l : ℕ)
      → place u ≡ some (j, q)
      → l < 512
      → u + 8 * l ≢ t + 8 * i
      → linked (u + 8 * l) ≡ s.mem (u + 8 * l)
  word-kept u j q l h m ne =
      put-there (t + 8 * i) _ (u + 8 * l) (zero_page f s.mem) ne
      ∙ zero_page-outside f u l s.mem (tree.aligned u j q h) fresh.aligned (placed-ne u j q h) m

  pub word-linked : linked (t + 8 * i) ≡ f + mid_flags user
  word-linked = put-here (t + 8 * i) _ (zero_page f s.mem)

  word-fresh : (l : ℕ) → l < 512 → linked (f + 8 * l) ≡ 0
  word-fresh l m =
      put-there (t + 8 * i) _ (f + 8 * l) (zero_page f s.mem) (λ x.
        placed-ne t (suc k) p e
          (sym (same_word f t l i fresh.aligned (tree.aligned t (suc k) p e) m inside x).0))
      ∙ zero_page-inside f (f + 8 * l) s.mem (omega arith) (omega arith)

  grown-cases : (u j q : ℕ) → grown u ≡ some (j, q) → ((u ≡ f) × (j ≡ k)) ⊎ (place u ≡ some (j, q))
  grown-cases u j q h = elim (Bool-cases (u == f)) [
    | inl x ↦ inl (
      ==→eq u f x,
      one_level (grown f) j k q (p * 512 + i) (ap grown (sym (==→eq u f x)) ∙ h) grown-f,
    )
    | inr x ↦ inr (rw x at h)
  ]

  leads-zero : (j : ℕ) → leads j 0 ≡ false
  unfolding leads present
  leads-zero j = refl

  leads-missing : (j : ℕ) → leads j (s.mem (t + 8 * i)) ≡ false
  unfolding leads
  leads-missing j = rw missing refl

  empty-value : (j va : ℕ) → value j f va linked ≡ 0
  unfolding value present
  empty-value zero va = rw (word-fresh (idx 0 va) (omega arith)) refl
  empty-value (suc j) va = rw (word-fresh (idx (suc j) va) (omega arith), leads-zero (suc j)) refl

  pub link_child : grown (addr_of (linked (t + 8 * i))) ≡ some (k, p * 512 + i)
  link_child =
      ap grown (ap addr_of word-linked ∙ addr_of-link f user fresh.aligned fresh.low) ∙ grown-f

  child-placed :
      (u j q l : ℕ)
      → place u ≡ some (suc j, q)
      → l < 512
      → IsUser (suc j) l
      → leads (suc j) (linked (u + 8 * l)) ≡ true
      → grown (addr_of (linked (u + 8 * l))) ≡ some (j, q * 512 + l)
  child-placed u j q l h m x lead = elim (Bool-cases ((u + 8 * l) == (t + 8 * i))) [
    | inl y ↦
        let (tu, il) =
          same_word u t l i (tree.aligned u (suc j) q h) (tree.aligned t (suc k) p e) m inside
            (==→eq _ _ y) in
        let at : place u ≡ some (suc k, p) = ap place tu ∙ e in
        let levels : j ≡ k = omega (arith, one_level (place u) (suc j) (suc k) q p h at) in
        let prefixes : q ≡ p = one_prefix (place u) (suc j) (suc k) q p h at in
        ap (λ w. grown (addr_of (linked w))) (==→eq _ _ y)
        ∙ link_child
        ∙ ap (λ n. some (k, n)) {y = q * 512 + l} (omega arith)
        ∙ ap (λ n. some (n, q * 512 + l)) (sym levels)
    | inr y ↦
        let kept = word-kept u (suc j) q l h m (==→ne _ _ y) in
        ap (λ w. grown (addr_of w)) kept
        ∙ grown-extends _ j (q * 512 + l)
            (tree.child u j q l h m x (ap (leads (suc j)) (sym kept) ∙ lead))
  ]

  is_huge-zero : (j : ℕ) → is_huge j 0 ≡ false
  unfolding is_huge huge
  is_huge-zero j = ground arith

  no_huge-placed :
      (u j q l : ℕ)
      → place u ≡ some (suc j, q)
      → l < 512
      → IsUser (suc j) l
      → is_huge (suc j) (linked (u + 8 * l)) ≡ false
  no_huge-placed u j q l h m x = elim (Bool-cases ((u + 8 * l) == (t + 8 * i))) [
    | inl y ↦
        ap (λ w. is_huge (suc j) (linked w)) (==→eq _ _ y)
        ∙ ap (is_huge (suc j)) word-linked
        ∙ is_huge-link f user fresh.aligned fresh.low (suc j)
    | inr y ↦
        ap (is_huge (suc j)) (word-kept u (suc j) q l h m (==→ne _ _ y))
        ∙ tree.no_huge u j q l h m x
  ]

  grown-IsTree : IsTree grown root (record s1 { mem = linked })
  grown-IsTree = record {
    pmm_valid = fresh.valid;
    top = grown-extends root 3 0 tree.top;
    aligned = λ u j q h. elim (grown-cases u j q h) [
      | inl (x, y) ↦ ap (λ n. n % 4096) x ∙ fresh.aligned
      | inr x ↦ tree.aligned u j q x
    ];
    taken = λ u j q h. fresh.used (u / 4096) ∙ elim (grown-cases u j q h) [
      | inl (x, y) ↦ rw (x, ==_self (f / 4096)) refl
      | inr x ↦ rw (tree.taken u j q x) (ground arith)
    ];
    child = λ u j q l h m x lead. elim (grown-cases u (suc j) q h) [
      | inl (y, z) ↦ absurd (
          true≢false (
            sym lead
            ∙ ap (λ w. leads (suc j) (linked (w + 8 * l))) y
            ∙ ap (leads (suc j)) (word-fresh l m)
            ∙ leads-zero (suc j)))
      | inr y ↦ child-placed u j q l y m x lead
    ];
    no_huge = λ u j q l h m x. elim (grown-cases u (suc j) q h) [
      | inl (y, z) ↦
          ap (λ w. is_huge (suc j) (linked (w + 8 * l))) y
          ∙ ap (is_huge (suc j)) (word-fresh l m)
          ∙ is_huge-zero (suc j)
      | inr y ↦ no_huge-placed u j q l y m x
    ];
  }

  linked-value :
      (j u va : ℕ) → AtPlace place j u va → va < 2 ^ 47 → value j u va linked ≡ value j u va s.mem
  unfolding value
  linked-value zero u va h low =
      ap (λ w. if present w then w else 0)
        (word-kept u 0 _ (idx 0 va) h (omega arith) (
          other_level place root s tree t k p i e inside u 0 _ (idx 0 va) h (omega arith)
            (λ z. omega (arith, z))))
  linked-value (suc j) u va h low = elim (Bool-cases (entry_at (suc j) u va == (t + 8 * i))) [
    | inl y ↦
        let q : entry_at (suc j) u va ≡ t + 8 * i = ==→eq _ _ y in
        let old : leads (suc j) (s.mem (entry_at (suc j) u va)) ≡ false =
          ap (λ w. leads (suc j) (s.mem w)) q ∙ leads-missing (suc j) in
        let entry : linked (entry_at (suc j) u va) ≡ f + mid_flags user =
          ap linked q ∙ word-linked in
        ap (λ x. if leads (suc j) x then value j (addr_of x) va linked else 0) entry
        ∙ rw
            (
              leads-link f user fresh.aligned fresh.low (suc j),
              old,
              addr_of-link f user fresh.aligned fresh.low,
            )
            (empty-value j va)
    | inr y ↦
        let kept = word-kept u (suc j) _ (idx (suc j) va) h (omega arith) (==→ne _ _ y) in
        ap (λ x. if leads (suc j) x then value j (addr_of x) va linked else 0) kept
        ∙ elim (Bool-cases (leads (suc j) (s.mem (entry_at (suc j) u va)))) [
          | inl l ↦ rw l (
              linked-value j (addr_of (s.mem (entry_at (suc j) u va))) va
                (child_at place root s tree va low j u h l) low)
          | inr l ↦ rw l refl
        ]
  ]

  pub linked-Grows : Grows place root (suc k) s (record s1 { mem = linked }) grown
  linked-Grows = record {
    extends = grown-extends;
    tree = grown-IsTree;
    same = linked-value;
    above = λ u j q l h m x.
        word-kept u j q l h x
          (other_level place root s tree t k p i e inside u j q l h x (λ z. omega (arith, z, m)));
  }
