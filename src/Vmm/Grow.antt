-- ===== src/Vmm/Grow.antt =====
-- src/mm/vmm.c: what a step of walk_create that opens an entry to ring 3 leaves of the tree.
use lighth_os.Vmm.{Mem, Vm, put, idx, entry_at, present, addr_of, or_user, leads, is_huge, lookup}
use lighth_os.Vmm.Words.{
  same_word, put-here, put-there, addr_of-or_user, leads-or_user, is_huge-or_user,
}
use lighth_os.Vmm.Tree.{Place, IsTree, value, AtPlace, child_at}
use lighth_os.Common.{
  ℕ, zero, suc, ◌+◌, ◌*◌, ◌^◌, ◌<◌, ◌≡◌, ◌≢◌, refl, ap, sym, ◌∙◌, true, Option, some, ◌==◌,
  if◌then◌else◌, arith, inl, inr, Bool-cases, ==→eq, ==→ne,
}

-- What a step at level `k` leaves: the tree may have grown, every address of the user half is mapped
-- as before, and the tables above the level have kept their words.
pub record Grows (place : Place) (root k : ℕ) (s s' : Vm) (place' : Place) : Type 0 where
  pub extends : (t j p : ℕ) → place t ≡ some (j, p) → place' t ≡ some (j, p)
  pub tree : IsTree place' root s'
  pub same :
      (j t va : ℕ) → AtPlace place j t va → va < 2 ^ 47 → value j t va s'.mem ≡ value j t va s.mem
  pub above :
      (t j p i : ℕ)
      → place t ≡ some (j, p)
      → k < j
      → i < 512
      → s'.mem (t + 8 * i) ≡ s.mem (t + 8 * i)

-- Two places of one table are equal.
pub one_level : (o : Option (ℕ × ℕ)) (j k p q : ℕ) → o ≡ some (j, p) → o ≡ some (k, q) → j ≡ k
one_level o j k p q e f = cc

pub one_prefix : (o : Option (ℕ × ℕ)) (j k p q : ℕ) → o ≡ some (j, p) → o ≡ some (k, q) → p ≡ q
one_prefix o j k p q e f = cc

-- a memory whose entries lead where those of `s` do
module _ (place : Place) (root : ℕ) (s : Vm) (tree : IsTree place root s) (m : Mem)
    (lead : (t j p i : ℕ)
      → place t ≡ some (suc j, p)
      → i < 512
      → leads (suc j) (m (t + 8 * i)) ≡ leads (suc j) (s.mem (t + 8 * i)))
    (addr : (t j p i : ℕ)
      → place t ≡ some (suc j, p)
      → i < 512
      → addr_of (m (t + 8 * i)) ≡ addr_of (s.mem (t + 8 * i)))
    (big : (t j p i : ℕ)
      → place t ≡ some (suc j, p)
      → i < 512
      → is_huge (suc j) (m (t + 8 * i)) ≡ is_huge (suc j) (s.mem (t + 8 * i))) where
  pub alike-IsTree : IsTree place root (record s { mem = m })
  alike-IsTree = record {
    pmm_valid = tree.pmm_valid;
    top = tree.top;
    aligned = tree.aligned;
    taken = tree.taken;
    child = λ t k p i e l u h.
        ap place (addr t k p i e l) ∙ tree.child t k p i e l u (sym (lead t k p i e l) ∙ h);
    no_huge = λ t k p i e l u. big t k p i e l ∙ tree.no_huge t k p i e l u;
  }

  pub alike-lookup :
      (k t va : ℕ) → AtPlace place k t va → va < 2 ^ 47 → lookup k t va m ≡ lookup k t va s.mem
  unfolding lookup
  alike-lookup zero t va e low = refl
  alike-lookup (suc k) t va e low =
      elim (Bool-cases (leads (suc k) (s.mem (entry_at (suc k) t va)))) [
        | inl l ↦
            rw (lead t k _ (idx (suc k) va) e (omega arith), l)
              (ap (λ c. lookup k c va m) (addr t k _ (idx (suc k) va) e (omega arith))
                ∙ alike-lookup k (addr_of (s.mem (entry_at (suc k) t va))) va
                    (child_at place root s tree va low k t e l) low)
        | inr l ↦ rw (lead t k _ (idx (suc k) va) e (omega arith), l) refl
      ]

  pub alike-value :
      ((t p i : ℕ) → place t ≡ some (0, p) → i < 512 → m (t + 8 * i) ≡ s.mem (t + 8 * i))
      → (j t va : ℕ) → AtPlace place j t va
      → va < 2 ^ 47
      → value j t va m ≡ value j t va s.mem
  unfolding value
  alike-value leaf zero t va e low =
      ap (λ w. if present w then w else 0) (leaf t _ (idx 0 va) e (omega arith))
  alike-value leaf (suc k) t va e low =
      elim (Bool-cases (leads (suc k) (s.mem (entry_at (suc k) t va)))) [
        | inl l ↦
            rw (lead t k _ (idx (suc k) va) e (omega arith), l)
              (ap (λ c. value k c va m) (addr t k _ (idx (suc k) va) e (omega arith))
                ∙ alike-value leaf k (addr_of (s.mem (entry_at (suc k) t va))) va
                    (child_at place root s tree va low k t e l) low)
        | inr l ↦ rw (lead t k _ (idx (suc k) va) e (omega arith), l) refl
      ]

-- an entry opened to ring 3
module _ (place : Place) (root : ℕ) (s : Vm) (tree : IsTree place root s) (t k p i : ℕ)
    (e : place t ≡ some (suc k, p)) (inside : i < 512) where
  abbrev pub opened : Mem
  opened = put (t + 8 * i) (or_user (s.mem (t + 8 * i))) s.mem

  opened-at : (b : ℕ) → (b == (t + 8 * i)) ≡ true → opened b ≡ or_user (s.mem b)
  opened-at b h =
      let q : b ≡ t + 8 * i = ==→eq b (t + 8 * i) h in
      ap opened q ∙ put-here (t + 8 * i) _ s.mem ∙ ap (λ c. or_user (s.mem c)) (sym q)

  opened-leads : (j b : ℕ) → leads j (opened b) ≡ leads j (s.mem b)
  opened-leads j b = elim (Bool-cases (b == (t + 8 * i))) [
    | inl h ↦ ap (leads j) (opened-at b h) ∙ leads-or_user (s.mem b) j
    | inr h ↦ ap (leads j) (put-there (t + 8 * i) _ b s.mem (==→ne b (t + 8 * i) h))
  ]

  opened-addr_of : (b : ℕ) → addr_of (opened b) ≡ addr_of (s.mem b)
  opened-addr_of b = elim (Bool-cases (b == (t + 8 * i))) [
    | inl h ↦ ap addr_of (opened-at b h) ∙ addr_of-or_user (s.mem b)
    | inr h ↦ ap addr_of (put-there (t + 8 * i) _ b s.mem (==→ne b (t + 8 * i) h))
  ]

  opened-is_huge : (j b : ℕ) → is_huge j (opened b) ≡ is_huge j (s.mem b)
  opened-is_huge j b = elim (Bool-cases (b == (t + 8 * i))) [
    | inl h ↦ ap (is_huge j) (opened-at b h) ∙ is_huge-or_user (s.mem b) j
    | inr h ↦ ap (is_huge j) (put-there (t + 8 * i) _ b s.mem (==→ne b (t + 8 * i) h))
  ]

  -- The entry of another level is another word.
  pub other_level :
      (u j q l : ℕ) → place u ≡ some (j, q) → l < 512 → j ≢ suc k → u + 8 * l ≢ t + 8 * i
  other_level u j q l f h ne x = ne (
      one_level (place u) j (suc k) q p f (
        ap place
          (same_word u t l i (tree.aligned u j q f) (tree.aligned t (suc k) p e) h inside x).0
        ∙ e))

  pub opened-Grows : Grows place root (suc k) s (record s { mem = opened }) place
  opened-Grows = record {
    extends = λ u j q f. f;
    tree =
        alike-IsTree place root s tree opened (λ u j q l f h. opened-leads (suc j) (u + 8 * l))
          (λ u j q l f h. opened-addr_of (u + 8 * l))
          (λ u j q l f h. opened-is_huge (suc j) (u + 8 * l));
    same =
        alike-value place root s tree opened (λ u j q l f h. opened-leads (suc j) (u + 8 * l))
          (λ u j q l f h. opened-addr_of (u + 8 * l))
          (λ u j q l f h. opened-is_huge (suc j) (u + 8 * l))
          (λ u q l f h.
            put-there (t + 8 * i) _ (u + 8 * l) s.mem
              (other_level u 0 q l f h (λ z. omega (arith, z))));
    above = λ u j q l f h m.
        put-there (t + 8 * i) _ (u + 8 * l) s.mem
          (other_level u j q l f m (λ z. omega (arith, z, h)));
  }
