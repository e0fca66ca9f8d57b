-- ===== src/Vmm/Store.antt =====
-- src/mm/vmm.c: a store to a last entry, and what vmm_get_physical_in tells of it.
use lighth_os.Vmm.{
  Mem, Vm, put, up, idx, entry_at, present, addr_of, leads, is_huge, lookup, walk_lookup,
  physical_at, get_physical_in,
}
use lighth_os.Vmm.Words.{put-here, put-there, same_word}
use lighth_os.Vmm.Tree.{Place, IsTree, value, seen, value-seen, AtPlace, child_at, top_at}
use lighth_os.Vmm.Grow.{one_level, one_prefix, alike-IsTree, alike-lookup}
use lighth_os.Common.{
  ℕ, zero, suc, ◌+◌, ◌*◌, ◌%◌, ◌/◌, ◌^◌, ◌<◌, ◌≡◌, ◌≢◌, refl, ap, sym, ◌∙◌, true, Option, none,
  some, if◌then◌else◌, arith, inl, inr, Bool-cases,
}

-- the physical address that an entry gives
unfoldable pub phys_of : ℕ → ℕ → ℕ
phys_of e va = if present e then addr_of e + va % 4096 else 0

physical_at-seen : (o : Option ℕ) (va : ℕ) (m : Mem) → physical_at o va m ≡ phys_of (seen o m) va
unfolding physical_at seen phys_of present
physical_at-seen none va m = refl
physical_at-seen (some a) va m = ground arith

pub phys_of-present : (e va : ℕ) → present e ≡ true → phys_of e va ≡ addr_of e + va % 4096
unfolding phys_of
phys_of-present e va h = rw h refl

pub physical-value :
    (root va : ℕ) (s : Vm) → get_physical_in root va s ≡ phys_of (value 3 root va s.mem) va
unfolding get_physical_in walk_lookup
physical-value root va s =
    physical_at-seen (lookup 3 root va s.mem) va s.mem
    ∙ ap (λ e. phys_of e va) (sym (value-seen 3 root va s.mem))

-- where a lookup ends
pub record Ends (place : Place) (va a : ℕ) : Type 0 where
  pub leaf : ℕ
  pub leaf_place : AtPlace place 0 leaf va
  pub at : a ≡ entry_at 0 leaf va

pub lookup-Ends :
    (place : Place) (root : ℕ) (s : Vm)
    → IsTree place root s
    → (k t va a : ℕ) → AtPlace place k t va
    → va < 2 ^ 47
    → lookup k t va s.mem ≡ some a
    → Ends place va a
unfolding lookup
lookup-Ends place root s tree zero t va a e low h = record { leaf = t; leaf_place = e; at = one h }
  where
    one : some (entry_at 0 t va) ≡ some a → a ≡ entry_at 0 t va
    one q = cc
lookup-Ends place root s tree (suc k) t va a e low h =
    elim (Bool-cases (leads (suc k) (s.mem (entry_at (suc k) t va)))) [
      | inl l ↦
          lookup-Ends place root s tree k (addr_of (s.mem (entry_at (suc k) t va))) va a
            (child_at place root s tree va low k t e l) low (rw l at h)
      | inr l ↦ absurd (no_some (rw l at h))
    ]
  where
    no_some : none ≡ some a → ⊥
    no_some q = cc

not_leaf : (j : ℕ) → suc j ≡ 0 → ⊥
not_leaf j z = omega (arith, z)

-- a store to the last entry for an address
module _ (place : Place) (root : ℕ) (s : Vm) (tree : IsTree place root s) (va leaf v : ℕ)
    (at : AtPlace place 0 leaf va) where
  abbrev pub stored : Mem
  stored = put (entry_at 0 leaf va) v s.mem

  pub kept :
      (t j p i : ℕ) → place t ≡ some (suc j, p) → i < 512 → stored (t + 8 * i) ≡ s.mem (t + 8 * i)
  kept t j p i e h = put-there _ v (t + 8 * i) s.mem (λ x. not_leaf j (
      one_level (place t) (suc j) 0 p _ e (
        ap place
          (same_word t leaf i (idx 0 va) (tree.aligned t (suc j) p e) (tree.aligned leaf 0 _ at) h
            (omega arith) x).0
        ∙ at)))

  pub stored-IsTree : IsTree place root (record s { mem = stored })
  stored-IsTree =
      alike-IsTree place root s tree stored (λ t j p i e h. ap (leads (suc j)) (kept t j p i e h))
        (λ t j p i e h. ap addr_of (kept t j p i e h))
        (λ t j p i e h. ap (is_huge (suc j)) (kept t j p i e h))

  pub stored-lookup : (b : ℕ) → b < 2 ^ 47 → lookup 3 root b stored ≡ lookup 3 root b s.mem
  stored-lookup b low =
      alike-lookup place root s tree stored (λ t j p i e h. ap (leads (suc j)) (kept t j p i e h))
        (λ t j p i e h. ap addr_of (kept t j p i e h))
        (λ t j p i e h. ap (is_huge (suc j)) (kept t j p i e h)) 3 root b
        (top_at place root s tree b low) low

  other_page : (b a : ℕ) → b / 4096 ≢ va / 4096 → Ends place b a → stored a ≡ s.mem a
  unfolding up
  other_page b a ne e = put-there _ v a s.mem (λ x. apart x)
    where
      apart : a ≡ entry_at 0 leaf va → ⊥
      apart x =
          let (same_leaf, same_idx) =
            same_word e.leaf leaf (idx 0 b) (idx 0 va) (tree.aligned e.leaf 0 _ e.leaf_place)
              (tree.aligned leaf 0 _ at) (omega arith) (omega arith) (sym e.at ∙ x) in
          ne (
            omega (
              arith,
              same_idx,
              one_prefix (place leaf) 0 0 _ _ (ap place (sym same_leaf) ∙ e.leaf_place) at,
            ))

  seen-other :
      (b : ℕ) (o : Option ℕ)
      → b < 2 ^ 47
      → b / 4096 ≢ va / 4096
      → lookup 3 root b s.mem ≡ o
      → seen o stored ≡ seen o s.mem
  unfolding seen
  seen-other b none low ne h = refl
  seen-other b (some a) low ne h =
      ap (λ w. if present w then w else 0)
        (other_page b a ne
          (lookup-Ends place root s tree 3 root b a (top_at place root s tree b low) low h))

  pub value-other :
      (b : ℕ) → b < 2 ^ 47 → b / 4096 ≢ va / 4096 → value 3 root b stored ≡ value 3 root b s.mem
  value-other b low ne =
      value-seen 3 root b stored
      ∙ ap (λ o. seen o stored) (stored-lookup b low)
      ∙ seen-other b (lookup 3 root b s.mem) low ne refl
      ∙ sym (value-seen 3 root b s.mem)

  pub value-stored :
      va < 2 ^ 47
      → lookup 3 root va s.mem ≡ some (entry_at 0 leaf va)
      → present v ≡ true
      → value 3 root va stored ≡ v
  unfolding seen
  value-stored low h p =
      value-seen 3 root va stored
      ∙ ap (λ o. seen o stored) (stored-lookup va low ∙ h)
      ∙ rw (put-here (entry_at 0 leaf va) v s.mem, p) refl
