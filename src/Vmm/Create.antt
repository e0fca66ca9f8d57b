-- ===== src/Vmm/Create.antt =====
-- src/mm/vmm.c: walk_create makes the whole way to an address of the user half.
use lighth_os.Vmm.{
  Mem, Vm, up, idx, entry_at, present, addr_of, user_bit, leads, is_huge, ensure, alloc_table,
  link_new, Walk, panics, blocked, found, descend, create, lookup,
}
use lighth_os.Vmm.Tree.{Place, IsTree, AtPlace, idx-IsUser}
use lighth_os.Vmm.Grow.{Grows}
use lighth_os.Vmm.Step.{Ensured, ensure-Ensured, leads-present}
use lighth_os.Common.{
  ℕ, zero, suc, ◌/◌, ◌^◌, ◌≤◌, ◌<◌, ◌≡◌, refl, ap, sym, subst, ◌∙◌, Bool, true, false, ◌&&◌, Option,
  none, some, arith, inl, inr, Bool-cases, Option-cases,
}

-- whether each table on the way is open to ring 3
unfoldable pub opens : ℕ → ℕ → ℕ → Mem → Bool
opens zero t va m = true
opens (suc k) t va m =
    let e = m (entry_at (suc k) t va) in
    let rest = opens k (addr_of e) va m in leads (suc k) e && user_bit e && rest

pub record Created (user : Bool) (place : Place) (root k t va : ℕ) (s s' : Vm) (a : ℕ)
    : Type 0 where
  pub place' : Place
  pub grows : Grows place root k s s' place'
  pub path : lookup k t va s'.mem ≡ some a
  pub open_way : user ≡ true → opens k t va s'.mem ≡ true
  pub leaf : ℕ
  pub leaf_place : AtPlace place' 0 leaf va
  pub at : a ≡ entry_at 0 leaf va

-- one step after another, at this level or a lower one
Grows-then :
    {place p1 p2 : Place} {root k j : ℕ} {s s1 s2 : Vm}
    → j ≤ k
    → Grows place root k s s1 p1
    → Grows p1 root j s1 s2 p2
    → Grows place root k s s2 p2
Grows-then l a b = record {
  extends = λ t j p e. b.extends t j p (a.extends t j p e);
  tree = b.tree;
  same = λ j t va e low. b.same j t va (a.extends t j _ e) low ∙ a.same j t va e low;
  above =
      λ t j p i e m h. b.above t j p i (a.extends t j p e) (omega arith) h ∙ a.above t j p i e m h;
}

descend_step :
    (k : ℕ) (a0 : ℕ) (s1 : Vm) (next : ℕ → Vm → Walk)
    → is_huge k (s1.mem a0) ≡ false
    → descend k a0 (some s1) next ≡ next (addr_of (s1.mem a0)) s1
unfolding descend
descend_step k a0 s1 next h = rw h refl

lookup_step :
    (k t va : ℕ) (m : Mem)
    → leads (suc k) (m (entry_at (suc k) t va)) ≡ true
    → lookup (suc k) t va m ≡ lookup k (addr_of (m (entry_at (suc k) t va))) va m
unfolding lookup
lookup_step k t va m h = rw h refl

pub opens_step :
    (k t va : ℕ) (m : Mem)
    → leads (suc k) (m (entry_at (suc k) t va)) ≡ true
    → user_bit (m (entry_at (suc k) t va)) ≡ true
    → opens (suc k) t va m ≡ opens k (addr_of (m (entry_at (suc k) t va))) va m
unfolding opens
opens_step k t va m h u = rw (h, u) refl

-- The walk has come to a state in which alloc_table gives nothing.
pub record Starved (place : Place) (root k : ℕ) (s : Vm) : Type 0 where
  pub place' : Place
  pub last : Vm
  pub grows : Grows place root k s last place'
  pub no_table : alloc_table last ≡ none

ensure-none : (user : Bool) (a : ℕ) (s : Vm) → ensure user a s ≡ none → alloc_table s ≡ none
unfolding ensure link_new
ensure-none user a s h = elim (Bool-cases (present (s.mem a))) [
  | inl p ↦ absurd (some_none (rw p at h))
  | inr p ↦ elim (Option-cases (alloc_table s)) [
    | inl e ↦ e
    | inr ((f, s1), e) ↦ absurd (some_none (sym (ap (link_new user a) e) ∙ (rw p at h)))
  ]
]
  where
    some_none : {x : Vm} → some x ≡ none → ⊥
    some_none q = cc

Grows-refl :
    (place : Place) (root k : ℕ) (s : Vm) → IsTree place root s → Grows place root k s s place
Grows-refl place root k s tree = record {
  extends = λ u j p f. f;
  tree = tree;
  same = λ j u v f l. refl;
  above = λ u j p i f h m. refl;
}

-- what the rest of the walk promises
abbrev pub Outcome : Bool → Place → ℕ → ℕ → ℕ → ℕ → Vm → Walk → Type 0
Outcome user place root k t va s panics = Starved place root k s
Outcome user place root k t va s (blocked s') = ⊥
Outcome user place root k t va s (found a s') = Created user place root k t va s s' a

module _ (root va : ℕ) (low : va < 2 ^ 47) (user : Bool) where
  start-Created :
      (place : Place) (t : ℕ) (s : Vm)
      → IsTree place root s
      → AtPlace place 0 t va
      → Created user place root 0 t va s s (entry_at 0 t va)
  unfolding lookup opens
  start-Created place t s tree e = record {
    place' = place;
    grows = Grows-refl place root 0 s tree;
    path = refl;
    open_way = λ u. refl;
    leaf = t;
    leaf_place = e;
    at = refl;
  }

  create-step :
      (k t : ℕ) (s : Vm) (o : Option Vm)
      → ensure user (entry_at (suc k) t va) s ≡ o
      → create (suc k) user t va s
        ≡ descend (suc k) (entry_at (suc k) t va) o (λ child s'. create k user child va s')
  unfolding create
  create-step k t s o e =
      ap (λ x. descend (suc k) (entry_at (suc k) t va) x (λ child s'. create k user child va s')) e

  module _ (k : ℕ) (place : Place) (t : ℕ) (s s1 : Vm) (e : AtPlace place (suc k) t va)
      (en : Ensured user place root t k (up (suc (suc k)) (va / 4096)) (idx (suc k) va) s s1) where
    child_place : AtPlace en.place' k (addr_of (s1.mem (entry_at (suc k) t va))) va
    unfolding up
    child_place = en.child ∙ ap (λ n. some (k, n)) (omega arith)

    lift :
        (w : Walk)
        → Outcome user en.place' root k (addr_of (s1.mem (entry_at (suc k) t va))) va s1 w
        → Outcome user place root (suc k) t va s w
    lift panics c = record {
      place' = c.place';
      last = c.last;
      grows = Grows-then (omega arith) en.grows c.grows;
      no_table = c.no_table;
    }
    lift (blocked s') c = c
    lift (found a s') c = record {
      place' = c.place';
      grows = Grows-then (omega arith) en.grows c.grows;
      path =
          lookup_step k t va s'.mem
            (ap (leads (suc k)) kept ∙ leads-present (suc k) _ en.here en.not_huge)
          ∙ ap (λ w. lookup k (addr_of w) va s'.mem) kept
          ∙ c.path;
      open_way = λ u.
          opens_step k t va s'.mem
            (ap (leads (suc k)) kept ∙ leads-present (suc k) _ en.here en.not_huge)
            (ap user_bit kept ∙ en.opened_here u)
          ∙ ap (λ w. opens k (addr_of w) va s'.mem) kept
          ∙ c.open_way u;
      leaf = c.leaf;
      leaf_place = c.leaf_place;
      at = c.at;
    }
      where
        kept : s'.mem (entry_at (suc k) t va) ≡ s1.mem (entry_at (suc k) t va)
        kept =
            c.grows.above t (suc k) _ (idx (suc k) va) (en.grows.extends t (suc k) _ e)
              (omega arith) (omega arith)

  panics-descend : (k a0 : ℕ) (next : ℕ → Vm → Walk) → descend k a0 none next ≡ panics
  unfolding descend
  panics-descend k a0 next = refl

  create-nil : (t : ℕ) (s : Vm) → create zero user t va s ≡ found (entry_at 0 t va) s
  unfolding create
  create-nil t s = refl

  pub create-Outcome :
      (k : ℕ) (place : Place) (t : ℕ) (s : Vm)
      → IsTree place root s
      → AtPlace place k t va
      → Outcome user place root k t va s (create k user t va s)
  create-Outcome zero place t s tree e =
      subst (Outcome user place root 0 t va s) (sym (create-nil t s))
        (start-Created place t s tree e)
  create-Outcome (suc k) place t s tree e =
      elim (Option-cases (ensure user (entry_at (suc k) t va) s)) [
        | inl h ↦
            subst (Outcome user place root (suc k) t va s)
              (sym (create-step k t s none h ∙ panics-descend (suc k) _ _))
              (record {
                place' = place;
                last = s;
                grows = Grows-refl place root (suc k) s tree;
                no_table = ensure-none user _ s h;
              })
        | inr (s1, h) ↦
            let en =
              ensure-Ensured place root s tree t k _ (idx (suc k) va) e (omega arith)
                (idx-IsUser (suc k) va low) user s1 h in
            subst (Outcome user place root (suc k) t va s)
              (sym (create-step k t s (some s1) h ∙ descend_step (suc k) _ s1 _ en.not_huge))
              (lift k place t s s1 e en
                (create k user (addr_of (s1.mem (entry_at (suc k) t va))) va s1)
                (create-Outcome k en.place' (addr_of (s1.mem (entry_at (suc k) t va))) s1
                  en.grows.tree (child_place k place t s s1 e en)))
      ]
