-- ===== src/Vmm/Tree.antt =====
-- The page tables of a process as a tree: each table of its user half has one place in it.
use lighth_os.Pmm.Inv as Inv
use lighth_os.Vmm.{Mem, Vm, up, idx, entry_at, present, addr_of, leads, lookup, is_huge}
use lighth_os.Common.{
  ℕ, zero, suc, ◌+◌, ◌*◌, ◌/◌, ◌%◌, ◌^◌, ◌<◌, ◌≡◌, refl, ap, sym, ◌∙◌, Bool, true, false, Option,
  none, some, if◌then◌else◌, arith,
}

-- The level of a table, and the number of the pages below it without what the levels below tell.
abbrev pub Place : Type 0
Place = ℕ → Option (ℕ × ℕ)

-- The user half is the lower half of the PML4.
abbrev pub IsUser : ℕ → ℕ → Type 0
IsUser k i = k ≡ 3 → i < 256

pub record IsTree (place : Place) (root : ℕ) (s : Vm) : Type 0 where
  pub pmm_valid : Inv.IsValid s.pmm
  pub top : place root ≡ some (3, 0)
  pub aligned : (t k p : ℕ) → place t ≡ some (k, p) → t % 4096 ≡ 0
  pub taken : (t k p : ℕ) → place t ≡ some (k, p) → Inv.is_used s.pmm (t / 4096) ≡ true
  pub child :
      (t k p i : ℕ)
      → place t ≡ some (suc k, p)
      → i < 512
      → IsUser (suc k) i
      → leads (suc k) (s.mem (t + 8 * i)) ≡ true
      → place (addr_of (s.mem (t + 8 * i))) ≡ some (k, p * 512 + i)
  pub no_huge :
      (t k p i : ℕ)
      → place t ≡ some (suc k, p)
      → i < 512
      → IsUser (suc k) i
      → is_huge (suc k) (s.mem (t + 8 * i)) ≡ false

-- what the walk along the tables finds: the last entry, or 0 where there is none that is present
unfoldable pub value : ℕ → ℕ → ℕ → Mem → ℕ
value zero t va m = if present (m (entry_at 0 t va)) then m (entry_at 0 t va) else 0
value (suc k) t va m =
    let rest = value k (addr_of (m (entry_at (suc k) t va))) va m in
    if leads (suc k) (m (entry_at (suc k) t va)) then rest else 0

-- the entry at an address
unfoldable pub seen : Option ℕ → Mem → ℕ
seen none m = 0
seen (some a) m = if present (m a) then m a else 0

seen-if :
    (b : Bool) (o : Option ℕ) (m : Mem)
    → seen (if b then o else none) m ≡ (if b then seen o m else 0)
unfolding seen
seen-if true o m = refl
seen-if false o m = refl

pub value-seen : (k t va : ℕ) (m : Mem) → value k t va m ≡ seen (lookup k t va m) m
unfolding value lookup seen
value-seen zero t va m = refl
value-seen (suc k) t va m =
    ap (λ v. if leads (suc k) (m (entry_at (suc k) t va)) then v else 0)
      (value-seen k (addr_of (m (entry_at (suc k) t va))) va m)
    ∙ sym (
        seen-if (leads (suc k) (m (entry_at (suc k) t va)))
          (lookup k (addr_of (m (entry_at (suc k) t va))) va m) m)

-- the table of level `k` on the way to `va`
abbrev pub AtPlace : Place → ℕ → ℕ → ℕ → Type 0
AtPlace place k t va = place t ≡ some (k, up (suc k) (va / 4096))

up_small : (k n : ℕ) → n < 2 ^ 35 → k ≡ 3 → up k n % 512 < 256
unfolding up
up_small k n h e = rw e (omega arith)

idx_below : (k va : ℕ) → idx k va < 512
idx_below k va = omega arith

pub idx-IsUser : (k va : ℕ) → va < 2 ^ 47 → IsUser k (idx k va)
idx-IsUser k va h e = up_small k (va / 4096) (omega arith) e

module _ (place : Place) (root : ℕ) (s : Vm) (tree : IsTree place root s) (va : ℕ)
    (low : va < 2 ^ 47) where
  -- the next table
  pub child_at :
      (k t : ℕ)
      → AtPlace place (suc k) t va
      → leads (suc k) (s.mem (entry_at (suc k) t va)) ≡ true
      → AtPlace place k (addr_of (s.mem (entry_at (suc k) t va))) va
  unfolding up
  child_at k t e l =
      tree.child t k _ _ e (idx_below (suc k) va) (idx-IsUser (suc k) va low) l
      ∙ ap (λ n. some (k, n)) (omega arith)

pub top_at :
    (place : Place) (root : ℕ) (s : Vm)
    → IsTree place root s
    → (va : ℕ) → va < 2 ^ 47
    → AtPlace place 3 root va
unfolding up
top_at place root s tree va low = tree.top ∙ ap (λ n. some (3, n)) (omega arith)
