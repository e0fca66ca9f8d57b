-- ===== src/Vmm/Open.antt =====
-- src/mm/vmm.c: a way of tables that is open to ring 3 ends at a page that user code may use.
use lighth_os.Vmm.{Mem, Vm, idx, entry_at, present, user_bit, addr_of, leads, lookup}
use lighth_os.Vmm.Tree.{Place, IsTree, AtPlace, child_at}
use lighth_os.Vmm.Create.{opens, opens_step}
use lighth_os.Vmm.Store.{stored, kept}
use lighth_os.Vmm.User.{write_ok, accessible}
use lighth_os.Common.{ℕ, zero, suc, ◌^◌, ◌<◌, ◌≡◌, refl, ap, sym, ◌∙◌, Bool, true, some, arith}

-- what an open way says of its first table
opens_parts :
    (k t va : ℕ) (m : Mem)
    → opens (suc k) t va m ≡ true
    → (leads (suc k) (m (entry_at (suc k) t va)) ≡ true)
      × (user_bit (m (entry_at (suc k) t va)) ≡ true)
      × (opens k (addr_of (m (entry_at (suc k) t va))) va m ≡ true)
unfolding opens
opens_parts k t va m h = (ground (arith, h), ground (arith, h), ground (arith, h))

-- A store to a last entry leaves the way open.
pub stored-opens :
    (place : Place) (root : ℕ) (s : Vm) (tree : IsTree place root s) (va leaf v : ℕ)
    (at : AtPlace place 0 leaf va)
    → va < 2 ^ 47
    → (k t : ℕ) → AtPlace place k t va
    → opens k t va s.mem ≡ true
    → opens k t va (stored place root s tree va leaf v at) ≡ true
unfolding opens
stored-opens place root s tree va leaf v at low zero t e h = refl
stored-opens place root s tree va leaf v at low (suc k) t e h =
    let (l, u, rest) = opens_parts k t va s.mem h in
    let same = kept place root s tree va leaf v at t k _ (idx (suc k) va) e (omega arith) in
    opens_step k t va (stored place root s tree va leaf v at) (ap (leads (suc k)) same ∙ l)
      (ap user_bit same ∙ u)
    ∙ ap (λ w. opens k (addr_of w) va (stored place root s tree va leaf v at)) same
    ∙ stored-opens place root s tree va leaf v at low k _
        (child_at place root s tree va low k t e l) rest

accessible_step :
    (k t va : ℕ) (write : Bool) (m : Mem)
    → leads (suc k) (m (entry_at (suc k) t va)) ≡ true
    → user_bit (m (entry_at (suc k) t va)) ≡ true
    → accessible (suc k) t va write m
      ≡ accessible k (addr_of (m (entry_at (suc k) t va))) va write m
unfolding accessible leads
accessible_step k t va write m l u = ground (arith, l, u)

lookup_rest :
    (k t va : ℕ) (m : Mem)
    → leads (suc k) (m (entry_at (suc k) t va)) ≡ true
    → lookup (suc k) t va m ≡ lookup k (addr_of (m (entry_at (suc k) t va))) va m
unfolding lookup
lookup_rest k t va m l = rw l refl

pub opens-accessible :
    (k t va a : ℕ) (write : Bool) (m : Mem)
    → opens k t va m ≡ true
    → lookup k t va m ≡ some a
    → present (m a) ≡ true
    → user_bit (m a) ≡ true
    → write_ok write (m a) ≡ true
    → accessible k t va write m ≡ true
unfolding accessible lookup
opens-accessible zero t va a write m h e p u w = rw (same e, p, u, w) refl
  where
    same : some (entry_at 0 t va) ≡ some a → entry_at 0 t va ≡ a
    same x = cc
opens-accessible (suc k) t va a write m h e p u w =
    let (l, b, rest) = opens_parts k t va m h in
    accessible_step k t va write m l b
    ∙ opens-accessible k _ va a write m rest (sym (lookup_rest k t va m l) ∙ e) p u w
