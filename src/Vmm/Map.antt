-- ===== src/Vmm/Map.antt =====
-- src/mm/vmm.c: what vmm_map_in promises of every address of the user half.
use lighth_os.Vmm.User.{write_ok, page_user_accessible}
use lighth_os.Vmm.Open.{stored-opens, opens-accessible}
use lighth_os.Vmm.Store.{
  stored-lookup, stored-IsTree, value-other, value-stored, phys_of, phys_of-present, physical-value,
}
use lighth_os.Vmm.{
  Vm, put, entry_at, present, user_bit, addr_of, pte_of, Walk, panics, blocked, found, create,
  walk_create, store_pte, map_in, lookup, get_physical_in,
}
use lighth_os.Vmm.Words.{user_bit-pte_of, put-here, present-pte_of}
use lighth_os.Vmm.Tree.{Place, IsTree, value, AtPlace, top_at}
use lighth_os.Vmm.Grow.{Grows}
use lighth_os.Vmm.Create.{Created, Starved, Outcome, create-Outcome, opens}
use lighth_os.Common.{
  ℕ, ◌+◌, ◌%◌, ◌/◌, ◌^◌, ◌<◌, ◌≡◌, ◌≢◌, ap, sym, subst, ◌∙◌, true, Option, none, some, Bool,
}

-- What vmm_map_in leaves.
pub record Mapped (place : Place) (root virt pte : ℕ) (s s' : Vm) : Type 0 where
  pub place' : Place
  pub tree : IsTree place' root s'
  pub mapped : value 3 root virt s'.mem ≡ pte
  pub address : get_physical_in root virt s' ≡ addr_of pte + virt % 4096
  pub user :
      user_bit pte ≡ true
      → (write : Bool) → write_ok write pte ≡ true
      → page_user_accessible root virt write s'.mem ≡ true
  pub others :
      (va : ℕ)
      → va < 2 ^ 47
      → va / 4096 ≢ virt / 4096
      → get_physical_in root va s' ≡ get_physical_in root va s

-- What becomes of a page: it is mapped, or the allocator has no frame for a table.
unfoldable pub MapsTo : Place → ℕ → ℕ → ℕ → Vm → Option Vm → Type 0
MapsTo place root virt pte s none = Starved place root 3 s
MapsTo place root virt pte s (some s') = Mapped place root virt pte s s'

-- the store that ends vmm_map_in
module _ (place place' : Place) (root virt leaf pte : ℕ) (s s1 : Vm) (tree : IsTree place root s)
    (low : virt < 2 ^ 47) (grows : Grows place root 3 s s1 place') (at : AtPlace place' 0 leaf virt)
    (path : lookup 3 root virt s1.mem ≡ some (entry_at 0 leaf virt)) (p : present pte ≡ true)
    (way : user_bit pte ≡ true → opens 3 root virt s1.mem ≡ true) where
  abbrev after : Vm
  after = record s1 { mem = put (entry_at 0 leaf virt) pte s1.mem }

  here : after.mem (entry_at 0 leaf virt) ≡ pte
  here = put-here (entry_at 0 leaf virt) pte s1.mem

  last_value : value 3 root virt after.mem ≡ pte
  last_value = value-stored place' root s1 grows.tree virt leaf pte at low path p

  after-Mapped : Mapped place root virt pte s after
  after-Mapped = record {
    place' = place';
    tree = stored-IsTree place' root s1 grows.tree virt leaf pte at;
    mapped = last_value;
    address =
        physical-value root virt after
        ∙ ap (λ e. phys_of e virt) last_value
        ∙ phys_of-present pte virt p;
    user = λ u write w.
        opens-accessible 3 root virt (entry_at 0 leaf virt) write after.mem
          (stored-opens place' root s1 grows.tree virt leaf pte at low 3 root
            (top_at place' root s1 grows.tree virt low) (way u))
          (stored-lookup place' root s1 grows.tree virt leaf pte at virt low ∙ path)
          (ap present here ∙ p) (ap user_bit here ∙ u) (ap (write_ok write) here ∙ w);
    others = λ va l ne.
        physical-value root va after
        ∙ ap (λ e. phys_of e va)
            (value-other place' root s1 grows.tree virt leaf pte at va l ne
              ∙ grows.same 3 root va (top_at place root s tree va l) l)
        ∙ sym (physical-value root va s);
  }

module _ (place : Place) (root virt phys flags : ℕ) (s : Vm) (tree : IsTree place root s)
    (low : virt < 2 ^ 47) where
  stored-Mapped :
      (s1 : Vm) (a : ℕ)
      → Created (user_bit flags) place root 3 root virt s s1 a
      → Mapped place root virt
          (pte_of phys flags)
          s
          (record s1 { mem = put a (pte_of phys flags) s1.mem })
  stored-Mapped s1 a c =
      subst
        (λ b.
          Mapped place root virt (pte_of phys flags) s
            (record s1 { mem = put b (pte_of phys flags) s1.mem }))
        (sym c.at)
        (after-Mapped place c.place' root virt c.leaf (pte_of phys flags) s s1 tree low c.grows
          c.leaf_place (c.path ∙ ap some c.at) (present-pte_of phys flags)
          (λ u. c.open_way (sym (user_bit-pte_of phys flags) ∙ u)))

  walk-MapsTo :
      (w : Walk)
      → Outcome (user_bit flags) place root 3 root virt s w
      → MapsTo place root virt (pte_of phys flags) s (store_pte (pte_of phys flags) w)
  unfolding store_pte MapsTo
  walk-MapsTo panics c = c
  walk-MapsTo (blocked s1) c = absurd c
  walk-MapsTo (found a s1) c = stored-Mapped s1 a c

  -- From page tables that form a tree over a valid frame allocator, vmm_map_in of a page of
  -- the user half ends with tables that form a tree, that entry holding the frame and flags
  -- given, vmm_get_physical_in answering the frame with the offset there,
  -- page_user_accessible allowing the page if the entry has the USER bit, for a write if it
  -- has the WRITE bit too, and every other page of the user half mapped as before; it panics
  -- only in a state, reached by growing the tree, in which alloc_table gives no table.
  pub map_in-MapsTo : MapsTo place root virt (pte_of phys flags) s (map_in root virt phys flags s)
  unfolding map_in walk_create
  map_in-MapsTo = walk-MapsTo (create 3 (user_bit flags) root virt s) (
      create-Outcome root virt low (user_bit flags) 3 place root s tree
        (top_at place root s tree virt low))
