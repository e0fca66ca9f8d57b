-- ===== src/Vmm/Unmap.antt =====
-- src/mm/vmm.c: what vmm_unmap_in and vmm_set_flags_in promise of every address of the user half.
use lighth_os.Vmm.{
  Mem, Vm, put, entry_at, present, addr_of, lookup, walk_lookup, physical_at, get_physical_in,
  clear_pte, unmap_in,
}
use lighth_os.Vmm.Words.{put-here}
use lighth_os.Vmm.Tree.{Place, IsTree, AtPlace, top_at}
use lighth_os.Vmm.Store.{
  Ends, lookup-Ends, stored-IsTree, stored-lookup, value-other, phys_of, physical-value,
}
use lighth_os.Common.{
  ℕ, ◌+◌, ◌%◌, ◌/◌, ◌^◌, ◌<◌, ◌≡◌, ◌≢◌, refl, ap, sym, subst, ◌∙◌, none, some, if◌then◌else◌, inl,
  inr, Option-cases,
}

-- What a change of the page of `virt` alone leaves: the tree, the physical address `to` there, and
-- every other page.
pub record Leaves (place : Place) (root virt to : ℕ) (s s' : Vm) : Type 0 where
  pub tree : IsTree place root s'
  pub address : get_physical_in root virt s' ≡ to
  pub others :
      (va : ℕ)
      → va < 2 ^ 47
      → va / 4096 ≢ virt / 4096
      → get_physical_in root va s' ≡ get_physical_in root va s

module _ (place : Place) (root virt : ℕ) (s : Vm) (tree : IsTree place root s)
    (low : virt < 2 ^ 47) where
  -- no table for the page
  none-Leaves : walk_lookup root virt s.mem ≡ none → Leaves place root virt 0 s s
  unfolding get_physical_in physical_at
  none-Leaves h = record {
    tree = tree;
    address = ap (λ o. physical_at o virt s.mem) h;
    others = λ va l ne. refl;
  }

  -- a store to the last entry
  leaf-Leaves :
      (leaf v : ℕ)
      → AtPlace place 0 leaf virt
      → lookup 3 root virt s.mem ≡ some (entry_at 0 leaf virt)
      → Leaves place root virt
          (phys_of v virt)
          s
          (record s { mem = put (entry_at 0 leaf virt) v s.mem })
  unfolding get_physical_in walk_lookup physical_at phys_of
  leaf-Leaves leaf v at h = record {
    tree = stored-IsTree place root s tree virt leaf v at;
    address =
        ap (λ o. physical_at o virt m) (stored-lookup place root s tree virt leaf v at virt low ∙ h)
        ∙ ap (λ e. if present e then addr_of e + virt % 4096 else 0)
            (put-here (entry_at 0 leaf virt) v s.mem);
    others = λ va l ne.
        physical-value root va (record s { mem = m })
        ∙ ap (λ e. phys_of e va) (value-other place root s tree virt leaf v at va l ne)
        ∙ sym (physical-value root va s);
  }
    where
      m : Mem
      m = put (entry_at 0 leaf virt) v s.mem

  some-Leaves :
      (a v : ℕ)
      → walk_lookup root virt s.mem ≡ some a
      → Leaves place root virt (phys_of v virt) s (record s { mem = put a v s.mem })
  unfolding walk_lookup
  some-Leaves a v h =
      let e : Ends place virt a =
        lookup-Ends place root s tree 3 root virt a (top_at place root s tree virt low) low h in
      subst (λ b. Leaves place root virt (phys_of v virt) s (record s { mem = put b v s.mem }))
        (sym e.at) (leaf-Leaves e.leaf v e.leaf_place (h ∙ ap some e.at))

  -- From page tables that form a tree, vmm_unmap_in of a page of the user half leaves a tree
  -- in which that page has no physical address and every other page of the user half has the
  -- one it had.
  pub unmap_in-Leaves : Leaves place root virt 0 s (unmap_in root virt s)
  unfolding unmap_in clear_pte phys_of present
  unmap_in-Leaves = elim (Option-cases (walk_lookup root virt s.mem)) [
    | inl h ↦ rw h (none-Leaves h)
    | inr (a, h) ↦ rw h (some-Leaves a 0 h)
  ]
