-- ===== src/Vmm/Keep.antt =====
-- src/mm/vmm.c: page tables whose words stay as they are, as memory around them is taken and written.
use lighth_os.Pmm.{alloc_frame}
use lighth_os.Pmm.Inv as Inv
use lighth_os.Pmm.Alloc.{alloc_frame-Alloc}
use lighth_os.Vmm.{Vm, zero_page, addr_of, leads, is_huge, get_physical_in}
use lighth_os.Vmm.Words.{zero_page-outside}
use lighth_os.Vmm.Tree.{Place, IsTree, top_at}
use lighth_os.Vmm.Grow.{alike-IsTree, alike-value}
use lighth_os.Vmm.Fresh.{Fresh, alloc_frame-Fresh}
use lighth_os.Vmm.Store.{phys_of, physical-value}
use lighth_os.Common.{
  ℕ, suc, ◌+◌, ◌*◌, ◌/◌, ◌^◌, ◌<◌, ◌≡◌, ◌≢◌, ap, sym, ◌∙◌, true, some, arith, true≢false,
}

module _ (place : Place) (root : ℕ) (s s' : Vm) (tree : IsTree place root s)
    (valid : Inv.IsValid s'.pmm)
    (used : (g : ℕ) → Inv.is_used s.pmm g ≡ true → Inv.is_used s'.pmm g ≡ true)
    (words : (t j p i : ℕ)
      → place t ≡ some (j, p)
      → i < 512
      → s'.mem (t + 8 * i) ≡ s.mem (t + 8 * i)) where
  pub kept-IsTree : IsTree place root s'
  kept-IsTree =
      let same : IsTree place root (record s { mem = s'.mem }) =
        alike-IsTree place root s tree s'.mem
          (λ t j p i e h. ap (leads (suc j)) (words t (suc j) p i e h))
          (λ t j p i e h. ap addr_of (words t (suc j) p i e h))
          (λ t j p i e h. ap (is_huge (suc j)) (words t (suc j) p i e h)) in
      record {
        pmm_valid = valid;
        top = same.top;
        aligned = same.aligned;
        taken = λ t k p e. used (t / 4096) (tree.taken t k p e);
        child = same.child;
        no_huge = same.no_huge;
      }

  pub kept-physical :
      (va : ℕ) → va < 2 ^ 47 → get_physical_in root va s' ≡ get_physical_in root va s
  kept-physical va low =
      physical-value root va s'
      ∙ ap (λ e. phys_of e va)
          (alike-value place root s tree s'.mem
            (λ t j p i e h. ap (leads (suc j)) (words t (suc j) p i e h))
            (λ t j p i e h. ap addr_of (words t (suc j) p i e h))
            (λ t j p i e h. ap (is_huge (suc j)) (words t (suc j) p i e h))
            (λ t p i e h. words t 0 p i e h) 3 root va (top_at place root s tree va low) low)
      ∙ sym (physical-value root va s)

-- a frame that is taken and cleared, but not linked
module _ (place : Place) (root : ℕ) (s : Vm) (tree : IsTree place root s)
    (ne : (alloc_frame s.pmm).0 ≢ 0) where
  abbrev pub cleared : Vm
  cleared = record s { pmm = (alloc_frame s.pmm).1; mem = zero_page (alloc_frame s.pmm).0 s.mem }

  pub fresh : Fresh s (alloc_frame s.pmm).0 cleared
  fresh = alloc_frame-Fresh s tree.pmm_valid (alloc_frame-Alloc tree.pmm_valid) ne

  still_used : (g : ℕ) → Inv.is_used s.pmm g ≡ true → Inv.is_used cleared.pmm g ≡ true
  still_used g h = fresh.used g ∙ ground (arith, h)

  table_words :
      (t j p i : ℕ) → place t ≡ some (j, p) → i < 512 → cleared.mem (t + 8 * i) ≡ s.mem (t + 8 * i)
  table_words t j p i e h =
      zero_page-outside (alloc_frame s.pmm).0 t i s.mem (tree.aligned t j p e) fresh.aligned
        (λ x.
          true≢false
            (sym (tree.taken t j p e) ∙ ap (λ n. Inv.is_used s.pmm (n / 4096)) x ∙ fresh.unused))
        h

  pub cleared-IsTree : IsTree place root cleared
  cleared-IsTree = kept-IsTree place root s cleared tree fresh.valid still_used table_words

  pub cleared-physical :
      (va : ℕ) → va < 2 ^ 47 → get_physical_in root va cleared ≡ get_physical_in root va s
  cleared-physical = kept-physical place root s cleared tree fresh.valid still_used table_words
