-- ===== src/Vmm/Space.antt =====
-- src/mm/vmm.c: address spaces, their making and their end. The frame of a PML4 is its address.
pub mod Free
pub mod New
use lighth_os.Pmm.{alloc_frame, free_frame}
use lighth_os.Vmm.{
  Mem, Vm, direct_map_limit, put, zero_page, present, addr_of, is_huge, alloc_table, map_in,
  unmap_in, get_physical_in,
}
use lighth_os.Common.{
  ℕ, zero, suc, ◌+◌, ◌*◌, ◌/◌, Bool, true, false, not, ◌||◌, Option, none, some, ◌==◌, leb, ◌>>=◌,
  if◌then◌else◌,
}

-- `default_pml4`
unfoldable pub default_pml4 : Vm → ℕ
default_pml4 s = if s.task_pml4 == 0 then s.kernel_pml4 else s.task_pml4

unfoldable pub map_page : ℕ → ℕ → ℕ → Vm → Option Vm
map_page virt phys flags s = map_in (default_pml4 s) virt phys flags s

unfoldable pub unmap_page : ℕ → Vm → Vm
unmap_page virt s = unmap_in (default_pml4 s) virt s

unfoldable pub get_physical : ℕ → Vm → ℕ
get_physical virt s = get_physical_in (default_pml4 s) virt s

-- the loop of vmm_new_pml4, on the number of entries left
unfoldable pub copy_entries : ℕ → ℕ → ℕ → ℕ → Mem → Mem
copy_entries zero i p from m = m
copy_entries (suc n) i p from m =
    copy_entries n (suc i) p from (put (p + 8 * i) (m (from + 8 * i)) m)

-- `vmm_new_pml4`; none is the panic of check_low, and 0 a null pointer.
unfoldable pub new_pml4 : Vm → Option (ℕ × Vm)
new_pml4 s =
    let r = alloc_frame s.pmm in
    if r.0 == 0
    then some (0, record s { pmm = r.1 })
    else if leb direct_map_limit r.0
    then none
    else some (
      r.0,
      record s { pmm = r.1; mem = copy_entries 256 256 r.0 s.kernel_pml4 (zero_page r.0 s.mem) },
    )

-- `pmm_free_frame` of the frame that an entry points to
unfoldable pub free_entry : ℕ → Vm → Vm
free_entry e s = record s { pmm = free_frame (addr_of e) s.pmm }

-- a loop over `n` entries of the table `t`, from the entry `i` on
unfoldable pub each_entry : ℕ → ℕ → ℕ → (ℕ → Vm → Vm) → Vm → Vm
each_entry zero i t f s = s
each_entry (suc n) i t f s = each_entry n (suc i) t f (f (t + 8 * i) s)

-- a step that a test guards
unfoldable pub when : Bool → (Vm → Vm) → Vm → Vm
when true f s = f s
when false f s = s

-- the bodies of the inner loops of free_user_subtree, for the entry at `a` of a table of level `k`: the
-- frame of a table is freed after what the table holds.
unfoldable pub free_below : ℕ → ℕ → Vm → Vm
free_below zero a s = when (present (s.mem a)) (free_entry (s.mem a)) s
free_below (suc k) a s =
    when (present (s.mem a))
      (λ t. free_entry (s.mem a) (
        when (not (is_huge (suc k) (s.mem a))) (each_entry 512 0 (addr_of (s.mem a)) (free_below k))
          t))
      s

-- the end of the outer loop's body, `pml4[i4] = 0`
unfoldable pub clear_word : ℕ → Vm → Vm
clear_word a s = record s { mem = put a 0 s.mem }

-- the body of its outer loop, for the entry at `a` of the PML4
unfoldable pub free_slot : ℕ → Vm → Vm
free_slot a s =
    when (present (s.mem a))
      (λ t.
        clear_word a (free_entry (s.mem a) (each_entry 512 0 (addr_of (s.mem a)) (free_below 2) t)))
      s

unfoldable pub free_user_subtree : ℕ → Vm → Vm
free_user_subtree pml4 s = each_entry 256 0 pml4 free_slot s

-- `vmm_free_pml4`
unfoldable pub free_pml4 : ℕ → Vm → Vm
free_pml4 pml4 s =
    if pml4 == 0 || pml4 == s.kernel_pml4
    then s
    else let t = free_user_subtree pml4 s in record t { pmm = free_frame pml4 t.pmm }

-- `vmm_unmap_user_space`
unfoldable pub unmap_user_space : ℕ → Vm → Vm
unmap_user_space pml4 s = if pml4 == 0 then s else free_user_subtree pml4 s

-- `vmm_switch_pml4`
unfoldable pub switch_pml4 : ℕ → Vm → Vm
switch_pml4 pml4 s =
    if pml4 == 0 || pml4 == s.current_cr3 then s else record s { current_cr3 = pml4 }

-- `install_huge_2m`, with the flags of its caller: present, writable, huge and global
abbrev pub huge_page : ℕ → ℕ
huge_page i = i * 0x20_0000 + 0x183

unfoldable pub install_all : ℕ → ℕ → ℕ → Mem → Mem
install_all zero i pd m = m
install_all (suc n) i pd m = install_all n (suc i) pd (put (pd + 8 * i) (huge_page i) m)

-- the stores of vmm_init: the direct map at slot 256 of the PML4, and the kernel's image at slot 511
unfoldable pub direct_map : ℕ → ℕ → ℕ → Mem → Mem
direct_map pml4 hhdm pd m =
    put (pml4 + 8 * 256) (hhdm + 3) (install_all 512 0 pd (put hhdm (pd + 3) m))

unfoldable pub kernel_image : ℕ → ℕ → ℕ → Mem → Mem
kernel_image pml4 pd high m = put (pml4 + 8 * 511) (high + 3) (put (high + 8 * 510) (pd + 3) m)

-- `vmm_init`; none is a panic.
unfoldable pub init : Vm → Option Vm
init s = do
  (pml4, s1) ← alloc_table s
  (hhdm, s2) ← alloc_table s1
  (pd, s3) ← alloc_table s2
  (high, s4) ← alloc_table (record s3 { mem = direct_map pml4 hhdm pd s3.mem })
  some
      (record s4 { mem = kernel_image pml4 pd high s4.mem; kernel_pml4 = pml4; current_cr3 = pml4 })
