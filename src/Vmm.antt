-- ===== src/Vmm.antt =====
-- src/mm/vmm.c: page tables of four levels in physical memory. A pointer to a table is its physical
-- address, since the code reaches each by the direct map; the memory gives the 8-byte word at an
-- address. Level 3 is the PML4 and level 0 the last table: the code writes out what is one function
-- of the level here, and only the PML4 has no test for a huge page. The TLB is left out.
pub mod Words
pub mod Tree
pub mod Grow
pub mod Fresh
pub mod Step
pub mod Create
pub mod Store
pub mod Open
pub mod Map
pub mod Unmap
pub mod Keep
pub mod Space
pub mod User
mod Tests
use lighth_os.Pmm.{Pmm, alloc_frame, free_frame}
use lighth_os.Common.{
  ℕ, zero, suc, ◌+◌, ◌-◌, ◌*◌, ◌/◌, ◌%◌, ◌^◌, Bool, true, false, ◌&&◌, ◌||◌, not, Option, none,
  some, List, [], ◌∷◌, ◌==◌, ltb, leb, if◌then◌else◌,
}

abbrev pub Mem : Type 0
Mem = ℕ → ℕ

-- the physical memory, its frames, `kernel_pml4` and `current_cr3`, and what task_current_pml4
-- returns; 0 is a null pointer
pub record Vm : Type 0 where
  pub mem : Mem
  pub pmm : Pmm
  pub kernel_pml4 : ℕ
  pub current_cr3 : ℕ
  pub task_pml4 : ℕ

abbrev pub direct_map_limit : ℕ
direct_map_limit = 0x400_0000

-- a store of one word, and `memset` of a page to 0
unfoldable pub put : ℕ → ℕ → Mem → Mem
put a v m b = if b == a then v else m b

unfoldable pub zero_page : ℕ → Mem → Mem
zero_page f m b = if leb f b && ltb b (f + 4096) then 0 else m b

-- `pml4_idx` to `pt_idx`, from the number of the page
unfoldable pub up : ℕ → ℕ → ℕ
up zero n = n
up (suc k) n = up k n / 512

abbrev pub idx : ℕ → ℕ → ℕ
idx k va = up k (va / 4096) % 512

-- the bits of an entry, VMM_FLAG_PRESENT, WRITE, USER and HUGE, and `entry & PTE_ADDR_MASK`
unfoldable pub present : ℕ → Bool
present e = e % 2 == 1

unfoldable pub writable : ℕ → Bool
writable e = e / 2 % 2 == 1

unfoldable pub user_bit : ℕ → Bool
user_bit e = e / 4 % 2 == 1

unfoldable pub huge : ℕ → Bool
huge e = e / 128 % 2 == 1

unfoldable pub addr_of : ℕ → ℕ
addr_of e = e % 2 ^ 52 / 4096 * 4096

-- `e | VMM_FLAG_USER`
unfoldable pub or_user : ℕ → ℕ
or_user e = if user_bit e then e else e + 4

-- the address of the entry for `va` in the table `t`
abbrev pub entry_at : ℕ → ℕ → ℕ → ℕ
entry_at k t va = t + 8 * idx k va

-- `alloc_table`; none is a panic, for want of a frame or for one outside the direct map.
unfoldable pub alloc_table : Vm → Option (ℕ × Vm)
alloc_table s =
    let r = alloc_frame s.pmm in
    if r.0 == 0 || leb direct_map_limit r.0
    then none
    else some (r.0, record s { pmm = r.1; mem = zero_page r.0 s.mem })

abbrev pub mid_flags : Bool → ℕ
mid_flags user = if user then 7 else 3

-- an entry of walk_create, made present and, for user pages, open to ring 3; none is a panic
unfoldable pub link_new : Bool → ℕ → Option (ℕ × Vm) → Option Vm
link_new user a none = none
link_new user a (some (f, s)) = some (record s { mem = put a (f + mid_flags user) s.mem })

unfoldable pub ensure : Bool → ℕ → Vm → Option Vm
ensure user a s =
    if present (s.mem a)
    then some (if user then record s { mem = put a (or_user (s.mem a)) s.mem } else s)
    else link_new user a (alloc_table s)

-- what walk_create returns: a panic, a null pointer for a huge page, or the address of the last entry
pub data Walk : Type 0 where
  panics : Walk
  blocked : Vm → Walk
  found : ℕ → Vm → Walk

-- `*pdpte & VMM_FLAG_HUGE`, which the code does not test in the PML4
unfoldable pub is_huge : ℕ → ℕ → Bool
is_huge k e = not (k == 3) && huge e

unfoldable pub descend : ℕ → ℕ → Option Vm → (ℕ → Vm → Walk) → Walk
descend k a none next = panics
descend k a (some s) next = if is_huge k (s.mem a) then blocked s else next (addr_of (s.mem a)) s

-- `walk_create`, from the table `t` of level `k` on
unfoldable pub create : ℕ → Bool → ℕ → ℕ → Vm → Walk
create zero user t va s = found (entry_at 0 t va) s
create (suc k) user t va s =
    descend (suc k) (entry_at (suc k) t va) (ensure user (entry_at (suc k) t va) s)
      (λ child s'. create k user child va s')

unfoldable pub walk_create : ℕ → ℕ → Bool → Vm → Walk
walk_create pml4 va user s = create 3 user pml4 va s

-- whether an entry of level `k` leads to a table
unfoldable pub leads : ℕ → ℕ → Bool
leads k e = present e && not (is_huge k e)

-- `walk_lookup`: the address of the last entry
unfoldable pub lookup : ℕ → ℕ → ℕ → Mem → Option ℕ
lookup zero t va m = some (entry_at 0 t va)
lookup (suc k) t va m =
    let e = m (entry_at (suc k) t va) in
    let rest = lookup k (addr_of e) va m in if leads (suc k) e then rest else none

unfoldable pub walk_lookup : ℕ → ℕ → Mem → Option ℕ
walk_lookup pml4 va m = lookup 3 pml4 va m

-- the last entry that vmm_map_in and vmm_set_flags_in store
unfoldable pub pte_of : ℕ → ℕ → ℕ
pte_of phys flags = addr_of phys + (flags % 4096 / 2 * 2 + 1) + flags / 2 ^ 63 % 2 * 2 ^ 63

-- `vmm_map_in`; none is a panic.
unfoldable pub store_pte : ℕ → Walk → Option Vm
store_pte pte panics = none
store_pte pte (blocked s) = some s
store_pte pte (found a s) = some (record s { mem = put a pte s.mem })

unfoldable pub map_in : ℕ → ℕ → ℕ → ℕ → Vm → Option Vm
map_in pml4 virt phys flags s =
    store_pte (pte_of phys flags) (walk_create pml4 virt (user_bit flags) s)

-- `vmm_unmap_in`
unfoldable pub clear_pte : Option ℕ → Vm → Vm
clear_pte none s = s
clear_pte (some a) s = record s { mem = put a 0 s.mem }

unfoldable pub unmap_in : ℕ → ℕ → Vm → Vm
unmap_in pml4 virt s = clear_pte (walk_lookup pml4 virt s.mem) s

-- `vmm_get_physical_in`
unfoldable pub physical_at : Option ℕ → ℕ → Mem → ℕ
physical_at none virt m = 0
physical_at (some a) virt m = if present (m a) then addr_of (m a) + virt % 4096 else 0

unfoldable pub get_physical_in : ℕ → ℕ → Vm → ℕ
get_physical_in pml4 virt s = physical_at (walk_lookup pml4 virt s.mem) virt s.mem

-- `vmm_set_flags_in`: whether it succeeds
unfoldable pub set_flags_at : Option ℕ → ℕ → Vm → Bool × Vm
set_flags_at none flags s = (false, s)
set_flags_at (some a) flags s =
    if present (s.mem a)
    then (true, record s { mem = put a (pte_of (s.mem a) flags) s.mem })
    else (false, s)

unfoldable pub set_flags_in : ℕ → ℕ → ℕ → Vm → Bool × Vm
set_flags_in pml4 virt flags s = set_flags_at (walk_lookup pml4 virt s.mem) flags s
