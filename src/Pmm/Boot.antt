-- ===== src/Pmm/Boot.antt =====
-- `pmm_init` of src/mm/pmm.c. The multiboot tables are read where the loader put them; here they are
-- lists, with the fields of `multiboot_mmap_entry_t` and `multiboot_mod_t` that the code reads.
pub mod Carve
pub mod Safe
use lighth_os.Common.{
  ℕ, zero, suc, ◌+◌, ◌-◌, ◌*◌, ◌/◌, ◌%◌, ◌^◌, Bool, true, false, ◌&&◌, List, [], ◌∷◌, ◌==◌, ltb,
  leb, if◌then◌else◌, length, replicate,
}
use lighth_os.Common.Bits.{bit}
use lighth_os.Pmm.{Pmm, page_size, reserve, release, reserve_range}

pub record MmapEntry : Type 0 where
  pub addr : ℕ
  pub len : ℕ
  pub kind : ℕ

pub record Module : Type 0 where
  pub mod_start : ℕ
  pub mod_end : ℕ

pub record BootInfo : Type 0 where
  pub flags : ℕ
  pub mem_upper : ℕ
  pub mmap : List MmapEntry
  pub mods : List Module
  pub mods_addr : ℕ

abbrev pub u64 : ℕ → ℕ
u64 n = n % 2 ^ 64

-- `(n + PAGE_SIZE - 1) & ~(PAGE_SIZE - 1)` and `n & ~(PAGE_SIZE - 1)`
abbrev pub page_up : ℕ → ℕ
page_up n = u64 (n + page_size - 1) / page_size * page_size

abbrev pub page_down : ℕ → ℕ
page_down n = n / page_size * page_size

-- MULTIBOOT_MMAP_AVAILABLE
abbrev pub is_available : MmapEntry → Bool
is_available e = e.kind == 1

-- the end of the highest available region
unfoldable pub highest_end : List MmapEntry → ℕ → ℕ
highest_end [] mem_end = mem_end
highest_end (e ∷ es) mem_end =
    highest_end es (
      if is_available e && ltb mem_end (u64 (e.addr + e.len))
      then u64 (e.addr + e.len)
      else mem_end)

unfoldable pub mem_end : BootInfo → ℕ
unfolding highest_end bit
mem_end b =
    let found = if bit b.flags 6 then highest_end b.mmap 0 else u64 ((b.mem_upper + 1024) * 1024) in
    if ltb 0x1_0000_0000 found then 0x1_0000_0000 else found

-- every frame used, before the available ones are carved out
unfoldable pub all_used : ℕ → Pmm
all_used total = record {
  bitmap = replicate ((total + 31) / 32) 0xffff_ffff;
  bitmap_words = (total + 31) / 32;
  total_frames = total;
  used_frames = total;
}

-- `for (addr = start; addr < end; addr += PAGE_SIZE)`, on fuel
unfoldable pub carve : ℕ → ℕ → ℕ → Pmm → Pmm
carve zero addr end s = s
carve (suc fuel) addr end s =
    let rest = carve fuel (addr + page_size) end (release (addr / page_size % 2 ^ 32) s) in
    if ltb addr end then rest else s

-- the available regions of the memory map; a region has fewer rounds than its end has pages
unfoldable pub carve_regions : List MmapEntry → Pmm → Pmm
carve_regions [] s = s
carve_regions (e ∷ es) s =
    let first = page_up e.addr in
    let end = page_down (u64 (e.addr + e.len)) in
    carve_regions es (if is_available e then carve (end / page_size) first end s else s)

-- `for (frame = i; frame < i + n; frame++)`, freeing used frames
pub release_all : ℕ → ℕ → Pmm → Pmm
release_all zero i s = s
release_all (suc n) i s = release_all n (i + 1) (release i s)

-- `for (k = i; k < i + n; k++)`, reserving, with no test against `total_frames`
unfoldable pub reserve_all : ℕ → ℕ → Pmm → Pmm
reserve_all zero i s = s
reserve_all (suc n) i s = reserve_all n (i + 1) (reserve i s)

pub reserve_mods : List Module → Pmm → Pmm
reserve_mods [] s = s
reserve_mods (m ∷ ms) s =
    reserve_mods ms (reserve_range m.mod_start (u64 (m.mod_end + 2 ^ 64 - m.mod_start)) s)

-- the first frame behind the kernel image and the bitmap
unfoldable pub bitmap_end_frame : ℕ → ℕ → ℕ
bitmap_end_frame kernel_end words =
    u64 (page_up kernel_end + words * 4 + page_size - 1) / page_size % 2 ^ 32

-- `kernel_end` is the address of `_kernel_phys_end`, a symbol of the linker script.
unfoldable pub init : ℕ → BootInfo → Pmm
init kernel_end b =
    let total = mem_end b / page_size % 2 ^ 32 in
    let fresh = all_used total in
    let carved = if bit b.flags 6 then carve_regions b.mmap fresh else release_all total 0 fresh in
    let low = reserve_all 256 0 carved in
    let image = reserve_all (bitmap_end_frame kernel_end fresh.bitmap_words - 256) 256 low in
    if bit b.flags 3 && ltb 0 (length b.mods)
    then reserve_range b.mods_addr (length b.mods * 16) (reserve_mods b.mods image)
    else image
