-- ===== src/Pmm/Tests.antt =====
-- A small machine, and the theorems of the frame allocator at it.
use lighth_os.Common.{ℕ, ◌*◌, ◌≤◌, ◌<◌, ◌≡◌, refl, true, [], ◌∷◌, arith, All, replicate}
use lighth_os.Common.Bits.{bit}
use lighth_os.Pmm.{
  Pmm, page_size, reserve_range, release, reserve, given, taken, bitmap_set, bitmap_clear,
  bitmap_test, region_iter, alloc_frame, free_frame,
}
use lighth_os.Pmm.Frames.{count_used}
use lighth_os.Pmm.Inv.{IsValid, is_used, Reserved, reserve_range-Reserved, release-IsValid}
use lighth_os.Pmm.Alloc.{Alloc, alloc_frame-Alloc, free-alloc}
use lighth_os.Pmm.Boot.{
  BootInfo, MmapEntry, bitmap_end_frame, mem_end, init, all_used, carve_regions, carve, reserve_all,
}
use lighth_os.Pmm.Boot.Safe.{Booted, init-Booted, alloc-init, first_frame, frames}
use lighth_os.Pmm.Regions.{expand, bits, Tiles, Alternate, region_iter_lem}
use lighth_os.Pmm.Boot.Carve.{InAvailable, Addressable}

-- forty frames, of which 0, 1 and 3 are used
abbrev small : Pmm
small = record { bitmap = 0xb ∷ 0 ∷ []; bitmap_words = 2; total_frames = 40; used_frames = 3 }

small-IsValid : IsValid small
unfolding count_used
small-IsValid = omega arith

alloc_small : (alloc_frame small).0 ≡ 2 * page_size
unfolding alloc_frame
alloc_small = refl

alloc_frame-Alloc_example : Alloc small (alloc_frame small)
alloc_frame-Alloc_example = alloc_frame-Alloc small-IsValid

-- 0x2000 is the address of frame 2
free-alloc_example :
    let t = free_frame (alloc_frame small).0 (alloc_frame small).1 in
    ((g : ℕ) → is_used t g ≡ is_used small g) × (t.used_frames ≡ 3) × IsValid t
free-alloc_example = free-alloc small-IsValid (rw alloc_small (omega arith))

-- a range of two bytes over the border of frames 4 and 5
reserve_range-Reserved_test : Reserved 4 6 small (reserve_range 0x4fff 2 small)
reserve_range-Reserved_test = reserve_range-Reserved 0x4fff 2 (omega arith) small-IsValid

release-IsValid_example : IsValid (release 3 small)
release-IsValid_example = release-IsValid 3 small-IsValid

-- memory from 1 MiB on, with one page behind a kernel that ends at 0x120000 and its bitmap
abbrev region : MmapEntry
region = record { addr = 0x10_0000; len = 0x2_2000; kind = 1 }

abbrev machine : BootInfo
machine = record { flags = 64; mem_upper = 0; mmap = region ∷ []; mods = []; mods_addr = 0 }

room : 256 ≤ first_frame 0x12_0000 machine
unfolding mem_end bitmap_end_frame
room = omega arith

fits : first_frame 0x12_0000 machine ≤ frames machine
unfolding mem_end bitmap_end_frame
fits = omega arith

addressable : All Addressable (region ∷ [])
addressable = (omega arith, tt)

init-Booted_example : Booted 0x12_0000 machine (init 0x12_0000 machine)
init-Booted_example = init-Booted 0x12_0000 machine addressable room fits

alloc_at_boot : (alloc_frame (init 0x12_0000 machine)).0 ≡ 289 * page_size
unfolding alloc_frame init all_used carve_regions carve reserve_all release reserve given taken
    bitmap_set bitmap_clear bitmap_test replicate mem_end bitmap_end_frame
alloc_at_boot = refl

alloc-init_example :
    (first_frame 0x12_0000 machine ≤ 289)
    × (289 < frames machine)
    × (bit 64 6 ≡ true → InAvailable (region ∷ []) 289)
alloc-init_example =
    alloc-init 0x12_0000 machine addressable room fits 289 alloc_at_boot (omega arith)

region_iter_test :
    (expand (region_iter small) ≡ bits (0xb ∷ 0 ∷ []) 0 40)
    × Tiles 0 (region_iter small) 40
    × Alternate (bitmap_test (0xb ∷ 0 ∷ []) 0) (region_iter small)
region_iter_test = region_iter_lem small
