-- ===== src/Elf/Tests.antt =====
-- A small program, and the theorems of the loader at it.
use lighth_os.Pmm.{
  Pmm, bitmap_test, alloc_frame, clear_frame, clear_bit, alloc_at, taken, bitmap_set,
}
use lighth_os.Pmm.Frames.{count_used}
use lighth_os.Vmm.{
  Vm, get_physical_in, physical_at, addr_of, alloc_table, create, descend, ensure, huge, is_huge,
  leads, link_new, lookup, map_in, or_user, present, pte_of, put, store_pte, up, user_bit,
  walk_create, walk_lookup, zero_page,
}
use lighth_os.Vmm.Tree.{IsTree}
use lighth_os.Vmm.Space.New.{alone, empty-IsTree}
use lighth_os.Elf.{
  Image, le, ehdr, phdr, phdr_at, int_product, phdr_offset, validate, entry_of, load_segments,
  load_segment, and_then, segment_at, refuses, page_count, map_pages, map_page, mapped, fill,
  write_into_pml4, zero_into_pml4, write_rounds, copy_bytes, put_byte, load_at,
}
use lighth_os.Elf.Header.{IsProgram, validate-IsProgram}
use lighth_os.Elf.Segments.{IsLoaded, returned, load_at-IsLoaded}
use lighth_os.Elf.Pages.{Outcome, map_pages-Outcome}
use lighth_os.Elf.Interp.{
  FindsInside, bytes_of, trim, store_name, read_interp, interp_from, find_interp, find_interp-Finds,
}
use lighth_os.Common.{ℕ, ◌≡◌, refl, true, List, [], ◌∷◌, ◌++◌, get_or, arith, ◌↔◌}

-- the header, a segment of three bytes and two zeros that crosses a page, the name of an
-- interpreter, and the bytes of both
abbrev header : List ℕ
header =
    127 ∷ 69 ∷ 76 ∷ 70 ∷ 2 ∷ 1 ∷ 1 ∷ 0 ∷ 0 ∷ 0 ∷ 0 ∷ 0 ∷ 0 ∷ 0 ∷ 0 ∷ 0 ∷ 2 ∷ 0 ∷ 62 ∷ 0 ∷ 1 ∷ 0 ∷ 0
    ∷ 0 ∷ 0 ∷ 0 ∷ 2 ∷ 0 ∷ 0 ∷ 0 ∷ 0 ∷ 0 ∷ 64 ∷ 0 ∷ 0 ∷ 0 ∷ 0 ∷ 0 ∷ 0 ∷ 0 ∷ 0 ∷ 0 ∷ 0 ∷ 0 ∷ 0 ∷ 0 ∷ 0
    ∷ 0 ∷ 0 ∷ 0 ∷ 0 ∷ 0 ∷ 64 ∷ 0 ∷ 56 ∷ 0 ∷ 2 ∷ 0 ∷ 0 ∷ 0 ∷ 0 ∷ 0 ∷ 0 ∷ 0 ∷ []

abbrev segment : List ℕ
segment =
    1 ∷ 0 ∷ 0 ∷ 0 ∷ 5 ∷ 0 ∷ 0 ∷ 0 ∷ 176 ∷ 0 ∷ 0 ∷ 0 ∷ 0 ∷ 0 ∷ 0 ∷ 0 ∷ 254 ∷ 15 ∷ 2 ∷ 0 ∷ 0 ∷ 0 ∷ 0
    ∷ 0 ∷ 0 ∷ 0 ∷ 0 ∷ 0 ∷ 0 ∷ 0 ∷ 0 ∷ 0 ∷ 3 ∷ 0 ∷ 0 ∷ 0 ∷ 0 ∷ 0 ∷ 0 ∷ 0 ∷ 5 ∷ 0 ∷ 0 ∷ 0 ∷ 0 ∷ 0 ∷ 0
    ∷ 0 ∷ 0 ∷ 16 ∷ 0 ∷ 0 ∷ 0 ∷ 0 ∷ 0 ∷ 0 ∷ []

abbrev interp : List ℕ
interp =
    3 ∷ 0 ∷ 0 ∷ 0 ∷ 5 ∷ 0 ∷ 0 ∷ 0 ∷ 176 ∷ 0 ∷ 0 ∷ 0 ∷ 0 ∷ 0 ∷ 0 ∷ 0 ∷ 0 ∷ 0 ∷ 0 ∷ 0 ∷ 0 ∷ 0 ∷ 0 ∷ 0
    ∷ 0 ∷ 0 ∷ 0 ∷ 0 ∷ 0 ∷ 0 ∷ 0 ∷ 0 ∷ 4 ∷ 0 ∷ 0 ∷ 0 ∷ 0 ∷ 0 ∷ 0 ∷ 0 ∷ 4 ∷ 0 ∷ 0 ∷ 0 ∷ 0 ∷ 0 ∷ 0 ∷ 0
    ∷ 0 ∷ 16 ∷ 0 ∷ 0 ∷ 0 ∷ 0 ∷ 0 ∷ 0 ∷ []

abbrev program : Image
program = record {
  byte = λ a. get_or (header ++ (segment ++ (interp ++ (108 ∷ 100 ∷ 0 ∷ 0 ∷ [])))) a 0;
  size = 180;
}

-- forty frames, of which the first six are used; the PML4 is in frame 1.
abbrev frames : Pmm
frames = record { bitmap = 0x3f ∷ 0 ∷ []; bitmap_words = 2; total_frames = 40; used_frames = 6 }

abbrev machine : Vm
machine = record {
  mem = λ a. 0;
  pmm = frames;
  kernel_pml4 = 0x5000;
  current_cr3 = 0x1000;
  task_pml4 = 0x1000;
}

machine-IsTree : IsTree (alone 0x1000) 0x1000 machine
unfolding count_used bitmap_test
machine-IsTree = empty-IsTree 0x1000 machine (omega arith) refl refl (λ i h. refl)

validate_test : validate program ≡ true
unfolding validate ehdr le
validate_test = refl

validate-IsProgram_test : (validate program ≡ true) ↔ IsProgram program
validate-IsProgram_test = validate-IsProgram program (omega arith)

map_pages-Outcome_example : Outcome 0x1000 0x2_0000 2 machine (map_pages 2 0x1000 0x2_0000 machine)
map_pages-Outcome_example =
    map_pages-Outcome 2 (alone 0x1000) 0x1000 0x2_0000 machine machine-IsTree (omega arith)
      (omega arith)

find_interp_test :
    find_interp program (1 ∷ 2 ∷ 3 ∷ 4 ∷ 5 ∷ 6 ∷ []) ≡ (true, 108 ∷ 100 ∷ 0 ∷ 0 ∷ 5 ∷ 6 ∷ [])
unfolding find_interp validate ehdr le interp_from phdr phdr_at phdr_offset int_product read_interp
    store_name trim bytes_of
find_interp_test = refl

find_interp-Finds_example :
    FindsInside program (1 ∷ 2 ∷ 3 ∷ []) (find_interp program (1 ∷ 2 ∷ 3 ∷ []))
find_interp-Finds_example = find_interp-Finds program (1 ∷ 2 ∷ 3 ∷ []) (omega arith)

loads : returned (load_at program 0x1000 0 machine) ≡ 0x2_0000
unfolding returned load_at entry_of load_segments load_segment and_then segment_at refuses
    page_count map_pages map_page mapped fill write_into_pml4 zero_into_pml4 write_rounds copy_bytes
    put_byte validate ehdr le phdr phdr_at phdr_offset int_product get_physical_in physical_at
    alloc_frame clear_frame clear_bit alloc_at taken bitmap_set addr_of alloc_table create descend
    ensure huge is_huge leads link_new lookup map_in or_user present pte_of put store_pte up
    user_bit walk_create walk_lookup zero_page
loads = refl

load_at-IsLoaded_example : IsLoaded program 0
load_at-IsLoaded_example =
    load_at-IsLoaded program 0x1000 0 machine (omega arith) (omega arith) (rw loads (omega arith))
