-- ===== src/Vmm/Tests.antt =====
-- A machine with one mapped page, and the theorems of the page tables at it.
use lighth_os.Pmm.{Pmm, bitmap_test}
use lighth_os.Pmm.Inv as Inv
use lighth_os.Pmm.Frames.{count_used}
use lighth_os.Vmm.{
  Mem, Vm, up, present, writable, user_bit, huge, addr_of, leads, is_huge, pte_of, lookup,
  walk_lookup, physical_at, map_in, unmap_in, get_physical_in,
}
use lighth_os.Vmm.Tree.{Place, IsTree}
use lighth_os.Vmm.Map.{MapsTo, map_in-MapsTo}
use lighth_os.Vmm.Unmap.{Leaves, unmap_in-Leaves}
use lighth_os.Vmm.Space.{new_pml4, unmap_user_space, default_pml4}
use lighth_os.Vmm.Space.Free.{Emptied, unmap_user_space-Emptied}
use lighth_os.Vmm.Space.New.{Outcome, new_pml4-Made}
use lighth_os.Vmm.User.{accessible, write_ok, pages_ok, user_ptr_ok, take_text, strncpy_from_user}
use lighth_os.Vmm.User.Range.{IsUserRange, user_ptr_ok-IsUserRange}
use lighth_os.Vmm.User.Text.{
  IsUserText, Given, bytes_at, strncpy_from_user-Given, text-strncpy_from_user,
}
use lighth_os.Common.{
  ℕ, ◌≡◌, ◌≢◌, refl, true, false, none, some, [], ◌∷◌, ◌++◌, ◌==◌, if◌then◌else◌, arith, ◌↔◌, ◌⊎◌,
}

-- forty frames, of which the first six are used
abbrev frames : Pmm
frames = record { bitmap = 0x3f ∷ 0 ∷ []; bitmap_words = 2; total_frames = 40; used_frames = 6 }

frames-IsValid : Inv.IsValid frames
unfolding count_used
frames-IsValid = omega arith

-- The tables of page 0 stand in the frames 1 to 4; the page is in frame 9.
abbrev words : Mem
words a =
    if a == 0x1000
    then 0x2007
    else if a == 0x2000
    then 0x3007
    else if a == 0x3000
    then 0x4007
    else if a == 0x4000
    then 0x9007
    else 0

abbrev machine : Vm
machine = record {
  mem = words;
  pmm = frames;
  kernel_pml4 = 0x5000;
  current_cr3 = 0x1000;
  task_pml4 = 0x1000;
}

abbrev places : Place
places t =
    if t == 0x1000
    then some (3, 0)
    else if t == 0x2000
    then some (2, 0)
    else if t == 0x3000
    then some (1, 0)
    else if t == 0x4000
    then some (0, 0)
    else none

first_frames :
    (Inv.is_used frames 1 ≡ true)
    × (Inv.is_used frames 2 ≡ true)
    × (Inv.is_used frames 3 ≡ true)
    × (Inv.is_used frames 4 ≡ true)
    × (Inv.is_used frames 5 ≡ true)
unfolding bitmap_test
first_frames = (refl, refl, refl, refl, refl)

machine-IsTree : IsTree places 0x1000 machine
unfolding leads is_huge huge present addr_of
machine-IsTree = record {
  pmm_valid = frames-IsValid;
  top = refl;
  aligned = λ t k p e. grind arith;
  taken = λ t k p e. grind (arith, first_frames.0, first_frames.1, first_frames.2, first_frames.3);
  child = λ t k p i e h u l. grind arith;
  no_huge = λ t k p i e h u. grind arith;
}

mapped_test : get_physical_in 0x1000 0x123 machine ≡ 0x9123
unfolding get_physical_in walk_lookup lookup leads is_huge huge present addr_of physical_at up
mapped_test = refl

-- a page behind the first 2 MiB, so that a table is made for it
map_in-MapsTo_example :
    MapsTo places 0x1000 0x20_0000
      (pte_of 0xa000 7)
      machine
      (map_in 0x1000 0x20_0000 0xa000 7 machine)
map_in-MapsTo_example =
    map_in-MapsTo places 0x1000 0x20_0000 0xa000 7 machine machine-IsTree (omega arith)

unmap_in-Leaves_example : Leaves places 0x1000 0x123 0 machine (unmap_in 0x1000 0x123 machine)
unmap_in-Leaves_example = unmap_in-Leaves places 0x1000 0x123 machine machine-IsTree (omega arith)

unmap_user_space-Emptied_example : Emptied 0x1000 machine (unmap_user_space 0x1000 machine)
unmap_user_space-Emptied_example = unmap_user_space-Emptied 0x1000 machine (omega arith)

new_pml4-Made_example : Outcome machine (new_pml4 machine)
new_pml4-Made_example = new_pml4-Made machine frames-IsValid refl first_frames.4

user_ptr_ok_test :
    (user_ptr_ok 0x10 0xff0 true machine ≡ true) × (user_ptr_ok 0x10 0xff1 true machine ≡ false)
unfolding user_ptr_ok pages_ok accessible write_ok writable user_bit is_huge huge present addr_of up
    default_pml4
user_ptr_ok_test = (refl, refl)

user_ptr_ok-IsUserRange_example :
    (user_ptr_ok 0x10 0xff0 true machine ≡ true) ↔ IsUserRange 0x10 0xff0 true machine
user_ptr_ok-IsUserRange_example =
    user_ptr_ok-IsUserRange 0x10 0xff0 true machine (omega arith) (omega arith) (omega arith)

-- the text "hi" at 0x20
abbrev bytes : ℕ → ℕ
bytes a = if a == 0x20 then 104 else if a == 0x21 then 105 else 0

space : default_pml4 machine ≢ 0
unfolding default_pml4
space = omega arith

strncpy_from_user_test : strncpy_from_user 0x20 8 machine bytes ≡ (some 2, 104 ∷ 105 ∷ 0 ∷ [])
unfolding strncpy_from_user take_text accessible write_ok writable user_bit is_huge huge present
    addr_of up default_pml4
strncpy_from_user_test = refl

strncpy_from_user-Given_example :
    ((strncpy_from_user 0x20 8 machine bytes).0 ≡ none)
    ⊎ Given (default_pml4 machine) 0x20 words bytes 0 7 (strncpy_from_user 0x20 8 machine bytes)
strncpy_from_user-Given_example =
    strncpy_from_user-Given 0x20 8 machine bytes (omega arith) space (omega arith)

hi_text : IsUserText (default_pml4 machine) 0x20 2 words bytes (bytes_at 2 0x20 bytes ++ (0 ∷ []))
unfolding accessible write_ok writable user_bit is_huge huge present addr_of up default_pml4
hi_text = record {
  readable = λ b l h. grind (arith, l, h);
  nonzero = λ b l h. ground (arith, l, h);
  ends = refl;
  copied = refl;
}

text-strncpy_from_user_example :
    strncpy_from_user 0x20 8 machine bytes ≡ (some 2, 104 ∷ 105 ∷ 0 ∷ [])
unfolding bytes_at
text-strncpy_from_user_example =
    text-strncpy_from_user 0x20 8 machine bytes (omega arith) space (omega arith) 2 (omega arith)
      hi_text
