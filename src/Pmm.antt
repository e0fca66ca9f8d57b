-- ===== src/Pmm.antt =====
-- src/mm/pmm.c: the physical memory manager, a bitmap with one bit for each 4 KiB frame (1 is used).
-- `uint32_t` and `uint64_t` arithmetic that can wrap is written with its modulus.
pub mod Frames
pub mod First
pub mod Inv
pub mod Alloc
pub mod Regions
pub mod Boot
mod Tests
use Prim.Native.Nat.{bit_and, bit_or}
use lighth_os.Common.{
  ℕ, zero, suc, ◌+◌, ◌-◌, ◌*◌, ◌/◌, ◌%◌, ◌^◌, min, Bool, true, false, ◌&&◌, not, Option, none, some,
  List, [], ◌∷◌, ◌==◌, ltb, leb, if◌then◌else◌, get_or, set,
}
use lighth_os.Common.Bits.{bit, one_bit, all_but, same}

abbrev pub page_size : ℕ
page_size = 4096

-- The file's static variables.
pub record Pmm : Type 0 where
  pub bitmap : List ℕ
  pub bitmap_words : ℕ
  pub total_frames : ℕ
  pub used_frames : ℕ

unfoldable pub bitmap_set : ℕ → List ℕ → List ℕ
bitmap_set frame bitmap =
    set bitmap (frame / 32) (bit_or (get_or bitmap (frame / 32) 0) (one_bit (frame % 32)))

unfoldable pub bitmap_clear : ℕ → List ℕ → List ℕ
bitmap_clear frame bitmap =
    set bitmap (frame / 32) (bit_and (get_or bitmap (frame / 32) 0) (all_but (frame % 32)))

unfoldable pub bitmap_test : List ℕ → ℕ → Bool
unfolding bit
bitmap_test bitmap frame = bit (get_or bitmap (frame / 32) 0) (frame % 32)

-- `bitmap_set(i); used_frames++;`
unfoldable pub taken : ℕ → Pmm → Pmm
taken i s = record s { bitmap = bitmap_set i s.bitmap; used_frames = (s.used_frames + 1) % 2 ^ 32 }

-- `bitmap_clear(i); used_frames--;`
unfoldable pub given : ℕ → Pmm → Pmm
given i s = record s {
  bitmap = bitmap_clear i s.bitmap;
  used_frames = (s.used_frames + 2 ^ 32 - 1) % 2 ^ 32;
}

-- the body of the loops that reserve frames
unfoldable pub reserve : ℕ → Pmm → Pmm
reserve i s = if bitmap_test s.bitmap i then s else taken i s

-- the body of the loops that free frames, and of `pmm_free_frame`
unfoldable pub release : ℕ → Pmm → Pmm
release frame s =
    if ltb frame s.total_frames && bitmap_test s.bitmap frame then given frame s else s

-- `for (i = first; i < last && i < total_frames; i++)`, on fuel
unfoldable pub reserve_from : ℕ → ℕ → ℕ → Pmm → Pmm
reserve_from zero i last s = s
reserve_from (suc fuel) i last s =
    let rest = reserve_from fuel (i + 1) last (reserve i s) in
    if ltb i last && ltb i s.total_frames then rest else s

unfoldable pub reserve_range : ℕ → ℕ → Pmm → Pmm
reserve_range start size s =
    let first = start / page_size % 2 ^ 32 in
    let last = (start + size + page_size - 1) % 2 ^ 64 / page_size % 2 ^ 32 in
    reserve_from last first last s

-- the inner loop of `pmm_alloc_frame`: the first clear bit of a word, from bit `b` on
unfoldable pub clear_bit : ℕ → ℕ → ℕ → Option ℕ
clear_bit zero b word = none
clear_bit (suc rounds) b word =
    if bit_and word (2 ^ b) == 0 then some b else clear_bit rounds (b + 1) word

-- the outer loop: the first frame whose bit is clear, from word `i` on
unfoldable pub clear_frame : ℕ → ℕ → List ℕ → Option ℕ
clear_frame zero i bitmap = none
clear_frame (suc rounds) i bitmap =
    let rest = clear_frame rounds (i + 1) bitmap in
    if get_or bitmap i 0 == 0xffff_ffff
    then rest
    else elim (clear_bit 32 0 (get_or bitmap i 0)) [ none ↦ rest | some b ↦ some (i * 32 + b) ]

-- the address of the new frame, or 0; the frame is the one that the loops have found
unfoldable pub alloc_at : Pmm → Option ℕ → ℕ × Pmm
alloc_at s none = (0, s)
alloc_at s (some frame) =
    if leb s.total_frames frame then (0, s) else (frame * page_size, taken frame s)

unfoldable pub alloc_frame : Pmm → ℕ × Pmm
unfolding alloc_at clear_frame clear_bit
alloc_frame s = alloc_at s (clear_frame s.bitmap_words 0 s.bitmap)

unfoldable pub free_frame : ℕ → Pmm → Pmm
free_frame addr s = release (addr / page_size % 2 ^ 32) s

pub get_free_count : Pmm → ℕ
get_free_count s = (s.total_frames + 2 ^ 32 - s.used_frames) % 2 ^ 32

-- a call of the callback: first frame, length, whether used
pub record Run : Type 0 where
  pub start_frame : ℕ
  pub len : ℕ
  pub used : Bool

-- the loop of `pmm_region_iter`, at frame `i` with a run open since `run_start`
pub region_from : ℕ → ℕ → ℕ → Bool → List ℕ → List Run
region_from zero i run_start run_used bitmap =
    record { start_frame = run_start; len = i - run_start; used = run_used } ∷ []
region_from (suc rounds) i run_start run_used bitmap =
    if same (bitmap_test bitmap i) run_used
    then region_from rounds (i + 1) run_start run_used bitmap
    else record { start_frame = run_start; len = i - run_start; used = run_used }
      ∷ region_from rounds (i + 1) i (bitmap_test bitmap i) bitmap

pub region_iter : Pmm → List Run
region_iter s =
    if s.total_frames == 0
    then []
    else region_from (s.total_frames - 1) 1 0 (bitmap_test s.bitmap 0) s.bitmap
