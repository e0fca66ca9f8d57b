-- ===== src/Pmm/Alloc.antt =====
-- Allocating a frame and giving it back.
use lighth_os.Common.{
  ℕ, ◌*◌, ◌/◌, ◌%◌, ◌^◌, ◌<◌, ◌≡◌, refl, ◌∙◌, sym, true, false, inl, inr, arith, ◌==◌, leb,
  Bool-cases, Option, none, some, ◌⊎◌, ==→eq, ◌≢◌, ==_self,
}
use lighth_os.Pmm.{
  Pmm, taken, given, alloc_at, page_size, clear_frame, alloc_frame, free_frame, release,
}
use lighth_os.Pmm.First.{FirstClear, clear_frame-FirstClear}
use lighth_os.Pmm.Inv.{
  IsValid, is_used, used-taken, taken-IsValid, given-IsValid, used-given, release-used,
}
use lighth_os.Pmm.Frames.{count_used-le}

-- what `pmm_alloc_frame` promises: the lowest free frame, taken; or nothing if there is none
abbrev pub Alloc : Pmm → ℕ × Pmm → Type 0
Alloc s (addr, t) =
    ((f : ℕ) × (f < s.total_frames)
      × (addr ≡ f * page_size)
      × (is_used s f ≡ false)
      × ((g : ℕ) → g < f → is_used s g ≡ true)
      × (t ≡ taken f s))
    ⊎ ((addr ≡ 0) × (t ≡ s) × ((g : ℕ) → g < s.total_frames → is_used s g ≡ true))

alloc_at-Alloc :
    {s : Pmm} (o : Option ℕ)
    → IsValid s
    → FirstClear (is_used s) 0 (s.bitmap_words * 32) o
    → Alloc s (alloc_at s o)
unfolding alloc_at
alloc_at-Alloc none v h = inr (refl, refl, λ g l. h g (omega arith) (omega arith))
alloc_at-Alloc {s} (some f) v (a, b, c, d) = elim (Bool-cases (leb s.total_frames f)) [
  | inl e ↦ rw e (inr (refl, refl, λ g l. d g (omega arith) (ground arith)))
  | inr e ↦ rw e (inl (f, ground arith, refl, c, (λ g l. d g (omega arith) l), refl))
]

-- `pmm_alloc_frame` takes the lowest free frame and returns its address; it returns 0 and changes
-- nothing exactly when every frame is used.
pub alloc_frame-Alloc : {s : Pmm} → IsValid s → Alloc s (alloc_frame s)
unfolding alloc_frame
alloc_frame-Alloc {s} v =
    alloc_at-Alloc (clear_frame s.bitmap_words 0 s.bitmap) v
      (clear_frame-FirstClear s.bitmap_words s.bitmap)

pub alloc_frame-IsValid : {s : Pmm} → IsValid s → IsValid (alloc_frame s).1
alloc_frame-IsValid {s} v = elim (alloc_frame-Alloc v) [
  | inl (f, below, e, free, low, t) ↦ rw t (taken-IsValid v f below free)
  | inr (e, t, full) ↦ rw t v
]

module _ {s : Pmm} (v : IsValid s) (f : ℕ) (below : f < s.total_frames)
    (free : is_used s f ≡ false) where
  taken_ok : IsValid (taken f s)
  taken_ok = taken-IsValid v f below free

  taken-in : f < (taken f s).total_frames
  unfolding taken
  taken-in = below

  bit_after : is_used (taken f s) f ≡ true
  bit_after = used-taken v f below f ∙ rw (==_self f) refl

  count_back : (given f (taken f s)).used_frames ≡ s.used_frames
  unfolding given taken
  count_back = omega (arith, v.counted, v.small, count_used-le s.total_frames s.bitmap)

  bits_back : (g : ℕ) → is_used (given f (taken f s)) g ≡ is_used s g
  bits_back g =
      used-given taken_ok f taken-in g
      ∙ rw (used-taken v f below g) (elim (Bool-cases (g == f)) [
        | inl q ↦ rw q (rw (==→eq g f q) (sym free))
        | inr q ↦ rw q refl
      ])

  free-taken :
      let t = release f (taken f s) in
      ((g : ℕ) → is_used t g ≡ is_used s g) × (t.used_frames ≡ s.used_frames) × IsValid t
  free-taken =
      rw (release-used f (taken f s) taken-in bit_after)
        (bits_back, count_back, given-IsValid taken_ok f taken-in bit_after)

-- Freeing an address that `pmm_alloc_frame` has just returned undoes the allocation: every frame
-- is used or free as before, and so is the counter.
pub free-alloc :
    {s : Pmm}
    → IsValid s
    → (alloc_frame s).0 ≢ 0
    → let t = free_frame (alloc_frame s).0 (alloc_frame s).1 in
      ((g : ℕ) → is_used t g ≡ is_used s g) × (t.used_frames ≡ s.used_frames) × IsValid t
unfolding free_frame
free-alloc {s} v some_frame = elim (alloc_frame-Alloc v) [
  | inl (f, below, e, free, low, t) ↦
      let small = v.small in
      let frame : f * page_size / page_size % 2 ^ 32 ≡ f = omega arith in
      rw (e, t, frame) (free-taken v f below free)
  | inr (e, t, full) ↦ absurd (some_frame e)
]
