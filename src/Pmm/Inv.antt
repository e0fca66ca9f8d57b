-- ===== src/Pmm/Inv.antt =====
-- The invariant of the frame allocator, and that reserving and releasing frames keep it.
use lighth_os.Common.{
  ℕ, zero, suc, ◌+◌, ◌-◌, ◌*◌, ◌/◌, ◌%◌, ◌^◌, ◌≤◌, ◌<◌, ◌≡◌, refl, ◌∙◌, Bool, true, false, not,
  ◌&&◌, ◌||◌, inl, inr, arith, ◌==◌, ltb, Bool-cases, length, lt→ltb, ge→ltb, ==→eq, ltb→lt, leb,
  ◌⊎◌, ==_self,
}
use lighth_os.Pmm.{
  Pmm, page_size, bitmap_set, bitmap_clear, bitmap_test, taken, given, reserve, release,
  reserve_from, reserve_range,
}
use lighth_os.Pmm.Frames.{
  test-set, test-clear, length-bitmap_set, length-bitmap_clear, count_used, count_used-le,
  count_used-add,
}

-- The bitmap has a bit for each frame, and the counter tells how many of these are set.
pub record IsValid (s : Pmm) : Type 0 where
  pub storage : length s.bitmap ≡ s.bitmap_words
  pub covers : s.total_frames ≤ s.bitmap_words * 32
  pub small : s.total_frames < 2 ^ 32
  pub counted : s.used_frames ≡ count_used s.total_frames s.bitmap

abbrev pub is_used : Pmm → ℕ → Bool
is_used s f = bitmap_test s.bitmap f

module _ {s : Pmm} (v : IsValid s) (f : ℕ) (below : f < s.total_frames) where
  in_bitmap : f / 32 < length s.bitmap
  in_bitmap = omega arith

  pub used-taken : (g : ℕ) → is_used (taken f s) g ≡ ((g == f) || is_used s g)
  unfolding taken
  used-taken g = test-set s.bitmap f g in_bitmap

  pub taken-IsValid : is_used s f ≡ false → IsValid (taken f s)
  unfolding taken
  taken-IsValid e = omega (
    arith,
    length-bitmap_set f s.bitmap,
    count_used-add s.total_frames f s.bitmap (bitmap_set f s.bitmap) below e (used-taken),
    count_used-le s.total_frames (bitmap_set f s.bitmap),
  )

  pub reserve-IsValid : IsValid (reserve f s)
  unfolding reserve
  reserve-IsValid = elim (Bool-cases (is_used s f)) [
    | inl e ↦ rw e v
    | inr e ↦ rw e (taken-IsValid e)
  ]

  pub used-reserve : (g : ℕ) → is_used (reserve f s) g ≡ ((g == f) || is_used s g)
  unfolding reserve
  used-reserve g = elim (Bool-cases (is_used s f)) [
    | inl e ↦
        rw e (elim (Bool-cases (g == f)) [ inl q ↦ rw q (rw (==→eq g f q) e) | inr q ↦ rw q refl ])
    | inr e ↦ rw e (used-taken g)
  ]

module _ {s : Pmm} (v : IsValid s) (f : ℕ) (below : f < s.total_frames) where
  pub used-given : (g : ℕ) → is_used (given f s) g ≡ (not (g == f) && is_used s g)
  unfolding given
  used-given g = test-clear s.bitmap f g (in_bitmap v f below)

  -- the bits before, from those after
  before-given :
      is_used s f ≡ true
      → (g : ℕ) → is_used s g ≡ ((g == f) || bitmap_test (bitmap_clear f s.bitmap) g)
  before-given e g = elim (Bool-cases (g == f)) [
    | inl q ↦ rw q (rw (==→eq g f q) e)
    | inr q ↦ rw (q, test-clear s.bitmap f g (in_bitmap v f below), q) refl
  ]

  pub given-IsValid : is_used s f ≡ true → IsValid (given f s)
  unfolding given
  given-IsValid e = omega (
    arith,
    length-bitmap_clear f s.bitmap,
    count_used-add s.total_frames f (bitmap_clear f s.bitmap) s.bitmap below
        (test-clear s.bitmap f f (in_bitmap v f below) ∙ rw (==_self f) refl) (before-given e),
    count_used-le s.total_frames s.bitmap,
  )

-- `pmm_free_frame` does nothing to a frame that is out of range or free
pub release_cases :
    (f : ℕ) (s : Pmm)
    → ((f < s.total_frames) × (is_used s f ≡ true) × (release f s ≡ given f s)) ⊎ (release f s ≡ s)
unfolding release
release_cases f s = elim (Bool-cases (ltb f s.total_frames)) [
  | inl a ↦ elim (Bool-cases (is_used s f)) [
    | inl b ↦ inl (ltb→lt f s.total_frames a, b, rw (a, b) refl)
    | inr b ↦ inr (rw (a, b) refl)
  ]
  | inr a ↦ inr (rw a refl)
]

pub release-used :
    (f : ℕ) (s : Pmm) → f < s.total_frames → is_used s f ≡ true → release f s ≡ given f s
unfolding release
release-used f s a b = rw (lt→ltb f s.total_frames a, b) refl

pub release-IsValid : {s : Pmm} (f : ℕ) → IsValid s → IsValid (release f s)
release-IsValid {s} f v = elim (release_cases f s) [
  | inl (a, b, e) ↦ rw e (given-IsValid v f a b)
  | inr e ↦ rw e v
]

pub total-reserve : (f : ℕ) (s : Pmm) → (reserve f s).total_frames ≡ s.total_frames
unfolding reserve taken
total-reserve f s = ground arith

-- a frame of the range that the loop goes through
abbrev pub within : ℕ → ℕ → ℕ → ℕ → Bool
within first last total g = (leb first g && ltb g last) && ltb g total

-- what a loop over a range has reserved
pub record Reserved (first last : ℕ) (s t : Pmm) : Type 0 where
  pub valid : IsValid t
  pub total : t.total_frames ≡ s.total_frames
  pub used : (g : ℕ) → is_used t g ≡ (within first last s.total_frames g || is_used s g)

pub Reserved-none :
    {s : Pmm} (first last : ℕ)
    → IsValid s
    → (ltb first last && ltb first s.total_frames) ≡ false
    → Reserved first last s s
Reserved-none first last v e = record { valid = v; total = refl; used = λ g. ground arith }

pub Reserved-step :
    {s t : Pmm} (first last : ℕ)
    → IsValid s
    → first < s.total_frames
    → first < last
    → Reserved (first + 1) last (reserve first s) t
    → Reserved first last s t
Reserved-step {s} {t} first last v h l r = record {
  valid = r.valid;
  total = r.total ∙ total-reserve first s;
  used = λ g. ground (arith, r.used g, used-reserve v first h g, total-reserve first s);
}

pub reserve_from-Reserved :
    (fuel first last : ℕ) {s : Pmm}
    → last ≤ first + fuel
    → IsValid s
    → Reserved first last s (reserve_from fuel first last s)
unfolding reserve_from
reserve_from-Reserved zero first last {s} h v =
    Reserved-none first last v (rw (ge→ltb first last (omega arith)) refl)
reserve_from-Reserved (suc fuel) first last {s} h v =
    elim (Bool-cases (ltb first last && ltb first s.total_frames)) [
      | inl e ↦
          let in_range : (first < last) × (first < s.total_frames) = ground arith in
          rw e (
            Reserved-step first last v in_range.1 in_range.0 (
              reserve_from-Reserved fuel (first + 1) last (omega arith)
                (reserve-IsValid v first in_range.1)))
      | inr e ↦ rw e (Reserved-none first last v e)
    ]

-- `pmm_reserve_range` marks exactly the frames that a byte of the range lies in, as far as they
-- exist, leaves every other frame as it was, and keeps the counter right.
pub reserve_range-Reserved :
    (start size : ℕ) {s : Pmm}
    → start + size + page_size ≤ 2 ^ 44
    → IsValid s
    → Reserved
        (start / page_size)
        ((start + size + page_size - 1) / page_size)
        s
        (reserve_range start size s)
unfolding reserve_range
reserve_range-Reserved start size {s} h v =
    let first : start / page_size % 2 ^ 32 ≡ start / page_size = omega arith in
    let last : (start + size + page_size - 1) % 2 ^ 64 / page_size % 2 ^ 32
        ≡ (start + size + page_size - 1) / page_size =
      omega arith in
    rw (first, last) (reserve_from-Reserved _ _ _ (omega arith) v)
