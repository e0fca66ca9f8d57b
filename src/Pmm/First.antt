-- ===== src/Pmm/First.antt =====
-- The two loops of `pmm_alloc_frame` find the first frame whose bit is clear.
use lighth_os.Common.{
  ℕ, zero, suc, ◌+◌, ◌*◌, ◌/◌, ◌%◌, ◌≤◌, ◌<◌, ◌≡◌, refl, ◌∙◌, Bool, true, false, inl, inr, List,
  Option, none, some, arith, ◌==◌, ==→eq, Bool-cases, get_or, dec_lt,
}
use lighth_os.Common.Bits.{bit, clear-bit, bit-all_ones}
use lighth_os.Pmm.{bitmap_test, clear_bit, clear_frame}

-- what a search for a `false` between `lo` and `hi` is to return
abbrev pub FirstClear : (ℕ → Bool) → ℕ → ℕ → Option ℕ → Type 0
FirstClear p lo hi none = (j : ℕ) → lo ≤ j → j < hi → p j ≡ true
FirstClear p lo hi (some k) =
    (lo ≤ k) × (k < hi) × (p k ≡ false) × ((j : ℕ) → lo ≤ j → j < k → p j ≡ true)

-- a search that has passed everything below `mid` goes on from there
FirstClear-append :
    (p : ℕ → Bool) (lo mid hi : ℕ) (o : Option ℕ)
    → lo ≤ mid
    → ((j : ℕ) → lo ≤ j → j < mid → p j ≡ true)
    → FirstClear p mid hi o
    → FirstClear p lo hi o
FirstClear-append p lo mid hi none l before rest =
    λ j a b. elim (dec_lt j mid) [ yes q ↦ before j a q | no q ↦ rest j (omega arith) b ]
FirstClear-append p lo mid hi (some k) l before (a, b, c, d) = (
  omega arith,
  b,
  c,
  λ j a' b'. elim (dec_lt j mid) [ yes q ↦ before j a' q | no q ↦ d j (omega arith) b' ],
)

clear_bit-FirstClear :
    (rounds b hi w : ℕ) → b + rounds ≡ hi → FirstClear (bit w) b hi (clear_bit rounds b w)
unfolding clear_bit
clear_bit-FirstClear zero b hi w e = λ j a l. absurd (omega arith)
clear_bit-FirstClear (suc rounds) b hi w e = elim (Bool-cases (bit w b)) [
  | inl on ↦
      rw (clear-bit w b, on)
        (FirstClear-append (bit w) b (b + 1) hi _ (omega arith)
          (λ j a l. let q : j ≡ b = omega arith in rw q on)
          (clear_bit-FirstClear rounds (b + 1) hi w (omega arith)))
  | inr off ↦ rw (clear-bit w b, off) (omega arith, omega arith, off, λ j a l. absurd (omega arith))
]

-- the frames of one word
module _ (bitmap : List ℕ) (i : ℕ) where
  frame-word :
      (j : ℕ)
      → i * 32 ≤ j
      → j < i * 32 + 32
      → bitmap_test bitmap j ≡ bit (get_or bitmap i 0) (j % 32)
  unfolding bitmap_test
  frame-word j a b = let q : j / 32 ≡ i = omega arith in rw q refl

  -- either the word has a clear bit, or the search goes on behind it
  word-FirstClear :
      (hi : ℕ) (o r : Option ℕ)
      → i * 32 + 32 ≤ hi
      → FirstClear (bit (get_or bitmap i 0)) 0 32 o
      → FirstClear (bitmap_test bitmap) (i * 32 + 32) hi r
      → FirstClear
          (bitmap_test bitmap)
          (i * 32)
          hi
          (elim o [ none ↦ r | some b ↦ some (i * 32 + b) ])
  word-FirstClear hi none r l h rest =
      FirstClear-append (bitmap_test bitmap) (i * 32) (i * 32 + 32) hi r (omega arith)
        (λ j a b. frame-word j a b ∙ h (j % 32) (omega arith) (omega arith)) rest
  word-FirstClear hi (some k) r l (a, b, c, d) rest = (
    omega arith,
    omega arith,
    frame-word (i * 32 + k) (omega arith) (omega arith)
        ∙ (let q : (i * 32 + k) % 32 ≡ k = omega arith in rw q c),
    λ j l m. frame-word j l (omega arith) ∙ d (j % 32) (omega arith) (omega arith),
  )

  -- a word that is all ones is passed over
  full-FirstClear :
      (hi : ℕ) (r : Option ℕ)
      → get_or bitmap i 0 ≡ 0xffff_ffff
      → FirstClear (bitmap_test bitmap) (i * 32 + 32) hi r
      → FirstClear (bitmap_test bitmap) (i * 32) hi r
  full-FirstClear hi r e rest =
      FirstClear-append (bitmap_test bitmap) (i * 32) (i * 32 + 32) hi r (omega arith)
        (λ j a b. frame-word j a b ∙ rw e (bit-all_ones (j % 32) (omega arith))) rest

clear_frame_from :
    (rounds i lo hi : ℕ) (bitmap : List ℕ)
    → lo ≡ i * 32
    → (i + rounds) * 32 ≡ hi
    → FirstClear (bitmap_test bitmap) lo hi (clear_frame rounds i bitmap)
unfolding clear_frame
clear_frame_from zero i lo hi bitmap e' e = λ j a b. absurd (omega arith)
clear_frame_from (suc rounds) i lo hi bitmap e' e =
    let rest : FirstClear (bitmap_test bitmap) (i * 32 + 32) hi
        (clear_frame rounds (i + 1) bitmap) =
      clear_frame_from rounds (i + 1) (i * 32 + 32) hi bitmap (omega arith) (omega arith) in
    rw e' (elim (Bool-cases (get_or bitmap i 0 == 0xffff_ffff)) [
      | inl full ↦ rw full (full-FirstClear bitmap i hi _ (==→eq _ 0xffff_ffff full) rest)
      | inr other ↦ rw other (
          word-FirstClear bitmap i hi (clear_bit 32 0 (get_or bitmap i 0)) _ (omega arith)
            (clear_bit-FirstClear 32 0 32 (get_or bitmap i 0) refl) rest)
    ])

pub clear_frame-FirstClear :
    (rounds : ℕ) (bitmap : List ℕ)
    → FirstClear (bitmap_test bitmap) 0 (rounds * 32) (clear_frame rounds 0 bitmap)
clear_frame-FirstClear rounds bitmap =
    clear_frame_from rounds 0 0 (rounds * 32) bitmap refl (omega arith)
