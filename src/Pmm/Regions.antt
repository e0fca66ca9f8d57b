-- ===== src/Pmm/Regions.antt =====
-- `pmm_region_iter` describes the bitmap by runs of equal bits.
use lighth_os.Common.{
  ℕ, zero, suc, ◌+◌, ◌-◌, ◌<◌, ◌≡◌, refl, ◌∙◌, ap, Bool, true, false, inl, inr, List, [], ◌∷◌, ◌++◌,
  arith, not, ap₂, ◌≢◌, Bool-cases, replicate, ◌==◌, ==→eq, ==→ne,
}
use mathlib.Core.Path.{subst, subst₂}
use lighth_os.Common.Bits.{same, same-eq}
use lighth_os.Pmm.{Pmm, Run, bitmap_test, region_from, region_iter}

-- the bits that the runs stand for
unfoldable pub expand : List Run → List Bool
expand [] = []
expand (r ∷ rs) = replicate r.len r.used ++ expand rs

-- the bits of `n` frames, from `i` on
unfoldable pub bits : List ℕ → ℕ → ℕ → List Bool
bits bitmap i zero = []
bits bitmap i (suc n) = bitmap_test bitmap i ∷ bits bitmap (i + 1) n

-- The runs lie end to end from `start` to `end`, none is empty, and neighbours differ.
abbrev pub Tiles : ℕ → List Run → ℕ → Type 0
Tiles start [] end = start ≡ end
Tiles start (r ∷ rs) end = (r.start_frame ≡ start) × (0 < r.len) × Tiles (start + r.len) rs end

abbrev pub Alternate : Bool → List Run → Type 0
Alternate u [] = Unit
Alternate u (r ∷ rs) = (r.used ≡ u) × Alternate (not u) rs

replicate-zero : (u : Bool) (l : List Bool) → replicate 0 u ++ l ≡ l
unfolding replicate
replicate-zero u l = refl

replicate-suc :
    (k m : ℕ) (u : Bool) (l : List Bool) → m ≡ suc k → replicate m u ++ l ≡ replicate k u ++ (u ∷ l)
unfolding replicate
replicate-suc k zero u l e = absurd (omega arith)
replicate-suc zero (suc m) u l e = let z : m ≡ 0 = omega arith in rw z refl
replicate-suc (suc k) (suc m) u l e = ap (λ r. u ∷ r) (replicate-suc k m u l (omega arith))

other_bit : (a u : Bool) → same a u ≡ false → a ≡ not u
other_bit true true e = cc
other_bit true false e = refl
other_bit false true e = refl
other_bit false false e = cc

module _ (bitmap : List ℕ) where
  -- what a description of the frames below `end`, with a run open since `start`, amounts to
  record Describes (i n start : ℕ) (u : Bool) (runs : List Run) : Type 0 where
    bits_of : expand runs ≡ replicate (i - start) u ++ bits bitmap i n
    tiles : Tiles start runs (i + n)
    alternate : Alternate u runs

  Describes-last :
      (i start : ℕ) (u : Bool)
      → start < i
      → Describes i 0 start u (record { start_frame = start; len = i - start; used = u } ∷ [])
  unfolding expand bits
  Describes-last i start u l = record {
    bits_of = refl;
    tiles = (refl, omega arith, omega arith);
    alternate = (refl, tt);
  }

  Describes-longer :
      (i n start : ℕ) (u : Bool) (runs : List Run)
      → start < i
      → bitmap_test bitmap i ≡ u
      → Describes (i + 1) n start u runs
      → Describes i (suc n) start u runs
  unfolding bits
  Describes-longer i n start u runs l e d = record {
    bits_of =
        d.bits_of
        ∙ replicate-suc (i - start) (i + 1 - start) u (bits bitmap (i + 1) n) (omega arith)
        ∙ rw e refl;
    tiles = let q : i + 1 + n ≡ i + suc n = omega arith in rw q at d.tiles;
    alternate = d.alternate;
  }

  Describes-cons :
      (i n start : ℕ) (u : Bool) (runs : List Run)
      → start < i
      → bitmap_test bitmap i ≡ not u
      → Describes (i + 1) n i (bitmap_test bitmap i) runs
      → Describes i
          (suc n)
          start
          u
          (record { start_frame = start; len = i - start; used = u } ∷ runs)
  unfolding bits expand
  Describes-cons i n start u runs l e d = record {
    bits_of =
        ap (λ r. replicate (i - start) u ++ r)
          (d.bits_of
            ∙ replicate-suc 0 (i + 1 - i) (bitmap_test bitmap i) (bits bitmap (i + 1) n)
                (omega arith)
            ∙ replicate-zero _ _);
    tiles = (
      refl,
      omega arith,
      let p : i + 1 + n ≡ i + suc n = omega arith in
          let q : i ≡ start + (i - start) = omega arith in
          subst₂ (λ a b. Tiles a runs b) q p d.tiles,
    );
    alternate = (refl, subst (λ b. Alternate b runs) e d.alternate);
  }

  region_from-Describes :
      (n i start : ℕ) (u : Bool)
      → start < i
      → Describes i n start u (region_from n i start u bitmap)
  unfolding region_from
  region_from-Describes zero i start u l = Describes-last i start u l
  region_from-Describes (suc n) i start u l = elim (Bool-cases (same (bitmap_test bitmap i) u)) [
    | inl e ↦ rw e (
        Describes-longer i n start u _ l (same-eq _ u e)
          (region_from-Describes n (i + 1) start u (omega arith)))
    | inr e ↦ rw e (
        Describes-cons i n start u _ l (other_bit _ u e)
          (region_from-Describes n (i + 1) i (bitmap_test bitmap i) (omega arith)))
  ]

bits-suc :
    (bitmap : List ℕ) (n : ℕ)
    → n ≢ 0
    → replicate 1 (bitmap_test bitmap 0) ++ bits bitmap 1 (n - 1) ≡ bits bitmap 0 n
unfolding bits replicate
bits-suc bitmap zero ne = absurd (ne refl)
bits-suc bitmap (suc n) ne =
    ap₂ (λ i k. bitmap_test bitmap 0 ∷ bits bitmap i k) (omega arith) (omega arith)

-- The runs that `pmm_region_iter` reports lie end to end from frame 0 to the last frame, none is
-- empty, neighbours differ, and together they spell out the bits of the bitmap.
pub region_iter_lem :
    (s : Pmm)
    → (expand (region_iter s) ≡ bits s.bitmap 0 s.total_frames)
      × Tiles 0 (region_iter s) s.total_frames
      × Alternate (bitmap_test s.bitmap 0) (region_iter s)
unfolding region_iter bits expand replicate
region_iter_lem s = elim (Bool-cases (s.total_frames == 0)) [
  | inl e ↦ let z = ==→eq s.total_frames 0 e in rw (e, z) (refl, refl, tt)
  | inr e ↦
      let d =
        region_from-Describes s.bitmap (s.total_frames - 1) 1 0 (bitmap_test s.bitmap 0)
          (omega arith) in
      let ne = ==→ne s.total_frames 0 e in
      let k : 1 + (s.total_frames - 1) ≡ s.total_frames = omega arith in
      rw e (d.bits_of ∙ bits-suc s.bitmap s.total_frames ne, rw k at d.tiles, d.alternate)
]
