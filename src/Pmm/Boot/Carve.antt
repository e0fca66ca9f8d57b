-- ===== src/Pmm/Boot/Carve.antt =====
-- The frames that `pmm_init` carves out of the memory map: a property that the freed frames have.
use lighth_os.Common.{
  ℕ, zero, suc, ◌+◌, ◌*◌, ◌/◌, ◌%◌, ◌^◌, ◌≤◌, ◌<◌, ◌≡◌, refl, ◌∙◌, sym, true, false, inl, inr, List,
  [], ◌∷◌, arith, ◌==◌, ltb, Bool-cases, ◌⊎◌, ==→eq, All, length-replicate, get_or-replicate,
  ltb→lt,
}
use mathlib.Core.Bool.{false≢true}
use mathlib.Core.Path.{subst}
use lighth_os.Common.Bits.{bit-all_ones}
use lighth_os.Pmm.{Pmm, page_size, bitmap_test, given, release}
use lighth_os.Pmm.Frames.{count_used-full}
use lighth_os.Pmm.Inv.{IsValid, is_used, used-given, given-IsValid, release_cases}
use lighth_os.Pmm.Boot.{
  MmapEntry, u64, page_up, page_down, is_available, all_used, carve, carve_regions, release_all,
}

-- A valid bitmap of `total` frames, in which a free frame has the property `P`.
pub record Only (P : ℕ → Type 0) (total : ℕ) (s : Pmm) : Type 0 where
  pub valid : IsValid s
  pub size : s.total_frames ≡ total
  pub only : (g : ℕ) → g < total → is_used s g ≡ false → P g

-- reserving frames one by one
pub record More (s t : Pmm) : Type 0 where
  pub more_valid : IsValid t
  pub more_size : t.total_frames ≡ s.total_frames
  pub more_used : (g : ℕ) → is_used s g ≡ true → is_used t g ≡ true

pub More-Only :
    {P : ℕ → Type 0} {total : ℕ} {s t : Pmm} → Only P total s → More s t → Only P total t
More-Only {s} o m = record {
  valid = m.more_valid;
  size = m.more_size ∙ o.size;
  only = λ g l e. elim (Bool-cases (is_used s g)) [
    | inl u ↦ absurd (false≢true (sym e ∙ m.more_used g u))
    | inr u ↦ o.only g l u
  ];
}

total-given : (f : ℕ) (s : Pmm) → (given f s).total_frames ≡ s.total_frames
unfolding given
total-given f s = refl

-- the frames freed by the loops have the property
module _ (P : ℕ → Type 0) (total : ℕ) where
  release-Only : {s : Pmm} (f : ℕ) → (f < total → P f) → Only P total s → Only P total (release f s)
  release-Only {s} f good o = elim (release_cases f s) [
    | inr e ↦ rw e o
    | inl (a, b, e) ↦ rw e (record {
      valid = given-IsValid o.valid f a b;
      size = total-given f s ∙ o.size;
      only = λ g l u. elim (Bool-cases (g == f)) [
        | inl q ↦
            let same = ==→eq g f q in subst P (sym same) (good (subst (λ k. k < total) same l))
        | inr q ↦ o.only g l (sym (used-given o.valid f a g ∙ rw q refl) ∙ u)
      ];
    })
  ]

  pub release_all-Only :
      (n i : ℕ) {s : Pmm}
      → ((f : ℕ) → f < total → P f)
      → Only P total s
      → Only P total (release_all n i s)
  unfolding release_all
  release_all-Only zero i good o = o
  release_all-Only (suc n) i good o = release_all-Only n (i + 1) good (release-Only i (good i) o)

  -- the loop over one region, at a page boundary and below 2 ^ 44
  carve-Only :
      (fuel addr end : ℕ) {s : Pmm}
      → addr % page_size ≡ 0
      → end ≤ 2 ^ 44
      → ((f : ℕ) → addr ≤ f * page_size → f * page_size < end → P f)
      → Only P total s
      → Only P total (carve fuel addr end s)
  unfolding carve
  carve-Only zero addr end align low good o = o
  carve-Only (suc fuel) addr end {s} align low good o = elim (Bool-cases (ltb addr end)) [
    | inl e ↦
        let inside = ltb→lt addr end e in
        let frame : addr / page_size % 2 ^ 32 * page_size ≡ addr = omega arith in
        rw e (
          carve-Only fuel (addr + page_size) end (omega arith) low (λ f a b. good f (omega arith) b)
            (release-Only (addr / page_size % 2 ^ 32)
              (λ _. good (addr / page_size % 2 ^ 32) (omega arith) (omega arith)) o))
    | inr e ↦ rw e o
  ]

-- frame `g` lies in an available region of the memory map
abbrev pub Covers : MmapEntry → ℕ → Type 0
Covers e g =
    (e.kind ≡ 1)
    × (page_up e.addr ≤ g * page_size)
    × (g * page_size < page_down (u64 (e.addr + e.len)))

abbrev pub InAvailable : List MmapEntry → ℕ → Type 0
InAvailable [] g = ⊥
InAvailable (e ∷ es) g = Covers e g ⊎ InAvailable es g

-- addresses up to 16 TiB, so that a frame number fits `uint32_t`
abbrev pub Addressable : MmapEntry → Type 0
Addressable e = u64 (e.addr + e.len) ≤ 2 ^ 44

pub carve_regions-Only :
    (P : ℕ → Type 0) (total : ℕ) (es : List MmapEntry) {s : Pmm}
    → All Addressable es
    → ((f : ℕ) → InAvailable es f → P f)
    → Only P total s
    → Only P total (carve_regions es s)
unfolding carve_regions
carve_regions-Only P total [] low good o = o
carve_regions-Only P total (e ∷ es) {s} (low, lows) good o =
    carve_regions-Only P total es lows (λ f i. good f (inr i))
      (elim (Bool-cases (is_available e)) [
        | inl a ↦
            let kind = ==→eq e.kind 1 a in
            rw a (
              carve-Only P total _ (page_up e.addr) (page_down (u64 (e.addr + e.len))) (omega arith)
                (omega arith) (λ f x y. good f (inl (kind, x, y))) o)
        | inr a ↦ rw a o
      ])

used-all_used : (total g : ℕ) → g < total → is_used (all_used total) g ≡ true
unfolding all_used bitmap_test
used-all_used total g h =
    rw (get_or-replicate {A = ℕ} ((total + 31) / 32) (g / 32) 0xffff_ffff 0 (omega arith))
      (bit-all_ones (g % 32) (omega arith))

pub all_used-Only : (P : ℕ → Type 0) (total : ℕ) → total < 2 ^ 32 → Only P total (all_used total)
unfolding all_used
all_used-Only P total h = record {
  valid =
      let full = count_used-full total (all_used total).bitmap (used-all_used total) in
      omega (arith, full, length-replicate {A = ℕ} ((total + 31) / 32) 0xffff_ffff);
  size = refl;
  only = λ g l e. absurd (false≢true (sym e ∙ used-all_used total g l));
}
