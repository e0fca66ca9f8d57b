-- ===== src/Pmm/Boot/Safe.antt =====
-- What `pmm_init` leaves free: only whole frames of available memory, none of them below the end of
-- the kernel and its bitmap.
use mathlib.Core.Bool.{false≢true}
use mathlib.Core.Path.{subst}
use lighth_os.Common.{
  ℕ, zero, suc, ◌+◌, ◌-◌, ◌*◌, ◌/◌, ◌%◌, ◌^◌, ◌≤◌, ◌<◌, ◌≡◌, refl, ◌∙◌, sym, Bool, true, false,
  ◌&&◌, ◌||◌, inl, inr, List, [], ◌∷◌, arith, ◌==◌, ltb, Bool-cases, if◌then◌else◌, All, dec_lt,
  length,
}
use lighth_os.Common.Bits.{bit}
use lighth_os.Pmm.{Pmm, page_size, reserve, reserve_from, reserve_range, alloc_frame}
use lighth_os.Pmm.Inv.{IsValid, is_used, reserve-IsValid, used-reserve, total-reserve}
use lighth_os.Pmm.Alloc.{alloc_frame-Alloc}
use lighth_os.Pmm.Boot.{
  Module, BootInfo, u64, mem_end, all_used, carve_regions, release_all, reserve_all, reserve_mods,
  bitmap_end_frame, init,
}
use lighth_os.Pmm.Boot.Carve.{
  Only, More, More-Only, release_all-Only, carve_regions-Only, all_used-Only, InAvailable,
  Addressable,
}

More-refl : {s : Pmm} → IsValid s → More s s
More-refl v = record { more_valid = v; more_size = refl; more_used = λ g e. e }

More-trans : {s t u : Pmm} → More s t → More t u → More s u
More-trans m n = record {
  more_valid = n.more_valid;
  more_size = n.more_size ∙ m.more_size;
  more_used = λ g e. n.more_used g (m.more_used g e);
}

reserve-More : {s : Pmm} (f : ℕ) → IsValid s → f < s.total_frames → More s (reserve f s)
reserve-More {s} f v l = record {
  more_valid = reserve-IsValid v f l;
  more_size = total-reserve f s;
  more_used = λ g e. used-reserve v f l g ∙ rw e (or_true (g == f));
}
  where
    or_true : (b : Bool) → (b || true) ≡ true
    or_true b = ground arith

-- the unchecked loops: all their frames are reserved, if they exist
reserve_all-More :
    (n i : ℕ) {s : Pmm}
    → IsValid s
    → i + n ≤ s.total_frames
    → More s (reserve_all n i s)
      × ((g : ℕ) → i ≤ g → g < i + n → is_used (reserve_all n i s) g ≡ true)
unfolding reserve_all
reserve_all-More zero i v l = (More-refl v, λ g a b. absurd (omega arith))
reserve_all-More (suc n) i {s} v l =
    let first = reserve-More i v (omega arith) in
    let same = total-reserve i s in
    let rest = reserve_all-More n (i + 1) first.more_valid (omega arith) in
    (
      More-trans first rest.0,
      λ g a b. elim (Bool-cases (g == i)) [
        | inl q ↦ rest.0.more_used g (used-reserve v i (omega arith) g ∙ rw q refl)
        | inr q ↦ rest.1 g (ground arith) (omega arith)
      ],
    )

reserve_from-More :
    (fuel first last : ℕ) {s : Pmm} → IsValid s → More s (reserve_from fuel first last s)
unfolding reserve_from
reserve_from-More zero first last v = More-refl v
reserve_from-More (suc fuel) first last {s} v =
    elim (Bool-cases (ltb first last && ltb first s.total_frames)) [
      | inl e ↦
          let below : first < s.total_frames = ground arith in
          let one = reserve-More first v below in
          rw e (More-trans one (reserve_from-More fuel (first + 1) last one.more_valid))
      | inr e ↦ rw e (More-refl v)
    ]

range-More : (start size : ℕ) {s : Pmm} → IsValid s → More s (reserve_range start size s)
unfolding reserve_range
range-More start size v = reserve_from-More _ _ _ v

reserve_mods-More : (ms : List Module) {s : Pmm} → IsValid s → More s (reserve_mods ms s)
unfolding reserve_mods
reserve_mods-More [] v = More-refl v
reserve_mods-More (m ∷ ms) {s} v =
    let first = range-More m.mod_start (u64 (m.mod_end + 2 ^ 64 - m.mod_start)) v in
    More-trans first (reserve_mods-More ms first.more_valid)

mem_end-le : (b : BootInfo) → mem_end b ≤ 2 ^ 32
unfolding mem_end
mem_end-le b = ground arith

-- the number of frames, and the first frame behind the kernel and the bitmap
abbrev pub frames : BootInfo → ℕ
frames b = mem_end b / page_size

abbrev pub first_frame : ℕ → BootInfo → ℕ
first_frame kernel_end b = bitmap_end_frame kernel_end ((frames b + 31) / 32)

-- What `pmm_init` promises.
pub record Booted (kernel_end : ℕ) (b : BootInfo) (t : Pmm) : Type 0 where
  pub valid : IsValid t
  pub total : t.total_frames ≡ frames b
  pub low : (g : ℕ) → g < first_frame kernel_end b → is_used t g ≡ true
  pub free :
      (g : ℕ) → g < frames b → is_used t g ≡ false → bit b.flags 6 ≡ true → InAvailable b.mmap g

module _ (kernel_end : ℕ) (b : BootInfo) (low : All Addressable b.mmap)
    (room : 256 ≤ first_frame kernel_end b) (fits : first_frame kernel_end b ≤ frames b) where
  abbrev Good : ℕ → Type 0
  Good g = bit b.flags 6 ≡ true → InAvailable b.mmap g

  abbrev carved : Pmm
  carved =
      if bit b.flags 6
      then carve_regions b.mmap (all_used (frames b))
      else release_all (frames b) 0 (all_used (frames b))

  fresh-Only : Only Good (frames b) (all_used (frames b))
  fresh-Only = all_used-Only Good (frames b) (omega (arith, mem_end-le b))

  carved-Only :
      (c : Bool)
      → bit b.flags 6 ≡ c
      → Only Good (frames b) (
          if c
          then carve_regions b.mmap (all_used (frames b))
          else release_all (frames b) 0 (all_used (frames b)))
  carved-Only true e = carve_regions-Only Good (frames b) b.mmap low (λ f i _. i) fresh-Only
  carved-Only false e =
      release_all-Only Good (frames b) (frames b) 0 (λ f l q. absurd (false≢true (sym e ∙ q)))
        fresh-Only

  -- the kernel image, behind the low megabyte
  abbrev image : Pmm
  image = reserve_all (first_frame kernel_end b - 256) 256 (reserve_all 256 0 carved)

  image-More : More carved image × ((g : ℕ) → g < first_frame kernel_end b → is_used image g ≡ true)
  image-More =
      let o = carved-Only (bit b.flags 6) refl in
      let size = o.size in
      let one = reserve_all-More 256 0 o.valid (omega arith) in
      let size' = one.0.more_size in
      let two =
        reserve_all-More (first_frame kernel_end b - 256) 256 one.0.more_valid (omega arith) in
      (
        More-trans one.0 two.0,
        λ g l. elim (dec_lt g 256) [
          | yes a ↦ two.0.more_used g (one.1 g (omega arith) (omega arith))
          | no a ↦ two.1 g (omega arith) (omega arith)
        ],
      )

  mods-More :
      (c : Bool) {s : Pmm}
      → IsValid s
      → More s
          (if c then reserve_range b.mods_addr (length b.mods * 16) (reserve_mods b.mods s) else s)
  mods-More true v =
      let m = reserve_mods-More b.mods v in
      More-trans m (range-More b.mods_addr (length b.mods * 16) m.more_valid)
  mods-More false v = More-refl v

  -- `pmm_init` leaves a valid allocator in which every frame below the end of the kernel and its
  -- bitmap is used, and in which a free frame lies in an available region of the memory map, if
  -- there is one. The memory must hold the kernel, and the regions end below 16 TiB.
  pub init-Booted : Booted kernel_end b (init kernel_end b)
  unfolding init all_used
  init-Booted =
      let small = mem_end-le b in
      let total : mem_end b / page_size % 2 ^ 32 ≡ frames b = omega arith in
      let made = image-More in
      let mods = mods-More (bit b.flags 3 && ltb 0 (length b.mods)) made.0.more_valid in
      let o = More-Only (carved-Only (bit b.flags 6) refl) (More-trans made.0 mods) in
      rw total (record {
        valid = o.valid;
        total = o.size;
        low = λ g l. mods.more_used g (made.1 g l);
        free = o.only;
      })

  -- The first frame handed out after `pmm_init` lies behind the kernel, in existing memory and in an
  -- available region; 0 means that no frame is free.
  pub alloc-init :
      (f : ℕ)
      → (alloc_frame (init kernel_end b)).0 ≡ f * page_size
      → 0 < f
      → (first_frame kernel_end b ≤ f)
        × (f < frames b)
        × (bit b.flags 6 ≡ true → InAvailable b.mmap f)
  alloc-init f e pos =
      let ready = init-Booted in
      let total = ready.total in
      elim (alloc_frame-Alloc ready.valid) [
        | inr (zero_addr, t, full) ↦ absurd (omega arith)
        | inl (k, below, addr, unused, lowest, t) ↦
            let same : k ≡ f = omega arith in
            let unused' = subst (λ n. is_used (init kernel_end b) n ≡ false) same unused in
            (
              elim (dec_lt f (first_frame kernel_end b)) [
                | yes a ↦ absurd (false≢true (sym unused' ∙ ready.low f a))
                | no a ↦ omega arith
              ],
              omega arith,
              ready.free f (omega arith) unused',
            )
      ]
