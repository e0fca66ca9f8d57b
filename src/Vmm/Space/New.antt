-- ===== src/Vmm/Space/New.antt =====
-- src/mm/vmm.c: vmm_new_pml4 makes an address space with no user page and with the kernel's half.
use lighth_os.Pmm.{alloc_frame}
use lighth_os.Pmm.Inv as Inv
use lighth_os.Pmm.Alloc.{alloc_frame-Alloc}
use lighth_os.Vmm.{
  Mem, Vm, direct_map_limit, put, zero_page, present, huge, leads, is_huge, get_physical_in,
}
use lighth_os.Vmm.Words.{same_word, put-here, put-there, zero_page-inside, zero_page-outside}
use lighth_os.Vmm.Tree.{Place, IsTree, IsUser}
use lighth_os.Vmm.Fresh.{Fresh, alloc_frame-Fresh}
use lighth_os.Vmm.Space.{copy_entries, new_pml4}
use lighth_os.Vmm.Space.Free.{user_absent}
use lighth_os.Common.{
  ℕ, zero, suc, ◌+◌, ◌*◌, ◌%◌, ◌/◌, ◌^◌, ◌≤◌, ◌<◌, ◌≡◌, ◌≢◌, refl, ap, sym, ◌∙◌, true, false,
  Option, none, some, ◌==◌, leb, if◌then◌else◌, arith, inl, inr, Bool-cases, ==→eq, ==→ne, ==_self,
  true≢false,
}

copy-outside :
    (n i p from : ℕ) (m : Mem) (b : ℕ)
    → ((j : ℕ) → i ≤ j → j < i + n → b ≢ p + 8 * j)
    → copy_entries n i p from m b ≡ m b
unfolding copy_entries
copy-outside zero i p from m b h = refl
copy-outside (suc n) i p from m b h =
    copy-outside n (suc i) p from (put (p + 8 * i) (m (from + 8 * i)) m) b
      (λ j a d. h j (omega (arith, a)) (omega (arith, d)))
    ∙ put-there (p + 8 * i) _ b m (h i (omega arith) (omega arith))

copy-inside :
    (p from : ℕ)
    → p % 4096 ≡ 0
    → from % 4096 ≡ 0
    → p ≢ from
    → (n i : ℕ) (m : Mem) (j : ℕ) → i ≤ j
    → j < i + n
    → i + n ≤ 512
    → copy_entries n i p from m (p + 8 * j) ≡ m (from + 8 * j)
unfolding copy_entries
copy-inside p from a b ne zero i m j l h e = absurd (omega (arith, l, h))
copy-inside p from a b ne (suc n) i m j l h e = elim (Bool-cases (j == i)) [
  | inl q ↦ rw (==→eq j i q) (
      copy-outside n (suc i) p from (put (p + 8 * i) (m (from + 8 * i)) m) (p + 8 * i)
        (λ u c d x. omega (arith, c, x))
      ∙ put-here (p + 8 * i) (m (from + 8 * i)) m)
  | inr q ↦
      copy-inside p from a b ne n (suc i) (put (p + 8 * i) (m (from + 8 * i)) m) j
        (omega (arith, l, ==→ne j i q)) (omega (arith, h)) (omega (arith, e))
      ∙ put-there (p + 8 * i) _ (from + 8 * j) m
          (λ x. ne (sym (same_word from p j i b a (omega (arith, h, e)) (omega (arith, e)) x).0))
]

-- the tree of a PML4 alone
abbrev pub alone : ℕ → Place
alone f t = if t == f then some (3, 0) else none

alone_level : (f t k p : ℕ) → alone f t ≡ some (k, p) → (t ≡ f) × (k ≡ 3)
alone_level f t k p h = elim (Bool-cases (t == f)) [
  | inl q ↦ (==→eq t f q, level (rw q at h))
  | inr q ↦ absurd (nothing (rw q at h))
]
  where
    pair : ℕ × ℕ
    pair = (k, p)

    top : ℕ × ℕ
    top = (3, 0)

    level : some top ≡ some pair → k ≡ 3
    level e = cc

    nothing : none ≡ some pair → ⊥
    nothing e = cc

no_entry : (k : ℕ) → (leads k 0 ≡ false) × (is_huge k 0 ≡ false)
unfolding leads present is_huge huge
no_entry k = (ground arith, ground arith)

-- a PML4 with an empty user half
pub empty-IsTree :
    (f : ℕ) (s : Vm)
    → Inv.IsValid s.pmm
    → f % 4096 ≡ 0
    → Inv.is_used s.pmm (f / 4096) ≡ true
    → ((i : ℕ) → i < 256 → s.mem (f + 8 * i) ≡ 0)
    → IsTree (alone f) f s
empty-IsTree f s v a u z = record {
  pmm_valid = v;
  top = rw (==_self f) refl;
  aligned = λ t k p e. rw ((alone_level f t k p e).0) a;
  taken = λ t k p e. ap (λ x. Inv.is_used s.pmm (x / 4096)) (alone_level f t k p e).0 ∙ u;
  child = λ t k p i e h user l.
      absurd (true≢false (sym l ∙ ap (leads (suc k)) (slot t k p i e user) ∙ (no_entry (suc k)).0));
  no_huge = λ t k p i e h user. ap (is_huge (suc k)) (slot t k p i e user) ∙ (no_entry (suc k)).1;
}
  where
    slot : (t k p i : ℕ) → alone f t ≡ some (suc k, p) → IsUser (suc k) i → s.mem (t + 8 * i) ≡ 0
    slot t k p i e user =
        let l = alone_level f t (suc k) p e in ap (λ x. s.mem (x + 8 * i)) l.0 ∙ z i (user l.1)

-- What vmm_new_pml4 makes of the frame `f`.
pub record Made (f : ℕ) (s s' : Vm) : Type 0 where
  pub tree : IsTree (alone f) f s'
  pub unmapped : (va : ℕ) → va < 2 ^ 47 → get_physical_in f va s' ≡ 0
  pub kernel_half : (j : ℕ) → 256 ≤ j → j < 512 → s'.mem (f + 8 * j) ≡ s.mem (s.kernel_pml4 + 8 * j)
  pub other_frames :
      (t j : ℕ) → t % 4096 ≡ 0 → t ≢ f → j < 512 → s'.mem (t + 8 * j) ≡ s.mem (t + 8 * j)

module _ (s : Vm) (aligned : s.kernel_pml4 % 4096 ≡ 0)
    (used : Inv.is_used s.pmm (s.kernel_pml4 / 4096) ≡ true) (f : ℕ) (s1 : Vm)
    (fresh : Fresh s f s1) where
  filled : Mem
  filled = copy_entries 256 256 f s.kernel_pml4 (zero_page f s.mem)

  other : f ≢ s.kernel_pml4
  other x = true≢false (sym used ∙ ap (λ n. Inv.is_used s.pmm (n / 4096)) (sym x) ∙ fresh.unused)

  user_zero : (j : ℕ) → j < 256 → filled (f + 8 * j) ≡ 0
  unfolding filled
  user_zero j h =
      copy-outside 256 256 f s.kernel_pml4 (zero_page f s.mem) (f + 8 * j)
        (λ i a b x. omega (arith, h, a, x))
      ∙ zero_page-inside f (f + 8 * j) s.mem (omega arith) (omega (arith, h))

  made : Vm
  made = record s { pmm = s1.pmm; mem = filled }

  made-Made : Made f s made
  unfolding made filled present
  made-Made = record {
    tree =
        empty-IsTree f made fresh.valid fresh.aligned
          (fresh.used (f / 4096) ∙ rw (==_self (f / 4096)) refl) user_zero;
    unmapped = λ va low. user_absent f va made (λ j h. ap present (user_zero j h)) low;
    kernel_half = λ j a b.
        copy-inside f s.kernel_pml4 fresh.aligned aligned other 256 256 (zero_page f s.mem) j a
          (omega (arith, b)) (omega arith)
        ∙ zero_page-outside f s.kernel_pml4 j s.mem aligned fresh.aligned (λ x. other (sym x)) b;
    other_frames = λ t j a ne h.
        copy-outside 256 256 f s.kernel_pml4 (zero_page f s.mem) (t + 8 * j)
          (λ i c d x. ne (same_word t f j i a fresh.aligned h (omega (arith, d)) x).0)
        ∙ zero_page-outside f t j s.mem a fresh.aligned ne h;
  }

-- What comes of vmm_new_pml4: a panic and a null pointer are for want of a frame in the direct map.
pub Outcome : Vm → Option (ℕ × Vm) → Type 0
Outcome s none = direct_map_limit ≤ (alloc_frame s.pmm).0
Outcome s (some (f, s')) = if f == 0 then (alloc_frame s.pmm).0 ≡ 0 else Made f s s'

-- With a valid frame allocator and an aligned kernel PML4 in a used frame, vmm_new_pml4
-- gives a PML4 whose tables form a tree, in which no page of the user half is mapped, whose
-- upper 256 entries are those of the kernel, and every word of another frame is as before;
-- it gives a null pointer only when the allocator gives no frame, and panics only when the
-- frame lies above the direct map.
pub new_pml4-Made :
    (s : Vm)
    → Inv.IsValid s.pmm
    → s.kernel_pml4 % 4096 ≡ 0
    → Inv.is_used s.pmm (s.kernel_pml4 / 4096) ≡ true
    → Outcome s (new_pml4 s)
unfolding new_pml4 Outcome made filled
new_pml4-Made s v a u = elim (Bool-cases ((alloc_frame s.pmm).0 == 0)) [
  | inl z ↦ rw z (==→eq (alloc_frame s.pmm).0 0 z)
  | inr z ↦ elim (Bool-cases (leb direct_map_limit (alloc_frame s.pmm).0)) [
    | inl h ↦ rw (z, h) (ground (arith, h))
    | inr h ↦
        rw (z, h, z)
          (made-Made s a u (alloc_frame s.pmm).0 _
            (alloc_frame-Fresh s v (alloc_frame-Alloc v) (==→ne (alloc_frame s.pmm).0 0 z)))
  ]
]
