-- ===== src/Elf/Segments.antt =====
-- src/kernel/elf.c: elf_load_at loads no segment from outside of the file or to outside of user space.
use lighth_os.Vmm.{Vm}
use lighth_os.Elf.{
  Image, Phdr, ehdr, phdr, phdr_at, validate, segment_at, refuses, Load, panics, fails, goes_on,
  and_then, load_segment, load_segments, entry_of, load_at, user_va_min, user_va_max,
}
use lighth_os.Elf.Header.{
  IsHeaderInside, phdr-IsHeaderInside, le_below, IsProgram, validate-IsProgram,
}
use lighth_os.Common.{
  ℕ, zero, suc, ◌+◌, ◌%◌, ◌^◌, ◌≤◌, ◌<◌, ◌≡◌, ◌≢◌, refl, ap, sym, subst, ◌∙◌, true, false, Option,
  none, some, ◌==◌, arith, inl, inr, Bool-cases, ==→eq, ==→ne, ne→==,
}

-- A segment of the program whose bytes lie in the file and whose addresses lie in user space, in
-- numbers that do not wrap.
pub record IsUserSegment (size base : ℕ) (p : Phdr) : Type 0 where
  pub file : p.offset + p.filesz ≤ size
  pub fits : p.filesz ≤ p.memsz
  pub floor : user_va_min ≤ p.vaddr + base
  pub ceiling : p.vaddr + base + p.memsz ≤ user_va_max

-- What a header asks for: only PT_LOAD, with a size, asks for memory.
abbrev pub IsSafe : ℕ → ℕ → Phdr → Type 0
IsSafe size base p = p.kind ≡ 1 → 0 < p.memsz → IsUserSegment size base p

pub record IsPhdr (p : Phdr) : Type 0 where
  pub offset : p.offset < 2 ^ 64
  pub vaddr : p.vaddr < 2 ^ 64
  pub filesz : p.filesz < 2 ^ 64
  pub memsz : p.memsz < 2 ^ 64

pub phdr-IsPhdr : (f : Image) (i : ℕ) → IsPhdr (phdr f i)
unfolding phdr phdr_at
phdr-IsPhdr f i = record {
  offset = omega (arith, le_below 8 _ f.byte);
  vaddr = omega (arith, le_below 8 _ f.byte);
  filesz = omega (arith, le_below 8 _ f.byte);
  memsz = omega (arith, le_below 8 _ f.byte);
}

pub refuses-IsUserSegment :
    (size base : ℕ) (p : Phdr)
    → size < 2 ^ 64
    → base < 2 ^ 64
    → IsPhdr p
    → refuses size base p ≡ false
    → IsUserSegment size base p
unfolding refuses segment_at
refuses-IsUserSegment size base p a b v h = record {
  file = ground (arith, h, v.offset, v.filesz);
  fits = ground (arith, h);
  floor = ground (arith, h, v.vaddr, v.memsz);
  ceiling = ground (arith, h, v.vaddr, v.memsz);
}

module _ (f : Image) (pml4 base : ℕ) (small : f.size < 2 ^ 64) (low : base < 2 ^ 64) where
  refused :
      (p : Phdr) (s t : Vm)
      → p.kind ≡ 1
      → 0 < p.memsz
      → refuses f.size base p ≡ true
      → load_segment f pml4 base p s ≡ goes_on t
      → ⊥
  unfolding load_segment
  refused p s t k m r h = stops (rw (==_is p.kind 1 k, ne→== p.memsz 0 (omega (arith, m)), r) at h)
    where
      ==_is : (x y : ℕ) → x ≡ y → (x == y) ≡ true
      ==_is x y e = ground (arith, e)

      stops : fails s ≡ goes_on t → ⊥
      stops e = cc

  load_segment-IsSafe :
      (i : ℕ) (s t : Vm)
      → load_segment f pml4 base (phdr f i) s ≡ goes_on t
      → IsSafe f.size base (phdr f i)
  load_segment-IsSafe i s t h k m = elim (Bool-cases (refuses f.size base (phdr f i))) [
    | inl r ↦ absurd (refused (phdr f i) s t k m r h)
    | inr r ↦ refuses-IsUserSegment f.size base (phdr f i) small low (phdr-IsPhdr f i) r
  ]

  -- Both steps went on.
  after :
      (r : Load) (next : Vm → Load) (t : Vm)
      → and_then r next ≡ goes_on t
      → (u : Vm) × (r ≡ goes_on u) × (next u ≡ goes_on t)
  unfolding and_then
  after panics next t h = absurd (absent h)
    where
      absent : panics ≡ goes_on t → ⊥
      absent e = cc
  after (fails u) next t h = absurd (absent h)
    where
      absent : fails u ≡ goes_on t → ⊥
      absent e = cc
  after (goes_on u) next t h = (u, refl, h)

  load_segments-IsSafe :
      (n i : ℕ) (s t : Vm)
      → load_segments n i f pml4 base s ≡ goes_on t
      → (j : ℕ) → i ≤ j
      → j < i + n
      → IsSafe f.size base (phdr f j)
  unfolding load_segments
  load_segments-IsSafe zero i s t h j a b = absurd (omega (arith, a, b))
  load_segments-IsSafe (suc n) i s t h j a b =
      let (u, first, rest) =
        after (load_segment f pml4 base (phdr f i) s) (λ v. load_segments n (suc i) f pml4 base v) t
          h in
      elim (Bool-cases (j == i)) [
        | inl e ↦
            subst (λ x. IsSafe f.size base (phdr f x)) (sym (==→eq j i e))
              (load_segment-IsSafe i s u first)
        | inr e ↦
            load_segments-IsSafe n (suc i) u t rest j (omega (arith, a, ==→ne j i e))
              (omega (arith, b))
      ]

-- What a loaded program is.
pub record IsLoaded (f : Image) (base : ℕ) : Type 0 where
  pub program : IsProgram f
  pub headers : (i : ℕ) → i < (ehdr f).phnum → IsHeaderInside f i
  pub segments : (i : ℕ) → i < (ehdr f).phnum → IsSafe f.size base (phdr f i)

-- the number that elf_load_at returns; a panic returns none, here 0
unfoldable pub returned : Option (ℕ × Vm) → ℕ
returned none = 0
returned (some (e, s)) = e

returned-some : (o : Option (ℕ × Vm)) (x : ℕ × Vm) → o ≡ some x → x.0 ≡ 0 → returned o ≢ 0 → ⊥
unfolding returned
returned-some o (e, s) h z ne = ne (ap returned h ∙ z)

entry-goes_on : (e : ℕ) (r : Load) → returned (entry_of e r) ≢ 0 → (t : Vm) × (r ≡ goes_on t)
unfolding entry_of returned
entry-goes_on e panics ne = absurd (ne refl)
entry-goes_on e (fails s) ne = absurd (ne refl)
entry-goes_on e (goes_on s) ne = (s, refl)

-- If elf_load_at of an image of less than 2^31 bytes at a base below 2^64 returns a number
-- that is not 0, the image is a program of this machine whose table of headers lies in the
-- file, every header that is read is the one of the table, and the bytes of every PT_LOAD
-- segment with a size lie in the file, are no more than its size in memory, and its
-- addresses lie between USER_VA_MIN and USER_VA_MAX, in numbers that do not wrap.
pub load_at-IsLoaded :
    (f : Image) (pml4 base : ℕ) (s : Vm)
    → f.size < 2 ^ 31
    → base < 2 ^ 64
    → returned (load_at f pml4 base s) ≢ 0
    → IsLoaded f base
unfolding load_at
load_at-IsLoaded f pml4 base s small low ne = elim (Bool-cases (pml4 == 0)) [
  | inl z ↦ absurd (returned-some (load_at f pml4 base s) (0, s) (rw z refl) refl ne)
  | inr z ↦ elim (Bool-cases (validate f)) [
    | inr v ↦ absurd (returned-some (load_at f pml4 base s) (0, s) (rw (z, v) refl) refl ne)
    | inl v ↦
        let (t, r) =
          entry-goes_on (((ehdr f).entry + base) % 2 ^ 64)
            (load_segments (ehdr f).phnum 0 f pml4 base s) (rw (z, v) at ne) in
        record {
          program = (validate-IsProgram f (omega (arith, small))).0 v;
          headers = λ i l.
              phdr-IsHeaderInside f small i ((validate-IsProgram f (omega (arith, small))).0 v) l;
          segments = λ i l.
              load_segments-IsSafe f pml4 base (omega (arith, small)) low (ehdr f).phnum 0 s t r i
                (omega arith) (omega (arith, l));
        }
  ]
]
