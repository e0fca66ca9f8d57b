-- ===== src/Elf/Interp.antt =====
-- src/kernel/elf.c: the name of a program's interpreter, and the address of the program headers. The
-- buffer that the caller gives is a list of bytes.
use lighth_os.Elf.{Image, Phdr, ehdr, phdr, validate}
use lighth_os.Elf.Header.{IsHeaderInside, phdr-IsHeaderInside, validate-IsProgram}
use lighth_os.Elf.Segments.{phdr-IsPhdr}
use lighth_os.Common.{
  ℕ, zero, suc, ◌+◌, ◌-◌, ◌%◌, ◌^◌, ◌≤◌, ◌<◌, ◌≡◌, ◌≢◌, refl, ap, sym, subst, ◌∙◌, Bool, true,
  false, ◌&&◌, not, List, [], ◌∷◌, ◌++◌, length, get_or, set, drop, length-append, length-set,
  length-drop, get_or-set_self, get_or-set_ne, get_or-append_left, ◌==◌, ltb, leb, ltb→lt,
  if◌then◌else◌, arith, inl, inr, Bool-cases, ==→eq, ==→ne, true≢false,
}

-- `n` bytes of the file
unfoldable pub bytes_of : ℕ → ℕ → Image → List ℕ
bytes_of zero a f = []
bytes_of (suc n) a f = f.byte a ∷ bytes_of n (a + 1) f

-- the loop that drops zeros from the end of a name of `n` bytes
unfoldable pub trim : ℕ → List ℕ → ℕ
trim zero out = 0
trim (suc n) out = let rest = trim n out in if get_or out n 0 == 0 then rest else suc n

-- the end of the body for PT_INTERP: the copy, and the zero behind it
unfoldable pub store_name : Image → Phdr → List ℕ → Bool × List ℕ
store_name f p out =
    let n = if leb (length out) p.filesz then length out - 1 else p.filesz in
    let copied = bytes_of n p.offset f ++ drop n out in
    (ltb 0 (trim n copied), set copied (trim n copied) 0)

unfoldable pub read_interp : Image → Phdr → List ℕ → Bool × List ℕ
read_interp f p out =
    if ltb ((p.offset + p.filesz) % 2 ^ 64) p.offset
    then (false, out)
    else if ltb f.size ((p.offset + p.filesz) % 2 ^ 64)
    then (false, out)
    else if p.filesz == 0
    then (false, out)
    else store_name f p out

-- the loop, on the number of headers left
unfoldable pub interp_from : ℕ → ℕ → Image → List ℕ → Bool × List ℕ
interp_from zero i f out = (false, out)
interp_from (suc n) i f out =
    let rest = interp_from n (suc i) f out in
    if not ((phdr f i).kind == 3) then rest else read_interp f (phdr f i) out

-- `elf_find_interp`: the result, and the buffer
unfoldable pub find_interp : Image → List ℕ → Bool × List ℕ
find_interp f out =
    if length out == 0
    then (false, out)
    else if not (validate f)
    then (false, out)
    else interp_from (ehdr f).phnum 0 f out

-- `elf_phdr_vaddr`
unfoldable pub covers : ℕ → Phdr → Bool
covers phoff p = leb p.offset phoff && ltb phoff ((p.offset + p.filesz) % 2 ^ 64)

unfoldable pub phdr_vaddr_from : ℕ → ℕ → Image → ℕ
phdr_vaddr_from zero i f = 0
phdr_vaddr_from (suc n) i f =
    let p = phdr f i in
    let phoff = (ehdr f).phoff in
    let rest = phdr_vaddr_from n (suc i) f in
    if p.kind == 1 && covers phoff p then (p.vaddr + (phoff - p.offset)) % 2 ^ 64 else rest

unfoldable pub phdr_vaddr : Image → ℕ
phdr_vaddr f = if validate f then phdr_vaddr_from (ehdr f).phnum 0 f else 0

-- Of the `size` bytes of the file from `a` on, those that fit into the buffer with a zero behind, but
-- without the zeros at their end: `n` of them. A zero between them stays.
pub record IsStored (f : Image) (a size n : ℕ) (out : List ℕ) : Type 0 where
  pub room : n < length out
  pub bytes : (j : ℕ) → j < n → get_or out j 0 ≡ f.byte (a + j)
  pub ends : get_or out n 0 ≡ 0
  pub whole : 0 < n → get_or out (n - 1) 0 ≢ 0
  pub cut : (j : ℕ) → n ≤ j → j < size → j + 1 < length out → f.byte (a + j) ≡ 0

length-bytes_of : (n a : ℕ) (f : Image) → length (bytes_of n a f) ≡ n
unfolding bytes_of
length-bytes_of zero a f = refl
length-bytes_of (suc n) a f = omega (arith, length-bytes_of n (a + 1) f)

get_or-bytes_of : (n a j : ℕ) (f : Image) → j < n → get_or (bytes_of n a f) j 0 ≡ f.byte (a + j)
unfolding bytes_of
get_or-bytes_of zero a j f h = absurd (omega (arith, h))
get_or-bytes_of (suc n) a zero f h = ap f.byte (omega arith)
get_or-bytes_of (suc n) a (suc j) f h =
    get_or-bytes_of n (a + 1) j f (omega (arith, h)) ∙ ap f.byte (omega arith)

trim_le : (n : ℕ) (out : List ℕ) → trim n out ≤ n
unfolding trim
trim_le zero out = omega arith
trim_le (suc n) out = ground (arith, trim_le n out)

trim_last : (n : ℕ) (out : List ℕ) → 0 < trim n out → get_or out (trim n out - 1) 0 ≢ 0
unfolding trim
trim_last zero out h = absurd (omega (arith, h))
trim_last (suc n) out h = elim (Bool-cases (get_or out n 0 == 0)) [
  | inl z ↦ rw z (trim_last n out (rw z at h))
  | inr z ↦ rw z (subst (λ x. get_or out x 0 ≢ 0) (omega arith) (==→ne (get_or out n 0) 0 z))
]

trim_zero : (n : ℕ) (out : List ℕ) (j : ℕ) → trim n out ≤ j → j < n → get_or out j 0 ≡ 0
unfolding trim
trim_zero zero out j a b = absurd (omega (arith, b))
trim_zero (suc n) out j a b = elim (Bool-cases (get_or out n 0 == 0)) [
  | inr z ↦ absurd (omega (arith, b, (rw z at a)))
  | inl z ↦ elim (Bool-cases (j == n)) [
    | inl e ↦ ap (λ k. get_or out k 0) (==→eq j n e) ∙ ==→eq (get_or out n 0) 0 z
    | inr e ↦ trim_zero n out j (rw z at a) (omega (arith, b, ==→ne j n e))
  ]
]

module _ (f : Image) (p : Phdr) (out : List ℕ) (room : 0 < length out) where
  abbrev count : ℕ
  count = if leb (length out) p.filesz then length out - 1 else p.filesz

  abbrev copied : List ℕ
  copied = bytes_of count p.offset f ++ drop count out

  count_small : (count < length out) × (count ≤ p.filesz)
  count_small = (ground (arith, room), ground (arith, room))

  below_count : (j : ℕ) → j < p.filesz → j + 1 < length out → j < count
  below_count j a b = ground (arith, a, b)

  length-copied : length copied ≡ length out
  length-copied = omega (
    arith,
    length-append (bytes_of count p.offset f) (drop count out),
    length-bytes_of count p.offset f,
    length-drop count out,
    count_small.0,
  )

  copied_byte : (j : ℕ) → j < count → get_or copied j 0 ≡ f.byte (p.offset + j)
  copied_byte j h =
      get_or-append_left (bytes_of count p.offset f) (drop count out) j 0
        (omega (arith, h, length-bytes_of count p.offset f))
      ∙ get_or-bytes_of count p.offset j f h

  store_name-IsStored :
      IsStored f p.offset p.filesz (trim count copied) (set copied (trim count copied) 0)
  store_name-IsStored = record {
    room = omega (arith, length-set copied t 0, length-copied, trim_le count copied, count_small.0);
    bytes = λ j h.
        get_or-set_ne copied t j 0 0 (omega (arith, h))
        ∙ copied_byte j (omega (arith, h, trim_le count copied));
    ends =
        get_or-set_self copied t 0 0
          (omega (arith, length-copied, trim_le count copied, count_small.0));
    whole = λ h.
        subst (λ x. x ≢ 0) (sym (get_or-set_ne copied t (t - 1) 0 0 (omega (arith, h))))
          (trim_last count copied h);
    cut = λ j a b c.
        let inside : j < count =
          below_count j b (omega (arith, c, length-copied, length-set copied t 0)) in
        sym (copied_byte j inside) ∙ trim_zero count copied j a inside;
  }
    where
      t : ℕ
      t = trim count copied

-- What elf_find_interp finds: the first header of the kind PT_INTERP, whose bytes lie in the file, and
-- one byte or more of them in the buffer.
pub record Named (f : Image) (from upto : ℕ) (out : List ℕ) : Type 0 where
  pub index : ℕ
  pub after : from ≤ index
  pub below : index < upto
  pub kind : (phdr f index).kind ≡ 3
  pub first : (j : ℕ) → from ≤ j → j < index → (phdr f j).kind ≢ 3
  pub file : (phdr f index).offset + (phdr f index).filesz ≤ f.size
  pub len : ℕ
  pub some_byte : 0 < len
  pub within : len ≤ (phdr f index).filesz
  pub name : IsStored f (phdr f index).offset (phdr f index).filesz len out

-- The buffer keeps its length, and holds a name where the result is 1.
abbrev pub Finds : Image → ℕ → ℕ → List ℕ → Bool × List ℕ → Type 0
Finds f from upto out r = (length r.1 ≡ length out) × (r.0 ≡ true → Named f from upto r.1)

Finds-none : (f : Image) (from upto : ℕ) (out : List ℕ) → Finds f from upto out (false, out)
Finds-none f from upto out = (refl, λ h. absurd (true≢false (sym h)))

module _ (f : Image) (small : f.size < 2 ^ 64) (out : List ℕ) (room : 0 < length out) where
  read_interp-Finds :
      (i upto : ℕ)
      → i < upto
      → (phdr f i).kind ≡ 3
      → Finds f i upto out (read_interp f (phdr f i) out)
  unfolding read_interp store_name
  read_interp-Finds i upto below kind =
      elim (Bool-cases (ltb (((phdr f i).offset + (phdr f i).filesz) % 2 ^ 64) (phdr f i).offset)) [
        | inl a ↦ rw a (Finds-none f i upto out)
        | inr a ↦
            elim (Bool-cases (ltb f.size (((phdr f i).offset + (phdr f i).filesz) % 2 ^ 64))) [
              | inl b ↦ rw (a, b) (Finds-none f i upto out)
              | inr b ↦ elim (Bool-cases ((phdr f i).filesz == 0)) [
                | inl c ↦ rw (a, b, c) (Finds-none f i upto out)
                | inr c ↦
                    rw (a, b, c)
                      (
                        length-set (copied f (phdr f i) out room) _ 0
                            ∙ length-copied f (phdr f i) out room,
                        λ h. record {
                          index = i;
                          after = omega arith;
                          below = below;
                          kind = kind;
                          first = λ j a b. absurd (omega (arith, a, b));
                          file =
                              ground
                                (arith, a, b, (phdr-IsPhdr f i).offset, (phdr-IsPhdr f i).filesz);
                          len = trim (count f (phdr f i) out room) (copied f (phdr f i) out room);
                          some_byte = ltb→lt 0 _ h;
                          within = omega (
                            arith,
                            trim_le (count f (phdr f i) out room) (copied f (phdr f i) out room),
                            (count_small f (phdr f i) out room).1,
                          );
                          name = store_name-IsStored f (phdr f i) out room;
                        },
                      )
              ]
            ]
      ]

  interp_from-Finds : (n i : ℕ) → Finds f i (i + n) out (interp_from n i f out)
  unfolding interp_from
  interp_from-Finds zero i = Finds-none f i (i + 0) out
  interp_from-Finds (suc n) i = elim (Bool-cases ((phdr f i).kind == 3)) [
    | inl k ↦ rw k (read_interp-Finds i (i + suc n) (omega arith) (==→eq (phdr f i).kind 3 k))
    | inr k ↦
        let r = interp_from-Finds n (suc i) in
        rw k (
          r.0,
          λ h.
              let d = r.1 h in
              record {
                index = d.index;
                after = omega (arith, d.after);
                below = omega (arith, d.below);
                kind = d.kind;
                first = λ j a b. elim (Bool-cases (j == i)) [
                  | inl e ↦
                      subst (λ x. (phdr f x).kind ≢ 3) (sym (==→eq j i e))
                        (==→ne (phdr f i).kind 3 k)
                  | inr e ↦ d.first j (omega (arith, a, ==→ne j i e)) b
                ];
                file = d.file;
                len = d.len;
                some_byte = d.some_byte;
                within = d.within;
                name = d.name;
              },
        )
  ]

-- What the whole search finds, with its header in the file.
abbrev pub FindsInside : Image → List ℕ → Bool × List ℕ → Type 0
FindsInside f out r =
    (length r.1 ≡ length out)
    × (r.0 ≡ true → (d : Named f 0 (ehdr f).phnum r.1) × IsHeaderInside f d.index)

FindsInside-none : (f : Image) (out : List ℕ) → FindsInside f out (false, out)
FindsInside-none f out = (refl, λ h. absurd (true≢false (sym h)))

-- For an image of less than 2 ^ 31 bytes elf_find_interp keeps the length of the buffer. If it returns
-- 1, the first PT_INTERP header and its bytes lie in the file, and the buffer holds those bytes, as far
-- as they fit with a zero behind, without the zeros at their end: one byte or more, the last not 0,
-- and then a zero.
pub find_interp-Finds :
    (f : Image) (out : List ℕ) → f.size < 2 ^ 31 → FindsInside f out (find_interp f out)
unfolding find_interp
find_interp-Finds f out small = elim (Bool-cases (length out == 0)) [
  | inl z ↦ rw z (FindsInside-none f out)
  | inr z ↦ elim (Bool-cases (validate f)) [
    | inr v ↦ rw (z, v) (FindsInside-none f out)
    | inl v ↦
        let p = (validate-IsProgram f (omega (arith, small))).0 v in
        let r : Finds f 0 (ehdr f).phnum out (interp_from (ehdr f).phnum 0 f out) =
          subst (λ n. Finds f 0 n out (interp_from (ehdr f).phnum 0 f out)) (omega arith)
            (interp_from-Finds f (omega (arith, small)) out (omega (arith, ==→ne (length out) 0 z))
              (ehdr f).phnum 0) in
        rw (z, v) (r.0, λ h. let d = r.1 h in (d, phdr-IsHeaderInside f small d.index p d.below))
  ]
]
