-- ===== src/Vmm/User/Text.antt =====
-- src/mm/vmm.c: what strncpy_from_user gives of a text in user memory.
use lighth_os.Vmm.{Mem, Vm}
use lighth_os.Vmm.Space.{default_pml4}
use lighth_os.Vmm.User.{page_user_accessible, page_of, take_text, strncpy_from_user}
use lighth_os.Vmm.User.Range.{accessible-page}
use lighth_os.Common.{
  ℕ, zero, suc, ◌+◌, ◌-◌, ◌%◌, ◌^◌, ◌≤◌, ◌<◌, ◌≡◌, ◌≢◌, refl, ap, sym, subst, ◌∙◌, Bool, true,
  false, ◌&&◌, not, Option, none, some, List, [], ◌∷◌, ◌++◌, ◌==◌, ◌⊎◌, ne→==, ap₂, if◌then◌else◌,
  arith, inl, inr, Bool-cases, ==→eq, ==→ne,
}

-- the bytes at the `k` addresses from `va` on
unfoldable pub bytes_at : ℕ → ℕ → (ℕ → ℕ) → List ℕ
bytes_at zero va load = []
bytes_at (suc k) va load = load va ∷ bytes_at k (va + 1) load

-- A text of `k` bytes at `va` that user code may read with its end, and what is stored of it.
pub record IsUserText (pml4 va k : ℕ) (m : Mem) (load : ℕ → ℕ) (stored : List ℕ) : Type 0 where
  pub readable : (b : ℕ) → va ≤ b → b ≤ va + k → page_user_accessible pml4 b false m ≡ true
  pub nonzero : (b : ℕ) → va ≤ b → b < va + k → load b ≢ 0
  pub ends : load (va + k) ≡ 0
  pub copied : stored ≡ bytes_at k va load ++ (0 ∷ [])

module _ (pml4 usrc : ℕ) (m : Mem) (load : ℕ → ℕ) where
  -- The page that was checked last is accessible, or none was.
  abbrev Checked : ℕ → Type 0
  Checked c = (v : ℕ) → page_of v ≡ c → page_user_accessible pml4 v false m ≡ true

  Checked-page : (va : ℕ) → page_user_accessible pml4 va false m ≡ true → Checked (page_of va)
  Checked-page va h v e =
      sym (accessible-page 3 pml4 v false m)
      ∙ ap (λ x. page_user_accessible pml4 x false m) e
      ∙ accessible-page 3 pml4 va false m
      ∙ h

  here :
      (va c : ℕ)
      → Checked c
      → (not (page_of va == c) && not (page_user_accessible pml4 (page_of va) false m)) ≡ false
      → page_user_accessible pml4 va false m ≡ true
  here va c k h = elim (Bool-cases (page_of va == c)) [
    | inl e ↦ k va (==→eq (page_of va) c e)
    | inr e ↦ sym (accessible-page 3 pml4 va false m) ∙ ground (arith, h, e)
  ]

  text_step :
      (va k : ℕ) (r : List ℕ)
      → page_user_accessible pml4 va false m ≡ true
      → load va ≢ 0
      → IsUserText pml4 (va + 1) k m load r
      → IsUserText pml4 va (suc k) m load (load va ∷ r)
  unfolding bytes_at
  text_step va k r a z t = record {
    readable = λ b l h. elim (Bool-cases (b == va)) [
      | inl e ↦ ap (λ x. page_user_accessible pml4 x false m) (==→eq b va e) ∙ a
      | inr e ↦ t.readable b (omega (arith, l, ==→ne b va e)) (omega (arith, h))
    ];
    nonzero = λ b l h. elim (Bool-cases (b == va)) [
      | inl e ↦ subst (λ x. load x ≢ 0) (sym (==→eq b va e)) z
      | inr e ↦ t.nonzero b (omega (arith, l, ==→ne b va e)) (omega (arith, h))
    ];
    ends = ap load (omega arith) ∙ t.ends;
    copied = ap (λ x. load va ∷ x) t.copied;
  }

  abbrev blocked_at : ℕ → ℕ → Bool
  blocked_at va c = not (page_of va == c) && not (page_user_accessible pml4 (page_of va) false m)

  -- one round of the loop
  round :
      (n i c : ℕ)
      → usrc + i < 2 ^ 64
      → take_text (suc n) pml4 usrc i c m load ≡ (
          if blocked_at (usrc + i) c
          then (none, [])
          else if load (usrc + i) == 0
          then (some (i % 2 ^ 32), 0 ∷ [])
          else (
            (take_text n pml4 usrc (suc i) (page_of (usrc + i)) m load).0,
            load (usrc + i) ∷ (take_text n pml4 usrc (suc i) (page_of (usrc + i)) m load).1,
          ))
  unfolding take_text
  round n i c h = rw wrap refl
    where
      wrap : (usrc + i) % 2 ^ 64 ≡ usrc + i
      wrap = omega (arith, h)

  -- What the loop gives on success: the result is the length of the text.
  pub record Given (i n : ℕ) (r : Option ℕ × List ℕ) : Type 0 where
    pub k : ℕ
    pub short : k < n
    pub result : r.0 ≡ some ((i + k) % 2 ^ 32)
    pub text : IsUserText pml4 (usrc + i) k m load r.1

  abbrev Gives : ℕ → ℕ → Option ℕ × List ℕ → Type 0
  Gives i n r = (r.0 ≡ none) ⊎ Given i n r

  end_step :
      (i n : ℕ)
      → page_user_accessible pml4 (usrc + i) false m ≡ true
      → load (usrc + i) ≡ 0
      → Given i (suc n) (some (i % 2 ^ 32), 0 ∷ [])
  unfolding bytes_at
  end_step i n a z = record {
    k = 0;
    short = omega arith;
    result = ap (λ x. some (x % 2 ^ 32)) (omega arith);
    text = record {
      readable = λ b l h. ap (λ x. page_user_accessible pml4 x false m) (omega (arith, l, h)) ∙ a;
      nonzero = λ b l h. absurd (omega (arith, l, h));
      ends = ap load (omega arith) ∙ z;
      copied = refl;
    };
  }

  more_step :
      (i n : ℕ) (r : Option ℕ × List ℕ)
      → page_user_accessible pml4 (usrc + i) false m ≡ true
      → load (usrc + i) ≢ 0
      → Gives (suc i) n r
      → Gives i (suc n) (r.0, load (usrc + i) ∷ r.1)
  more_step i n r a z (inl e) = inl e
  more_step i n r a z (inr g) = inr (record {
    k = suc g.k;
    short = omega (arith, g.short);
    result = g.result ∙ ap (λ x. some (x % 2 ^ 32)) (omega arith);
    text =
        text_step (usrc + i) g.k r.1 a z
          (subst (λ x. IsUserText pml4 x g.k m load r.1) (omega arith) g.text);
  })

  take_text-Gives :
      (n i c : ℕ) → usrc + i + n ≤ 2 ^ 64 → Checked c → Gives i n (take_text n pml4 usrc i c m load)
  unfolding take_text
  take_text-Gives zero i c fit k = inl refl
  take_text-Gives (suc n) i c fit k =
      subst (Gives i (suc n)) (sym (round n i c (omega (arith, fit))))
        (elim (Bool-cases (blocked_at (usrc + i) c)) [
          | inl b ↦ rw b (inl refl)
          | inr b ↦ elim (Bool-cases (load (usrc + i) == 0)) [
            | inl z ↦
                rw (b, z) (inr (end_step i n (here (usrc + i) c k b) (==→eq (load (usrc + i)) 0 z)))
            | inr z ↦
                rw (b, z)
                  (more_step i n (take_text n pml4 usrc (suc i) (page_of (usrc + i)) m load)
                    (here (usrc + i) c k b) (==→ne (load (usrc + i)) 0 z)
                    (take_text-Gives n (suc i) (page_of (usrc + i)) (omega (arith, fit))
                      (Checked-page (usrc + i) (here (usrc + i) c k b))))
          ]
        ])

  clear : (va c : ℕ) → page_user_accessible pml4 va false m ≡ true → blocked_at va c ≡ false
  clear va c a = ground (arith, accessible-page 3 pml4 va false m ∙ a)

  -- A text that is there is found, when there is room for it and its end.
  text-take_text :
      (n i c k : ℕ)
      → usrc + i + n ≤ 2 ^ 64
      → k < n
      → IsUserText pml4 (usrc + i) k m load (bytes_at k (usrc + i) load ++ (0 ∷ []))
      → take_text n pml4 usrc i c m load
        ≡ (some ((i + k) % 2 ^ 32), bytes_at k (usrc + i) load ++ (0 ∷ []))
  unfolding bytes_at
  text-take_text zero i c k fit h t = absurd (omega (arith, h))
  text-take_text (suc n) i c zero fit h t =
      round n i c (omega (arith, fit))
      ∙ rw (clear (usrc + i) c (t.readable (usrc + i) (omega arith) (omega arith)), end_here)
          (ap (λ x. (some (x % 2 ^ 32), 0 ∷ [])) (omega arith))
    where
      end_here : (load (usrc + i) == 0) ≡ true
      end_here = ap (λ x. x == 0) (ap load (omega arith) ∙ t.ends)
  text-take_text (suc n) i c (suc k) fit h t =
      round n i c (omega (arith, fit))
      ∙ rw
          (
            clear (usrc + i) c (t.readable (usrc + i) (omega arith) (omega arith)),
            ne→== (load (usrc + i)) 0 (t.nonzero (usrc + i) (omega arith) (omega arith)),
          )
          (ap (λ (r : Option ℕ × List ℕ). (r.0, load (usrc + i) ∷ r.1))
              (text-take_text n (suc i) (page_of (usrc + i)) k (omega (arith, fit))
                (omega (arith, h)) rest)
            ∙ ap₂ (λ x y. (some (x % 2 ^ 32), load (usrc + i) ∷ (bytes_at k y load ++ (0 ∷ []))))
                (omega arith) (omega arith))
    where
      rest : IsUserText pml4 (usrc + suc i) k m load (bytes_at k (usrc + suc i) load ++ (0 ∷ []))
      rest = record {
        readable = λ b l d. t.readable b (omega (arith, l)) (omega (arith, d));
        nonzero = λ b l d. t.nonzero b (omega (arith, l)) (omega (arith, d));
        ends = ap load (omega arith) ∙ t.ends;
        copied = refl;
      }

-- no page has the number that the loop starts with
none-Checked : (pml4 usrc : ℕ) (m : Mem) (load : ℕ → ℕ) → Checked pml4 usrc m load (2 ^ 64 - 1)
none-Checked pml4 usrc m load v e = absurd (omega (arith, e))

module _ (usrc max : ℕ) (s : Vm) (load : ℕ → ℕ) (room : 0 < max) (space : default_pml4 s ≢ 0)
    (fit : usrc + max ≤ 2 ^ 64) where
  start_form :
      strncpy_from_user usrc max s load
      ≡ take_text (max - 1) (default_pml4 s) usrc 0 (2 ^ 64 - 1) s.mem load
  unfolding strncpy_from_user
  start_form = rw (ne→== max 0 (omega (arith, room)), ne→== (default_pml4 s) 0 space) refl

  -- With an address space and a buffer size above 0 such that the pointer plus the size
  -- stays within 2^64, strncpy_from_user fails or returns the length, cut to 32 bits, of a
  -- text shorter than the buffer: all its bytes and its end lie on pages that user code may
  -- read, no byte is zero before the end, and the bytes stored are the text and a zero.
  pub strncpy_from_user-Given :
      ((strncpy_from_user usrc max s load).0 ≡ none)
      ⊎ Given (default_pml4 s) usrc s.mem load 0 (max - 1) (strncpy_from_user usrc max s load)
  strncpy_from_user-Given =
      subst (Gives (default_pml4 s) usrc s.mem load 0 (max - 1)) (sym start_form) (
        take_text-Gives (default_pml4 s) usrc s.mem load (max - 1) 0 (2 ^ 64 - 1)
          (omega (arith, fit, room)) (none-Checked (default_pml4 s) usrc s.mem load))

  -- With an address space and a buffer size above 0 such that the pointer plus the size
  -- stays within 2^64, strncpy_from_user of a text of at most two bytes less than the size
  -- of the buffer, which user code may read with its end, returns its length, cut to 32
  -- bits, and stores the text and a zero.
  pub text-strncpy_from_user :
      (k : ℕ)
      → k < max - 1
      → IsUserText (default_pml4 s) usrc k s.mem load (bytes_at k usrc load ++ (0 ∷ []))
      → strncpy_from_user usrc max s load ≡ (some (k % 2 ^ 32), bytes_at k usrc load ++ (0 ∷ []))
  text-strncpy_from_user k h t =
      start_form
      ∙ text-take_text (default_pml4 s) usrc s.mem load (max - 1) 0 (2 ^ 64 - 1) k
          (omega (arith, fit, room)) h
          (subst (λ x. IsUserText (default_pml4 s) x k s.mem load (bytes_at k x load ++ (0 ∷ [])))
            (omega arith) t)
      ∙ ap₂ (λ x y. (some (x % 2 ^ 32), bytes_at k y load ++ (0 ∷ []))) (omega arith) (omega arith)
