-- ===== src/Heap/RoundTrip.antt =====
-- Freeing what was just allocated restores the heap.
use mathlib.Core.Path.{subst}
use lighth_os.Common.{
  ℕ, ◌+◌, ◌-◌, ◌^◌, ◌≤◌, ◌≡◌, refl, ◌∙◌, sym, ap, true, false, ◌&&◌, [], ◌∷◌, ◌++◌, ◌==◌, leb,
  if◌then◌else◌, arith, inl, inr, Bool-cases, ne→==, ==_self, ◌≢◌,
}
use lighth_os.Heap.{
  Block, Heap, header_size, u64, align16, take_block, first_fit, kmalloc, absorb_next, mark_free,
  absorb_prev, merge_prev, kfree,
}
use lighth_os.Heap.Tiles.{Tiles, Tiles-le, Coalesced, IsValid}
use lighth_os.Heap.Malloc.{first_fit_skip, first_fit_take}

-- a block that was free
whole_block :
    (b : Block) (n : ℕ)
    → b.is_free ≡ true
    → n ≡ b.size
    → record { addr = b.addr; size = n; is_free = true } ≡ b
whole_block b n free e = λ i. record { addr = b.addr; size = e i; is_free = sym free i }

-- marking the block that was just taken restores the chain
rejoin :
    (size : ℕ) (b : Block) (bs : Heap) (start end : ℕ)
    → end ≤ 2 ^ 64 - 32
    → size ≤ b.size
    → b.is_free ≡ true
    → Tiles start (b ∷ bs) end
    → Coalesced true bs
    → mark_free b.addr (take_block size b ++ bs) ≡ b ∷ bs
unfolding mark_free take_block absorb_next
rejoin size b bs start end small fits free (a, m, t) c =
    let within = Tiles-le bs t in
    let hit = ==_self b.addr in
    elim (Bool-cases (leb (u64 (size + header_size + 16)) b.size)) [
      | inl big ↦
          let exact : u64
                (size + (header_size + u64 (b.size + 2 ^ 64 + 2 ^ 64 - size - header_size)))
              ≡ b.size =
            ground arith in
          rw (big, hit) (ap (λ x. x ∷ bs) (whole_block b _ free exact))
      | inr fit ↦ rw (fit, hit) (lone bs c)
    ]
  where
    lone :
        (bs : Heap)
        → Coalesced true bs
        → absorb_next (record { addr = b.addr; size = b.size; is_free = true }) bs ≡ b ∷ bs
    lone [] c = ap (λ x. x ∷ []) (whole_block b b.size free refl)
    lone (n ∷ bs) (d, r) =
        ap
          (λ f.
            if f
            then record {
              addr = b.addr;
              size = u64 (b.size + (header_size + n.size));
              is_free = true;
            }
              ∷ bs
            else record { addr = b.addr; size = b.size; is_free = true } ∷ n ∷ bs)
          d
        ∙ ap (λ x. x ∷ n ∷ bs) (whole_block b b.size free refl)

-- a free block behind a used one, when its own address is freed
kept : (p b : Block) (bs : Heap) → (p.is_free) ≡ false → absorb_prev b.addr p (b ∷ bs) ≡ p ∷ b ∷ bs
unfolding absorb_prev
kept p b bs e = rw (==_self b.addr) (
    ap
      (λ f.
        if f then record p { size = u64 (p.size + (header_size + b.size)) } ∷ bs else p ∷ b ∷ bs)
      e)

first_kept : (b : Block) (bs : Heap) → merge_prev b.addr (b ∷ bs) ≡ b ∷ bs
unfolding merge_prev
first_kept b bs = rw (==_self b.addr) refl

passed :
    (a : ℕ) (p b : Block) (bs : Heap)
    → b.addr ≢ a
    → absorb_prev a p (mark_free a (b ∷ bs)) ≡ p ∷ absorb_prev a b (mark_free a bs)
unfolding absorb_prev mark_free
passed a p b bs ne = rw (ne→== b.addr a ne, ne→== b.addr a ne) refl

first_passed :
    (a : ℕ) (b : Block) (bs : Heap)
    → b.addr ≢ a
    → merge_prev a (mark_free a (b ∷ bs)) ≡ absorb_prev a b (mark_free a bs)
unfolding merge_prev mark_free
first_passed a b bs ne = rw (ne→== b.addr a ne, ne→== b.addr a ne) refl

module _ (size : ℕ) where
  first_fit_above :
      (h : Heap) (start end : ℕ)
      → Tiles start h end
      → (first_fit size h).0 ≢ 0
      → start + header_size ≤ (first_fit size h).0
  unfolding first_fit
  first_fit_above [] start end t ne = absurd (ne refl)
  first_fit_above (b ∷ bs) start end (a, m, t) ne =
      ground (arith, first_fit_above bs (start + header_size + b.size) end t)

  first_fit_within : (h : Heap) (start end : ℕ) → Tiles start h end → (first_fit size h).0 ≤ end
  unfolding first_fit
  first_fit_within [] start end t = omega arith
  first_fit_within (b ∷ bs) start end (a, m, t) =
      ground (arith, Tiles-le bs t, first_fit_within bs (start + header_size + b.size) end t)

  -- behind a block that stays
  undo_behind :
      (h : Heap) (p : Block) (start end : ℕ)
      → end ≤ 2 ^ 64 - 32
      → Tiles start h end
      → Coalesced p.is_free h
      → (first_fit size h).0 ≢ 0
      → let a = (first_fit size h).0 - header_size in
        absorb_prev a p (mark_free a (first_fit size h).1) ≡ p ∷ h
  undo_behind [] p start end small t c ne = unfold first_fit in absurd (ne refl)
  undo_behind (b ∷ bs) p start end small (x, m, t) (c, r) ne =
      elim (Bool-cases (b.is_free && leb size b.size)) [
        | inl e ↦
            let free : b.is_free ≡ true = ground arith in
            let fits : size ≤ b.size = ground arith in
            let back : b.addr + header_size - header_size ≡ b.addr = omega arith in
            rw (first_fit_take size b bs e, back)
              (rw
                (rejoin size b bs start end small fits free (x, m, t)
                  (subst (λ f. Coalesced f bs) free r))
                (kept p b bs (ground arith)))
        | inr e ↦
            let skip = first_fit_skip size b bs e in
            let ne' : (first_fit size bs).0 ≢ 0 = λ z. ne (ap (λ (q : ℕ × Heap). q.0) skip ∙ z) in
            let above = first_fit_above bs (start + header_size + b.size) end t ne' in
            let other : b.addr ≢ (first_fit size bs).0 - header_size = omega arith in
            rw skip (
              passed _ p b (first_fit size bs).1 other
              ∙ ap (λ l. p ∷ l) (undo_behind bs b (start + header_size + b.size) end small t r ne'))
      ]

  undo :
      (h : Heap) (start end : ℕ)
      → end ≤ 2 ^ 64 - 32
      → Tiles start h end
      → Coalesced false h
      → (first_fit size h).0 ≢ 0
      → let a = (first_fit size h).0 - header_size in
        merge_prev a (mark_free a (first_fit size h).1) ≡ h
  undo [] start end small t c ne = unfold first_fit in absurd (ne refl)
  undo (b ∷ bs) start end small (x, m, t) (c, r) ne =
      elim (Bool-cases (b.is_free && leb size b.size)) [
        | inl e ↦
            let free : b.is_free ≡ true = ground arith in
            let fits : size ≤ b.size = ground arith in
            let back : b.addr + header_size - header_size ≡ b.addr = omega arith in
            rw (first_fit_take size b bs e, back)
              (rw
                (rejoin size b bs start end small fits free (x, m, t)
                  (subst (λ f. Coalesced f bs) free r))
                (first_kept b bs))
        | inr e ↦
            let skip = first_fit_skip size b bs e in
            let ne' : (first_fit size bs).0 ≢ 0 = λ z. ne (ap (λ (q : ℕ × Heap). q.0) skip ∙ z) in
            let above = first_fit_above bs (start + header_size + b.size) end t ne' in
            let other : b.addr ≢ (first_fit size bs).0 - header_size = omega arith in
            rw skip (
              first_passed _ b (first_fit size bs).1 other
              ∙ undo_behind bs b (start + header_size + b.size) end small t r ne')
      ]

-- In a valid heap, which ends at or below 2 ^ 64 - 32, freeing the pointer that `kmalloc` has just
-- returned, not 0, restores the heap, header for header.
pub kfree-kmalloc :
    (start end size : ℕ) (h : Heap)
    → IsValid start end h
    → (kmalloc size h).0 ≢ 0
    → kfree (kmalloc size h).0 (kmalloc size h).1 ≡ h
unfolding kmalloc kfree
kfree-kmalloc start end size h v ne = elim (Bool-cases (size == 0)) [
  | inl e ↦ absurd (ne (rw e refl))
  | inr e ↦
      let n = align16 size in
      let ne' : (first_fit n h).0 ≢ 0 = λ z. ne (rw e z) in
      let low = first_fit_above n h start end v.tiles ne' in
      let high = first_fit_within n h start end v.tiles in
      let small = v.bounded in
      let here_at : u64 ((first_fit n h).0 + 2 ^ 64 - header_size)
          ≡ (first_fit n h).0 - header_size =
        omega arith in
      rw (e, ne→== (first_fit n h).0 0 ne', here_at)
        (undo n h start end v.bounded v.tiles v.coalesced ne')
]
