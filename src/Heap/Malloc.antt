-- ===== src/Heap/Malloc.antt =====
-- `kmalloc`: what it hands out, and that it keeps the heap well formed.
use lighth_os.Common.{
  ℕ, ◌+◌, ◌-◌, ◌%◌, ◌≤◌, ◌≡◌, refl, ap, true, false, ◌&&◌, List, [], ◌∷◌, ◌++◌, leb, if◌then◌else◌,
  ◌⊎◌, inl, inr, Bool-cases,
}
use lighth_os.Heap.{Block, Heap, header_size, take_block, first_fit}
use lighth_os.Heap.Tiles.{Tiles, IsValid}

-- the used blocks, in order, by address and size
unfoldable pub used_blocks : Heap → List (ℕ × ℕ)
used_blocks [] = []
used_blocks (b ∷ bs) =
    let rest = used_blocks bs in if b.is_free then rest else (b.addr, b.size) ∷ rest

-- `new` is `old` with one more block, `x`
pub record Inserted (old : List (ℕ × ℕ)) (x : ℕ × ℕ) (new : List (ℕ × ℕ)) : Type 0 where
  pub front : List (ℕ × ℕ)
  pub back : List (ℕ × ℕ)
  pub before : old ≡ front ++ back
  pub after : new ≡ front ++ (x ∷ back)

-- no free block is big enough
abbrev pub NoFit : ℕ → Heap → Type 0
NoFit size [] = Unit
NoFit size (b ∷ bs) = ((b.is_free && leb size b.size) ≡ false) × NoFit size bs

-- what the search for a block of `size` bytes gives
abbrev pub Fit : ℕ → Heap → ℕ × Heap → Type 0
Fit size h (p, h') =
    ((p ≡ 0) × (h' ≡ h) × NoFit size h)
    ⊎ ((n : ℕ) × (size ≤ n)
        × (header_size ≤ p)
        × (p % 16 ≡ 0)
        × Inserted (used_blocks h) (p - header_size, n) (used_blocks h'))

pub Inserted-cons :
    (b : Block) (h h' : Heap) (x : ℕ × ℕ)
    → Inserted (used_blocks h) x (used_blocks h')
    → Inserted (used_blocks (b ∷ h)) x (used_blocks (b ∷ h'))
unfolding used_blocks
Inserted-cons b h h' x i = elim (Bool-cases b.is_free) [
  | inl e ↦ rw e i
  | inr e ↦ rw e (record {
    front = (b.addr, b.size) ∷ i.front;
    back = i.back;
    before = ap (λ l. (b.addr, b.size) ∷ l) i.before;
    after = ap (λ l. (b.addr, b.size) ∷ l) i.after;
  })
]

pub first_fit_skip :
    (size : ℕ) (b : Block) (bs : Heap)
    → (b.is_free && leb size b.size) ≡ false
    → first_fit size (b ∷ bs) ≡ ((first_fit size bs).0, b ∷ (first_fit size bs).1)
unfolding first_fit
first_fit_skip size b bs e = rw e refl

pub first_fit_take :
    (size : ℕ) (b : Block) (bs : Heap)
    → (b.is_free && leb size b.size) ≡ true
    → first_fit size (b ∷ bs) ≡ (b.addr + header_size, take_block size b ++ bs)
unfolding first_fit
first_fit_take size b bs e = rw e refl

-- What `kmalloc` promises for a request of `size` bytes.
pub record Malloc (start end size : ℕ) (h : Heap) (r : ℕ × Heap) : Type 0 where
  pub valid : IsValid start end r.1
  pub fit : Fit size h r
