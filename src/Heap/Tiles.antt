-- ===== src/Heap/Tiles.antt =====
-- The invariant of the heap: the blocks lie end to end, and no two free ones are neighbours.
use lighth_os.Common.{
  ℕ, ◌+◌, ◌-◌, ◌*◌, ◌%◌, ◌^◌, ◌≤◌, ◌≡◌, refl, Bool, false, ◌&&◌, [], ◌∷◌, if◌then◌else◌, arith,
}
use lighth_os.Heap.{Heap, header_size, init, get_used, get_free}

-- From `start` to `end`, with payloads of whole sixteens.
abbrev pub Tiles : ℕ → Heap → ℕ → Type 0
Tiles start [] end = start ≡ end
Tiles start (b ∷ bs) end =
    (b.addr ≡ start) × (b.size % 16 ≡ 0) × Tiles (start + header_size + b.size) bs end

-- `free` says whether the block in front is free
abbrev pub Coalesced : Bool → Heap → Type 0
Coalesced free [] = Unit
Coalesced free (b ∷ bs) = ((free && b.is_free) ≡ false) × Coalesced b.is_free bs

-- A heap is valid where its end and one more header are addresses: the sizes do not wrap.
pub record IsValid (start end : ℕ) (h : Heap) : Type 0 where
  pub aligned : start % 16 ≡ 0
  pub bounded : end ≤ 2 ^ 64 - 32
  pub tiles : Tiles start h end
  pub coalesced : Coalesced false h

pub Tiles-le : (h : Heap) {start end : ℕ} → Tiles start h end → start ≤ end
Tiles-le [] t = omega arith
Tiles-le (b ∷ bs) (a, m, t) = omega (arith, Tiles-le bs t)

pub free_count : Heap → ℕ
free_count [] = 0
free_count (b ∷ bs) = (if b.is_free then 1 else 0) + free_count bs

-- Every byte of the heap is in a used block with its header, in a free block, or in the header of a
-- free block.
pub get_used-add-get_free :
    (h : Heap) (start : ℕ) {end : ℕ}
    → Tiles start h end
    → start + (get_used h + get_free h + header_size * free_count h) ≡ end
unfolding get_used get_free free_count
get_used-add-get_free [] start t = omega arith
get_used-add-get_free (b ∷ bs) start (a, m, t) =
    ground (arith, get_used-add-get_free bs (start + header_size + b.size) t)

-- A fresh heap below the last 32 bytes of the address space is valid.
pub init-IsValid :
    (start size : ℕ)
    → start % 16 ≡ 0
    → size % 16 ≡ 0
    → header_size ≤ size
    → start + size ≤ 2 ^ 64 - 32
    → IsValid start (start + size) (init start size)
unfolding init
init-IsValid start size a m l b = record {
  aligned = a;
  bounded = b;
  tiles = omega arith;
  coalesced = (refl, tt);
}
