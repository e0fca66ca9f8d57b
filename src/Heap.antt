-- ===== src/Heap.antt =====
-- src/mm/heap.c: the kernel heap, a first-fit allocator. The state is the chain of headers from
-- `heap_start` along `next`, each with its address; a pointer is the address that it holds.
pub mod Tiles
pub mod Malloc
pub mod Free
pub mod RoundTrip
mod Tests
use lighth_os.Common.{
  ℕ, ◌+◌, ◌-◌, ◌*◌, ◌/◌, ◌%◌, ◌^◌, Bool, true, false, ◌&&◌, List, [], ◌∷◌, ◌++◌, ◌==◌, leb,
  if◌then◌else◌,
}

-- `heap_block_t`, at `addr`
pub record Block : Type 0 where
  pub addr : ℕ
  pub size : ℕ
  pub is_free : Bool

abbrev pub Heap : Type 0
Heap = List Block

-- sizeof(heap_block_t)
abbrev pub header_size : ℕ
header_size = 32

abbrev pub u64 : ℕ → ℕ
u64 n = n % 2 ^ 64

abbrev pub align16 : ℕ → ℕ
align16 x = u64 (x + 15) / 16 * 16

pub init : ℕ → ℕ → Heap
init start size =
    record { addr = align16 start; size = u64 (size + 2 ^ 64 - header_size); is_free = true } ∷ []

-- what becomes of the block that a request takes: the rest is split off if it is worth it
unfoldable pub take_block : ℕ → Block → List Block
take_block size b =
    if leb (u64 (size + header_size + 16)) b.size
    then record { addr = b.addr; size = size; is_free = false }
      ∷ record {
        addr = b.addr + header_size + size;
        size = u64 (b.size + 2 ^ 64 + 2 ^ 64 - size - header_size);
        is_free = true;
      }
      ∷ []
    else record b { is_free = false } ∷ []

-- the loop of `kmalloc`, for a rounded size
unfoldable pub first_fit : ℕ → Heap → ℕ × Heap
first_fit size [] = (0, [])
first_fit size (b ∷ bs) =
    let rest = first_fit size bs in
    if b.is_free && leb size b.size
    then (b.addr + header_size, take_block size b ++ bs)
    else (rest.0, b ∷ rest.1)

-- the pointer, 0 when memory is short, and the heap
unfoldable pub kmalloc : ℕ → Heap → ℕ × Heap
kmalloc size h = if size == 0 then (0, h) else first_fit (align16 size) h

-- a block takes in its successor, if that is free
unfoldable pub absorb_next : Block → List Block → List Block
absorb_next b [] = b ∷ []
absorb_next b (n ∷ bs) =
    if n.is_free then record b { size = u64 (b.size + (header_size + n.size)) } ∷ bs else b ∷ n ∷ bs

-- the first half of `kfree`: the block is free, and takes in its successor
unfoldable pub mark_free : ℕ → Heap → Heap
mark_free a [] = []
mark_free a (b ∷ bs) =
    let rest = mark_free a bs in
    if b.addr == a then absorb_next (record b { is_free = true }) bs else b ∷ rest

-- the second half: the predecessor takes the block in, if it is free
unfoldable pub absorb_prev : ℕ → Block → List Block → List Block
absorb_prev a p [] = p ∷ []
absorb_prev a p (b ∷ bs) =
    let rest = absorb_prev a b bs in
    if b.addr == a
    then (if p.is_free
        then record p { size = u64 (p.size + (header_size + b.size)) } ∷ bs
        else p ∷ b ∷ bs)
    else p ∷ rest

unfoldable pub merge_prev : ℕ → Heap → Heap
merge_prev a [] = []
merge_prev a (p ∷ bs) = if p.addr == a then p ∷ bs else absorb_prev a p bs

unfoldable pub kfree : ℕ → Heap → Heap
kfree ptr h =
    if ptr == 0
    then h
    else merge_prev (u64 (ptr + 2 ^ 64 - header_size))
        (mark_free (u64 (ptr + 2 ^ 64 - header_size)) h)

pub get_used : Heap → ℕ
get_used [] = 0
get_used (b ∷ bs) =
    let rest = get_used bs in if b.is_free then rest else b.size + header_size + rest

pub get_free : Heap → ℕ
get_free [] = 0
get_free (b ∷ bs) = let rest = get_free bs in if b.is_free then b.size + rest else rest
