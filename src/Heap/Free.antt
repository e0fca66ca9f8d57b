-- ===== src/Heap/Free.antt =====
-- `kfree`: it gives one block back, and joins it with its free neighbours.
use lighth_os.Common.{
  ℕ, ◌+◌, ◌-◌, ◌%◌, ◌^◌, ◌≤◌, ◌<◌, ◌≡◌, refl, Bool, true, false, ◌&&◌, [], ◌∷◌, ◌==◌, if◌then◌else◌,
  arith, inl, inr, Bool-cases, ne→==, ◌≢◌,
}
use lighth_os.Heap.{
  Block, Heap, header_size, u64, absorb_next, mark_free, absorb_prev, merge_prev, kfree,
}
use lighth_os.Heap.Tiles.{Tiles, Tiles-le, Coalesced, IsValid}
use lighth_os.Heap.Malloc.{used_blocks, Inserted, Inserted-cons}

-- a used block of the heap has the address `a`
pub data Owns (a : ℕ) : Heap → Type 0 where
  here : {b : Block} {bs : Heap} → b.addr ≡ a → b.is_free ≡ false → Owns a (b ∷ bs)
  there : {b : Block} {bs : Heap} → Owns a bs → Owns a (b ∷ bs)

pub Owns-le : {a : ℕ} (h : Heap) (start end : ℕ) → Owns a h → Tiles start h end → start ≤ a
Owns-le [] start end o t = elim o [ ]
Owns-le (b ∷ bs) start end (here e f) (x, m, t) = omega arith
Owns-le (b ∷ bs) start end (there o) (x, m, t) =
    omega (arith, Owns-le bs (start + header_size + b.size) end o t)

-- a freed block with its successor: one free block with what lies behind it
record Joined (b : Block) (bs : Heap) (start end : ℕ) : Type 0 where
  size : ℕ
  rest : Heap
  shape :
      absorb_next (record b { is_free = true }) bs
      ≡ record { addr = b.addr; size = size; is_free = true } ∷ rest
  whole : size % 16 ≡ 0
  tiles : Tiles (start + header_size + size) rest end
  coalesced : Coalesced true rest
  used : used_blocks bs ≡ used_blocks rest

join :
    (b : Block) (bs : Heap) (start end : ℕ)
    → end ≤ 2 ^ 64 - 32
    → Tiles start (b ∷ bs) end
    → Coalesced false bs
    → Joined b bs start end
unfolding absorb_next used_blocks
join b [] start end small (a, m, t) c = record {
  size = b.size;
  rest = [];
  shape = refl;
  whole = m;
  tiles = t;
  coalesced = tt;
  used = refl;
}
join b (n ∷ bs) start end small (a, m, (a', m', t)) (c, r) = elim (Bool-cases n.is_free) [
  | inl e ↦
      let within = Tiles-le bs t in
      let exact : u64 (b.size + (header_size + n.size)) ≡ b.size + (header_size + n.size) =
        omega arith in
      let next : start + header_size + b.size + header_size + n.size
          ≡ start + header_size + (b.size + (header_size + n.size)) =
        omega arith in
      record {
        size = b.size + (header_size + n.size);
        rest = bs;
        shape = rw (e, exact) refl;
        whole = omega arith;
        tiles = rw next at t;
        coalesced = rw e at r;
        used = rw e refl;
      }
  | inr e ↦ record {
    size = b.size;
    rest = n ∷ bs;
    shape = rw e refl;
    whole = m;
    tiles = (a', m', t);
    coalesced = (rw e refl, r);
    used = refl;
  }
]

-- both halves of `kfree` behind a block `p` that stays
freed : ℕ → Block → Heap → Heap
freed a p bs = absorb_prev a p (mark_free a bs)

freed_there : (a : ℕ) (p b : Block) (bs : Heap) → b.addr ≢ a → freed a p (b ∷ bs) ≡ p ∷ freed a b bs
unfolding freed mark_free absorb_prev
freed_there a p b bs ne = rw (ne→== b.addr a ne, ne→== b.addr a ne) refl

freed_here :
    (a : ℕ) (p b : Block) (bs : Heap) {start end : ℕ} (j : Joined b bs start end)
    → b.addr ≡ a
    → freed a p (b ∷ bs) ≡ (
        if p.is_free
        then record p { size = u64 (p.size + (header_size + j.size)) } ∷ j.rest
        else p ∷ record { addr = b.addr; size = j.size; is_free = true } ∷ j.rest)
unfolding freed mark_free absorb_prev
freed_here a p b bs j e =
    let hit : (b.addr == a) ≡ true = ground arith in rw (hit, j.shape, hit) refl

-- the heap `out` is `before` with the block at `a` given back
pub record Freed (a start end : ℕ) (free : Bool) (before out : Heap) : Type 0 where
  pub tiles : Tiles start out end
  pub coalesced : Coalesced free out
  pub size : ℕ
  pub gone : Inserted (used_blocks out) (a, size) (used_blocks before)

Freed-cons :
    {a start end : ℕ} {free : Bool} {before out : Heap} (p : Block)
    → p.addr ≡ start
    → p.size % 16 ≡ 0
    → (free && p.is_free) ≡ false
    → Freed a (start + header_size + p.size) end p.is_free before out
    → Freed a start end free (p ∷ before) (p ∷ out)
Freed-cons {before} {out} p e m c f = record {
  tiles = (e, m, f.tiles);
  coalesced = (c, f.coalesced);
  size = f.size;
  gone = Inserted-cons p out before _ f.gone;
}

gone_block :
    {a : ℕ} (b : Block) (bs : Heap) {start end : ℕ} (j : Joined b bs start end)
    → b.addr ≡ a
    → b.is_free ≡ false
    → Inserted (used_blocks j.rest) (a, b.size) (used_blocks (b ∷ bs))
unfolding used_blocks
gone_block b bs j e f = record {
  front = [];
  back = used_blocks j.rest;
  before = refl;
  after = rw f (rw e (rw j.used refl));
}

Freed-here :
    (a : ℕ) (p b : Block) (bs : Heap) (start end : ℕ) (free : Bool)
    → end ≤ 2 ^ 64 - 32
    → b.addr ≡ a
    → b.is_free ≡ false
    → Tiles start (p ∷ b ∷ bs) end
    → (free && p.is_free) ≡ false
    → Joined b bs (start + header_size + p.size) end
    → Freed a start end free (p ∷ b ∷ bs) (freed a p (b ∷ bs))
Freed-here a p b bs start end free small e f (ep, mp, t) c j =
    rw (freed_here a p b bs j e) (elim (Bool-cases p.is_free) [
      | inl pf ↦
          let within = Tiles-le j.rest j.tiles in
          let exact : u64 (p.size + (header_size + j.size)) ≡ p.size + (header_size + j.size) =
            omega arith in
          let next : start + header_size + p.size + header_size + j.size
              ≡ start + header_size + (p.size + (header_size + j.size)) =
            omega arith in
          let whole = j.whole in
          rw (pf, exact)
            (record {
              tiles = (ep, omega arith, rw next at j.tiles);
              coalesced = (rw pf at c, j.coalesced);
              size = b.size;
              gone = unfold used_blocks in gone_block b bs j e f;
            })
      | inr pf ↦ rw pf (record {
        tiles = (ep, mp, (t.0, j.whole, j.tiles));
        coalesced = (rw pf at c, (refl, j.coalesced));
        size = b.size;
        gone =
            Inserted-cons (record p { is_free = false })
              (record { addr = b.addr; size = j.size; is_free = true } ∷ j.rest) (b ∷ bs)
              (a, b.size) (unfold used_blocks in gone_block b bs j e f);
      })
    ])

freed-Freed :
    (a : ℕ) (bs : Heap) (p : Block) (start end : ℕ) (free : Bool)
    → end ≤ 2 ^ 64 - 32
    → Owns a bs
    → Tiles start (p ∷ bs) end
    → Coalesced free (p ∷ bs)
    → Freed a start end free (p ∷ bs) (freed a p bs)
freed-Freed a [] p start end free small o t c = elim o [ ]
freed-Freed a (b ∷ bs) p start end free small (here e f) t (c, (d, r)) =
    Freed-here a p b bs start end free small e f t c
      (join b bs (start + header_size + p.size) end small t.2 (rw f at r))
freed-Freed a (b ∷ bs) p start end free small (there o) (ep, mp, (eb, mb, t)) (c, r) =
    let beyond = Owns-le bs (start + header_size + p.size + header_size + b.size) end o t in
    rw (freed_there a p b bs (omega arith)) (
      Freed-cons p ep mp c
        (freed-Freed a bs b (start + header_size + p.size) end p.is_free small o (eb, mb, t) r))

Owns-lt : {a : ℕ} (h : Heap) (start end : ℕ) → Owns a h → Tiles start h end → a < end
Owns-lt [] start end o t = elim o [ ]
Owns-lt (b ∷ bs) start end (here e f) (x, m, t) = omega (arith, Tiles-le bs t)
Owns-lt (b ∷ bs) start end (there o) (x, m, t) = Owns-lt bs (start + header_size + b.size) end o t

head_freed :
    (a : ℕ) (b : Block) (bs : Heap) {start end : ℕ} (j : Joined b bs start end)
    → b.addr ≡ a
    → merge_prev a (mark_free a (b ∷ bs))
      ≡ record { addr = b.addr; size = j.size; is_free = true } ∷ j.rest
unfolding merge_prev mark_free
head_freed a b bs j e = let hit : (b.addr == a) ≡ true = ground arith in rw (hit, j.shape, hit) refl

tail_freed :
    (a : ℕ) (b : Block) (bs : Heap)
    → b.addr ≢ a
    → merge_prev a (mark_free a (b ∷ bs)) ≡ freed a b bs
unfolding merge_prev mark_free freed
tail_freed a b bs ne = rw (ne→== b.addr a ne, ne→== b.addr a ne) refl

merge-Freed :
    (a : ℕ) (h : Heap) (start end : ℕ)
    → end ≤ 2 ^ 64 - 32
    → Owns a h
    → Tiles start h end
    → Coalesced false h
    → Freed a start end false h (merge_prev a (mark_free a h))
merge-Freed a [] start end small o t c = elim o [ ]
merge-Freed a (b ∷ bs) start end small (here e f) t (c, r) =
    let j = join b bs start end small t (rw f at r) in
    rw (head_freed a b bs j e) (record {
      tiles = (t.0, j.whole, j.tiles);
      coalesced = (refl, j.coalesced);
      size = b.size;
      gone = unfold used_blocks in gone_block b bs j e f;
    })
merge-Freed a (b ∷ bs) start end small (there o) (eb, mb, t) c =
    let beyond = Owns-le bs (start + header_size + b.size) end o t in
    rw (tail_freed a b bs (omega arith)) (freed-Freed a bs b start end false small o (eb, mb, t) c)

-- In a valid heap, which ends at or below 2 ^ 64 - 32, `kfree` of a pointer to a used block: that block is no longer used, every other used block stays
-- where it is with its size, and the heap stays valid, with no two free neighbours.
pub kfree-Freed :
    (start end ptr : ℕ) (h : Heap)
    → header_size ≤ ptr
    → Owns (ptr - header_size) h
    → IsValid start end h
    → Freed (ptr - header_size) start end false h (kfree ptr h) × IsValid start end (kfree ptr h)
unfolding kfree
kfree-Freed start end ptr h l o v =
    let inside = Owns-lt h start end o v.tiles in
    let small = v.bounded in
    let here_at : u64 (ptr + 2 ^ 64 - header_size) ≡ ptr - header_size = omega arith in
    let f = merge-Freed (ptr - header_size) h start end v.bounded o v.tiles v.coalesced in
    rw (ne→== ptr 0 (omega arith), here_at)
      (
        f,
        record {
          aligned = v.aligned;
          bounded = v.bounded;
          tiles = f.tiles;
          coalesced = f.coalesced;
        },
      )
