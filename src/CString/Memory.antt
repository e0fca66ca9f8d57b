-- ===== src/CString/Memory.antt =====
-- What the mem functions of src/lib/string.c leave in every cell of the memory.
use lighth_os.CString.{Memory, memset, memcpy, copy_down, memmove}
use lighth_os.Common.{
  ℕ, zero, suc, ◌+◌, ◌-◌, ◌%◌, ◌<◌, ◌≤◌, ◌≡◌, Bool, ◌&&◌, ltb, leb, ◌==◌, if◌then◌else◌, get_or,
  set, length, length-set, get_or-set_self, get_or-set_ne, Bool-cases, ◌⊎◌, inl, inr, arith, ==→eq,
  ==→ne, ltb→lt, ltb→ge, sym,
}

-- a write, as a test on the index
pub get_or-set :
    (m : Memory) (i j v : ℕ)
    → i < length m
    → get_or (set m i v) j 0 ≡ (if i == j then v else get_or m j 0)
get_or-set m i j v h = elim (Bool-cases (i == j)) [
  | inl e ↦ rw e (rw (sym (==→eq i j e)) (get_or-set_self m i v 0 h))
  | inr e ↦ rw e (get_or-set_ne m i j v 0 (==→ne i j e))
]

-- the cells `p`, …, `p + n - 1`
pub inside : ℕ → ℕ → ℕ → Bool
inside p n j = leb p j && ltb j (p + n)

-- The cells of the target hold what the source held before the call, and no other cell changes.
pub Moved : ℕ → ℕ → ℕ → Memory → Memory → Type 0
Moved d s n m m' =
    (j : ℕ) → get_or m' j 0 ≡ (if inside d n j then get_or m (s + (j - d)) 0 else get_or m j 0)

pub memset_lem :
    (p c n : ℕ) (m : Memory)
    → p + n ≤ length m
    → (j : ℕ) → get_or (memset p c n m) j 0 ≡ (if inside p n j then c % 256 else get_or m j 0)
unfolding memset inside
memset_lem p c zero m h j = ground arith
memset_lem p c (suc n) m h j =
    let e = get_or-set m p j (c % 256) (omega arith) in
    let r =
      memset_lem (p + 1) c n (set m p (c % 256)) (rw (length-set m p (c % 256)) (omega arith)) j in
    ground (arith, e, r)

memcpy-Moved :
    (d s n : ℕ) (m : Memory) → d ≤ s ⊎ s + n ≤ d → d + n ≤ length m → Moved d s n m (memcpy d s n m)
unfolding memcpy inside Moved
memcpy-Moved d s zero m a h j = ground arith
memcpy-Moved d s (suc n) m a h j =
    let v = get_or m s 0 in
    let e = get_or-set m d j v (omega arith) in
    let e' = get_or-set m d (s + 1 + (j - (d + 1))) v (omega arith) in
    let r =
      memcpy-Moved (d + 1) (s + 1) n (set m d v)
        (elim a [ inl x ↦ inl (omega (arith, x)) | inr x ↦ inr (omega (arith, x)) ])
        (rw (length-set m d v) (omega arith)) j in
    grind arith

copy_down-Moved :
    (d s n : ℕ) (m : Memory) → s ≤ d → d + n ≤ length m → Moved d s n m (copy_down d s n m)
unfolding copy_down inside Moved
copy_down-Moved d s zero m a h j = ground arith
copy_down-Moved d s (suc n) m a h j =
    let v = get_or m (s + n) 0 in
    let e = get_or-set m (d + n) j v (omega arith) in
    let e' = get_or-set m (d + n) (s + (j - d)) v (omega arith) in
    let r =
      copy_down-Moved d s n (set m (d + n) v) a (rw (length-set m (d + n) v) (omega arith)) j in
    grind arith

-- memmove moves the bytes as if through a copy of the source, however the two ranges overlap,
-- if the target lies in the memory.
pub memmove-Moved : (d s n : ℕ) (m : Memory) → d + n ≤ length m → Moved d s n m (memmove d s n m)
unfolding memmove
memmove-Moved d s n m h = elim (Bool-cases (ltb d s)) [
  | inl e ↦ rw e (memcpy-Moved d s n m (inl (omega (arith, ltb→lt d s e))) h)
  | inr e ↦ rw e (copy_down-Moved d s n m (ltb→ge d s e) h)
]
