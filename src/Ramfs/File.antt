-- ===== src/Ramfs/File.antt =====
-- The bytes of a file in src/fs/ramfs.c: what a write leaves, and what a later read returns.
use lighth_os.Ramfs.{Inode, Ramfs, max_file, overwrite}
use lighth_os.Common.{
  ℕ, ◌+◌, ◌-◌, ◌≤◌, ◌<◌, ◌≡◌, ap, ◌∙◌, Option, some, List, ◌++◌, get_or, take, drop, length, arith,
  length-append, length-take, length-drop, get_or-append_left, get_or-append_right, get_or-take,
  get_or-drop,
}

-- the bytes of the file
unfoldable pub content : Inode → List ℕ
content inode = take inode.size inode.buffer

-- The buffer has the capacity, and the file fits into it.
pub record IsFile (inode : Inode) : Type 0 where
  pub allocated : length inode.buffer ≡ inode.capacity
  pub fits : inode.size ≤ inode.capacity
  pub bounded : inode.capacity ≤ max_file

-- what ramfs_write relies on: a block has the length that was asked for
unfoldable pub GivesBlocks : (ℕ → Ramfs → Option (List ℕ)) → Type 0
GivesBlocks kmalloc =
    (n : ℕ) (fs : Ramfs) (block : List ℕ) → kmalloc n fs ≡ some block → length block ≡ n

pub length-overwrite :
    (offset : ℕ) (bytes buffer : List ℕ)
    → offset + length bytes ≤ length buffer
    → length (overwrite offset bytes buffer) ≡ length buffer
unfolding overwrite
length-overwrite offset bytes buffer h = omega (
  arith,
  length-append (take offset buffer ++ bytes) (drop (offset + length bytes) buffer),
  length-append (take offset buffer) bytes,
  length-take offset buffer,
  length-drop (offset + length bytes) buffer,
)

-- every cell of a buffer after a copy into it
pub overwrite_inside :
    (offset : ℕ) (bytes buffer : List ℕ) (i : ℕ)
    → offset + length bytes ≤ length buffer
    → offset ≤ i
    → i < offset + length bytes
    → get_or (overwrite offset bytes buffer) i 0 ≡ get_or bytes (i - offset) 0
unfolding overwrite
overwrite_inside offset bytes buffer i h l u =
    let n = length-take offset buffer in
    let m = length-append (take offset buffer) bytes in
    get_or-append_left (take offset buffer ++ bytes) (drop (offset + length bytes) buffer) i 0
      (omega (arith, n, m))
    ∙ get_or-append_right (take offset buffer) bytes i 0 (omega (arith, n))
    ∙ ap (λ k. get_or bytes (i - k) 0) (omega (arith, n))

pub overwrite_before :
    (offset : ℕ) (bytes buffer : List ℕ) (i : ℕ)
    → offset + length bytes ≤ length buffer
    → i < offset
    → get_or (overwrite offset bytes buffer) i 0 ≡ get_or buffer i 0
unfolding overwrite
overwrite_before offset bytes buffer i h l =
    let n = length-take offset buffer in
    let m = length-append (take offset buffer) bytes in
    get_or-append_left (take offset buffer ++ bytes) (drop (offset + length bytes) buffer) i 0
      (omega (arith, n, m))
    ∙ get_or-append_left (take offset buffer) bytes i 0 (omega (arith, n))
    ∙ get_or-take offset buffer i 0 l

pub overwrite_behind :
    (offset : ℕ) (bytes buffer : List ℕ) (i : ℕ)
    → offset + length bytes ≤ length buffer
    → offset + length bytes ≤ i
    → get_or (overwrite offset bytes buffer) i 0 ≡ get_or buffer i 0
unfolding overwrite
overwrite_behind offset bytes buffer i h l =
    let n = length-take offset buffer in
    let m = length-append (take offset buffer) bytes in
    get_or-append_right (take offset buffer ++ bytes) (drop (offset + length bytes) buffer) i 0
      (omega (arith, n, m))
    ∙ get_or-drop (offset + length bytes) buffer (i - length (take offset buffer ++ bytes)) 0
    ∙ ap (λ k. get_or buffer k 0) (omega (arith, n, m))
