-- ===== src/Elf.antt =====
-- src/kernel/elf.c: the loader of programs. An image gives the byte at each offset of the file;
-- `uint64_t` wraps. The page tables and the memory are those of Vmm, where bytes stand in words.
pub mod Header
pub mod Segments
pub mod Pages
pub mod Interp
mod Tests
use lighth_os.Pmm.{alloc_frame}
use lighth_os.Vmm.{Mem, Vm, put, zero_page, map_in, get_physical_in}
use lighth_os.Common.{
  ℕ, zero, suc, ◌+◌, ◌-◌, ◌*◌, ◌/◌, ◌%◌, ◌^◌, min, Bool, true, false, ◌&&◌, ◌||◌, not, Option, none,
  some, ◌==◌, ltb, leb, if◌then◌else◌,
}

pub record Image : Type 0 where
  pub byte : ℕ → ℕ
  pub size : ℕ

-- a field of `n` bytes at an offset
unfoldable pub le : ℕ → ℕ → (ℕ → ℕ) → ℕ
le zero a bytes = 0
le (suc n) a bytes = bytes a % 256 + 256 * le n (a + 1) bytes

-- the fields of `elf64_ehdr_t` that are read
pub record Ehdr : Type 0 where
  pub magic : ℕ
  pub class : ℕ
  pub encoding : ℕ
  pub kind : ℕ
  pub machine : ℕ
  pub entry : ℕ
  pub phoff : ℕ
  pub phentsize : ℕ
  pub phnum : ℕ

unfoldable pub ehdr : Image → Ehdr
ehdr f = record {
  magic = le 4 0 f.byte;
  class = le 1 4 f.byte;
  encoding = le 1 5 f.byte;
  kind = le 2 16 f.byte;
  machine = le 2 18 f.byte;
  entry = le 8 24 f.byte;
  phoff = le 8 32 f.byte;
  phentsize = le 2 54 f.byte;
  phnum = le 2 56 f.byte;
}

-- the fields of `elf64_phdr_t` that are read
pub record Phdr : Type 0 where
  pub kind : ℕ
  pub offset : ℕ
  pub vaddr : ℕ
  pub filesz : ℕ
  pub memsz : ℕ

unfoldable pub phdr_at : ℕ → Image → Phdr
phdr_at a f = record {
  kind = le 4 a f.byte;
  offset = le 8 (a + 8) f.byte;
  vaddr = le 8 (a + 16) f.byte;
  filesz = le 8 (a + 32) f.byte;
  memsz = le 8 (a + 40) f.byte;
}

-- the offset of the `i`-th program header, and the header there. The code multiplies two 16-bit
-- numbers as `int`, and adds the product with its sign to the pointer; an `int` of 32 bits is taken to
-- wrap, which the language leaves undefined.
unfoldable pub int_product : ℕ → ℕ → ℕ
int_product i n = let p = i * n % 2 ^ 32 in if ltb p (2 ^ 31) then p else p + (2 ^ 64 - 2 ^ 32)

unfoldable pub phdr_offset : Image → ℕ → ℕ
phdr_offset f i = ((ehdr f).phoff + int_product i (ehdr f).phentsize) % 2 ^ 64

unfoldable pub phdr : Image → ℕ → Phdr
phdr f i = phdr_at (phdr_offset f i) f

-- `elf_validate`, true for 0
unfoldable pub validate : Image → Bool
validate f =
    if ltb f.size 64
    then false
    else let h = ehdr f in
      let ph_end = (h.phoff + h.phnum * h.phentsize) % 2 ^ 64 in
      if not (h.magic == 0x464C_457F)
      then false
      else if not (h.class == 2)
      then false
      else if not (h.encoding == 1)
      then false
      else if not (h.kind == 2) && not (h.kind == 3)
      then false
      else if not (h.machine == 62)
      then false
      else if h.phoff == 0 || h.phnum == 0
      then false
      else if ltb h.phentsize 56
      then false
      else if ltb ph_end h.phoff
      then false
      else if ltb f.size ph_end
      then false
      else true

-- a store of one byte, in the word that holds it
unfoldable pub put_byte : ℕ → ℕ → Mem → Mem
put_byte a v m =
    let w = m (a / 8 * 8) in
    put (a / 8 * 8)
      (w / 256 ^ (a % 8 + 1) * 256 ^ (a % 8 + 1) + v % 256 * 256 ^ (a % 8) + w % 256 ^ (a % 8)) m

-- `memcpy` and `memset` to physical memory; the source gives the byte at each offset.
unfoldable pub copy_bytes : ℕ → ℕ → ℕ → (ℕ → ℕ) → Mem → Mem
copy_bytes zero a src bytes m = m
copy_bytes (suc n) a src bytes m = copy_bytes n (a + 1) (src + 1) bytes (put_byte a (bytes src) m)

-- `write_into_pml4`, on fuel: a round copies a byte at least.
unfoldable pub write_rounds : ℕ → ℕ → ℕ → ℕ → ℕ → (ℕ → ℕ) → Vm → Vm
write_rounds zero pml4 va src n bytes s = s
write_rounds (suc fuel) pml4 va src n bytes s =
    let off = va % 4096 in
    let chunk = min (4096 - off) n in
    let phys = get_physical_in pml4 (va - off) s in
    let rest =
      write_rounds fuel pml4 (va + chunk) (src + chunk) (n - chunk) bytes
        (record s { mem = copy_bytes chunk (phys + off) src bytes s.mem }) in
    if n == 0 || phys == 0 then s else rest

unfoldable pub write_into_pml4 : ℕ → ℕ → ℕ → ℕ → (ℕ → ℕ) → Vm → Vm
write_into_pml4 pml4 va src n bytes s = write_rounds n pml4 va src n bytes s

unfoldable pub zero_into_pml4 : ℕ → ℕ → ℕ → Vm → Vm
zero_into_pml4 pml4 va n s = write_rounds n pml4 va 0 n (λ i. 0) s

-- How a step of the loader ends: a panic in vmm_map_in, `return 0`, or the next step.
pub data Load : Type 0 where
  panics : Load
  fails : Vm → Load
  goes_on : Vm → Load

unfoldable pub and_then : Load → (Vm → Load) → Load
and_then panics next = panics
and_then (fails s) next = fails s
and_then (goes_on s) next = next s

unfoldable pub mapped : Option Vm → Load
mapped none = panics
mapped (some s) = goes_on s

-- the body of the loop over the pages; 6 is VMM_FLAG_WRITE and VMM_FLAG_USER
unfoldable pub map_page : ℕ → ℕ → Vm → Load
map_page pml4 a s =
    let r = alloc_frame s.pmm in
    if not (get_physical_in pml4 a s == 0)
    then goes_on s
    else if r.0 == 0
    then fails (record s { pmm = r.1 })
    else mapped (map_in pml4 a r.0 6 (record s { pmm = r.1; mem = zero_page r.0 s.mem }))

-- the loop, on the number of pages left
unfoldable pub map_pages : ℕ → ℕ → ℕ → Vm → Load
map_pages zero pml4 a s = goes_on s
map_pages (suc n) pml4 a s = and_then (map_page pml4 a s) (λ t. map_pages n pml4 (a + 4096) t)

abbrev pub user_va_min : ℕ
user_va_min = 0x1_0000

abbrev pub user_va_max : ℕ
user_va_max = 0x7FFF_FFFF_FFFF

-- the address of a segment, and the tests that refuse it
unfoldable pub segment_at : ℕ → Phdr → ℕ
segment_at base p = (p.vaddr + base) % 2 ^ 64

unfoldable pub refuses : ℕ → ℕ → Phdr → Bool
refuses size base p =
    let vaddr = segment_at base p in
    ltb ((p.offset + p.filesz) % 2 ^ 64) p.offset
    || ltb size ((p.offset + p.filesz) % 2 ^ 64)
    || ltb p.memsz p.filesz
    || ltb vaddr p.vaddr
    || ltb vaddr user_va_min
    || ltb ((vaddr + p.memsz) % 2 ^ 64) vaddr
    || ltb user_va_max ((vaddr + p.memsz) % 2 ^ 64)

-- the number of the pages from vstart to vend
unfoldable pub page_count : ℕ → ℕ → ℕ
page_count vaddr memsz = (vaddr + memsz + 4095) % 2 ^ 64 / 4096 - vaddr / 4096

-- the bytes of a segment, and the zeros behind them
unfoldable pub fill : Image → ℕ → ℕ → Phdr → Vm → Vm
fill f pml4 vaddr p s =
    let t = if ltb 0 p.filesz then write_into_pml4 pml4 vaddr p.offset p.filesz f.byte s else s in
    if ltb p.filesz p.memsz
    then zero_into_pml4 pml4 (vaddr + p.filesz) (p.memsz - p.filesz) t
    else t

-- the body of the loop of elf_load_at
unfoldable pub load_segment : Image → ℕ → ℕ → Phdr → Vm → Load
load_segment f pml4 base p s =
    if not (p.kind == 1) || p.memsz == 0
    then goes_on s
    else if refuses f.size base p
    then fails s
    else let vaddr = segment_at base p in
      and_then (map_pages (page_count vaddr p.memsz) pml4 (vaddr / 4096 * 4096) s)
        (λ t. goes_on (fill f pml4 vaddr p t))

-- the loop, on the number of headers left
unfoldable pub load_segments : ℕ → ℕ → Image → ℕ → ℕ → Vm → Load
load_segments zero i f pml4 base s = goes_on s
load_segments (suc n) i f pml4 base s =
    and_then (load_segment f pml4 base (phdr f i) s) (λ t. load_segments n (suc i) f pml4 base t)

unfoldable pub entry_of : ℕ → Load → Option (ℕ × Vm)
entry_of e panics = none
entry_of e (fails s) = some (0, s)
entry_of e (goes_on s) = some (e, s)

-- `elf_load_at`; none is a panic.
unfoldable pub load_at : Image → ℕ → ℕ → Vm → Option (ℕ × Vm)
load_at f pml4 base s =
    if pml4 == 0
    then some (0, s)
    else if not (validate f)
    then some (0, s)
    else entry_of (((ehdr f).entry + base) % 2 ^ 64) (load_segments (ehdr f).phnum 0 f pml4 base s)

abbrev pub load : Image → ℕ → Vm → Option (ℕ × Vm)
load f pml4 s = load_at f pml4 0 s
