-- ===== src/Elf/Header.antt =====
-- src/kernel/elf.c: elf_validate keeps the program headers within the file.
use native.Mathlib.Nat.{mul-le-mul_right}
use lighth_os.Elf.{Image, le, ehdr, int_product, phdr_offset, validate}
use lighth_os.Common.{◌%◌, ℕ, zero, suc, ◌+◌, ◌*◌, ◌^◌, ◌≤◌, ◌<◌, ◌≡◌, true, arith, ◌⊎◌, ◌↔◌}

-- A field is as wide as its bytes.
pub le_below : (n a : ℕ) (bytes : ℕ → ℕ) → le n a bytes < 256 ^ n
unfolding le
le_below zero a bytes = omega arith
le_below (suc n) a bytes = omega (arith, le_below n (a + 1) bytes)

-- What elf_validate is for: a program of this machine, with a table of program headers, each wide
-- enough, that lies in the file.
pub record IsProgram (f : Image) : Type 0 where
  pub whole_header : 64 ≤ f.size
  pub magic : (ehdr f).magic ≡ 0x464C_457F
  pub class : (ehdr f).class ≡ 2
  pub encoding : (ehdr f).encoding ≡ 1
  pub kind : ((ehdr f).kind ≡ 2) ⊎ ((ehdr f).kind ≡ 3)
  pub machine : (ehdr f).machine ≡ 62
  pub table : 0 < (ehdr f).phoff
  pub some_header : 0 < (ehdr f).phnum
  pub whole_entry : 56 ≤ (ehdr f).phentsize
  pub inside : (ehdr f).phoff + (ehdr f).phnum * (ehdr f).phentsize ≤ f.size

module _ (f : Image) (small : f.size < 2 ^ 64) where
  phoff_below : (ehdr f).phoff < 2 ^ 64
  unfolding ehdr
  phoff_below = omega (arith, le_below 8 32 f.byte)

  table_small : (ehdr f).phnum * (ehdr f).phentsize < 2 ^ 32
  unfolding ehdr
  table_small =
      product (ehdr f).phnum (ehdr f).phentsize (le_below 2 56 f.byte) (le_below 2 54 f.byte)
    where
      product : (a b : ℕ) → a < 2 ^ 16 → b < 2 ^ 16 → a * b < 2 ^ 32
      product a b h l = omega (arith, mul-le-mul_right {m = a} {n = 2 ^ 16} b (omega (arith, h)), l)

  sound : validate f ≡ true → IsProgram f
  unfolding validate
  sound h = record {
    whole_header = ground (arith, h);
    magic = ground (arith, h);
    class = ground (arith, h);
    encoding = ground (arith, h);
    kind = ground (arith, h);
    machine = ground (arith, h);
    table = ground (arith, h);
    some_header = ground (arith, h);
    whole_entry = ground (arith, h);
    inside = ground (arith, h, phoff_below, table_small);
  }

  complete : IsProgram f → validate f ≡ true
  unfolding validate
  complete p = ground (
    arith, p.whole_header, p.magic, p.class, p.encoding, p.kind, p.machine, p.table, p.some_header,
    p.whole_entry, p.inside, small,
  )

  pub validate-IsProgram : (validate f ≡ true) ↔ IsProgram f
  validate-IsProgram = (sound, complete)

int_product-small : (i n : ℕ) → i * n < 2 ^ 31 → int_product i n ≡ i * n
unfolding int_product
int_product-small i n h = rw small (ground (arith, h, small))
  where
    small : i * n % 2 ^ 32 ≡ i * n
    small = omega (arith, h)

-- The header that the code reads for the index `i` is that of the table, and lies in the file.
pub record IsHeaderInside (f : Image) (i : ℕ) : Type 0 where
  pub place : phdr_offset f i ≡ (ehdr f).phoff + i * (ehdr f).phentsize
  pub inside : phdr_offset f i + 56 ≤ f.size

-- The product of the code does not overflow in a file of less than 2 ^ 31 bytes.
module _ (f : Image) (small : f.size < 2 ^ 31) where
  pub phdr-IsHeaderInside : (i : ℕ) → IsProgram f → i < (ehdr f).phnum → IsHeaderInside f i
  unfolding phdr_offset
  phdr-IsHeaderInside i p l = record { place = place; inside = omega (arith, place, last) }
    where
      last : (ehdr f).phoff + i * (ehdr f).phentsize + 56 ≤ f.size
      last = omega (
        arith,
        p.inside,
        p.whole_entry,
        mul-le-mul_right {m = suc i} {n = (ehdr f).phnum} (ehdr f).phentsize (omega (arith, l)),
      )

      place :
          ((ehdr f).phoff + int_product i (ehdr f).phentsize) % 2 ^ 64
          ≡ (ehdr f).phoff + i * (ehdr f).phentsize
      place =
          omega (
            arith,
            int_product-small i (ehdr f).phentsize (omega (arith, last, small)),
            last,
            small,
          )
