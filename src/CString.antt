-- ===== src/CString.antt =====
-- src/lib/string.c: the string library of the kernel. The mem functions work on one memory, a list
-- of bytes, and take addresses, since their arguments may overlap. For the str functions a pointer
-- is the list of the bytes from there on; behind the end of the list a byte reads as 0.
pub mod Memory
pub mod Text
pub mod Copy
mod Tests
use lighth_os.Common.{
  ℕ, zero, suc, ◌+◌, ◌-◌, ◌%◌, Bool, true, false, ◌&&◌, not, Option, none, some, List, [], ◌∷◌,
  ◌==◌, ltb, leb, if◌then◌else◌, get_or, set, drop, map,
}

abbrev pub Memory : Type 0
Memory = List ℕ

-- an `int`
pub data ℤ : Type 0 where
  pos : ℕ → ℤ
  negsuc : ℕ → ℤ

-- the difference of two bytes
unfoldable pub byte_diff : ℕ → ℕ → ℤ
byte_diff a b = if leb b a then pos (a - b) else negsuc (b - a - 1)

-- the test `… == 0`
unfoldable pub is_zero : ℤ → Bool
is_zero (pos n) = n == 0
is_zero (negsuc n) = false

-- `while (n--) *p++ = (uint8_t)c;`
unfoldable pub memset : ℕ → ℕ → ℕ → Memory → Memory
memset p c zero m = m
memset p c (suc n) m = memset (p + 1) c n (set m p (c % 256))

-- `while (n--) *d++ = *s++;`
unfoldable pub memcpy : ℕ → ℕ → ℕ → Memory → Memory
memcpy d s zero m = m
memcpy d s (suc n) m = memcpy (d + 1) (s + 1) n (set m d (get_or m s 0))

-- `while (n--) *--d = *--s;`, from the ends `d + n` and `s + n`
unfoldable pub copy_down : ℕ → ℕ → ℕ → Memory → Memory
copy_down d s zero m = m
copy_down d s (suc n) m = copy_down d s n (set m (d + n) (get_or m (s + n) 0))

unfoldable pub memmove : ℕ → ℕ → ℕ → Memory → Memory
memmove d s n m = if ltb d s then memcpy d s n m else copy_down d s n m

-- the loop of `memcmp`, on the bytes from the two pointers on
unfoldable pub memcmp : List ℕ → List ℕ → ℕ → ℤ
memcmp s1 s2 zero = pos 0
memcmp s1 s2 (suc n) =
    let rest = memcmp (drop 1 s1) (drop 1 s2) n in
    if get_or s1 0 0 == get_or s2 0 0 then rest else byte_diff (get_or s1 0 0) (get_or s2 0 0)

unfoldable pub strlen : List ℕ → ℕ
strlen [] = 0
strlen (c ∷ s) = let rest = strlen s in if c == 0 then 0 else suc rest

unfoldable pub strcmp : List ℕ → List ℕ → ℤ
strcmp [] s2 = byte_diff 0 (get_or s2 0 0)
strcmp (c ∷ s1) s2 =
    let rest = strcmp s1 (drop 1 s2) in
    if not (c == 0) && c == get_or s2 0 0 then rest else byte_diff c (get_or s2 0 0)

unfoldable pub strncmp : List ℕ → List ℕ → ℕ → ℤ
strncmp s1 s2 zero = pos 0
strncmp s1 s2 (suc n) =
    let rest = strncmp (drop 1 s1) (drop 1 s2) n in
    if get_or s1 0 0 == get_or s2 0 0
    then (if get_or s1 0 0 == 0 then pos 0 else rest)
    else byte_diff (get_or s1 0 0) (get_or s2 0 0)

-- the second loop of `strncpy`
unfoldable pub fill_zero : List ℕ → ℕ → List ℕ
fill_zero [] n = []
fill_zero (d ∷ dest) zero = d ∷ dest
fill_zero (d ∷ dest) (suc n) = 0 ∷ fill_zero dest n

unfoldable pub strncpy : List ℕ → List ℕ → ℕ → List ℕ
strncpy [] src n = []
strncpy (d ∷ dest) src zero = d ∷ dest
strncpy (d ∷ dest) src (suc n) =
    let rest = strncpy dest (drop 1 src) n in
    if get_or src 0 0 == 0 then fill_zero (d ∷ dest) (suc n) else get_or src 0 0 ∷ rest

unfoldable pub strcpy : List ℕ → List ℕ → List ℕ
strcpy [] src = []
strcpy (d ∷ dest) src =
    let rest = strcpy dest (drop 1 src) in
    if get_or src 0 0 == 0 then 0 ∷ dest else get_or src 0 0 ∷ rest

-- the position of the first `c`, or none for a null pointer
unfoldable pub strchr : List ℕ → ℕ → Option ℕ
strchr [] c = if c == 0 then some 0 else none
strchr (b ∷ s) c =
    let rest = strchr s c in
    if b == 0
    then (if c == 0 then some 0 else none)
    else if b == c % 256
    then some 0
    else elim rest [ none ↦ none | some i ↦ some (suc i) ]

unfoldable pub strcat : List ℕ → List ℕ → List ℕ
unfolding strcpy
strcat [] src = []
strcat (d ∷ dest) src =
    let rest = strcat dest src in if d == 0 then strcpy (d ∷ dest) src else d ∷ rest
