-- ===== src/Vmm/User.antt =====
-- src/mm/vmm.c: the checks of pointers that come from user code, and the copies by them. User memory
-- gives the byte at a virtual address; pointers and lengths have 64 bits.
pub mod Range
pub mod Text
use lighth_os.Vmm.{Mem, Vm, entry_at, present, writable, user_bit, addr_of, is_huge}
use lighth_os.Vmm.Space.{default_pml4}
use lighth_os.Common.{
  ℕ, zero, suc, ◌+◌, ◌-◌, ◌*◌, ◌/◌, ◌%◌, ◌^◌, Bool, true, false, ◌&&◌, ◌||◌, not, Option, none,
  some, List, [], ◌∷◌, ◌==◌, ltb, if◌then◌else◌,
}

-- the last test of page_user_accessible
unfoldable pub write_ok : Bool → ℕ → Bool
write_ok write e = not write || writable e

-- `page_user_accessible`, from the table `t` of level `k` on
unfoldable pub accessible : ℕ → ℕ → ℕ → Bool → Mem → Bool
accessible zero t va write m =
    let e = m (entry_at 0 t va) in present e && user_bit e && write_ok write e
accessible (suc k) t va write m =
    let e = m (entry_at (suc k) t va) in
    let rest = accessible k (addr_of e) va write m in
    present e && user_bit e && (if is_huge (suc k) e then write_ok write e else rest)

abbrev pub page_user_accessible : ℕ → ℕ → Bool → Mem → Bool
page_user_accessible pml4 va write m = accessible 3 pml4 va write m

-- the first byte of a page: `va & ~0xFFF`
abbrev pub page_of : ℕ → ℕ
page_of va = va / 4096 * 4096

-- the loop of user_ptr_ok, on fuel
unfoldable pub pages_ok : ℕ → ℕ → ℕ → ℕ → Bool → Mem → Bool
pages_ok zero pml4 va last write m = false
pages_ok (suc n) pml4 va last write m =
    let rest = pages_ok n pml4 ((va + 4096) % 2 ^ 64) last write m in
    if not (page_user_accessible pml4 va write m) then false else if va == last then true else rest

-- `user_ptr_ok`; the fuel is the number of pages from the first to the last.
unfoldable pub user_ptr_ok : ℕ → ℕ → Bool → Vm → Bool
user_ptr_ok start len write s =
    if len == 0
    then true
    else if default_pml4 s == 0
    then false
    else if ltb ((start + len) % 2 ^ 64) start
    then false
    else let last = page_of ((start + len - 1) % 2 ^ 64) in
      pages_ok (suc (last / 4096 - start / 4096)) (default_pml4 s) (page_of start) last write s.mem

-- `memcpy`, a byte at a time
unfoldable pub memcpy : ℕ → ℕ → ℕ → (ℕ → ℕ) → ℕ → ℕ
memcpy zero dst src m = m
memcpy (suc n) dst src m = memcpy n (suc dst) (suc src) (λ a. if a == dst then m src else m a)

-- `copy_from_user` and `copy_to_user`: the length copied is cut to 32 bits, and so is the result,
-- which is none for -1 and the 32 bits otherwise.
unfoldable pub copy_from_user : ℕ → ℕ → ℕ → Vm → (ℕ → ℕ) → Option ℕ × (ℕ → ℕ)
copy_from_user kdst usrc n s m =
    if user_ptr_ok usrc n false s
    then (some (n % 2 ^ 32), memcpy (n % 2 ^ 32) kdst usrc m)
    else (none, m)

unfoldable pub copy_to_user : ℕ → ℕ → ℕ → Vm → (ℕ → ℕ) → Option ℕ × (ℕ → ℕ)
copy_to_user udst ksrc n s m =
    if user_ptr_ok udst n true s
    then (some (n % 2 ^ 32), memcpy (n % 2 ^ 32) udst ksrc m)
    else (none, m)

-- the loop of strncpy_from_user from the byte `i` on, with `n` bytes of room left before the last;
-- `checked` is last_page_checked. It gives the result and the bytes stored from kdst + i on.
unfoldable pub take_text : ℕ → ℕ → ℕ → ℕ → ℕ → Mem → (ℕ → ℕ) → Option ℕ × List ℕ
take_text zero pml4 usrc i checked m load = (none, 0 ∷ [])
take_text (suc n) pml4 usrc i checked m load =
    let va = (usrc + i) % 2 ^ 64 in
    let rest = take_text n pml4 usrc (suc i) (page_of va) m load in
    if not (page_of va == checked) && not (page_user_accessible pml4 (page_of va) false m)
    then (none, [])
    else if load va == 0
    then (some (i % 2 ^ 32), 0 ∷ [])
    else (rest.0, load va ∷ rest.1)

-- `strncpy_from_user`
unfoldable pub strncpy_from_user : ℕ → ℕ → Vm → (ℕ → ℕ) → Option ℕ × List ℕ
strncpy_from_user usrc max s load =
    if max == 0
    then (none, [])
    else if default_pml4 s == 0
    then (none, [])
    else take_text (max - 1) (default_pml4 s) usrc 0 (2 ^ 64 - 1) s.mem load
