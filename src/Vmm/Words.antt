-- ===== src/Vmm/Words.antt =====
-- The bits of an entry in a page table, and the words of the memory.
use lighth_os.Vmm.{
  Mem, put, zero_page, present, user_bit, huge, addr_of, or_user, mid_flags, is_huge, leads, pte_of,
}
use lighth_os.Common.{
  ℕ, ◌+◌, ◌*◌, ◌/◌, ◌%◌, ◌^◌, ◌≤◌, ◌<◌, ◌≡◌, ◌≢◌, refl, Bool, true, false, ◌&&◌, ◌==◌, ltb, leb,
  arith, ==_self, ne→==,
}

pub put-here : (a v : ℕ) (m : Mem) → put a v m a ≡ v
unfolding put
put-here a v m = rw (==_self a) refl

pub put-there : (a v b : ℕ) (m : Mem) → b ≢ a → put a v m b ≡ m b
unfolding put
put-there a v b m h = rw (ne→== b a h) refl

pub zero_page-inside : (f b : ℕ) (m : Mem) → f ≤ b → b < f + 4096 → zero_page f m b ≡ 0
unfolding zero_page
zero_page-inside f b m h l = ground (arith, h, l)

pub zero_page-outside :
    (f t i : ℕ) (m : Mem)
    → t % 4096 ≡ 0
    → f % 4096 ≡ 0
    → t ≢ f
    → i < 512
    → zero_page f m (t + 8 * i) ≡ m (t + 8 * i)
unfolding zero_page
zero_page-outside f t i m a b ne h = ground (arith, a, b, ne, h, apart)
  where
    apart : leb f (t + 8 * i) && ltb (t + 8 * i) (f + 4096) ≡ false
    apart = ground arith

pub same_word :
    (t u i j : ℕ)
    → t % 4096 ≡ 0
    → u % 4096 ≡ 0
    → i < 512
    → j < 512
    → t + 8 * i ≡ u + 8 * j
    → (t ≡ u) × (i ≡ j)
same_word t u i j a b h l e = (omega arith, omega arith)

mid_flags_small : (user : Bool) → (mid_flags user < 8) × (mid_flags user % 2 ≡ 1)
mid_flags_small true = (omega arith, omega arith)
mid_flags_small false = (omega arith, omega arith)

-- an entry that points to the frame `f`
module _ (f : ℕ) (user : Bool) (aligned : f % 4096 ≡ 0) (low : f < 2 ^ 52) where
  pub addr_of-link : addr_of (f + mid_flags user) ≡ f
  unfolding addr_of
  addr_of-link = omega (arith, (mid_flags_small user).0)

  pub leads-link : (k : ℕ) → leads k (f + mid_flags user) ≡ true
  unfolding leads is_huge huge present
  leads-link k = rw (odd, small) (ground arith)
    where
      odd : ((f + mid_flags user) % 2 == 1) ≡ true
      odd = ground (arith, (mid_flags_small user).1)

      small : ((f + mid_flags user) / 128 % 2 == 1) ≡ false
      small = ground (arith, (mid_flags_small user).0)

  pub is_huge-link : (k : ℕ) → is_huge k (f + mid_flags user) ≡ false
  unfolding is_huge huge
  is_huge-link k = ground (arith, (mid_flags_small user).0)

  pub present-link : present (f + mid_flags user) ≡ true
  unfolding present
  present-link = ground (arith, (mid_flags_small user).1)

-- an entry that is made for user code
pub user_bit-link : (f : ℕ) → f % 4096 ≡ 0 → user_bit (f + mid_flags true) ≡ true
unfolding user_bit
user_bit-link f a = ground (arith, a)

-- an entry opened to ring 3
module _ (e : ℕ) where
  pub addr_of-or_user : addr_of (or_user e) ≡ addr_of e
  unfolding addr_of or_user user_bit
  addr_of-or_user = ground arith

  pub user_bit-or_user : user_bit (or_user e) ≡ true
  unfolding or_user user_bit
  user_bit-or_user = ground arith

  pub leads-or_user : (k : ℕ) → leads k (or_user e) ≡ leads k e
  unfolding leads is_huge huge present or_user user_bit
  leads-or_user k = ground arith

  pub present-or_user : present (or_user e) ≡ present e
  unfolding present or_user user_bit
  present-or_user = ground arith

  pub is_huge-or_user : (k : ℕ) → is_huge k (or_user e) ≡ is_huge k e
  unfolding is_huge huge or_user user_bit
  is_huge-or_user k = ground arith

module _ (phys flags : ℕ) where
  pub present-pte_of : present (pte_of phys flags) ≡ true
  unfolding present pte_of addr_of
  present-pte_of = ground arith

  pub addr_of-pte_of : addr_of (pte_of phys flags) ≡ addr_of phys
  unfolding pte_of addr_of
  addr_of-pte_of = omega arith

  pub user_bit-pte_of : user_bit (pte_of phys flags) ≡ user_bit flags
  unfolding user_bit pte_of addr_of
  user_bit-pte_of = ground arith
