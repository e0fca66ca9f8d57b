-- ===== src/Vmm/User/Range.antt =====
-- src/mm/vmm.c: user_ptr_ok tests exactly the pages of the range.
use lighth_os.Vmm.{Mem, Vm, up, entry_at, present, user_bit, addr_of, is_huge}
use lighth_os.Vmm.Space.{default_pml4}
use lighth_os.Vmm.User.{write_ok, accessible, page_user_accessible, page_of, pages_ok, user_ptr_ok}
use lighth_os.Common.{
  ℕ, zero, suc, ◌+◌, ◌-◌, ◌*◌, ◌%◌, ◌/◌, ◌^◌, ◌≤◌, ◌<◌, ◌≡◌, ◌≢◌, refl, ap, sym, subst, ◌∙◌, Bool,
  true, false, ◌&&◌, ◌==◌, ltb, ltb→lt, if◌then◌else◌, arith, inl, inr, ◌↔◌, Bool-cases, ==→eq,
  ==→ne, ne→==, true≢false,
}

same_entry : (k t va : ℕ) → entry_at k t (page_of va) ≡ entry_at k t va
same_entry k t va = ap (λ n. t + 8 * (up k n % 512)) (omega arith)

-- All bytes of a page are alike.
pub accessible-page :
    (k t va : ℕ) (write : Bool) (m : Mem)
    → accessible k t (page_of va) write m ≡ accessible k t va write m
unfolding accessible
accessible-page zero t va write m =
    ap (λ a. present (m a) && user_bit (m a) && write_ok write (m a)) (same_entry 0 t va)
accessible-page (suc k) t va write m =
    ap
      (λ a.
        present (m a)
        && user_bit (m a)
        && (if is_huge (suc k) (m a)
            then write_ok write (m a)
            else accessible k (addr_of (m a)) (page_of va) write m))
      (same_entry (suc k) t va)
    ∙ ap
        (λ r.
          let e = m (entry_at (suc k) t va) in
          present e && user_bit e && (if is_huge (suc k) e then write_ok write e else r))
        (accessible-page k (addr_of (m (entry_at (suc k) t va))) va write m)

module _ (pml4 q : ℕ) (write : Bool) (m : Mem) (small : q * 4096 < 2 ^ 64) where
  abbrev OpenPage : ℕ → Type 0
  OpenPage p = page_user_accessible pml4 (p * 4096) write m ≡ true

  pages_ok-each :
      (n p : ℕ)
      → p + n ≡ suc q
      → pages_ok n pml4 (p * 4096) (q * 4096) write m ≡ true
      → (i : ℕ) → p ≤ i
      → i ≤ q
      → OpenPage i
  unfolding pages_ok
  pages_ok-each zero p e h = absurd (true≢false (sym h))
  pages_ok-each (suc n) p e h = elim (Bool-cases (page_user_accessible pml4 (p * 4096) write m)) [
    | inr c ↦ absurd (true≢false (sym (rw c at h)))
    | inl c ↦ elim (Bool-cases (p * 4096 == q * 4096)) [
      | inl d ↦ λ i a b. subst OpenPage (omega (arith, a, b, ==→eq (p * 4096) (q * 4096) d)) c
      | inr d ↦ λ i a b. elim (Bool-cases (i == p)) [
        | inl x ↦ subst OpenPage (sym (==→eq i p x)) c
        | inr x ↦
            pages_ok-each n (suc p) (omega (arith, e))
              (subst (λ v. pages_ok n pml4 v (q * 4096) write m ≡ true)
                (next (==→ne (p * 4096) (q * 4096) d) a b) (rw (c, d) at h))
              i (omega (arith, a, ==→ne i p x)) b
      ]
    ]
  ]
    where
      next :
          {i : ℕ} → p * 4096 ≢ q * 4096 → p ≤ i → i ≤ q → (p * 4096 + 4096) % 2 ^ 64 ≡ suc p * 4096
      next d a b = omega (arith, d, a, b, small, e)

  each-pages_ok :
      (n p : ℕ)
      → p + n ≡ q
      → ((i : ℕ) → p ≤ i → i ≤ q → OpenPage i)
      → pages_ok (suc n) pml4 (p * 4096) (q * 4096) write m ≡ true
  unfolding pages_ok
  each-pages_ok zero p e h = rw (h p (omega arith) (omega (arith, e)), last) refl
    where
      last : (p * 4096 == q * 4096) ≡ true
      last = ground (arith, e)
  each-pages_ok (suc n) p e h =
      rw (h p (omega arith) (omega (arith, e)), more, next)
        (each-pages_ok n (suc p) (omega (arith, e)) (λ i a b. h i (omega (arith, a)) b))
    where
      more : (p * 4096 == q * 4096) ≡ false
      more = ground (arith, e)

      next : (p * 4096 + 4096) % 2 ^ 64 ≡ suc p * 4096
      next = omega (arith, e, small)

-- What the check is for: each byte of the range lies on a page that user code may read, or write, and
-- the range ends below the last address.
pub record IsUserRange (start len : ℕ) (write : Bool) (s : Vm) : Type 0 where
  pub space : default_pml4 s ≢ 0
  pub ends : start + len < 2 ^ 64
  pub bytes :
      (b : ℕ)
      → start ≤ b
      → b < start + len
      → page_user_accessible (default_pml4 s) b write s.mem ≡ true

module _ (start len : ℕ) (write : Bool) (s : Vm) (below : start < 2 ^ 64) (fits : len < 2 ^ 64)
    (some_byte : 0 < len) where
  abbrev first_page : ℕ
  first_page = start / 4096

  abbrev last_page : ℕ
  last_page = (start + len - 1) / 4096

  loop_form :
      default_pml4 s ≢ 0
      → start + len < 2 ^ 64
      → user_ptr_ok start len write s
        ≡ pages_ok
            (suc (last_page - first_page))
            (default_pml4 s)
            (first_page * 4096)
            (last_page * 4096)
            write
            s.mem
  unfolding user_ptr_ok
  loop_form ne e =
      rw
        (
          ne→== len 0 (omega (arith, some_byte)),
          ne→== (default_pml4 s) 0 ne,
          no_wrap,
          last_byte,
          back,
        )
        refl
    where
      no_wrap : ltb ((start + len) % 2 ^ 64) start ≡ false
      no_wrap = ground (arith, e)

      last_byte : (start + len - 1) % 2 ^ 64 ≡ start + len - 1
      last_byte = omega (arith, e)

      back : last_page * 4096 / 4096 ≡ last_page
      back = omega arith

  sound : user_ptr_ok start len write s ≡ true → IsUserRange start len write s
  unfolding user_ptr_ok
  sound h = elim (Bool-cases (default_pml4 s == 0)) [
    | inl z ↦ absurd (true≢false (sym h ∙ refused_space z))
    | inr z ↦ elim (Bool-cases (ltb (start + len) (2 ^ 64))) [
      | inr c ↦ absurd (true≢false (sym h ∙ refused_end z (ground (arith, c))))
      | inl c ↦
          let e = ltb→lt (start + len) (2 ^ 64) c in
          record {
            space = ==→ne (default_pml4 s) 0 z;
            ends = e;
            bytes = λ b l k.
                sym (accessible-page 3 (default_pml4 s) b write s.mem)
                ∙ pages_ok-each (default_pml4 s) last_page write s.mem (omega (arith, e))
                    (suc (last_page - first_page)) first_page (omega (arith, some_byte))
                    (sym (loop_form (==→ne (default_pml4 s) 0 z) e) ∙ h) (b / 4096)
                    (omega (arith, l)) (omega (arith, k));
          }
    ]
  ]
    where
      refused_space : (default_pml4 s == 0) ≡ true → user_ptr_ok start len write s ≡ false
      refused_space z = rw (user_ptr_ok, ne→== len 0 (omega (arith, some_byte)), z) refl

      refused_end :
          (default_pml4 s == 0) ≡ false
          → 2 ^ 64 ≤ start + len
          → user_ptr_ok start len write s ≡ false
      refused_end z c = rw (user_ptr_ok, ne→== len 0 (omega (arith, some_byte)), z, wrap) refl
        where
          wrap : ltb ((start + len) % 2 ^ 64) start ≡ true
          wrap = ground (arith, c, below, fits)

  complete : IsUserRange start len write s → user_ptr_ok start len write s ≡ true
  complete r =
      loop_form r.space r.ends
      ∙ each-pages_ok (default_pml4 s) last_page write s.mem (omega (arith, r.ends))
          (last_page - first_page) first_page (omega (arith, some_byte))
          (λ i a b. elim (Bool-cases (ltb (i * 4096) start)) [
            | inl c ↦
                first_byte i (ground (arith, c, a))
                ∙ r.bytes start (omega arith) (omega (arith, some_byte))
            | inr c ↦ r.bytes (i * 4096) (ground (arith, c)) (omega (arith, b, some_byte))
          ])
    where
      first_byte :
          (i : ℕ)
          → i ≡ start / 4096
          → page_user_accessible (default_pml4 s) (i * 4096) write s.mem
            ≡ page_user_accessible (default_pml4 s) start write s.mem
      first_byte i e =
          ap (λ n. page_user_accessible (default_pml4 s) (n * 4096) write s.mem) e
          ∙ accessible-page 3 (default_pml4 s) start write s.mem

  -- For a start and a positive length of 64 bits, user_ptr_ok accepts a range exactly when
  -- there is an address space, the range ends below 2^64 and every byte of it lies on a page
  -- that page_user_accessible allows.
  pub user_ptr_ok-IsUserRange :
      (user_ptr_ok start len write s ≡ true) ↔ IsUserRange start len write s
  user_ptr_ok-IsUserRange = (sound, complete)
