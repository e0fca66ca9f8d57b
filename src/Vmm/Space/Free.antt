-- ===== src/Vmm/Space/Free.antt =====
-- src/mm/vmm.c: free_user_subtree leaves no user page mapped.
use lighth_os.Pmm.{Pmm, free_frame}
use lighth_os.Pmm.Inv.{IsValid, release-IsValid}
use lighth_os.Vmm.{
  Mem, Vm, idx, entry_at, present, addr_of, is_huge, leads, lookup, walk_lookup, physical_at,
  get_physical_in,
}
use lighth_os.Vmm.Words.{put-here, put-there}
use lighth_os.Vmm.Space.{
  when, clear_word, free_entry, each_entry, free_below, free_slot, free_user_subtree,
  unmap_user_space,
}
use lighth_os.Vmm.Tree.{idx-IsUser}
use lighth_os.Common.{
  ℕ, zero, suc, ◌+◌, ◌*◌, ◌^◌, ◌≤◌, ◌<◌, ◌≡◌, ◌≢◌, refl, ap, ◌∙◌, Bool, true, false, ◌==◌, ne→==,
  not, arith, inl, inr, Bool-cases, ==→eq, ==→ne,
}

free_frame-IsValid : (a : ℕ) (q : Pmm) → IsValid q → IsValid (free_frame a q)
unfolding free_frame
free_frame-IsValid a q v = release-IsValid _ v

-- What the loops do below the PML4: frames come free, and no word changes.
record Frees (s s' : Vm) : Type 0 where
  pub words : s'.mem ≡ s.mem
  pub valid : IsValid s.pmm → IsValid s'.pmm

Frees-refl : (s : Vm) → Frees s s
Frees-refl s = record { words = refl; valid = λ v. v }

Frees-then : {s s1 s2 : Vm} → Frees s s1 → Frees s1 s2 → Frees s s2
Frees-then a b = record { words = b.words ∙ a.words; valid = λ v. b.valid (a.valid v) }

free_entry-Frees : (e : ℕ) (s : Vm) → Frees s (free_entry e s)
unfolding free_entry
free_entry-Frees e s = record { words = refl; valid = λ v. free_frame-IsValid (addr_of e) s.pmm v }

each_entry-Frees :
    (f : ℕ → Vm → Vm)
    → ((a : ℕ) (s : Vm) → Frees s (f a s))
    → (n i t : ℕ) (s : Vm) → Frees s (each_entry n i t f s)
unfolding each_entry
each_entry-Frees f h zero i t s = Frees-refl s
each_entry-Frees f h (suc n) i t s =
    Frees-then (h (t + 8 * i) s) (each_entry-Frees f h n (suc i) t (f (t + 8 * i) s))

when-Frees : (b : Bool) (f : Vm → Vm) (s : Vm) → Frees s (f s) → Frees s (when b f s)
unfolding when
when-Frees true f s h = h
when-Frees false f s h = Frees-refl s

free_below-Frees : (k a : ℕ) (s : Vm) → Frees s (free_below k a s)
unfolding free_below
free_below-Frees zero a s = when-Frees (present (s.mem a)) _ s (free_entry-Frees (s.mem a) s)
free_below-Frees (suc k) a s = when-Frees (present (s.mem a)) _ s (
    Frees-then
      (when-Frees (not (is_huge (suc k) (s.mem a))) _ s
        (each_entry-Frees (free_below k) (free_below-Frees k) 512 0 (addr_of (s.mem a)) s))
      (free_entry-Frees (s.mem a) _))

-- What the outer loop does: an entry of the PML4 that was present is cleared.
record Clears (a : ℕ) (s s' : Vm) : Type 0 where
  pub here : present (s'.mem a) ≡ false
  pub others : (b : ℕ) → b ≢ a → s'.mem b ≡ s.mem b
  pub valid : IsValid s.pmm → IsValid s'.pmm

zero_absent : present 0 ≡ false
unfolding present
zero_absent = refl

cleared-Clears : (a : ℕ) {s t : Vm} → Frees s t → Clears a s (clear_word a t)
unfolding clear_word
cleared-Clears a {s} {t} f = record {
  here = ap present (put-here a 0 t.mem) ∙ zero_absent;
  others = λ b ne. put-there a 0 b t.mem ne ∙ ap (λ (m : Mem). m b) f.words;
  valid = f.valid;
}

when-Clears :
    (a : ℕ) (s : Vm) (f : Vm → Vm) (b : Bool)
    → present (s.mem a) ≡ b
    → Clears a s (f s)
    → Clears a s (when b f s)
unfolding when
when-Clears a s f true p h = h
when-Clears a s f false p h = record { here = p; others = λ b ne. refl; valid = λ v. v }

free_slot-Clears : (a : ℕ) (s : Vm) → Clears a s (free_slot a s)
unfolding free_slot
free_slot-Clears a s = when-Clears a s _ (present (s.mem a)) refl (
    cleared-Clears a (
      Frees-then (each_entry-Frees (free_below 2) (free_below-Frees 2) 512 0 (addr_of (s.mem a)) s)
        (free_entry-Frees (s.mem a) _)))

-- What the whole loop leaves.
pub record Freed (pml4 n i : ℕ) (s s' : Vm) : Type 0 where
  pub absent : (j : ℕ) → i ≤ j → j < i + n → present (s'.mem (pml4 + 8 * j)) ≡ false
  pub others : (b : ℕ) → ((j : ℕ) → i ≤ j → j < i + n → b ≢ pml4 + 8 * j) → s'.mem b ≡ s.mem b
  pub valid : IsValid s.pmm → IsValid s'.pmm

each_slot-Freed : (n i pml4 : ℕ) (s : Vm) → Freed pml4 n i s (each_entry n i pml4 free_slot s)
unfolding each_entry
each_slot-Freed zero i pml4 s = record {
  absent = λ j l h. absurd (omega (arith, l, h));
  others = λ b h. refl;
  valid = λ v. v;
}
each_slot-Freed (suc n) i pml4 s =
    let c = free_slot-Clears (pml4 + 8 * i) s in
    let r = each_slot-Freed n (suc i) pml4 (free_slot (pml4 + 8 * i) s) in
    record {
      absent = λ j l h. elim (Bool-cases (j == i)) [
        | inl q ↦
            rw (==→eq j i q)
              (ap present (r.others (pml4 + 8 * i) (λ u a b x. omega (arith, a, x))) ∙ c.here)
        | inr q ↦ r.absent j (omega (arith, l, ==→ne j i q)) (omega (arith, h))
      ];
      others = λ b h.
          r.others b (λ j a d. h j (omega (arith, a)) (omega (arith, d)))
          ∙ c.others b (h i (omega arith) (omega arith));
      valid = λ v. r.valid (c.valid v);
    }

pub free_user_subtree-Freed : (pml4 : ℕ) (s : Vm) → Freed pml4 256 0 s (free_user_subtree pml4 s)
unfolding free_user_subtree
free_user_subtree-Freed pml4 s = each_slot-Freed 256 0 pml4 s

-- no table at the top
absent-physical :
    (root va : ℕ) (s : Vm)
    → present (s.mem (entry_at 3 root va)) ≡ false
    → get_physical_in root va s ≡ 0
unfolding get_physical_in walk_lookup lookup leads physical_at
absent-physical root va s h = rw h refl

-- the user half of an address space whose PML4 has no entry there
pub user_absent :
    (root va : ℕ) (s : Vm)
    → ((j : ℕ) → j < 256 → present (s.mem (root + 8 * j)) ≡ false)
    → va < 2 ^ 47
    → get_physical_in root va s ≡ 0
user_absent root va s h low = absent-physical root va s (h (idx 3 va) (idx-IsUser 3 va low refl))

-- What vmm_unmap_user_space leaves.
pub record Emptied (root : ℕ) (s s' : Vm) : Type 0 where
  pub unmapped : (va : ℕ) → va < 2 ^ 47 → get_physical_in root va s' ≡ 0
  pub kernel_half : (j : ℕ) → 256 ≤ j → s'.mem (root + 8 * j) ≡ s.mem (root + 8 * j)
  pub valid : IsValid s.pmm → IsValid s'.pmm

-- After vmm_unmap_user_space of a PML4 that is not null, whatever the tables hold, no
-- address of the user half is mapped, the upper 256 entries are as before, and a valid frame
-- allocator is still valid.
pub unmap_user_space-Emptied :
    (root : ℕ) (s : Vm) → root ≢ 0 → Emptied root s (unmap_user_space root s)
unfolding unmap_user_space
unmap_user_space-Emptied root s ne =
    let f = free_user_subtree-Freed root s in
    rw (ne→== root 0 ne) (record {
      unmapped = λ va low.
          user_absent root va (free_user_subtree root s)
            (λ j h. f.absent j (omega arith) (omega (arith, h))) low;
      kernel_half = λ j l. f.others (root + 8 * j) (λ i a b x. omega (arith, l, b, x));
      valid = f.valid;
    })
