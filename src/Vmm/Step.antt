-- ===== src/Vmm/Step.antt =====
-- src/mm/vmm.c: one step of walk_create, on every branch.
use lighth_os.Vmm.{
  Mem, Vm, put, present, addr_of, user_bit, or_user, leads, is_huge, mid_flags, alloc_table,
  link_new, ensure,
}
use lighth_os.Vmm.Words.{
  put-here, user_bit-link, user_bit-or_user, addr_of-or_user, present-or_user, is_huge-or_user,
  is_huge-link, present-link,
}
use lighth_os.Vmm.Tree.{Place, IsUser, IsTree}
use lighth_os.Vmm.Grow.{Grows, opened, opened-Grows}
use lighth_os.Vmm.Fresh.{
  Fresh, alloc_table-Fresh, linked, grown, linked-Grows, link_child, word-linked,
}
use lighth_os.Common.{
  ℕ, suc, ◌+◌, ◌*◌, ◌<◌, ◌≡◌, refl, ap, sym, subst, ◌∙◌, Bool, true, false, Option, none, some,
  if◌then◌else◌, true≢false, inl, inr, Bool-cases,
}

-- what making the entry `i` of the table `t` present leaves
pub record Ensured (user : Bool) (place : Place) (root t k p i : ℕ) (s s' : Vm) : Type 0 where
  pub place' : Place
  pub grows : Grows place root (suc k) s s' place'
  pub child : place' (addr_of (s'.mem (t + 8 * i))) ≡ some (k, p * 512 + i)
  pub not_huge : is_huge (suc k) (s'.mem (t + 8 * i)) ≡ false
  pub here : present (s'.mem (t + 8 * i)) ≡ true
  pub opened_here : user ≡ true → user_bit (s'.mem (t + 8 * i)) ≡ true

pub leads-present : (k e : ℕ) → present e ≡ true → is_huge k e ≡ false → leads k e ≡ true
unfolding leads
leads-present k e a b = rw (a, b) refl

module _ (place : Place) (root : ℕ) (s : Vm) (tree : IsTree place root s) (t k p i : ℕ)
    (e : place t ≡ some (suc k, p)) (inside : i < 512) (half : IsUser (suc k) i) where
  as-Ensured : present (s.mem (t + 8 * i)) ≡ true → Ensured false place root t k p i s s
  as-Ensured a = record {
    place' = place;
    grows = record {
      extends = λ u j q f. f;
      tree = tree;
      same = λ j u va f l. refl;
      above = λ u j q l f h m. refl;
    };
    child =
        tree.child t k p i e inside half
          (leads-present (suc k) _ a (tree.no_huge t k p i e inside half));
    not_huge = tree.no_huge t k p i e inside half;
    here = a;
    opened_here = λ u. absurd (true≢false (sym u));
  }

  opened-Ensured :
      present (s.mem (t + 8 * i)) ≡ true
      → Ensured true place root t k p i s
          (record s { mem = opened place root s tree t k p i e inside })
  opened-Ensured a = record {
    place' = place;
    grows = opened-Grows place root s tree t k p i e inside;
    child =
        ap place (ap addr_of at ∙ addr_of-or_user _)
        ∙ tree.child t k p i e inside half
            (leads-present (suc k) _ a (tree.no_huge t k p i e inside half));
    not_huge =
        ap (is_huge (suc k)) at ∙ is_huge-or_user _ (suc k) ∙ tree.no_huge t k p i e inside half;
    here = ap present at ∙ present-or_user _ ∙ a;
    opened_here = λ u. ap user_bit at ∙ user_bit-or_user (s.mem (t + 8 * i));
  }
    where
      at : opened place root s tree t k p i e inside (t + 8 * i) ≡ or_user (s.mem (t + 8 * i))
      at = put-here (t + 8 * i) _ s.mem

  linked-Ensured :
      (user : Bool) (f : ℕ) (s1 : Vm) (missing : present (s.mem (t + 8 * i)) ≡ false)
      (fresh : Fresh s f s1)
      → Ensured user place root t k p i s (record s1 {
        mem = linked place root s tree t k p i e inside half missing f s1 fresh user;
      })
  linked-Ensured user f s1 missing fresh = record {
    place' = grown place root s tree t k p i e inside half missing f s1 fresh user;
    grows = linked-Grows place root s tree t k p i e inside half missing f s1 fresh user;
    child = link_child place root s tree t k p i e inside half missing f s1 fresh user;
    not_huge =
        ap (is_huge (suc k))
          (word-linked place root s tree t k p i e inside half missing f s1 fresh user)
        ∙ is_huge-link f user fresh.aligned fresh.low (suc k);
    here =
        ap present (word-linked place root s tree t k p i e inside half missing f s1 fresh user)
        ∙ present-link f user fresh.aligned fresh.low;
    opened_here = λ u.
        ap user_bit (word-linked place root s tree t k p i e inside half missing f s1 fresh user)
        ∙ ap (λ b. user_bit (f + mid_flags b)) u
        ∙ user_bit-link f fresh.aligned;
  }

  present-Ensured :
      (user : Bool)
      → present (s.mem (t + 8 * i)) ≡ true
      → Ensured user place root t k p i s (
          if user
          then record s { mem = put (t + 8 * i) (or_user (s.mem (t + 8 * i))) s.mem }
          else s)
  present-Ensured true a = opened-Ensured a
  present-Ensured false a = as-Ensured a

  new-Ensured :
      (user : Bool) (o : Option (ℕ × Vm)) (s' : Vm)
      → present (s.mem (t + 8 * i)) ≡ false
      → alloc_table s ≡ o
      → link_new user (t + 8 * i) o ≡ some s'
      → Ensured user place root t k p i s s'
  unfolding link_new
  new-Ensured user none s' missing a h = cc
  new-Ensured user (some (f, s1)) s' missing a h =
      let fresh = alloc_table-Fresh s f s1 tree.pmm_valid a in
      subst (Ensured user place root t k p i s)
        (ap (λ (m : Mem). record s1 { mem = put (t + 8 * i) (f + mid_flags user) m })
            (sym (ap (λ (x : Vm). x.mem) fresh.result))
          ∙ is_result h)
        (linked-Ensured user f s1 missing fresh)
    where
      is_result : {x : Vm} → some x ≡ some s' → x ≡ s'
      is_result q = cc

  pub ensure-Ensured :
      (user : Bool) (s' : Vm)
      → ensure user (t + 8 * i) s ≡ some s'
      → Ensured user place root t k p i s s'
  unfolding ensure
  ensure-Ensured user s' h = elim (Bool-cases (present (s.mem (t + 8 * i)))) [
    | inl a ↦
        subst (Ensured user place root t k p i s) (is_result (rw a at h)) (present-Ensured user a)
    | inr a ↦ new-Ensured user (alloc_table s) s' a refl (rw a at h)
  ]
    where
      is_result : {x : Vm} → some x ≡ some s' → x ≡ s'
      is_result q = cc
