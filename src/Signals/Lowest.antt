-- ===== src/Signals/Lowest.antt =====
-- src/kernel/process.c: the signal that process_deliver_pending_signals picks.
use Prim.Native.Nat.{bit_and}
use lighth_os.Common.Bits.{bit, all_but, bit-zero, bit-bit_and, bit-all_but}
use lighth_os.Signals.Calls.{lowest}
use lighth_os.Common.{
  ℕ, zero, suc, ◌+◌, ◌≤◌, ◌<◌, ◌≡◌, ap, sym, ◌∙◌, true, false, ◌&&◌, not, ◌==◌, inl, inr, arith,
  Bool-cases, true≢false,
}

-- The pending signals have `s` as the lowest one.
pub record IsLowest (pending s : ℕ) : Type 0 where
  pub above : 0 < s
  pub below : s < 32
  pub on : bit pending s ≡ true
  pub off : (j : ℕ) → 0 < j → j < s → bit pending j ≡ false

lowest-at :
    (n i s pending : ℕ)
    → i ≤ s
    → s < i + n
    → bit pending s ≡ true
    → ((j : ℕ) → i ≤ j → j < s → bit pending j ≡ false)
    → lowest n i pending ≡ s
unfolding lowest
lowest-at zero i s pending l h on off = absurd (omega arith)
lowest-at (suc n) i s pending l h on off = elim (Bool-cases (i == s)) [
  | inl e ↦ rw (bit_here e) (ground arith)
  | inr e ↦ rw (off i (omega arith) (ground (arith, e))) (
      lowest-at n (i + 1) s pending (ground (arith, e)) (omega arith) on
        (λ j a b. off j (omega arith) b))
]
  where
    bit_here : (i == s) ≡ true → bit pending i ≡ true
    bit_here e = let q : i ≡ s = ground (arith, e) in ap (bit pending) q ∙ on

pub lowest-IsLowest : (s pending : ℕ) → IsLowest pending s → lowest 31 1 pending ≡ s
lowest-IsLowest s pending w =
    lowest-at 31 1 s pending w.above (omega (arith, w.below)) w.on (λ j a b. w.off j a b)

pub IsLowest-nonzero : (s pending : ℕ) → IsLowest pending s → (pending == 0) ≡ false
IsLowest-nonzero s pending w = elim (Bool-cases (pending == 0)) [
  | inl e ↦ absurd (true≢false (sym w.on ∙ ap (λ n. bit n s) (ground (arith, e)) ∙ bit-zero s))
  | inr e ↦ e
]

-- one signal is off, and no other changes
pub taken :
    (s pending i : ℕ)
    → s < 32
    → i < 32
    → bit (bit_and pending (all_but s)) i ≡ (bit pending i && not (i == s))
taken s pending i hs hi =
    bit-bit_and pending (all_but s) i ∙ ap (λ b. bit pending i && b) (bit-all_but s i hs hi)
