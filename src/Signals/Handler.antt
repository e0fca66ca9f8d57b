-- ===== src/Signals/Handler.antt =====
-- src/kernel/process.c: the way of a signal into its handler and back.
use Prim.Native.Nat.{bit_and}
use lighth_os.Common.Bits.{bit, all_but}
use lighth_os.Signals.{Regs, Process}
use lighth_os.Signals.Calls.{Delivery, user_push, enter, act, deliver, sigreturn}
use lighth_os.Signals.Lowest.{IsLowest, lowest-IsLowest, IsLowest-nonzero, taken}
use lighth_os.Common.{
  ℕ, ◌%◌, ◌<◌, ◌≡◌, refl, ap, sym, ◌∙◌, true, false, ◌&&◌, not, Option, some, [], subst, ◌==◌,
  get_or, inl, inr, arith, Bool-cases, ne→==,
}

-- What a delivery to the handler `h` of signal `s` leaves: the frame enters the handler, and whatever
-- frame the handler makes its return with, `process_sigreturn` gives back the old one.
pub record Handled (regs : Regs) (p : Process) (s h rsp address : ℕ) (d : Delivery) : Type 0 where
  pub frame : d.regs ≡ record regs { rsp = rsp; rip = h; rdi = s }
  pub pending :
      (i : ℕ) → i < 32 → bit d.process.sig_pending i ≡ (bit p.sig_pending i && not (i == s))
  pub busy :
      (phys : Option (ℕ → ℕ)) (r : Regs)
      → deliver phys r d.process
        ≡ record { regs = r; process = d.process; killed = false; stores = [] }
  pub returns : (r : Regs) → (sigreturn r d.process).0 ≡ regs
  pub idle :
      (r : Regs)
      → (sigreturn r d.process).1 ≡ record p {
        sig_pending = d.process.sig_pending;
        sig_saved_regs = regs;
        sig_delivering = false;
      }

-- what the process is when the signal has been taken off
abbrev pub without : ℕ → Process → Process
without s p = record p { sig_pending = bit_and p.sig_pending (all_but s) }

act-enter :
    (phys : Option (ℕ → ℕ)) (regs : Regs) (p : Process) (s h rsp address : ℕ)
    → get_or p.sig_handlers s 0 ≡ h
    → 1 < h
    → user_push phys regs.rsp ≡ some (rsp, address)
    → act phys s regs p ≡ enter s h regs p (some (rsp, address))
unfolding act
act-enter phys regs p s h rsp address e l pushed =
    rw (e, ne→== h 0 (omega arith), ne→== h 1 (omega arith)) (ap (enter s h regs p) pushed)

deliver-act :
    (phys : Option (ℕ → ℕ)) (regs : Regs) (p : Process) (s : ℕ)
    → (regs.cs % 4 == 3) ≡ true
    → p.sig_delivering ≡ false
    → IsLowest p.sig_pending s
    → deliver phys regs p ≡ act phys s regs (without s p)
unfolding deliver
deliver-act phys regs p s user idle w =
    rw
      (
        lowest-IsLowest s p.sig_pending w,
        user,
        idle,
        IsLowest-nonzero s p.sig_pending w,
        ne→== s 0 (omega (arith, w.above)),
      )
      refl

deliver-busy :
    (phys : Option (ℕ → ℕ)) (regs : Regs) (p : Process)
    → p.sig_delivering ≡ true
    → deliver phys regs p ≡ record { regs = regs; process = p; killed = false; stores = [] }
unfolding deliver
deliver-busy phys regs p e = elim (Bool-cases (regs.cs % 4 == 3)) [
  | inl user ↦ rw (user, e) refl
  | inr user ↦ rw user refl
]

entered-Handled :
    (regs : Regs) (p : Process) (s h rsp address : ℕ)
    → s < 32
    → Handled regs p s h rsp address (enter s h regs (without s p) (some (rsp, address)))
unfolding enter sigreturn
entered-Handled regs p s h rsp address l = record {
  frame = refl;
  pending = λ i hi. taken s p.sig_pending i l hi;
  busy = λ phys r. deliver-busy phys r _ refl;
  returns = λ r. refl;
  idle = λ r. refl;
}

-- On the way back to a user frame, with no delivery under way, signal `s` the lowest pending one, a
-- handler `h` for it and a stack that is mapped where the return address goes, the frame enters `h` with `s` as its argument; only `s` is taken off the
-- pending ones; no other signal is delivered during the handler; and the return of the handler brings
-- the interrupted frame back, whatever the handler has made of the registers.
pub deliver-Handled :
    (phys : Option (ℕ → ℕ)) (regs : Regs) (p : Process) (s h rsp address : ℕ)
    → (regs.cs % 4 == 3) ≡ true
    → p.sig_delivering ≡ false
    → IsLowest p.sig_pending s
    → get_or p.sig_handlers s 0 ≡ h
    → 1 < h
    → user_push phys regs.rsp ≡ some (rsp, address)
    → Handled regs p s h rsp address (deliver phys regs p)
deliver-Handled phys regs p s h rsp address user idle w e l pushed =
    subst (Handled regs p s h rsp address)
      (sym (
        deliver-act phys regs p s user idle w
        ∙ act-enter phys regs (without s p) s h rsp address e l pushed))
      (entered-Handled regs p s h rsp address w.below)
