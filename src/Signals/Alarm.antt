-- ===== src/Signals/Alarm.antt =====
-- src/kernel/process.c: when an alarm rings.
use lighth_os.Common.Bits.{bit, one_bit, bit-bit_or, bit-one_bit}
use lighth_os.Tasks.{Task}
use lighth_os.Signals.{Process, process_at, no_process, queue, sig_alrm}
use lighth_os.Signals.Calls.{set_alarm, rings, tick, tick_alarms}
use lighth_os.Common.{
  ℕ, zero, suc, ◌-◌, ◌*◌, ◌%◌, ◌^◌, ◌<◌, ◌≡◌, refl, ap, sym, ◌∙◌, true, false, List, [], ◌∷◌, ◌==◌,
  leb, set, length, inl, inr, arith, Bool-cases, ne→==, get_or-set_self, lt→ltb,
}

-- what the timer makes of one process in `n` interrupts
pub ticks : ℕ → Process → Process
ticks zero p = p
ticks (suc n) p = ticks n (tick p)

-- what it makes of the processes and the tasks
pub after : ℕ → List Process → List Task → List Process × List Task
after zero ps tasks = (ps, tasks)
after (suc n) ps tasks = let next = tick_alarms ps tasks in after n next.0 next.1

tick-no_process : tick no_process ≡ no_process
unfolding tick
tick-no_process = refl

process_at-tick :
    (i : ℕ) (ps : List Process) (tasks : List Task)
    → process_at i (tick_alarms ps tasks).0 ≡ tick (process_at i ps)
unfolding tick_alarms
process_at-tick i [] tasks = sym tick-no_process
process_at-tick zero (p ∷ ps) tasks = refl
process_at-tick (suc i) (p ∷ ps) tasks = process_at-tick i ps _

pub process_at-after :
    (n i : ℕ) (ps : List Process) (tasks : List Task)
    → process_at i (after n ps tasks).0 ≡ ticks n (process_at i ps)
unfolding after ticks
process_at-after zero i ps tasks = refl
process_at-after (suc n) i ps tasks =
    process_at-after n i _ _ ∙ ap (ticks n) (process_at-tick i ps tasks)

-- no alarm is set
tick-idle : (p : Process) → p.alarm_ticks ≡ 0 → tick p ≡ p
unfolding tick
tick-idle p e = elim (Bool-cases p.alive) [ inl a ↦ rw (a, e) refl | inr a ↦ rw a refl ]

ticks-idle : (n : ℕ) (p : Process) → p.alarm_ticks ≡ 0 → ticks n p ≡ p
unfolding ticks
ticks-idle zero p e = refl
ticks-idle (suc n) p e = ap (ticks n) (tick-idle p e) ∙ ticks-idle n p e

tick-last :
    (p : Process)
    → p.alive ≡ true
    → p.alarm_ticks ≡ 1
    → tick p ≡ queue sig_alrm (record p { alarm_ticks = 0 })
unfolding tick rings
tick-last p a e = rw (a, e) refl

tick-more :
    (p : Process)
    → p.alive ≡ true
    → 1 < p.alarm_ticks
    → tick p ≡ record p { alarm_ticks = p.alarm_ticks - 1 }
unfolding tick rings
tick-more p a h =
    rw (a, lt→ltb 0 p.alarm_ticks (omega arith), ne→== p.alarm_ticks 1 (omega arith)) refl

ticks-Due :
    (n : ℕ) (p : Process)
    → p.alive ≡ true
    → 0 < p.alarm_ticks
    → bit p.sig_pending sig_alrm ≡ false
    → bit (ticks n p).sig_pending sig_alrm ≡ leb p.alarm_ticks n
unfolding ticks
ticks-Due zero p a h off = off ∙ ground arith
ticks-Due (suc n) p a h off = elim (Bool-cases (p.alarm_ticks == 1)) [
  | inl e ↦
      ap (λ q. bit (ticks n q).sig_pending sig_alrm) (tick-last p a (ground (arith, e)))
      ∙ ap (λ q. bit q.sig_pending sig_alrm)
          (ticks-idle n (queue sig_alrm (record p { alarm_ticks = 0 })) refl)
      ∙ bit-bit_or p.sig_pending (one_bit sig_alrm) sig_alrm
      ∙ rw off (bit-one_bit sig_alrm sig_alrm (omega arith) (omega arith) ∙ ground (arith, e))
  | inr e ↦
      ap (λ q. bit (ticks n q).sig_pending sig_alrm) (tick-more p a (ground (arith, e)))
      ∙ ticks-Due n (record p { alarm_ticks = p.alarm_ticks - 1 }) a (ground (arith, e)) off
      ∙ ground (arith, e)
]

-- An alarm that a process sets for `secs` seconds is pending from the tick `100 * secs` on and not
-- before, whatever the other processes of the table have set. The seconds are not zero and their
-- ticks fit into 32 bits, the process is alive, and no alarm was pending.
pub set_alarm-after :
    (n secs i : ℕ) (ps : List Process) (tasks : List Task)
    → i < length ps
    → (process_at i ps).alive ≡ true
    → 0 < secs
    → secs * 100 < 2 ^ 32
    → bit (process_at i ps).sig_pending sig_alrm ≡ false
    → bit
        (process_at i (after n (set ps i (set_alarm secs (process_at i ps)).1) tasks).0).sig_pending
        sig_alrm
      ≡ leb (secs * 100) n
unfolding set_alarm
set_alarm-after n secs i ps tasks inside a l h off =
    ap (λ p. bit p.sig_pending sig_alrm)
      (process_at-after n i _ tasks ∙ ap (ticks n) (get_or-set_self ps i _ no_process inside))
    ∙ ticks-Due n (record (process_at i ps) { alarm_ticks = secs * 100 % 2 ^ 32 }) a (omega arith)
        off
    ∙ ground (arith, l, h)
