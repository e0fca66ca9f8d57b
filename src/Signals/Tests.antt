-- ===== src/Signals/Tests.antt =====
-- Runs of the signals of a process.
use lighth_os.Common.Bits.{bit, one_bit, bit-one_bit}
use lighth_os.Signals.{
  Regs, no_regs, Process, no_process, process_at, in_group, signal_group, sig_int, sig_alrm,
}
use lighth_os.Signals.Calls.{user_push, deliver, set_alarm, kill_process}
use lighth_os.Signals.Lowest.{IsLowest}
use lighth_os.Signals.Handler.{Handled, deliver-Handled}
use lighth_os.Signals.Alarm.{after, set_alarm-after}
use lighth_os.Signals.Groups.{signal_group-Each}
use lighth_os.Common.{
  ℕ, ◌+◌, ◌*◌, ◌≡◌, ◌∙◌, refl, arith, true, some, none, [], ◌∷◌, if◌then◌else◌, leb, get_or, set,
  replicate,
}

-- a process with a handler for SIG_INT, which is pending
abbrev handling : Process
handling = record no_process {
  pid = 1;
  pgid = 1;
  alive = true;
  sig_handlers = set (replicate 32 0) 2 0x1000;
  sig_pending = one_bit 2;
}

abbrev user_frame : Regs
user_frame = record no_regs { cs = 0x2b; rsp = 0x5008; rip = 0x3000 }

abbrev user_pages : ℕ → ℕ
user_pages page = page + 0x100000

handling-IsLowest : IsLowest (one_bit 2) 2
handling-IsLowest = record {
  above = omega arith;
  below = omega arith;
  on = bit-one_bit 2 2 (omega arith) (omega arith);
  off = λ j a b. bit-one_bit 2 j (omega arith) (omega arith) ∙ ground (arith, b);
}

handler : get_or handling.sig_handlers 2 0 ≡ 0x1000
unfolding replicate
handler = refl

pushed : user_push (some user_pages) 0x5008 ≡ some (0x5000, 0x105000)
unfolding user_push
pushed = refl

deliver-Handled_example :
    Handled user_frame handling 2 0x1000 0x5000 0x105000
      (deliver (some user_pages) user_frame handling)
deliver-Handled_example =
    deliver-Handled (some user_pages) user_frame handling 2 0x1000 0x5000 0x105000 refl refl
      handling-IsLowest handler (omega arith) pushed

set_alarm-after_test :
    bit
      (process_at 0 (after 100 (set (handling ∷ []) 0 (set_alarm 1 handling).1) []).0).sig_pending
      sig_alrm
    ≡ leb (1 * 100) 100
set_alarm-after_test =
    set_alarm-after 100 1 0 (handling ∷ []) [] (omega arith) refl (omega arith) (omega arith)
      (bit-one_bit 2 14 (omega arith) (omega arith))

signal_group-Each_test :
    process_at 0
      (signal_group 1 sig_int
        (record { table = handling ∷ []; tasks = []; current_task = none; foreground = 1 })).table
    ≡ (if in_group 1 handling then kill_process sig_int handling else handling)
signal_group-Each_test =
    signal_group-Each 1 sig_int 0
      (record { table = handling ∷ []; tasks = []; current_task = none; foreground = 1 }) refl
