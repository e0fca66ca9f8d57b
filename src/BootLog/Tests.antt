-- ===== src/BootLog/Tests.antt =====
-- The boot log on a short text, and the theorems applied to it.
use lighth_os.BootLog.{BootLog, boot_log_max, puts, flush}
use lighth_os.BootLog.Ring.{contents, last_of, file_of, IsValid}
use lighth_os.BootLog.Order.{contents-puts, file_of-flush}
use lighth_os.Common.{
  ◌≡◌, refl, [], ◌∷◌, ◌++◌, replicate, length-replicate, arith, false, true, ◌-◌,
}

-- a ring that is about to turn
abbrev late : BootLog
late = record {
  buf = replicate boot_log_max 65;
  head = boot_log_max - 1;
  wrapped = false;
  on = true;
  flushing = false;
}

late-IsValid : IsValid late
late-IsValid = record { sized = length-replicate boot_log_max 65; inside = omega arith }

contents-puts_example :
    (contents (puts (66 ∷ 67 ∷ []) late) ≡ last_of (contents late ++ 66 ∷ 67 ∷ []))
    × IsValid (puts (66 ∷ 67 ∷ []) late)
contents-puts_example = contents-puts (66 ∷ 67 ∷ []) late refl late-IsValid

file_of-flush_test : file_of (flush late) [] ≡ contents late
file_of-flush_test = file_of-flush late refl late-IsValid
