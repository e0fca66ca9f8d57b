-- ===== src/BootLog.antt =====
-- src/lib/kprintf.c, the boot log: kputchar stores every character in a ring, and boot_log_flush
-- writes the ring to a file, the oldest character first.
pub mod Ring
pub mod Order
mod Tests
use lighth_os.Common.{
  ℕ, zero, suc, ◌+◌, ◌-◌, Bool, true, false, List, [], ◌∷◌, ltb, leb, if◌then◌else◌, set, take,
  drop, replicate,
}

abbrev pub boot_log_max : ℕ
boot_log_max = 16384

-- the file's static variables
pub record BootLog : Type 0 where
  pub buf : List ℕ
  pub head : ℕ
  pub wrapped : Bool
  pub on : Bool
  pub flushing : Bool

-- the variables as the program starts
pub start : BootLog
start = record {
  buf = replicate boot_log_max 0;
  head = 0;
  wrapped = false;
  on = false;
  flushing = false;
}

pub enable : BootLog → BootLog
enable log = record log { on = true }

-- kputchar, without the two devices
unfoldable pub putchar : ℕ → BootLog → BootLog
putchar c log =
    if log.on
    then (if leb boot_log_max (log.head + 1)
        then record log { buf = set log.buf log.head c; head = 0; wrapped = true }
        else record log { buf = set log.buf log.head c; head = log.head + 1 })
    else log

-- a call of vfs_write: the bytes and the offset
pub record Write : Type 0 where
  pub bytes : List ℕ
  pub offset : ℕ

-- the calls of vfs_write that boot_log_flush makes; none of them before vfs_create
unfoldable pub flush : BootLog → List Write
flush log =
    if log.flushing
    then []
    else if log.wrapped
    then record { bytes = take (boot_log_max - log.head) (drop log.head log.buf); offset = 0 }
      ∷ record { bytes = take log.head log.buf; offset = boot_log_max - log.head }
      ∷ []
    else if ltb 0 log.head
    then record { bytes = take log.head log.buf; offset = 0 } ∷ []
    else []

-- the loop of kputs_out
pub puts : List ℕ → BootLog → BootLog
puts [] log = log
puts (c ∷ s) log = puts s (putchar c log)
