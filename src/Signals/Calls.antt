-- ===== src/Signals/Calls.antt =====
-- src/kernel/process.c, the calls on signals of the current process, and what the timer does. The
-- stores into user memory are kept as a list of physical addresses with their values.
use Prim.Native.Nat.{bit_and}
use lighth_os.CString.{ℤ, pos, negsuc}
use lighth_os.Tasks.{TaskState, dead, stopped, Task}
use lighth_os.Common.Bits.{bit, all_but}
use lighth_os.Signals.{
  Regs, Process, Processes, nsig, sig_int, sig_kill, sig_alrm, sig_term, sig_cont, sig_stop,
  process_at, with_state, wake, continue, queue, signal_group, current, get,
}
use lighth_os.Common.{
  ℕ, zero, suc, ◌+◌, ◌-◌, ◌*◌, ◌/◌, ◌%◌, ◌^◌, Bool, true, false, ◌&&◌, ◌||◌, not, Option, none,
  some, List, [], ◌∷◌, ◌==◌, ltb, leb, if◌then◌else◌, get_or, set,
}

-- the test `signo <= 0 || signo >= NSIG`
pub refused : ℕ → Bool
refused signo = signo == 0 || leb nsig signo

-- `process_signal`: the handler that was there, and none for -1
unfoldable pub signal : ℕ → ℕ → Processes → Option ℕ × Processes
signal signo handler k =
    if refused signo || (signo == sig_kill || signo == sig_stop)
    then (none, k)
    else elim (current k) [
      | none ↦ (none, k)
      | some i ↦
          let p = process_at i k.table in
          (
            some (get_or p.sig_handlers signo 0),
            record k {
              table = set k.table i (record p { sig_handlers = set p.sig_handlers signo handler });
            },
          )
    ]

-- `process_kill` on one process: the process, and the state of its task
unfoldable pub kill_process : ℕ → Process → Process
kill_process signo p =
    if signo == sig_kill
    then record p { alive = false }
    else if signo == sig_stop
    then record p { stopped_reported = false }
    else if signo == sig_cont
    then record p { stopped_reported = false }
    else queue signo p

unfoldable pub kill_state : ℕ → TaskState → TaskState
kill_state signo state =
    if signo == sig_kill
    then dead
    else if signo == sig_stop
    then stopped
    else if signo == sig_cont
    then continue state
    else wake state

-- `process_kill`, behind `process_get`
unfoldable pub kill_at : Option ℕ → ℕ → Processes → Bool × Processes
kill_at none signo k = (false, k)
kill_at (some i) signo k = (
  true,
  record k {
    table = set k.table i (kill_process signo (process_at i k.table));
    tasks = with_state (kill_state signo) (process_at i k.table).task k.tasks;
  },
)

-- `process_kill`: whether it succeeds
unfoldable pub kill : ℤ → ℕ → Processes → Bool × Processes
kill (pos pid) signo k = if refused signo then (false, k) else kill_at (get pid k) signo k
kill (negsuc n) signo k = if refused signo then (false, k) else (true, signal_group (n + 1) signo k)

-- `process_set_alarm` on the current process: the seconds that were left, and the process
unfoldable pub set_alarm : ℕ → Process → ℕ × Process
set_alarm secs p =
    ((p.alarm_ticks + 99) % 2 ^ 32 / 100, record p { alarm_ticks = secs * 100 % 2 ^ 32 })

-- whether the alarm of the process rings at this tick
unfoldable pub rings : Process → Bool
rings p = p.alive && p.alarm_ticks == 1

-- the body of the loop of `process_tick_alarms`
unfoldable pub tick : Process → Process
tick p =
    let q = record p { alarm_ticks = p.alarm_ticks - 1 } in
    if p.alive && ltb 0 p.alarm_ticks then (if rings p then queue sig_alrm q else q) else p

-- `process_tick_alarms`
unfoldable pub tick_alarms : List Process → List Task → List Process × List Task
tick_alarms [] tasks = ([], tasks)
tick_alarms (p ∷ ps) tasks =
    let rest = tick_alarms ps (if rings p then with_state wake p.task tasks else tasks) in
    (tick p ∷ rest.0, rest.1)

-- `process_sigreturn` on the current process
unfoldable pub sigreturn : Regs → Process → Regs × Process
sigreturn regs p =
    if p.sig_delivering then (p.sig_saved_regs, record p { sig_delivering = false }) else (regs, p)

-- `user_push_u64`: the new stack pointer, and the physical address of the word. `phys` is the
-- page table of the process, 0 for a page that it does not map; none is a null pointer.
unfoldable pub user_push : Option (ℕ → ℕ) → ℕ → Option (ℕ × ℕ)
user_push none rsp = none
user_push (some phys) rsp =
    let new_rsp = (rsp + 2 ^ 64 - 8) % 2 ^ 64 in
    let page = new_rsp - new_rsp % 4096 in
    if phys page == 0 then none else some (new_rsp, phys page + (new_rsp - page))

-- the loop that picks the lowest pending signal, from `i` on; 0 when there is none
unfoldable pub lowest : ℕ → ℕ → ℕ → ℕ
lowest zero i pending = 0
lowest (suc n) i pending = let rest = lowest n (i + 1) pending in if bit pending i then i else rest

-- the frame, the process, the state that its task is given, and the words that were stored
pub record Delivery : Type 0 where
  pub regs : Regs
  pub process : Process
  pub killed : Bool
  pub stores : List (ℕ × ℕ)

-- the default action
unfoldable pub default_action : ℕ → Regs → Process → Delivery
default_action signo regs p =
    if signo == sig_int || (signo == sig_alrm || signo == sig_term)
    then record {
      regs = regs;
      process = record p { exit_code = 128 + signo; alive = false };
      killed = true;
      stores = [];
    }
    else record { regs = regs; process = p; killed = false; stores = [] }

-- the way into the handler `h`, with what `user_push_u64` has returned
unfoldable pub enter : ℕ → ℕ → Regs → Process → Option (ℕ × ℕ) → Delivery
enter signo h regs p none = record {
  regs = regs;
  process = record p { sig_saved_regs = regs; sig_delivering = false };
  killed = false;
  stores = [];
}
enter signo h regs p (some (rsp, address)) = record {
  regs = record regs { rsp = rsp; rip = h; rdi = signo };
  process = record p { sig_saved_regs = regs; sig_delivering = true };
  killed = false;
  stores = (address, 0) ∷ [];
}

-- what follows once the signal is taken off the pending ones
unfoldable pub act : Option (ℕ → ℕ) → ℕ → Regs → Process → Delivery
act phys signo regs p =
    let h = get_or p.sig_handlers signo 0 in
    if h == 0
    then default_action signo regs p
    else if h == 1
    then record { regs = regs; process = p; killed = false; stores = [] }
    else enter signo h regs p (user_push phys regs.rsp)

-- `process_deliver_pending_signals`, for a frame and a process that are there
unfoldable pub deliver : Option (ℕ → ℕ) → Regs → Process → Delivery
deliver phys regs p =
    let signo = lowest 31 1 p.sig_pending in
    let nothing : Delivery = record { regs = regs; process = p; killed = false; stores = [] } in
    if not (regs.cs % 4 == 3)
    then nothing
    else if p.sig_delivering || p.sig_pending == 0
    then nothing
    else if signo == 0
    then nothing
    else act phys signo regs (record p { sig_pending = bit_and p.sig_pending (all_but signo) })
