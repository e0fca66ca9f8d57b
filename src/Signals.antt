-- ===== src/Signals.antt =====
-- src/kernel/process.c, the signals: the handlers, the groups of processes, the alarms, and the way
-- into a handler and back. Of a process the model keeps what these functions use; a pointer to a
-- task is its place in the table of Tasks. A signal is a number; one below 0 is refused like 0.
pub mod Calls
pub mod Lowest
pub mod Handler
pub mod Alarm
pub mod Groups
mod Tests
use lighth_os.CString.{ℤ, pos, negsuc}
use lighth_os.Tasks.{TaskState, ready, running, blocked, stopped, dead, Task, task_at}
use Prim.Native.Nat.{bit_or}
use lighth_os.Common.Bits.{one_bit}
use lighth_os.Common.{
  ℕ, zero, suc, ◌+◌, ◌-◌, ◌*◌, ◌/◌, ◌%◌, ◌^◌, Bool, true, false, ◌&&◌, ◌||◌, not, Option, none,
  some, List, [], ◌∷◌, ◌==◌, ltb, leb, if◌then◌else◌, get_or, set, replicate,
}

abbrev pub nsig : ℕ
nsig = 32

abbrev pub sig_int : ℕ
sig_int = 2

abbrev pub sig_kill : ℕ
sig_kill = 9

abbrev pub sig_alrm : ℕ
sig_alrm = 14

abbrev pub sig_term : ℕ
sig_term = 15

abbrev pub sig_cont : ℕ
sig_cont = 18

abbrev pub sig_stop : ℕ
sig_stop = 19

-- `registers_t`
pub record Regs : Type 0 where
  pub rax : ℕ
  pub rbx : ℕ
  pub rcx : ℕ
  pub rdx : ℕ
  pub rsi : ℕ
  pub rdi : ℕ
  pub rbp : ℕ
  pub r8_to_r15 : List ℕ
  pub int_no : ℕ
  pub err_code : ℕ
  pub rip : ℕ
  pub cs : ℕ
  pub rflags : ℕ
  pub rsp : ℕ
  pub ss : ℕ

-- `process_t`
pub record Process : Type 0 where
  pub pid : ℕ
  pub pgid : ℕ
  pub task : Option ℕ
  pub exit_code : ℕ
  pub alive : Bool
  pub stopped_reported : Bool
  pub sig_handlers : List ℕ
  pub sig_pending : ℕ
  pub sig_delivering : Bool
  pub sig_saved_regs : Regs
  pub alarm_ticks : ℕ

abbrev pub no_regs : Regs
no_regs = record {
  rax = 0;
  rbx = 0;
  rcx = 0;
  rdx = 0;
  rsi = 0;
  rdi = 0;
  rbp = 0;
  r8_to_r15 = replicate 8 0;
  int_no = 0;
  err_code = 0;
  rip = 0;
  cs = 0;
  rflags = 0;
  rsp = 0;
  ss = 0;
}

-- a process after `memset`
abbrev pub no_process : Process
no_process = record {
  pid = 0;
  pgid = 0;
  task = none;
  exit_code = 0;
  alive = false;
  stopped_reported = false;
  sig_handlers = replicate nsig 0;
  sig_pending = 0;
  sig_delivering = false;
  sig_saved_regs = no_regs;
  alarm_ticks = 0;
}

-- the processes, the tasks, the current task, and `g_foreground_pgid`
pub record Processes : Type 0 where
  pub table : List Process
  pub tasks : List Task
  pub current_task : Option ℕ
  pub foreground : ℕ

abbrev pub process_at : ℕ → List Process → Process
process_at i ps = get_or ps i no_process

-- `p->task->state = …`, unless the task is a null pointer
pub with_state : (TaskState → TaskState) → Option ℕ → List Task → List Task
with_state f none tasks = tasks
with_state f (some t) tasks =
    set tasks t (record (task_at t tasks) { state = f (task_at t tasks).state })

-- `if (state == TASK_BLOCKED) state = TASK_READY;`
pub wake : TaskState → TaskState
wake blocked = ready
wake state = state

-- `if (state == TASK_STOPPED) state = TASK_READY;`
pub continue : TaskState → TaskState
continue stopped = ready
continue state = state

-- `1u << signo`, put into the pending signals
abbrev pub queue : ℕ → Process → Process
queue signo p = record p { sig_pending = bit_or p.sig_pending (one_bit signo) }

-- the body of the loop of `signal_group`, behind its tests
unfoldable pub signal_process : ℕ → Process → Process
signal_process signo p =
    if signo == sig_kill
    then record p { alive = false }
    else if signo == sig_stop || signo == sig_cont
    then record p { stopped_reported = false }
    else queue signo p

unfoldable pub signal_state : ℕ → TaskState → TaskState
signal_state signo state =
    if signo == sig_kill
    then dead
    else if signo == sig_stop
    then stopped
    else if signo == sig_cont
    then continue state
    else wake state

-- the tests of the loop of `signal_group`
unfoldable pub in_group : ℕ → Process → Bool
in_group pgid p = p.alive && (p.pgid == pgid && not (p.pid == 0))

-- the loop of `signal_group`
unfoldable pub signal_each : ℕ → ℕ → List Process → List Task → List Process × List Task
signal_each pgid signo [] tasks = ([], tasks)
signal_each pgid signo (p ∷ ps) tasks =
    let hit = signal_each pgid signo ps (with_state (signal_state signo) p.task tasks) in
    let missed = signal_each pgid signo ps tasks in
    if in_group pgid p then (signal_process signo p ∷ hit.0, hit.1) else (p ∷ missed.0, missed.1)

-- `signal_group`
unfoldable pub signal_group : ℕ → ℕ → Processes → Processes
signal_group pgid signo k =
    let each = signal_each pgid signo k.table k.tasks in
    if pgid == 0 then k else record k { table = each.0; tasks = each.1 }

-- `process_kill_foreground` and `process_stop_foreground`
pub kill_foreground : Processes → Processes
kill_foreground k = signal_group k.foreground sig_int k

pub stop_foreground : Processes → Processes
stop_foreground k = signal_group k.foreground sig_stop k

-- whether `task` points to the task `t`
pub points_to : ℕ → Option ℕ → Bool
points_to t none = false
points_to t (some u) = u == t

-- the loop of `process_current`, from place `i` on
unfoldable pub find_task : ℕ → List Process → ℕ → Option ℕ
find_task t [] i = none
find_task t (p ∷ ps) i =
    let rest = find_task t ps (i + 1) in if p.alive && points_to t p.task then some i else rest

-- `process_current`: the place of the process
unfoldable pub current : Processes → Option ℕ
current k = elim k.current_task [ none ↦ none | some t ↦ find_task t k.table 0 ]

-- the loop of `process_get`
unfoldable pub find_pid : ℕ → List Process → ℕ → Option ℕ
find_pid pid [] i = none
find_pid pid (p ∷ ps) i =
    let rest = find_pid pid ps (i + 1) in if p.alive && p.pid == pid then some i else rest

-- `process_get`
unfoldable pub get : ℕ → Processes → Option ℕ
get pid k = find_pid pid k.table 0

-- `pid ? process_get(pid) : process_current()`
pub get_or_current : ℕ → Processes → Option ℕ
get_or_current pid k = if pid == 0 then current k else get pid k

-- `process_setpgid`, and whether it succeeds
unfoldable pub setpgid : ℕ → ℕ → Processes → Bool × Processes
setpgid pid pgid k = elim (get_or_current pid k) [
  | none ↦ (false, k)
  | some i ↦
      let p = process_at i k.table in
      (
        true,
        record k { table = set k.table i (record p { pgid = if pgid == 0 then p.pid else pgid }) },
      )
]

-- `process_getpgid`
unfoldable pub getpgid : ℕ → Processes → ℕ
getpgid pid k = elim (get_or_current pid k) [ none ↦ 0 | some i ↦ (process_at i k.table).pgid ]
