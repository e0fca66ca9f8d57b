-- ===== src/Tasks.antt =====
-- src/kernel/task.c: the table of tasks and the scheduler. A pointer to a task is its place in the
-- table. The processor's part is left out: the FPU state, and the switch of the stack in the ISR.
pub mod Ring
pub mod Round
pub mod Turns
mod Tests
use lighth_os.CString.{strncpy}
use lighth_os.Common.{
  ℕ, zero, suc, ◌+◌, ◌-◌, ◌*◌, ◌%◌, ◌^◌, Bool, true, false, ◌&&◌, ◌||◌, not, Option, none, some,
  List, [], ◌∷◌, ◌==◌, ltb, if◌then◌else◌, get_or, set, replicate,
}

abbrev pub task_max : ℕ
task_max = 64

abbrev pub task_stack_size : ℕ
task_stack_size = 16384

pub data TaskState : Type 0 where
  ready : TaskState
  running : TaskState
  blocked : TaskState
  stopped : TaskState
  dead : TaskState

pub record Task : Type 0 where
  pub id : ℕ
  pub name : List ℕ
  pub state : TaskState
  pub rsp : ℕ
  pub stack_base : ℕ
  pub next : Option ℕ
  pub pml4 : ℕ

-- the file's static variables, the page tables and the kernel stack of the processor, and what has
-- been handed to `kfree` and `vmm_free_pml4`
pub record Sched : Type 0 where
  pub tasks : List Task
  pub current : Option ℕ
  pub next_id : ℕ
  pub enabled : Bool
  pub page_table : ℕ
  pub kernel_stack : ℕ
  pub freed_stacks : List ℕ
  pub freed_tables : List ℕ

-- a task after `memset`
abbrev pub no_task : Task
no_task = record {
  id = 0;
  name = replicate 32 0;
  state = ready;
  rsp = 0;
  stack_base = 0;
  next = none;
  pml4 = 0;
}

abbrev pub task_at : ℕ → List Task → Task
task_at i ts = get_or ts i no_task

pub is_ready : TaskState → Bool
is_ready ready = true
is_ready _ = false

pub is_dead : TaskState → Bool
is_dead dead = true
is_dead _ = false

-- READY or RUNNING
pub runnable : TaskState → Bool
runnable ready = true
runnable running = true
runnable _ = false

-- the states that `task_count` counts
pub counted : TaskState → Bool
counted dead = false
counted _ = true

pub count_of : List Task → ℕ
count_of [] = 0
count_of (t ∷ ts) = let rest = count_of ts in if counted t.state then suc rest else rest

-- `task_init`; `kernel_pml4` is what `vmm_kernel_pml4` returns.
pub init : ℕ → Sched → Sched
init kernel_pml4 s = record s {
  tasks = set (replicate task_max no_task) 0 (record {
    id = s.next_id;
    name = strncpy (replicate 32 0) (105 ∷ 100 ∷ 108 ∷ 101 ∷ []) 32;
    state = running;
    rsp = 0;
    stack_base = 0;
    next = some 0;
    pml4 = kernel_pml4;
  });
  current = some 0;
  next_id = (s.next_id + 1) % 2 ^ 32;
}

-- the loop of `list_remove`: the task whose `next` is the victim, on fuel. The test in the loop's body
-- never holds, since the loop's condition has just excluded it.
unfoldable pub find_prev : ℕ → List Task → ℕ → ℕ → Option ℕ
find_prev zero ts victim prev = none
find_prev (suc fuel) ts victim prev = elim (task_at prev ts).next [
  | none ↦ none
  | some n ↦ let rest = find_prev fuel ts victim n in if n == victim then some prev else rest
]

unfoldable pub list_remove : ℕ → List Task → List Task
list_remove victim ts = elim (find_prev task_max ts victim victim) [
  | none ↦ ts
  | some prev ↦
      let ts' = set ts prev (record (task_at prev ts) { next = (task_at victim ts).next }) in
      set ts' victim (record (task_at victim ts') { next = none })
]

-- the first loop of `task_alloc`, from slot `i` on
unfoldable pub find_free : List Task → ℕ → Option ℕ
find_free [] i = none
find_free (t ∷ ts) i =
    let rest = find_free ts (i + 1) in
    if ltb 0 i && (get_or t.name 0 0 == 0 && is_ready t.state) then some i else rest

-- the second loop
unfoldable pub find_dead : List Task → ℕ → Option ℕ
find_dead [] i = none
find_dead (t ∷ ts) i =
    let rest = find_dead ts (i + 1) in if ltb 0 i && is_dead t.state then some i else rest

-- what the second loop does to the dead task that it finds
pub recycle : ℕ → ℕ → Sched → Sched
recycle kernel_pml4 i s = record s {
  tasks = list_remove i s.tasks;
  freed_stacks =
      if (task_at i s.tasks).stack_base == 0
      then s.freed_stacks
      else (task_at i s.tasks).stack_base ∷ s.freed_stacks;
  freed_tables =
      if (task_at i s.tasks).pml4 == 0 || (task_at i s.tasks).pml4 == kernel_pml4
      then s.freed_tables
      else (task_at i s.tasks).pml4 ∷ s.freed_tables;
}

-- the page tables of a new task
pub pml4_of : ℕ → Sched → ℕ
pml4_of kernel_pml4 s = elim s.current [ none ↦ kernel_pml4 | some c ↦ (task_at c s.tasks).pml4 ]

-- the rest of `task_alloc`, for the slot; `stack` is what `kmalloc` returns.
pub fill_slot : ℕ → List ℕ → ℕ → ℕ → Sched → Option ℕ × Sched
fill_slot kernel_pml4 name stack i s =
    let t : Task = record {
      id = s.next_id;
      name = strncpy (replicate 32 0) name 31;
      state = ready;
      rsp = 0;
      stack_base = stack;
      next = none;
      pml4 = pml4_of kernel_pml4 (record s { tasks = set s.tasks i no_task });
    } in
    (
      if stack == 0 then none else some i,
      record s { tasks = set s.tasks i t; next_id = (s.next_id + 1) % 2 ^ 32 },
    )

pub alloc : ℕ → List ℕ → ℕ → Sched → Option ℕ × Sched
alloc kernel_pml4 name stack s = elim (find_free s.tasks 0) [
  | some i ↦ fill_slot kernel_pml4 name stack i s
  | none ↦ elim (find_dead s.tasks 0) [
    | none ↦ (none, s)
    | some i ↦ fill_slot kernel_pml4 name stack i (recycle kernel_pml4 i s)
  ]
]

-- the words that `task_set_entry` pushes, from the top of the stack down
pub frame : ℕ → ℕ → List ℕ
frame entry top =
    0x10 ∷ top ∷ 0x202 ∷ 0x08 ∷ entry ∷ 0 ∷ 0 ∷ 0 ∷ 0 ∷ 0 ∷ 0 ∷ 0 ∷ 0 ∷ 0 ∷ 0 ∷ 0 ∷ 0 ∷ 0 ∷ 0 ∷ 0
    ∷ 0 ∷ 0 ∷ []

-- `task_set_entry`, and the words that go onto the stack
pub set_entry : ℕ → ℕ → Sched → List ℕ × Sched
set_entry i entry s =
    let t = task_at i s.tasks in
    let top = t.stack_base + task_stack_size in
    (frame entry top, record s { tasks = set s.tasks i (record t { rsp = top - 22 * 8 }) })

-- `task_insert_ready`, for the current task `c`
unfoldable pub insert_ready : ℕ → ℕ → List Task → List Task
insert_ready c i ts =
    let ts' = set ts i (record (task_at i ts) { next = (task_at c ts).next }) in
    set ts' c (record (task_at c ts') { next = some i })

-- the same, for the current task of the state
pub enter : ℕ → Sched → Sched
enter i s = elim s.current [ none ↦ s | some c ↦ record s { tasks = insert_ready c i s.tasks } ]

-- `task_create`
pub create : ℕ → List ℕ → ℕ → ℕ → Sched → Option ℕ × Sched
create kernel_pml4 name stack entry s =
    let (made, s') = alloc kernel_pml4 name stack s in
    elim made [ none ↦ (none, s') | some i ↦ (some i, enter i (set_entry i entry s').1) ]

-- the loop of `schedule` from task `n`, on fuel; none when a link is null
unfoldable pub pick : ℕ → List Task → ℕ → ℕ → Option ℕ
pick zero ts start n = none
pick (suc fuel) ts start n = elim (task_at n ts).next [
  | none ↦ if runnable (task_at n ts).state then some n else none
  | some m ↦
      let rest = pick fuel ts start m in
      if runnable (task_at n ts).state then some n else if m == start then some m else rest
]

-- a RUNNING task becomes READY
pub preempted : Task → Task
preempted t = elim t.state [ running ↦ record t { state = ready } | _ ↦ t ]

-- the switch of `schedule` from task `c` to task `n`
unfoldable pub switch : ℕ → ℕ → Sched → Sched
switch c n s =
    let ts = set s.tasks c (preempted (task_at c s.tasks)) in
    let t = task_at n ts in
    record s {
      tasks = set ts n (record t { state = running });
      current = some n;
      kernel_stack = if t.stack_base == 0 then s.kernel_stack else t.stack_base + task_stack_size;
      page_table =
          if t.pml4 == 0 || t.pml4 == (task_at c s.tasks).pml4 then s.page_table else t.pml4;
    }

-- `panics` is the panic "No runnable tasks"; `faults` is a null link, or a list that never returns.
pub data Scheduled : Type 0 where
  resumes : ℕ → Sched → Scheduled
  panics : Scheduled
  faults : Scheduled

-- the frame that `schedule` returns
pub frame_at : ℕ → Sched → Scheduled
frame_at i s = resumes (task_at i s.tasks).rsp s

-- the end of `schedule`, for the current task and the one picked
pub dispatch : ℕ → ℕ → Sched → Scheduled
dispatch c n s =
    if n == c
    then (if is_dead (task_at c s.tasks).state then panics else frame_at c s)
    else frame_at n (switch c n s)

-- the current task with its frame saved
pub saved : ℕ → ℕ → Sched → Sched
saved regs c s = record s { tasks = set s.tasks c (record (task_at c s.tasks) { rsp = regs }) }

-- the search and the switch of `schedule`, for the current task
unfoldable pub search : ℕ → Sched → Scheduled
search c s = elim (task_at c s.tasks).next [
  | none ↦ faults
  | some start ↦ elim (pick task_max s.tasks start start) [
    | none ↦ faults
    | some n ↦ dispatch c n s
  ]
]

-- `schedule`, before the signals are delivered
unfoldable pub schedule : ℕ → Sched → Scheduled
schedule regs s = elim s.current [
  | none ↦ resumes regs s
  | some c ↦ if s.enabled then search c (saved regs c s) else resumes regs s
]

-- `task_exit`, up to its yield
pub exit : Sched → Sched
exit s = elim s.current [
  | none ↦ s
  | some c ↦ record s { tasks = set s.tasks c (record (task_at c s.tasks) { state = dead }) }
]
