-- ===== src/Tasks/Tests.antt =====
-- Three tasks in a ring, the second one blocked, and the theorems about src/kernel/task.c.
use lighth_os.Tasks.{
  TaskState, ready, running, blocked, Task, Sched, task_at, runnable, schedule, search, pick, saved,
  dispatch, switch, preempted, frame_at, resumes, list_remove, find_prev, create, alloc, find_free,
  find_dead, is_ready, is_dead,
}
use lighth_os.Tasks.Ring.{IsRing, Links}
use lighth_os.Tasks.Round.{Ran, schedule-Ran}
use lighth_os.Tasks.Turns.{Event, Keeps, Turn, schedule-Turn}
use lighth_os.Common.Distinct.{Distinct}
use lighth_os.Common.{ℕ, ◌+◌, ◌*◌, ◌≡◌, refl, true, [], ◌∷◌, none, some, inl, inr, arith}

abbrev task : ℕ → TaskState → ℕ → Task
task id st next = record {
  id = id;
  name = 116 ∷ [];
  state = st;
  rsp = 100 + id;
  stack_base = 4096 * id;
  next = some next;
  pml4 = 512 * id;
}

abbrev three : Sched
three = record {
  tasks = task 0 running 1 ∷ task 1 blocked 2 ∷ task 2 ready 0 ∷ [];
  current = some 0;
  next_id = 3;
  enabled = true;
  page_table = 0;
  kernel_stack = 0;
  freed_stacks = [];
  freed_tables = [];
}

-- the blocked task is passed over
schedule_run :
    schedule 55 three
    ≡ resumes 102 (record three {
      tasks = record (task 0 ready 1) { rsp = 55 } ∷ task 1 blocked 2 ∷ task 2 running 0 ∷ [];
      current = some 2;
      page_table = 1024;
      kernel_stack = 8192 + 16384;
    })
unfolding schedule search pick saved dispatch switch preempted frame_at runnable
schedule_run = refl

-- a task that ends leaves the ring
remove_run :
    list_remove 1 three.tasks
    ≡ record (task 0 running 1) { next = some 2 }
      ∷ record (task 1 blocked 2) { next = none }
      ∷ task 2 ready 0
      ∷ []
unfolding list_remove find_prev
remove_run = refl

-- no slot is free and no task is dead
create_run : (create 7 (120 ∷ []) 4096 9 three).0 ≡ none
unfolding create alloc find_free find_dead is_ready is_dead
create_run = refl

three-IsRing : IsRing three.tasks 0 (1 ∷ 2 ∷ [])
unfolding Links Distinct
three-IsRing = record {
  links = (refl, (refl, refl));
  distinct = (
    ((λ e. omega (arith, e)), ((λ e. omega (arith, e)), tt)),
    (((λ e. omega (arith, e)), tt), (tt, tt)),
  );
  inside = (omega arith, (omega arith, (omega arith, tt)));
}

-- the third task can run
task_2_runs : runnable (task_at 2 three.tasks).state ≡ true
unfolding runnable
task_2_runs = refl

schedule-Ran_example : (s' : Sched) × Ran 55 0 (1 ∷ 2 ∷ []) three s'
schedule-Ran_example =
    schedule-Ran 55 0 (1 ∷ 2 ∷ []) three refl refl three-IsRing (omega arith)
      (inr (inl task_2_runs))

idle : Event
idle = (55, λ s. s)

idle-Keeps : Keeps 2 idle
unfolding Keeps idle
idle-Keeps s = (refl, refl, refl, (λ i. refl), λ e. e)

schedule-Turn_example : Turn (idle ∷ idle ∷ []) three 2 2
schedule-Turn_example =
    schedule-Turn (idle ∷ idle ∷ []) three 0 2 (1 ∷ 2 ∷ []) (1 ∷ []) (0 ∷ []) refl refl three-IsRing
      (omega arith) refl task_2_runs (idle-Keeps, (idle-Keeps, tt)) (omega arith)
