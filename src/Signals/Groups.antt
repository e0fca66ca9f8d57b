-- ===== src/Signals/Groups.antt =====
-- src/kernel/process.c: a signal to a group of processes is one to each of them.
use lighth_os.Tasks.{Task}
use lighth_os.Signals.{
  Process, Processes, process_at, no_process, signal_process, in_group, signal_each, signal_group,
  sig_stop,
}
use lighth_os.Signals.Calls.{kill_process}
use lighth_os.Common.{
  ℕ, zero, suc, ◌≡◌, refl, false, List, [], ◌∷◌, ◌==◌, if◌then◌else◌, inl, inr, Bool-cases,
}

kill-signal_process : (signo : ℕ) (p : Process) → signal_process signo p ≡ kill_process signo p
unfolding signal_process kill_process
kill-signal_process signo p = elim (Bool-cases (signo == sig_stop)) [
  | inl e ↦ rw e refl
  | inr e ↦ rw e refl
]

no_process-in_group : (pgid : ℕ) → in_group pgid no_process ≡ false
unfolding in_group
no_process-in_group pgid = refl

signal_each-Each :
    (pgid signo i : ℕ) (ps : List Process) (tasks : List Task)
    → process_at i (signal_each pgid signo ps tasks).0 ≡ (
        if in_group pgid (process_at i ps)
        then kill_process signo (process_at i ps)
        else process_at i ps)
unfolding signal_each
signal_each-Each pgid signo i [] tasks = rw (no_process-in_group pgid) refl
signal_each-Each pgid signo zero (p ∷ ps) tasks = elim (Bool-cases (in_group pgid p)) [
  | inl e ↦ rw e (kill-signal_process signo p)
  | inr e ↦ rw e refl
]
signal_each-Each pgid signo (suc i) (p ∷ ps) tasks = elim (Bool-cases (in_group pgid p)) [
  | inl e ↦ rw e (signal_each-Each pgid signo i ps _)
  | inr e ↦ rw e (signal_each-Each pgid signo i ps tasks)
]

-- A signal to a group that is not 0 does to each process of the group what `process_kill` does to
-- it alone, and nothing to any other process.
pub signal_group-Each :
    (pgid signo i : ℕ) (k : Processes)
    → (pgid == 0) ≡ false
    → process_at i (signal_group pgid signo k).table ≡ (
        if in_group pgid (process_at i k.table)
        then kill_process signo (process_at i k.table)
        else process_at i k.table)
unfolding signal_group
signal_group-Each pgid signo i k h = rw h (signal_each-Each pgid signo i k.table k.tasks)
