-- ===== src/Tasks/Round.antt =====
-- `schedule` of src/kernel/task.c: which task runs next, and what becomes of the ring.
use lighth_os.Tasks.{
  TaskState, ready, running, blocked, stopped, dead, Task, Sched, task_at, no_task, runnable,
  is_dead, pick, preempted, switch, Scheduled, resumes, panics, faults, frame_at, dispatch, saved,
  search, schedule, task_max,
}
use lighth_os.Tasks.Ring.{
  Links, IsRing, first_runnable, pick-Links, Links-append, first_runnable-Choice, field-set,
  IsRing-same, IsRing-rotate,
}
use lighth_os.Common.Distinct.{Distinct, All-append}
use lighth_os.Common.{
  ℕ, ◌<◌, ◌≡◌, ◌≢◌, refl, ap, sym, ◌∙◌, true, false, none, some, List, [], ◌∷◌, ◌++◌, ◌==◌,
  if◌then◌else◌, set, length, inl, inr, arith, Bool-cases, All, Any, length-set, length-append,
  get_or-set_self, get_or-set_ne, ==→eq, ==→ne, true≢false,
}

-- the task that the current one links to, where the search starts
head_or : List ℕ → ℕ → ℕ
head_or [] d = d
head_or (x ∷ xs) d = x

-- In a ring the search looks at the other tasks in their order, and at the current one last.
pick-IsRing :
    (ts : List Task) (c : ℕ) (xs : List ℕ)
    → IsRing ts c xs
    → length xs < task_max
    → ((task_at c ts).next ≡ some (head_or xs c))
      × (pick task_max ts (head_or xs c) (head_or xs c)
          ≡ some (first_runnable ts (xs ++ c ∷ []) (head_or xs c)))
unfolding Links head_or Distinct
pick-IsRing ts c [] r h = (r.links, pick-Links task_max ts c c [] r.links tt (omega arith))
pick-IsRing ts c (x ∷ rs) r h =
    let d = r.distinct in
    let away : All (λ y. y ≢ x) (rs ++ c ∷ []) =
      All-append (λ y. y ≢ x) rs (c ∷ []) d.1.0 ((λ e. d.0.0 (sym e)), tt) in
    (
      r.links.0,
      pick-Links task_max ts x x (rs ++ c ∷ []) (Links-append ts x rs c [] x r.links.1 r.links.0)
          away (omega (arith, length-append rs (c ∷ []))),
    )

-- `schedule` with scheduling enabled, in its parts
schedule_lem :
    (regs c start n : ℕ) (s : Sched)
    → s.enabled ≡ true
    → s.current ≡ some c
    → (task_at c (saved regs c s).tasks).next ≡ some start
    → pick task_max (saved regs c s).tasks start start ≡ some n
    → schedule regs s ≡ dispatch c n (saved regs c s)
unfolding schedule search
schedule_lem regs c start n s on cur e p =
    ap
      (λ o. elim o as (λ _. Scheduled) [
        | none ↦ resumes regs s
        | some k ↦ if s.enabled then search k (saved regs k s) else resumes regs s
      ])
      cur
    ∙ ap (λ b. if b then search c (saved regs c s) else resumes regs s) on
    ∙ ap
        (λ o. elim o as (λ _. Scheduled) [
          | none ↦ faults
          | some k ↦ elim (pick task_max (saved regs c s).tasks k k) as (λ _. Scheduled) [
            | none ↦ faults
            | some m ↦ dispatch c m (saved regs c s)
          ]
        ])
        e
    ∙ ap
        (λ o. elim o as (λ _. Scheduled) [ none ↦ faults | some m ↦ dispatch c m (saved regs c s) ])
        p

-- After a round: the task that runs is the first of the ring that can, behind the current one; the
-- tasks before it in the ring cannot run. The ring goes on from it, and no other task has changed,
-- but that the current one has its frame saved and is READY if it was RUNNING.
pub record Ran (regs c : ℕ) (xs : List ℕ) (s s' : Sched) : Type 0 where
  pub n : ℕ
  pub before : List ℕ
  pub behind : List ℕ
  pub order : xs ++ c ∷ [] ≡ before ++ n ∷ behind
  pub passed : All (λ x. runnable (task_at x s.tasks).state ≡ false) before
  pub can_run : runnable (task_at n s.tasks).state ≡ true
  pub returns : schedule regs s ≡ resumes (if n == c then regs else (task_at n s.tasks).rsp) s'
  pub now : s'.current ≡ some n
  pub now_runs : n ≢ c → (task_at n s'.tasks).state ≡ running
  pub ring : IsRing s'.tasks n (behind ++ before)
  pub yielded : n ≢ c → task_at c s'.tasks ≡ preempted (record (task_at c s.tasks) { rsp = regs })
  pub same : (i : ℕ) → i ≢ c → i ≢ n → task_at i s'.tasks ≡ task_at i s.tasks
  pub still_on : s'.enabled ≡ true

saved_next :
    (regs c : ℕ) (s : Sched) (i : ℕ)
    → (task_at i (saved regs c s).tasks).next ≡ (task_at i s.tasks).next
unfolding saved
saved_next regs c s i = field-set (λ t. t.next) s.tasks c i _ refl

saved_state :
    (regs c : ℕ) (s : Sched) (i : ℕ)
    → (task_at i (saved regs c s).tasks).state ≡ (task_at i s.tasks).state
unfolding saved
saved_state regs c s i = field-set (λ t. t.state) s.tasks c i _ refl

saved-IsRing :
    (regs c : ℕ) (xs : List ℕ) (s : Sched)
    → IsRing s.tasks c xs
    → IsRing (saved regs c s).tasks c xs
unfolding saved
saved-IsRing regs c xs s r =
    IsRing-same s.tasks (saved regs c s).tasks c xs (length-set s.tasks c _) (saved_next regs c s) r

first_runnable-same :
    (ts ts' : List Task) (l : List ℕ) (d : ℕ)
    → ((i : ℕ) → (task_at i ts').state ≡ (task_at i ts).state)
    → first_runnable ts' l d ≡ first_runnable ts l d
unfolding first_runnable
first_runnable-same ts ts' [] d h = refl
first_runnable-same ts ts' (x ∷ l) d h =
    ap (λ b. if b then x else first_runnable ts' l d) (ap runnable (h x))
    ∙ ap (λ y. if runnable (task_at x ts).state then x else y) (first_runnable-same ts ts' l d h)

preempted_next : (t : Task) → (preempted t).next ≡ t.next
unfolding preempted
preempted_next t = by_state t.state
  where
    by_state :
        (st : TaskState)
        → (elim st as (λ _. Task) [ running ↦ record t { state = ready } | _ ↦ t ]).next ≡ t.next
    by_state ready = refl
    by_state running = refl
    by_state blocked = refl
    by_state stopped = refl
    by_state dead = refl

abbrev set_running : Task → Task
set_running u = record u { state = running }

-- What the switch leaves in the table.
module _ (c n : ℕ) (s : Sched) (ne : n ≢ c) (c_inside : c < length s.tasks)
    (n_inside : n < length s.tasks) where
  switch_next : (i : ℕ) → (task_at i (switch c n s).tasks).next ≡ (task_at i s.tasks).next
  unfolding switch
  switch_next i =
      field-set (λ u. u.next) (set s.tasks c (preempted (task_at c s.tasks))) n i _ refl
      ∙ field-set (λ u. u.next) s.tasks c i (preempted (task_at c s.tasks))
          (preempted_next (task_at c s.tasks))

  length-switch : length (switch c n s).tasks ≡ length s.tasks
  unfolding switch
  length-switch =
      length-set (set s.tasks c (preempted (task_at c s.tasks))) n _ ∙ length-set s.tasks c _

  switch_new : task_at n (switch c n s).tasks ≡ record (task_at n s.tasks) { state = running }
  unfolding switch
  switch_new =
      get_or-set_self (set s.tasks c (preempted (task_at c s.tasks))) n _ no_task
        (omega (arith, n_inside, length-set s.tasks c (preempted (task_at c s.tasks))))
      ∙ ap set_running
          (get_or-set_ne s.tasks c n (preempted (task_at c s.tasks)) no_task (λ e. ne (sym e)))

  switch_old : task_at c (switch c n s).tasks ≡ preempted (task_at c s.tasks)
  unfolding switch
  switch_old =
      get_or-set_ne (set s.tasks c (preempted (task_at c s.tasks))) n c _ no_task ne
      ∙ get_or-set_self s.tasks c (preempted (task_at c s.tasks)) no_task c_inside

  switch_same : (i : ℕ) → i ≢ c → i ≢ n → task_at i (switch c n s).tasks ≡ task_at i s.tasks
  unfolding switch
  switch_same i ic in' =
      get_or-set_ne (set s.tasks c (preempted (task_at c s.tasks))) n i _ no_task (λ e. in' (sym e))
      ∙ get_or-set_ne s.tasks c i (preempted (task_at c s.tasks)) no_task (λ e. ic (sym e))

not_dead : (st : TaskState) → runnable st ≡ true → is_dead st ≡ false
unfolding runnable is_dead
not_dead ready e = refl
not_dead running e = refl
not_dead blocked e = absurd (true≢false (sym e))
not_dead stopped e = absurd (true≢false (sym e))
not_dead dead e = absurd (true≢false (sym e))

dispatch_stay :
    (c n : ℕ) (s : Sched)
    → (n == c) ≡ true
    → is_dead (task_at c s.tasks).state ≡ false
    → dispatch c n s ≡ resumes (task_at c s.tasks).rsp s
unfolding dispatch frame_at
dispatch_stay c n s e d =
    ap
      (λ b.
        if b
        then (if is_dead (task_at c s.tasks).state then panics else frame_at c s)
        else frame_at n (switch c n s))
      e
    ∙ ap (λ b. if b then panics else frame_at c s) d

dispatch_go :
    (c n : ℕ) (s : Sched)
    → (n == c) ≡ false
    → dispatch c n s ≡ resumes (task_at n (switch c n s).tasks).rsp (switch c n s)
unfolding dispatch frame_at
dispatch_go c n s e =
    ap
      (λ b.
        if b
        then (if is_dead (task_at c s.tasks).state then panics else frame_at c s)
        else frame_at n (switch c n s))
      e

saved_self :
    (regs c : ℕ) (s : Sched)
    → c < length s.tasks
    → task_at c (saved regs c s).tasks ≡ record (task_at c s.tasks) { rsp = regs }
unfolding saved
saved_self regs c s h = get_or-set_self s.tasks c _ no_task h

saved_same :
    (regs c i : ℕ) (s : Sched) → i ≢ c → task_at i (saved regs c s).tasks ≡ task_at i s.tasks
unfolding saved
saved_same regs c i s h = get_or-set_ne s.tasks c i _ no_task (λ e. h (sym e))

saved_current : (regs c : ℕ) (s : Sched) → (saved regs c s).current ≡ s.current
unfolding saved
saved_current regs c s = refl

saved_enabled : (regs c : ℕ) (s : Sched) → (saved regs c s).enabled ≡ s.enabled
unfolding saved
saved_enabled regs c s = refl

switch_current :
    (c n : ℕ) (s : Sched) → ((switch c n s).current ≡ some n) × ((switch c n s).enabled ≡ s.enabled)
unfolding switch
switch_current c n s = (refl, refl)

-- With scheduling enabled and a ring of at most 64 tasks, one of which can run, schedule resumes the first one that can behind
-- the current task, without a null link and without a panic.
pub schedule-Ran :
    (regs c : ℕ) (xs : List ℕ) (s : Sched)
    → s.enabled ≡ true
    → s.current ≡ some c
    → IsRing s.tasks c xs
    → length xs < task_max
    → Any (λ x. runnable (task_at x s.tasks).state ≡ true) (xs ++ c ∷ [])
    → (s' : Sched) × Ran regs c xs s s'
schedule-Ran regs c xs s on cur r h some_can =
    let ss = saved regs c s in
    let rr = saved-IsRing regs c xs s r in
    let p = pick-IsRing ss.tasks c xs rr h in
    let f = first_runnable s.tasks (xs ++ c ∷ []) (head_or xs c) in
    let ch = first_runnable-Choice s.tasks (xs ++ c ∷ []) (head_or xs c) some_can in
    let e = schedule_lem regs c (head_or xs c) f s on cur p.0 (
      p.1
      ∙ ap some (
          first_runnable-same s.tasks ss.tasks (xs ++ c ∷ []) (head_or xs c)
            (saved_state regs c s))) in
    let ring = IsRing-rotate ss.tasks c xs ch.before ch.behind f ch.splits rr in
    elim (Bool-cases (f == c)) [
      | inl same ↦
          let k = ==→eq f c same in
          let d = not_dead (task_at c ss.tasks).state (
            ap runnable (saved_state regs c s c ∙ ap (λ i. (task_at i s.tasks).state) (sym k))
            ∙ ch.can_run) in
          (
            ss,
            record {
              n = f;
              before = ch.before;
              behind = ch.behind;
              order = ch.splits;
              passed = ch.passed;
              can_run = ch.can_run;
              returns =
                  e
                  ∙ dispatch_stay c f ss same d
                  ∙ ap (λ u. resumes u.rsp ss) (saved_self regs c s r.inside.0)
                  ∙ ap (λ b. resumes (if b then regs else (task_at f s.tasks).rsp) ss) (sym same);
              now = saved_current regs c s ∙ cur ∙ ap some (sym k);
              now_runs = λ ne. absurd (ne k);
              ring = ring;
              yielded = λ ne. absurd (ne k);
              same = λ i ic _. saved_same regs c i s ic;
              still_on = saved_enabled regs c s ∙ on;
            },
          )
      | inr other ↦
          let ne = ==→ne f c other in
          let s' = switch c f ss in
          let ci = rr.inside.0 in
          let ni = ring.inside.0 in
          (
            s',
            record {
              n = f;
              before = ch.before;
              behind = ch.behind;
              order = ch.splits;
              passed = ch.passed;
              can_run = ch.can_run;
              returns =
                  e
                  ∙ dispatch_go c f ss other
                  ∙ ap (λ u. resumes u.rsp s') (switch_new c f ss ne ci ni)
                  ∙ ap (λ u. resumes u.rsp s') (saved_same regs c f s ne)
                  ∙ ap (λ b. resumes (if b then regs else (task_at f s.tasks).rsp) s') (sym other);
              now = (switch_current c f ss).0;
              now_runs = λ _. ap (λ u. u.state) (switch_new c f ss ne ci ni);
              ring =
                  IsRing-same ss.tasks s'.tasks f (ch.behind ++ ch.before)
                    (length-switch c f ss ne ci ni) (switch_next c f ss ne ci ni) ring;
              yielded =
                  λ _. switch_old c f ss ne ci ni ∙ ap preempted (saved_self regs c s r.inside.0);
              same = λ i ic in'. switch_same c f ss ne ci ni i ic in' ∙ saved_same regs c i s ic;
              still_on = (switch_current c f ss).1 ∙ saved_enabled regs c s ∙ on;
            },
          )
    ]
