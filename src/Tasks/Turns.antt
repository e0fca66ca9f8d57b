-- ===== src/Tasks/Turns.antt =====
-- No task that can run is passed over for ever by `schedule` of src/kernel/task.c.
use lighth_os.Tasks.{
  TaskState, ready, running, blocked, stopped, dead, Task, Sched, task_at, runnable, preempted,
  resumes, panics, faults, schedule, task_max,
}
use lighth_os.Tasks.Ring.{IsRing, IsRing-same}
use lighth_os.Tasks.Round.{Ran, schedule-Ran}
use lighth_os.Common.{
  ℕ, suc, ◌≤◌, ◌<◌, ◌≡◌, ◌≢◌, refl, ap, sym, subst, ◌∙◌, Bool, true, false, Option, none, some,
  List, [], ◌∷◌, ◌++◌, ◌==◌, get_or, length, drop, inl, inr, arith, Bool-cases, All, Any,
  length-append, append_assoc, ==→eq, ==→ne, true≢false,
}

-- What the kernel does between two calls of `schedule`, and the frame that the second one saves.
abbrev pub Event : Type 0
Event = ℕ × (Sched → Sched)

-- the calls of `schedule`, one after the other; none when one of them does not return
unfoldable pub rounds : List Event → Sched → Option Sched
rounds [] s = some s
rounds ((regs, f) ∷ es) s = elim (schedule regs (f s)) [
  | resumes _ s' ↦ rounds es s'
  | panics ↦ none
  | faults ↦ none
]

-- What happens in between leaves the ring as it is, and does not keep task `t` from running.
unfoldable pub Keeps : ℕ → Event → Type 0
Keeps t (regs, f) =
    (s : Sched)
    → ((f s).enabled ≡ s.enabled)
      × ((f s).current ≡ s.current)
      × (length (f s).tasks ≡ length s.tasks)
      × ((i : ℕ) → (task_at i (f s).tasks).next ≡ (task_at i s.tasks).next)
      × (runnable (task_at t s.tasks).state ≡ true → runnable (task_at t (f s).tasks).state ≡ true)

-- A task that can run stands behind the first one that can.
stands_behind :
    (can : ℕ → Bool) (before behind pre post : List ℕ) (n t : ℕ)
    → before ++ n ∷ behind ≡ pre ++ t ∷ post
    → All (λ x. can x ≡ false) before
    → can t ≡ true
    → n ≢ t
    → (mid : List ℕ) × (pre ≡ before ++ n ∷ mid) × (behind ≡ mid ++ t ∷ post)
stands_behind can [] behind [] post n t e p r ne = absurd (ne (ap (λ l. get_or l 0 0) e))
stands_behind can [] behind (x ∷ pre) post n t e p r ne =
    (pre, ap (λ y. y ∷ pre) (sym (ap (λ l. get_or l 0 0) e)), ap (λ l. drop 1 l) e)
stands_behind can (b ∷ before) behind [] post n t e (p, ps) r ne =
    absurd (true≢false (sym r ∙ ap can (sym (ap (λ l. get_or l 0 0) e)) ∙ p))
stands_behind can (b ∷ before) behind (x ∷ pre) post n t e (p, ps) r ne =
    let i = stands_behind can before behind pre post n t (ap (λ l. drop 1 l) e) ps r ne in
    (i.0, ap (λ y. y ∷ pre) (sym (ap (λ l. get_or l 0 0) e)) ∙ ap (λ l. b ∷ l) i.1, i.2)

Any-of : (P : ℕ → Type 0) (pre post : List ℕ) (t : ℕ) → P t → Any P (pre ++ t ∷ post)
Any-of P [] post t p = inl p
Any-of P (x ∷ pre) post t p = inr (Any-of P pre post t p)

runnable_ready : runnable ready ≡ true
unfolding runnable
runnable_ready = refl

preempted_runs : (t : Task) → runnable t.state ≡ true → runnable (preempted t).state ≡ true
unfolding preempted
preempted_runs t h = by_state t.state h
  where
    by_state :
        (st : TaskState)
        → runnable st ≡ true
        → runnable (elim st as (λ _. Task) [ running ↦ record t { state = ready } | _ ↦ t ]).state
          ≡ true
    by_state ready e = h
    by_state running e = runnable_ready
    by_state blocked e = h
    by_state stopped e = h
    by_state dead e = h

-- what a round leaves of a task that can run and was not picked
still_runs :
    (regs c t : ℕ) (xs : List ℕ) (s s' : Sched) (r : Ran regs c xs s s')
    → r.n ≢ t
    → runnable (task_at t s.tasks).state ≡ true
    → runnable (task_at t s'.tasks).state ≡ true
still_runs regs c t xs s s' r ne h = elim (Bool-cases (t == c)) [
  | inl e ↦
      let tc = ==→eq t c e in
      ap (λ i. runnable (task_at i s'.tasks).state) tc
      ∙ ap (λ u. runnable u.state) (r.yielded (λ x. ne (x ∙ sym tc)))
      ∙ preempted_runs (record (task_at c s.tasks) { rsp = regs })
          (ap (λ i. runnable (task_at i s.tasks).state) (sym tc) ∙ h)
  | inr e ↦ ap (λ u. runnable u.state) (r.same t (==→ne t c e) (λ x. ne (sym x))) ∙ h
]

order_behind :
    (mid post before behind : List ℕ) (n t : ℕ)
    → behind ≡ mid ++ t ∷ post
    → (behind ++ before) ++ n ∷ [] ≡ mid ++ t ∷ (post ++ before ++ n ∷ [])
order_behind mid post before behind n t e =
    ap (λ b. b ++ before ++ n ∷ []) e
    ∙ ap (λ b. b ++ n ∷ []) (append_assoc mid (t ∷ post) before)
    ∙ append_assoc mid (t ∷ (post ++ before)) (n ∷ [])

-- the turn of a task: after some of the events it is the current one
pub Turn : List Event → Sched → ℕ → ℕ → Type 0
Turn es s t k =
    (first : List Event) × (rest : List Event) × (s' : Sched) × (es ≡ first ++ rest)
    × length first ≤ k
    × (rounds first s ≡ some s')
    × (s'.current ≡ some t)

rounds_step :
    (regs frame : ℕ) (f : Sched → Sched) (es : List Event) (s s' : Sched)
    → schedule regs (f s) ≡ resumes frame s'
    → rounds ((regs, f) ∷ es) s ≡ rounds es s'
unfolding rounds
rounds_step regs frame f es s s' e =
    ap
      (λ o. elim o as (λ _. Option Sched) [
        | resumes _ u ↦ rounds es u
        | panics ↦ none
        | faults ↦ none
      ])
      e

rounds_nil : (s : Sched) → rounds [] s ≡ some s
unfolding rounds
rounds_nil s = refl

-- With scheduling enabled and a ring of at most 64 tasks, a task that can run is the current one after at most as many calls of schedule as it has tasks
-- before it in the ring, and one more, whatever the kernel does in between, as long as that leaves
-- the ring as it is and the task able to run.
pub schedule-Turn :
    (es : List Event) (s : Sched) (c t : ℕ) (xs pre post : List ℕ)
    → s.enabled ≡ true
    → s.current ≡ some c
    → IsRing s.tasks c xs
    → length xs < task_max
    → xs ++ c ∷ [] ≡ pre ++ t ∷ post
    → runnable (task_at t s.tasks).state ≡ true
    → All (Keeps t) es
    → length pre < length es
    → Turn es s t (suc (length pre))
unfolding Keeps Turn
schedule-Turn [] s c t xs pre post on cur r h o can ks l = absurd (omega arith)
schedule-Turn ((regs, f) ∷ es) s c t xs pre post on cur r h o can (k, ks) l =
    let kk = k s in
    let ran =
      schedule-Ran regs c xs (f s) (kk.0 ∙ on) (kk.1 ∙ cur)
        (IsRing-same s.tasks (f s).tasks c xs kk.2 kk.3 r) h
        (subst (Any (λ x. runnable (task_at x (f s).tasks).state ≡ true)) (sym o)
          (Any-of (λ x. runnable (task_at x (f s).tasks).state ≡ true) pre post t (kk.4 can))) in
    let s' = ran.0 in
    let rr = ran.1 in
    let step = rounds_step regs _ f in
    elim (Bool-cases (rr.n == t)) [
      | inl e ↦ (
        (regs, f) ∷ [],
        es,
        s',
        refl,
        omega arith,
        step [] s s' rr.returns ∙ rounds_nil s',
        rr.now ∙ ap some (==→eq rr.n t e),
      )
      | inr e ↦
          let ne = ==→ne rr.n t e in
          let m =
            stands_behind (λ x. runnable (task_at x (f s).tasks).state) rr.before rr.behind pre post
              rr.n t (sym rr.order ∙ o) rr.passed (kk.4 can) ne in
          let turn =
            schedule-Turn es s' rr.n t (rr.behind ++ rr.before) m.0 (post ++ rr.before ++ rr.n ∷ [])
              rr.still_on rr.now rr.ring
              (omega (
                arith,
                h,
                ap length rr.order,
                length-append xs (c ∷ []),
                length-append rr.before (rr.n ∷ rr.behind),
                length-append rr.behind rr.before,
              ))
              (order_behind m.0 post rr.before rr.behind rr.n t m.2)
              (still_runs regs c t xs (f s) s' rr ne (kk.4 can)) ks
              (omega (arith, l, ap length m.1, length-append rr.before (rr.n ∷ m.0))) in
          (
            (regs, f) ∷ turn.0,
            turn.1,
            turn.2,
            ap (λ x. (regs, f) ∷ x) turn.3,
            omega (arith, turn.4, ap length m.1, length-append rr.before (rr.n ∷ m.0)),
            step turn.0 s s' rr.returns ∙ turn.5,
            turn.6,
          )
    ]
