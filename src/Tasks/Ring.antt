-- ===== src/Tasks/Ring.antt =====
-- The ring of tasks that `next` links in src/kernel/task.c, and which task the loop of `schedule`
-- finds in it.
use lighth_os.Tasks.{Task, task_at, runnable, pick}
use lighth_os.Common.Distinct.{Distinct, Distinct-swap, All-swap}
use lighth_os.Common.{
  ℕ, zero, suc, ◌<◌, ◌≡◌, ◌≢◌, refl, ap, sym, subst, ◌∙◌, true, false, Option, none, some, List, [],
  ◌∷◌, ◌++◌, ◌==◌, if◌then◌else◌, get_or, set, length, ◌⊎◌, inl, inr, arith, Bool-cases, All, Any,
  length-append, append_assoc, drop, ==_self, ne→==, true≢false,
}

-- From `a` the links lead through `xs` to `z`.
unfoldable pub Links : List Task → ℕ → List ℕ → ℕ → Type 0
Links ts a [] z = (task_at a ts).next ≡ some z
Links ts a (x ∷ xs) z = ((task_at a ts).next ≡ some x) × Links ts x xs z

-- the ring that starts at the current task
pub record IsRing (ts : List Task) (c : ℕ) (xs : List ℕ) : Type 0 where
  pub links : Links ts c xs c
  pub distinct : Distinct (c ∷ xs)
  pub inside : All (λ x. x < length ts) (c ∷ xs)

-- the first task of a list that can run, or the last resort
unfoldable pub first_runnable : List Task → List ℕ → ℕ → ℕ
first_runnable ts [] d = d
first_runnable ts (x ∷ xs) d =
    let rest = first_runnable ts xs d in if runnable (task_at x ts).state then x else rest

-- a round of the loop, at a task whose link is not null
pick_round :
    (fuel : ℕ) (ts : List Task) (start n m : ℕ)
    → (task_at n ts).next ≡ some m
    → pick (suc fuel) ts start n ≡ (
        if runnable (task_at n ts).state
        then some n
        else if m == start
        then some m
        else pick fuel ts start m)
unfolding pick
pick_round fuel ts start n m e =
    ap
      (λ o. elim o as (λ _. Option ℕ) [
        | none ↦ if runnable (task_at n ts).state then some n else none
        | some k ↦
            if runnable (task_at n ts).state
            then some n
            else if k == start
            then some k
            else pick fuel ts start k
      ])
      e

-- The loop of `schedule` from `n` finds the first task that can run, before it is back at `start`.
pub pick-Links :
    (fuel : ℕ) (ts : List Task) (start n : ℕ) (xs : List ℕ)
    → Links ts n xs start
    → All (λ x. x ≢ start) xs
    → length xs < fuel
    → pick fuel ts start n ≡ some (first_runnable ts (n ∷ xs) start)
unfolding Links first_runnable
pick-Links zero ts start n xs l d h = absurd (omega arith)
pick-Links (suc fuel) ts start n [] l d h =
    pick_round fuel ts start n start l ∙ (elim (Bool-cases (runnable (task_at n ts).state)) [
      | inl e ↦ rw e refl
      | inr e ↦ rw e (rw (==_self start) refl)
    ])
pick-Links (suc fuel) ts start n (x ∷ xs) (l, ls) (d, ds) h =
    pick_round fuel ts start n x l ∙ (elim (Bool-cases (runnable (task_at n ts).state)) [
      | inl e ↦ rw e refl
      | inr e ↦ rw e (rw (ne→== x start d) (pick-Links fuel ts start x xs ls ds (omega arith)))
    ])

-- Links only depend on the tasks that they leave.
pub Links-same :
    (ts ts' : List Task) (a : ℕ) (xs : List ℕ) (z : ℕ)
    → ((i : ℕ) → (task_at i ts').next ≡ (task_at i ts).next)
    → Links ts a xs z
    → Links ts' a xs z
unfolding Links
Links-same ts ts' a [] z h l = h a ∙ l
Links-same ts ts' a (x ∷ xs) z h (l, ls) = (h a ∙ l, Links-same ts ts' x xs z h ls)

-- The ring can be read from any of its tasks.
pub Links-append :
    (ts : List Task) (a : ℕ) (xs : List ℕ) (b : ℕ) (ys : List ℕ) (z : ℕ)
    → Links ts a xs b
    → Links ts b ys z
    → Links ts a (xs ++ b ∷ ys) z
unfolding Links
Links-append ts a [] b ys z l r = (l, r)
Links-append ts a (x ∷ xs) b ys z (l, ls) r = (l, Links-append ts x xs b ys z ls r)

pub Links-split :
    (ts : List Task) (a : ℕ) (xs : List ℕ) (b : ℕ) (ys : List ℕ) (z : ℕ)
    → Links ts a (xs ++ b ∷ ys) z
    → Links ts a xs b × Links ts b ys z
unfolding Links
Links-split ts a [] b ys z (l, r) = (l, r)
Links-split ts a (x ∷ xs) b ys z (l, ls) = let r = Links-split ts x xs b ys z ls in ((l, r.0), r.1)

-- A write that keeps a field of a task keeps it for all tasks.
pub field-set :
    {A : Type 0} (f : Task → A) (ts : List Task) (k i : ℕ) (t : Task)
    → f t ≡ f (task_at k ts)
    → f (task_at i (set ts k t)) ≡ f (task_at i ts)
field-set f [] k i t h = refl
field-set f (x ∷ ts) zero zero t h = h
field-set f (x ∷ ts) zero (suc i) t h = refl
field-set f (x ∷ ts) (suc k) zero t h = refl
field-set f (x ∷ ts) (suc k) (suc i) t h = field-set f ts k i t h

-- the first task that can run, where it stands in the list
pub record Choice (ts : List Task) (l : List ℕ) (n : ℕ) : Type 0 where
  pub before : List ℕ
  pub behind : List ℕ
  pub splits : l ≡ before ++ n ∷ behind
  pub passed : All (λ x. runnable (task_at x ts).state ≡ false) before
  pub can_run : runnable (task_at n ts).state ≡ true

pub first_runnable-Choice :
    (ts : List Task) (l : List ℕ) (d : ℕ)
    → Any (λ x. runnable (task_at x ts).state ≡ true) l
    → Choice ts l (first_runnable ts l d)
unfolding first_runnable
first_runnable-Choice ts [] d h = absurd h
first_runnable-Choice ts (x ∷ l) d h = elim (Bool-cases (runnable (task_at x ts).state)) [
  | inl e ↦
      subst (Choice ts (x ∷ l)) (sym (chosen e))
        (record { before = []; behind = l; splits = refl; passed = tt; can_run = e })
  | inr e ↦
      let r = first_runnable-Choice ts l d (rest e h) in
      subst (Choice ts (x ∷ l)) (sym (skipped e)) (record {
        before = x ∷ r.before;
        behind = r.behind;
        splits = ap (λ s. x ∷ s) r.splits;
        passed = (e, r.passed);
        can_run = r.can_run;
      })
]
  where
    chosen : runnable (task_at x ts).state ≡ true → first_runnable ts (x ∷ l) d ≡ x
    chosen e = rw (first_runnable, e) refl

    skipped :
        runnable (task_at x ts).state ≡ false → first_runnable ts (x ∷ l) d ≡ first_runnable ts l d
    skipped e = rw (first_runnable, e) refl

    rest :
        runnable (task_at x ts).state ≡ false
        → Any (λ y. runnable (task_at y ts).state ≡ true) (x ∷ l)
        → Any (λ y. runnable (task_at y ts).state ≡ true) l
    rest e (inl f) = absurd (true≢false (sym f ∙ e))
    rest e (inr a) = a

pub IsRing-same :
    (ts ts' : List Task) (c : ℕ) (xs : List ℕ)
    → length ts' ≡ length ts
    → ((i : ℕ) → (task_at i ts').next ≡ (task_at i ts).next)
    → IsRing ts c xs
    → IsRing ts' c xs
IsRing-same ts ts' c xs l h r = record {
  links = Links-same ts ts' c xs c h r.links;
  distinct = r.distinct;
  inside = subst (λ n. All (λ x. x < n) (c ∷ xs)) (sym l) r.inside;
}

-- where the parts of a list with one more element meet
split_cases :
    (xs before behind : List ℕ) (c n : ℕ)
    → xs ++ c ∷ [] ≡ before ++ n ∷ behind
    → (before ≡ xs) × (n ≡ c) × (behind ≡ [])
      ⊎ ((ys : List ℕ) × (xs ≡ before ++ n ∷ ys) × (behind ≡ ys ++ c ∷ []))
split_cases [] [] behind c n e =
    inl (refl, sym (ap (λ l. get_or l 0 0) e), sym (ap (λ l. drop 1 l) e))
split_cases [] (b ∷ before) behind c n e =
    absurd (omega (arith, ap length e, length-append before (n ∷ behind)))
split_cases (x ∷ xs) [] behind c n e =
    inr (xs, ap (λ m. m ∷ xs) (ap (λ l. get_or l 0 0) e), sym (ap (λ l. drop 1 l) e))
split_cases (x ∷ xs) (b ∷ before) behind c n e =
    let b≡x = sym (ap (λ l. get_or l 0 0) e) in
    elim (split_cases xs before behind c n (ap (λ l. drop 1 l) e)) [
      | inl r ↦ inl (ap (λ m. m ∷ before) b≡x ∙ ap (λ l. x ∷ l) r.0, r.1, r.2)
      | inr (ys, r, q) ↦ inr (ys, ap (λ l. x ∷ l) r ∙ ap (λ m. m ∷ (before ++ n ∷ ys)) (sym b≡x), q)
    ]

-- The ring, read from another of its tasks.
pub IsRing-rotate :
    (ts : List Task) (c : ℕ) (xs before behind : List ℕ) (n : ℕ)
    → xs ++ c ∷ [] ≡ before ++ n ∷ behind
    → IsRing ts c xs
    → IsRing ts n (behind ++ before)
IsRing-rotate ts c xs before behind n e r = elim (split_cases xs before behind c n e) [
  | inl (p, q, s) ↦ rw p (rw q (rw s r))
  | inr (ys, p, s) ↦
      let r' = subst (IsRing ts c) p r in
      let l = Links-split ts c before n ys c r'.links in
      subst (IsRing ts n) (sym (ap (λ b. b ++ before) s ∙ append_assoc ys (c ∷ []) before))
        (record {
          links = Links-append ts n ys c before n l.1 l.0;
          distinct = Distinct-swap (c ∷ before) (n ∷ ys) r'.distinct;
          inside = All-swap (λ x. x < length ts) (c ∷ before) (n ∷ ys) r'.inside;
        })
]
