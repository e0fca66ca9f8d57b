-- ===== src/Pipe/Waiting.antt =====
-- The waits of pipe.c, `while (…) task_yield();`, over what the other tasks do meanwhile.
use lighth_os.Common.{◌≡◌, [], ◌∷◌, Bool, true, false, inl, inr, All, Bool-cases}
use lighth_os.Pipe.{Pipe, Others, Outcome, waiting, returns, wait_while}
use lighth_os.Pipe.Inv.{IsValid}

-- Yields made one after the other, each while the test holds.
pub data Waited (test : Pipe → Bool) : Others → Pipe → Others → Pipe → Type 0 where
  stay : {others : Others} {p : Pipe} → Waited test others p others p
  yield :
      {f : Pipe → Pipe} {others rest : Others} {p q : Pipe}
      → test p ≡ true
      → Waited test others (f p) rest q
      → Waited test (f ∷ others) p rest q

-- What another task does keeps the pipe well formed.
abbrev pub Keeps : (Pipe → Pipe) → Type 0
Keeps f = (p : Pipe) → IsValid p → IsValid (f p)

-- The outcome of a wait: with the test still true, or with the first pipe at which it is false.
pub record Ready (test : Pipe → Bool) (others : Others) (p : Pipe) (rest : Others) (q : Pipe)
    : Type 0 where
  pub valid : IsValid q
  pub keeps : All Keeps rest
  pub path : Waited test others p rest q

abbrev pub Wait : (Pipe → Bool) → Others → Pipe → Outcome (Unit {0}) → Type 0
Wait test others p (waiting q) = Ready test others p [] q × (test q ≡ true)
Wait test others p (returns _ q rest) = Ready test others p rest q × (test q ≡ false)

module _ (test : Pipe → Bool) where
  Wait-yield :
      (f : Pipe → Pipe) (others : Others) (p : Pipe) (o : Outcome (Unit {0}))
      → test p ≡ true
      → Wait test others (f p) o
      → Wait test (f ∷ others) p o
  Wait-yield f others p (waiting q) e (r, t) =
      (record { valid = r.valid; keeps = r.keeps; path = yield e r.path }, t)
  Wait-yield f others p (returns _ q rest) e (r, t) =
      (record { valid = r.valid; keeps = r.keeps; path = yield e r.path }, t)

  pub wait_while-Wait :
      (others : Others) {p : Pipe}
      → All Keeps others
      → IsValid p
      → Wait test others p (wait_while test others p)
  unfolding wait_while
  wait_while-Wait [] {p} keeps v = elim (Bool-cases (test p)) [
    | inl e ↦ rw e (record { valid = v; keeps = tt; path = stay }, e)
    | inr e ↦ rw e (record { valid = v; keeps = tt; path = stay }, e)
  ]
  wait_while-Wait (f ∷ others) {p} keeps v = elim (Bool-cases (test p)) [
    | inl e ↦ rw e (Wait-yield f others p _ e (wait_while-Wait others keeps.1 (keeps.0 p v)))
    | inr e ↦ rw e (record { valid = v; keeps = keeps; path = stay }, e)
  ]

  pub wait_while-now :
      (others : Others) (p : Pipe) → test p ≡ false → wait_while test others p ≡ returns tt p others
  unfolding wait_while
  wait_while-now [] p e = rw e
  wait_while-now (f ∷ others) p e = rw e
