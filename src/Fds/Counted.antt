-- ===== src/Fds/Counted.antt =====
-- src/kernel/process.c: `fd_close`, `fd_dup2` and `fd_pipe` keep the counts of the pipes.
use lighth_os.Fds.Refs.{
  reads_at, writes_at, reads, writes, one, count, IsCounted, count-set, count_le, Agrees-at,
  drop-Agrees, share-Agrees,
}
use lighth_os.Fds.{
  FdType, unused, console, file, pipe_read, pipe_write, Fd, Files, fd_at, no_fd, fd_max, is_unused,
  is_console, drop_ref, close, is_dropped, share_pipe, duplicate, dup2,
}
use lighth_os.Common.{
  ℕ, zero, suc, ◌+◌, ◌≤◌, ◌<◌, ◌≡◌, refl, ◌∙◌, Bool, false, ◌||◌, Option, List, [], ◌∷◌, ◌==◌, leb,
  get_or, set, length, inl, inr, arith, Bool-cases, length-set, get_or-set_self, true≢false, leb→gt,
}

-- Neither end of a pipe.
abbrev IsNeither : Fd → Type 0
IsNeither e = (q : ℕ) → (reads q e ≡ false) × (writes q e ≡ false)

pub unused-IsNeither :
    (kind : FdType) (pipe : Option ℕ)
    → is_dropped kind ≡ false
    → (q : ℕ) → (reads_at q kind pipe ≡ false) × (writes_at q kind pipe ≡ false)
unfolding is_dropped reads_at writes_at
unused-IsNeither unused pipe h q = (refl, refl)
unused-IsNeither console pipe h q = (refl, refl)
unused-IsNeither file pipe h q = (refl, refl)
unused-IsNeither pipe_read pipe h q = absurd (true≢false h)
unused-IsNeither pipe_write pipe h q = absurd (true≢false h)

count-get_or :
    (f : Fd → Bool) (fds : List Fd) (i : ℕ)
    → i < length fds
    → one (f (get_or fds i no_fd)) ≤ count f fds
unfolding count
count-get_or f [] i h = absurd (omega arith)
count-get_or f (x ∷ fds) zero h = omega arith
count-get_or f (x ∷ fds) (suc i) h = omega (arith, count-get_or f fds i (omega arith))

pub set_free :
    (f : Fd → Bool) (fds : List Fd) (i : ℕ) (e : Fd)
    → i < length fds
    → f (get_or fds i no_fd) ≡ false
    → count f (set fds i e) ≡ count f fds + one (f e)
set_free f fds i e h no_one = ground (arith, count-set f fds i e h)

drop_ref-IsNeither : (fd : ℕ) (s : Files) → fd < length s.fds → IsNeither (fd_at fd (drop_ref fd s))
unfolding drop_ref reads_at writes_at
drop_ref-IsNeither fd s h q =
    rw (get_or-set_self s.fds fd (record no_fd { path = set (fd_at fd s).path 0 0 }) no_fd h)
      (refl, refl)

module _ (held_r held_w : ℕ → ℕ) where
  drop_ref-IsCounted :
      (fd : ℕ) (s : Files)
      → fd < fd_max
      → IsCounted held_r held_w s
      → IsCounted held_r held_w (drop_ref fd s)
  unfolding drop_ref reads_at writes_at
  drop_ref-IsCounted fd s h c = record {
    sized = length-set s.fds fd _ ∙ c.sized;
    agrees = λ q. drop-Agrees (fd_at fd s).kind (fd_at fd s).pipe s.pipes q _ _ (
        Agrees-at _
          (omega (
            arith,
            count-set (reads q) s.fds fd (record no_fd { path = set (fd_at fd s).path 0 0 })
                (omega (arith, c.sized)),
          ))
          (omega (
            arith,
            count-set (writes q) s.fds fd (record no_fd { path = set (fd_at fd s).path 0 0 })
                (omega (arith, c.sized)),
          ))
          (c.agrees q));
    few_r = c.few_r;
    few_w = c.few_w;
  }

  -- over an entry that is no end of a pipe
  copy-IsCounted :
      (i j : ℕ) (s : Files)
      → i < fd_max
      → j < fd_max
      → IsNeither (fd_at i s)
      → IsCounted held_r held_w s
      → IsCounted held_r held_w (record {
        fds = set s.fds i (fd_at j s);
        pipes = share_pipe (fd_at j s).kind (fd_at j s).pipe s.pipes;
      })
  copy-IsCounted i j s hi hj free c = record {
    sized = length-set s.fds i _ ∙ c.sized;
    agrees = λ q.
        Agrees-at _ (omega (arith, set_free (reads q) s.fds i (fd_at j s) (lt i hi) (free q).0))
          (omega (arith, set_free (writes q) s.fds i (fd_at j s) (lt i hi) (free q).1))
          (share-Agrees (fd_at j s).kind (fd_at j s).pipe s.pipes q _ _
            (omega (arith, c.few_r q, count_le (reads q) s.fds, c.sized))
            (omega (arith, c.few_w q, count_le (writes q) s.fds, c.sized))
            (omega (arith, count-get_or (reads q) s.fds j (lt j hj)))
            (omega (arith, count-get_or (writes q) s.fds j (lt j hj))) (c.agrees q));
    few_r = c.few_r;
    few_w = c.few_w;
  }
    where
      lt : (k : ℕ) → k < fd_max → k < length s.fds
      lt k h = omega (arith, c.sized, h)

  pub close-IsCounted :
      (fd : ℕ) (s : Files) → IsCounted held_r held_w s → IsCounted held_r held_w (close fd s).1
  unfolding close
  close-IsCounted fd s c = elim (Bool-cases (leb fd_max fd)) [
    | inl t ↦ rw t c
    | inr t ↦ elim (Bool-cases (is_unused (fd_at fd s).kind)) [
      | inl u ↦ rw (t, u) c
      | inr u ↦ elim (Bool-cases (is_console (fd_at fd s).kind)) [
        | inl k ↦ rw (t, u, k) c
        | inr k ↦ rw (t, u, k) (drop_ref-IsCounted fd s (leb→gt fd_max fd t) c)
      ]
    ]
  ]

  duplicate-IsCounted :
      (oldfd newfd : ℕ) (s : Files)
      → oldfd < fd_max
      → newfd < fd_max
      → IsCounted held_r held_w s
      → IsCounted held_r held_w (duplicate oldfd newfd s)
  unfolding duplicate
  duplicate-IsCounted oldfd newfd s ho hn c = elim (Bool-cases (is_dropped (fd_at newfd s).kind)) [
    | inl t ↦ rw t (
        copy-IsCounted newfd oldfd (drop_ref newfd s) hn ho
          (drop_ref-IsNeither newfd s (omega (arith, c.sized))) (drop_ref-IsCounted newfd s hn c))
    | inr t ↦ rw t (
        copy-IsCounted newfd oldfd s hn ho
          (unused-IsNeither (fd_at newfd s).kind (fd_at newfd s).pipe t) c)
  ]

  pub dup2-IsCounted :
      (oldfd newfd : ℕ) (s : Files)
      → IsCounted held_r held_w s
      → IsCounted held_r held_w (dup2 oldfd newfd s).1
  unfolding dup2
  dup2-IsCounted oldfd newfd s c = elim (Bool-cases (leb fd_max oldfd || leb fd_max newfd)) [
    | inl t ↦ rw t c
    | inr t ↦ elim (Bool-cases (is_unused (fd_at oldfd s).kind)) [
      | inl u ↦ rw (t, u) c
      | inr u ↦ elim (Bool-cases (oldfd == newfd)) [
        | inl k ↦ rw (t, u, k) c
        | inr k ↦
            rw (t, u, k)
              (duplicate-IsCounted oldfd newfd s (ground (arith, t)) (ground (arith, t)) c)
      ]
    ]
  ]
