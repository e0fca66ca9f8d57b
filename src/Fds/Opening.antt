-- ===== src/Fds/Opening.antt =====
-- src/kernel/process.c: `fd_pipe` takes two unused descriptors, and the new pipe has one reader and
-- one writer; every sequence of calls keeps the counts of the pipes.
use lighth_os.Pipe
use lighth_os.Pipe.{Pipe}
use lighth_os.Fds.Refs.{
  reads_at, writes_at, reads, writes, is_end, one, count, Agrees, IsCounted, Agrees-at,
}
use lighth_os.Fds.Counted.{set_free, unused-IsNeither, close-IsCounted, dup2-IsCounted}
use lighth_os.Fds.{
  FdType, unused, console, file, pipe_read, pipe_write, Fd, Files, fd_at, no_fd, is_unused, close,
  find_unused, with_second, find_two, end_of, with_pipe, open_pipe, is_dropped, dup2,
}
use lighth_os.Common.{
  ℕ, zero, suc, ◌+◌, ◌≤◌, ◌<◌, ◌≡◌, refl, ap, sym, subst, ◌∙◌, Bool, true, false, ◌&&◌, Option,
  none, some, List, [], ◌∷◌, ◌++◌, ◌==◌, leb, get_or, set, length, inl, inr, arith, Bool-cases,
  Option-cases, length-set, get_or-set_ne, found,
}

-- Entry `i` of the table is free, and `i` is no descriptor of the console's.
record IsFree (fds : List Fd) (base i : ℕ) : Type 0 where
  pub place : ℕ
  pub at : i ≡ base + place
  pub inside : place < length fds
  pub behind : 3 ≤ i
  pub free : is_unused (get_or fds place no_fd).kind ≡ true

IsFree-later :
    (e : Fd) (fds : List Fd) (base i : ℕ) → IsFree fds (base + 1) i → IsFree (e ∷ fds) base i
IsFree-later e fds base i f = record {
  place = suc f.place;
  at = omega (arith, f.at);
  inside = omega (arith, f.inside);
  behind = f.behind;
  free = f.free;
}

IsFree-here :
    (e : Fd) (fds : List Fd) (base : ℕ)
    → (leb 3 base && is_unused e.kind) ≡ true
    → IsFree (e ∷ fds) base base
IsFree-here e fds base h = record {
  place = 0;
  at = omega arith;
  inside = omega arith;
  behind = ground (arith, h);
  free = ground (arith, h);
}

find_unused-IsFree :
    (fds : List Fd) (base i : ℕ) → find_unused fds base ≡ some i → IsFree fds base i × base ≤ i
unfolding find_unused
find_unused-IsFree [] base i h = cc
find_unused-IsFree (e ∷ fds) base i h =
    elim (found (leb 3 base && is_unused e.kind) base i (find_unused fds (base + 1)) h) [
      | inl (t, at) ↦ (subst (IsFree (e ∷ fds) base) at (IsFree-here e fds base t), omega arith)
      | inr (t, later) ↦
          let (f, l) = find_unused-IsFree fds (base + 1) i later in
          (IsFree-later e fds base i f, omega arith)
    ]

with_second-some :
    (i r w : ℕ) (o : Option ℕ) → with_second i o ≡ some (r, w) → (i ≡ r) × (o ≡ some w)
unfolding with_second
with_second-some i r w none h = cc
with_second-some i r w (some v) h = (cc, cc)

find_two-IsFree :
    (fds : List Fd) (base r w : ℕ)
    → find_two fds base ≡ some (r, w)
    → IsFree fds base r × IsFree fds base w × r < w
unfolding find_two
find_two-IsFree [] base r w h = cc
find_two-IsFree (e ∷ fds) base r w h = elim (Bool-cases (leb 3 base && is_unused e.kind)) [
  | inl t ↦
      let (at, second) =
        with_second-some base r w (find_unused fds (base + 1)) (ground (arith, h, t)) in
      let (f, l) = find_unused-IsFree fds (base + 1) w second in
      (
        subst (IsFree (e ∷ fds) base) at (IsFree-here e fds base t),
        IsFree-later e fds base w f,
        omega arith,
      )
  | inr t ↦
      let (f, g, l) = find_two-IsFree fds (base + 1) r w (ground (arith, h, t)) in
      (IsFree-later e fds base r f, IsFree-later e fds base w g, l)
]

unused-is_dropped : (kind : FdType) → is_unused kind ≡ true → is_dropped kind ≡ false
unfolding is_unused is_dropped
unused-is_dropped unused h = refl
unused-is_dropped console h = refl
unused-is_dropped file h = cc
unused-is_dropped pipe_read h = cc
unused-is_dropped pipe_write h = cc

-- The table once the two ends of pipe `q` stand in it.
abbrev with_ends : ℕ → ℕ → ℕ → Files → List Fd
with_ends q r w s =
    set (set s.fds r (end_of pipe_read q (fd_at r s))) w (end_of pipe_write q (fd_at w s))

count-with_ends :
    (f : Fd → Bool) (q r w : ℕ) (s : Files)
    → r < length s.fds
    → w < length s.fds
    → r < w
    → f (fd_at r s) ≡ false
    → f (fd_at w s) ≡ false
    → count f (with_ends q r w s)
      ≡ count f s.fds
        + one (f (end_of pipe_read q (fd_at r s)))
        + one (f (end_of pipe_write q (fd_at w s)))
count-with_ends f q r w s hr hw l fr fw =
    set_free f (set s.fds r (end_of pipe_read q (fd_at r s))) w (end_of pipe_write q (fd_at w s))
      (omega (arith, length-set s.fds r (end_of pipe_read q (fd_at r s))))
      (ap f (get_or-set_ne s.fds r w _ no_fd (omega arith)) ∙ fw)
    ∙ ap (λ n. n + one (f (end_of pipe_write q (fd_at w s))))
        (set_free f s.fds r (end_of pipe_read q (fd_at r s)) hr fr)

-- The new pipe stands behind the others.
new_pipe-Agrees :
    (pipes : List (Option Pipe)) (p : Pipe) (q r w : ℕ)
    → (p.readers ≡ 1)
    → (p.writers ≡ 1)
    → Agrees r w (get_or pipes q none)
    → Agrees
        (r + one (length pipes == q))
        (w + one (length pipes == q))
        (get_or (pipes ++ some p ∷ []) q none)
unfolding Agrees
new_pipe-Agrees [] p zero r w e f (a, b) = (omega arith, omega arith, omega arith)
new_pipe-Agrees [] p (suc q) r w e f (a, b) = (ground (arith, a), ground (arith, b))
new_pipe-Agrees (x ∷ pipes) p zero r w e f a = Agrees-at x (ground arith) (ground arith) a
new_pipe-Agrees (x ∷ pipes) p (suc q) r w e f a =
    Agrees-at (get_or (pipes ++ some p ∷ []) q none) (ground arith) (ground arith)
      (new_pipe-Agrees pipes p q r w e f a)

module _ (held_r held_w : ℕ → ℕ) where
  with_ends-IsCounted :
      (s : Files) (r w : ℕ) (p : Pipe)
      → IsFree s.fds 0 r
      → IsFree s.fds 0 w
      → r < w
      → p.readers ≡ 1
      → p.writers ≡ 1
      → IsCounted held_r held_w s
      → IsCounted held_r held_w
          (record { fds = with_ends (length s.pipes) r w s; pipes = s.pipes ++ some p ∷ [] })
  unfolding reads_at writes_at is_end end_of
  with_ends-IsCounted s r w p fr fw l e f c = record {
    sized =
        length-set (set s.fds r (end_of pipe_read (length s.pipes) (fd_at r s))) w _
        ∙ length-set s.fds r _
        ∙ c.sized;
    agrees = λ q.
        Agrees-at _
          (omega (
            arith,
            count-with_ends (reads q) (length s.pipes) r w s (inside r fr) (inside w fw) l
                (free r fr q).0 (free w fw q).0,
          ))
          (omega (
            arith,
            count-with_ends (writes q) (length s.pipes) r w s (inside r fr) (inside w fw) l
                (free r fr q).1 (free w fw q).1,
          ))
          (new_pipe-Agrees s.pipes p q _ _ e f (c.agrees q));
    few_r = c.few_r;
    few_w = c.few_w;
  }
    where
      inside : (i : ℕ) → IsFree s.fds 0 i → i < length s.fds
      inside i x = omega (arith, x.at, x.inside)

      free :
          (i : ℕ)
          → IsFree s.fds 0 i
          → (q : ℕ) → (reads q (fd_at i s) ≡ false) × (writes q (fd_at i s) ≡ false)
      free i x q =
          unused-IsNeither (fd_at i s).kind (fd_at i s).pipe
            (unused-is_dropped (fd_at i s).kind
              (ap (λ k. is_unused (get_or s.fds k no_fd).kind) at ∙ x.free))
            q
        where
          at : i ≡ x.place
          at = omega (arith, x.at)

  open_pipe-IsCounted :
      (room : Bool) (s : Files)
      → IsCounted held_r held_w s
      → IsCounted held_r held_w (open_pipe room s).1
  unfolding with_pipe Pipe.create Pipe.add_writer Pipe.add_reader open_pipe find_two
  open_pipe-IsCounted room s c = elim (Option-cases (find_two s.fds 0)) [
    | inl e ↦ subst (λ o. IsCounted held_r held_w (with_pipe o (Pipe.create room) s).1) (sym e) c
    | inr ((r, w), e) ↦
        let (fr, fw, l) = find_two-IsFree s.fds 0 r w e in
        subst (λ o. IsCounted held_r held_w (with_pipe o (Pipe.create room) s).1) (sym e)
          (made r w fr fw l room)
  ]
    where
      made :
          (r w : ℕ)
          → IsFree s.fds 0 r
          → IsFree s.fds 0 w
          → r < w
          → (room : Bool) → IsCounted held_r held_w (with_pipe (some (r, w)) (Pipe.create room) s).1
      made r w fr fw l true = with_ends-IsCounted s r w _ fr fw l refl refl c
      made r w fr fw l false = c

-- the calls of a process on its descriptors
pub data Call : Type 0 where
  closes : ℕ → Call
  dup2s : ℕ → ℕ → Call
  pipes : Bool → Call

abbrev pub call : Call → Files → Files
call (closes fd) s = (close fd s).1
call (dup2s oldfd newfd) s = (dup2 oldfd newfd s).1
call (pipes room) s = (open_pipe room s).1

abbrev pub run : List Call → Files → Files
run [] s = s
run (c ∷ calls) s = run calls (call c s)

-- Behind every sequence of calls of `fd_close`, `fd_dup2` and `fd_pipe` of one process, each pipe that stands has as
-- many readers and writers as there are entries for its ends, in this table and in those of other
-- processes, `held_r` and `held_w`, and there is one of them or more; a pipe that has been freed
-- has no entry left. It was so before the first call, and the other processes have fewer than 2 ^ 31
-- entries for each pipe.
pub run-IsCounted :
    (held_r held_w : ℕ → ℕ) (calls : List Call) (s : Files)
    → IsCounted held_r held_w s
    → IsCounted held_r held_w (run calls s)
run-IsCounted held_r held_w [] s c = c
run-IsCounted held_r held_w (closes fd ∷ calls) s c =
    run-IsCounted held_r held_w calls _ (close-IsCounted held_r held_w fd s c)
run-IsCounted held_r held_w (dup2s o n ∷ calls) s c =
    run-IsCounted held_r held_w calls _ (dup2-IsCounted held_r held_w o n s c)
run-IsCounted held_r held_w (pipes room ∷ calls) s c =
    run-IsCounted held_r held_w calls _ (open_pipe-IsCounted held_r held_w room s c)
