-- ===== src/Pipe/Reading.antt =====
-- `pipe_read` against the queue of bytes that the pipe holds.
use lighth_os.Common.{
  ℕ, min, ◌≤◌, ◌<◌, ◌≡◌, ◌∙◌, ap, ◌⊎◌, inl, inr, List, [], arith, length, take, drop, take-nil,
  drop-nil, take-min, drop-min, ==→eq, ==→ne, sym, length-take, All, true, false, ◌==◌, Bool-cases,
}
use lighth_os.Pipe.{
  Pipe, chunk_of, read_now, read, Others, Outcome, waiting, returns, wait_while, resume, no_data,
}
use lighth_os.Pipe.Inv.{IsValid, read_now-IsValid, copy_out_pipe, chunk_of-min}
use lighth_os.Pipe.Waiting.{Waited, stay, Keeps, Wait, wait_while-Wait}
use lighth_os.Pipe.Queue.{
  contents, contents_empty, length-contents, take-window, drop-window, copy_out-window,
}

-- Behind the wait, `pipe_read` takes the first `n` bytes of the queue and leaves the others.
pub read_now_lem :
    (n : ℕ) {p : Pipe}
    → IsValid p
    → ((read_now n p).0 ≡ take n (contents p)) × (contents (read_now n p).1 ≡ drop n (contents p))
unfolding read_now contents
read_now_lem n {p} v = elim (Bool-cases (p.count == 0)) [
  | inl e ↦
      let empty = contents_empty p (==→eq p.count 0 e) in
      rw (e, empty) (sym (take-nil n), sym (drop-nil n))
  | inr e ↦
      rw (e, copy_out-window chunk p, copy_out_pipe chunk p v.read_in)
        (
          sym (take-window p.buf chunk p.read_pos p.count small)
              ∙ take-min n chunk (contents p) size,
          sym (drop-window p.buf chunk p.read_pos p.count small v.read_in)
              ∙ drop-min n chunk (contents p) size,
        )
]
  where
    chunk : ℕ
    chunk = chunk_of n p.count

    small : chunk ≤ p.count
    small = omega (arith, chunk_of-min n p.count)

    size : chunk ≡ min n (length (contents p))
    size = omega (arith, chunk_of-min n p.count, length-contents p)

-- What `pipe_read` promises of a call for `n` bytes.
abbrev pub Read : Others → Pipe → ℕ → Outcome (List ℕ) → Type 0
Read others p n (waiting q) =
    (0 < n) × (q.count ≡ 0) × (0 < q.writers) × Waited no_data others p [] q
Read others p n (returns bytes p' rest) =
    (q : Pipe) × Waited no_data others p rest q
    × (bytes ≡ take n (contents q))
    × (contents p' ≡ drop n (contents q))
    × IsValid p'
    × (bytes ≡ [] → (n ≡ 0) ⊎ ((q.count ≡ 0) × (q.writers ≡ 0)))

no_data_of_true : (p : Pipe) → no_data p ≡ true → (p.count ≡ 0) × (0 < p.writers)
unfolding no_data
no_data_of_true p e = ground arith

no_data_of_false : (p : Pipe) → no_data p ≡ false → p.count ≡ 0 → p.writers ≡ 0
unfolding no_data
no_data_of_false p e z = ground arith

-- some bytes come if there are any
count-take : (n : ℕ) (p : Pipe) → take n (contents p) ≡ [] → 0 < n → p.count ≡ 0
count-take n p e h =
    omega (arith, length-contents p, length-take n (contents p), ap (length {A = ℕ}) e)

resume-Read :
    (others : Others) (p : Pipe) (n : ℕ) (o : Outcome (Unit {0}))
    → 0 < n
    → Wait no_data others p o
    → Read others p n (resume o (λ q rest. returns (read_now n q).0 (read_now n q).1 rest))
resume-Read others p n (waiting q) h (r, t) = let (z, w) = no_data_of_true q t in (h, z, w, r.path)
resume-Read others p n (returns _ q rest) h (r, t) =
    let (got, left) = read_now_lem n r.valid in
    (
      q,
      r.path,
      got,
      left,
      read_now-IsValid n r.valid,
      λ e. let z = count-take n q (sym got ∙ e) h in inr (z, no_data_of_false q t z),
    )

-- Whatever the other tasks do: a read takes the oldest bytes of the pipe as it stands after the
-- wait, at most `n`, and leaves the rest in order; it returns none only at the end of the stream,
-- and it waits for ever only if the pipe stays empty with a writer.
pub read-Read :
    (others : Others) (n : ℕ) {p : Pipe}
    → All Keeps others
    → IsValid p
    → Read others p n (read others p n)
unfolding read
read-Read others n {p} keeps v = elim (Bool-cases (n == 0)) [
  | inl e ↦ let z = ==→eq n 0 e in rw e (p, stay, rw z, rw z, v, λ _. inl z)
  | inr e ↦ rw e (
      resume-Read others p n (wait_while no_data others p) (omega (arith, ==→ne n 0 e))
        (wait_while-Wait no_data others keeps v))
]
