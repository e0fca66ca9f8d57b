-- ===== src/Pipe/Writing.antt =====
-- `pipe_write` against the queue of bytes that the pipe holds.
use lighth_os.Common.{
  ℕ, zero, suc, ◌+◌, ◌-◌, min, ◌≤◌, ◌<◌, ◌≡◌, refl, ◌∙◌, ap, sym, ◌≢◌, inl, inr, List, [], ◌∷◌,
  ◌++◌, arith, length, length-take, length-drop, take, drop, take-min, All, true, false, ◌==◌, ltb,
  Bool-cases, if◌then◌else◌, ==→eq, ==→ne, ne→==, lt→ltb,
}
use lighth_os.Pipe.{
  Pipe, pipe_buf_size, u32, copy_in, chunk_of, write_now, write_loop, write, Others, Outcome,
  waiting, returns, wait_while, resume, no_room, Written, wrote, broken,
}
use lighth_os.Pipe.Inv.{IsValid, write_now-IsValid, Stored, copy_in-Stored, chunk_of-min}
use lighth_os.Pipe.Waiting.{Keeps, Wait, Waited, stay, Ready, wait_while-Wait}
use lighth_os.Pipe.Queue.{contents, window-copy_in}

-- A round of `pipe_write` stores as many bytes as fit, and appends exactly those, in order.
pub write_now_lem :
    (src : List ℕ) {p : Pipe}
    → IsValid p
    → ((write_now src p).0 ≡ min (length src) (pipe_buf_size - p.count))
      × (contents (write_now src p).1 ≡ contents p ++ take (pipe_buf_size - p.count) src)
unfolding write_now contents
write_now_lem src {p} v = (
  chunk_of-min _ _,
  rw stored.read_pos (
      window-copy_in bs p p.count _ v.storage v.read_in count
        (omega (arith, stored.count, count, size, length-take chunk src)) v.write_at
      ∙ ap (λ l. contents p ++ l) (take-min room chunk src size)),
)
  where
    room : ℕ
    room = pipe_buf_size - p.count

    chunk : ℕ
    chunk = chunk_of (length src) room

    size : chunk ≡ min room (length src)
    size = omega (arith, chunk_of-min (length src) room)

    bs : List ℕ
    bs = take chunk src

    stored : Stored bs p (copy_in bs p)
    stored = copy_in-Stored bs p (omega arith)

    count : u32 ((copy_in bs p).count + chunk) ≡ p.count + length bs
    count = omega (arith, stored.count, size, length-take chunk src)

-- A round of a write: from `q` to `q'` the first `k` bytes of `src` go behind the bytes of the pipe, as
-- many as there is room for, and both ends stay.
pub record Stores (src : List ℕ) (k : ℕ) (q q' : Pipe) : Type 0 where
  pub valid : IsValid q'
  pub some_byte : 0 < k
  pub as_many : k ≡ min (length src) (pipe_buf_size - q.count)
  pub appended : contents q' ≡ contents q ++ take k src
  pub readers : q'.readers ≡ q.readers
  pub writers : q'.writers ≡ q.writers

-- The course of a write with `done` bytes written and `src` to go. It ends with all bytes written; it
-- waits at a full pipe that has a reader; or it finds no reader, and ends with the number of the bytes
-- written, or with -1 if that is 0.
pub data Course : ℕ → List ℕ → Others → Pipe → Outcome Written → Type 0 where
  all_written :
      {done : ℕ} {others : Others} {p : Pipe}
      → Course done [] others p (returns (wrote done) p others)
  blocked :
      {done : ℕ} {src : List ℕ} {others : Others} {p q : Pipe}
      → Waited no_room others p [] q
      → q.count ≡ pipe_buf_size
      → 0 < q.readers
      → 0 < length src
      → Course done src others p (waiting q)
  stops :
      {done : ℕ} {src : List ℕ} {others rest : Others} {p q : Pipe}
      → Waited no_room others p rest q
      → q.readers ≡ 0
      → 0 < done
      → 0 < length src
      → Course done src others p (returns (wrote done) q rest)
  fails :
      {done : ℕ} {src : List ℕ} {others rest : Others} {p q : Pipe}
      → Waited no_room others p rest q
      → q.readers ≡ 0
      → done ≡ 0
      → 0 < length src
      → Course done src others p (returns broken q rest)
  round :
      {done k : ℕ} {src : List ℕ} {others rest : Others} {p q q' : Pipe} {o : Outcome Written}
      → Waited no_room others p rest q
      → 0 < q.readers
      → Stores src k q q'
      → Course (done + k) (drop k src) rest q' o
      → Course done src others p o

-- A round leaves both ends as they are.
write_now_ends :
    (src : List ℕ) {p : Pipe}
    → IsValid p
    → ((write_now src p).1.readers ≡ p.readers) × ((write_now src p).1.writers ≡ p.writers)
unfolding write_now
write_now_ends src {p} v =
    let st =
      copy_in-Stored (take (chunk_of (length src) (pipe_buf_size - p.count)) src) p (omega arith) in
    (st.readers, st.writers)

no_room_of_true : (p : Pipe) → no_room p ≡ true → (p.count ≡ pipe_buf_size) × (0 < p.readers)
unfolding no_room
no_room_of_true p e = ground arith

no_room_of_false : (p : Pipe) → no_room p ≡ false → p.readers ≢ 0 → p.count ≢ pipe_buf_size
unfolding no_room
no_room_of_false p e z = ground arith

resume-Course :
    (done : ℕ) (src : List ℕ) (others : Others) (p : Pipe) (k : Pipe → Others → Outcome Written)
    (o : Outcome (Unit {0}))
    → 0 < length src
    → Wait no_room others p o
    → ((q : Pipe) (rest : Others)
        → Ready no_room others p rest q
        → no_room q ≡ false
        → Course done src others p (k q rest))
    → Course done src others p (resume o k)
resume-Course done src others p k (waiting q) some_left (r, t) next =
    let full = no_room_of_true q t in blocked r.path full.0 full.1 some_left
resume-Course done src others p k (returns _ q rest) some_left (r, t) next = next q rest r t

-- with no reader left, the loop reports what it has written so far
closed : ℕ → Written
closed done = if ltb 0 done then wrote done else broken

closed-Course :
    (done b : ℕ) (bs : List ℕ) (others : Others) (p : Pipe) {q : Pipe} (rest : Others)
    → Waited no_room others p rest q
    → q.readers ≡ 0
    → Course done (b ∷ bs) others p (returns (closed done) q rest)
unfolding closed
closed-Course zero b bs others p rest w e = fails w e refl (omega arith)
closed-Course (suc n) b bs others p rest w e =
    rw (lt→ltb 0 (suc n) (omega arith)) (stops w e (omega arith) (omega arith))

write_now-Stores :
    (b : ℕ) (bs : List ℕ) {q : Pipe}
    → IsValid q
    → q.count ≢ pipe_buf_size
    → Stores (b ∷ bs) (write_now (b ∷ bs) q).0 q (write_now (b ∷ bs) q).1
write_now-Stores b bs {q} v open_ =
    let w = write_now_lem (b ∷ bs) v in
    record {
      valid = write_now-IsValid (b ∷ bs) v;
      some_byte = omega (arith, w.0, v.count_in);
      as_many = w.0;
      appended =
          w.1
          ∙ ap (λ l. contents q ++ l)
              (sym (take-min (pipe_buf_size - q.count) _ (b ∷ bs) (omega (arith, w.0))));
      readers = (write_now_ends (b ∷ bs) v).0;
      writers = (write_now_ends (b ∷ bs) v).1;
    }

write_loop-Course :
    (fuel done : ℕ) (src : List ℕ) (others : Others) {p : Pipe}
    → length src ≤ fuel
    → All Keeps others
    → IsValid p
    → Course done src others p (write_loop fuel done src others p)
unfolding write_loop closed
write_loop-Course fuel done [] others h keeps v = all_written
write_loop-Course zero done (b ∷ bs) others h keeps v = absurd (omega arith)
write_loop-Course (suc fuel) done (b ∷ bs) others {p} h keeps v =
    resume-Course done (b ∷ bs) others p _ (wait_while no_room others p) (omega arith)
      (wait_while-Wait no_room others keeps v)
      λ q rest r t. elim (Bool-cases (q.readers == 0)) [
        | inl e ↦ rw e (closed-Course done b bs others p rest r.path (==→eq q.readers 0 e))
        | inr e ↦
            let chunk = (write_now (b ∷ bs) q).0 in
            let st = write_now-Stores b bs r.valid (no_room_of_false q t (==→ne q.readers 0 e)) in
            rw e (
              round r.path (omega (arith, ==→ne q.readers 0 e)) st (
                write_loop-Course fuel (done + chunk) (drop chunk (b ∷ bs)) rest
                  (omega (arith, length-drop chunk (b ∷ bs), st.some_byte)) r.keeps
                  (write_now-IsValid (b ∷ bs) r.valid)))
      ]

-- From a valid pipe, and if what the other tasks do keeps it valid, `pipe_write` goes in rounds and
-- never runs out of them: each waits, while the pipe is full and has a reader, and then puts as many
-- of the bytes to go as there is room for, in order, behind the bytes of the pipe. The call blocks
-- only at a full pipe that has a reader. It returns the number of all bytes when they are written, and
-- otherwise at the first pipe after a wait that has no reader: then the number of the bytes written so
-- far, or -1 if there are none.
pub write-Course :
    (others : Others) (src : List ℕ) {p : Pipe}
    → All Keeps others
    → IsValid p
    → Course 0 src others p (write others p src)
unfolding write
write-Course others [] keeps v = all_written
write-Course others (b ∷ bs) {p} keeps v = elim (Bool-cases (p.readers == 0)) [
  | inl e ↦
      rw (ne→== (length (b ∷ bs)) 0 (omega arith), e)
        (fails stay (==→eq p.readers 0 e) refl (omega arith))
  | inr e ↦
      rw (ne→== (length (b ∷ bs)) 0 (omega arith), e)
        (write_loop-Course (length (b ∷ bs)) 0 (b ∷ bs) others (omega arith) keeps v)
]
