-- ===== src/Pipe/Inv.antt =====
-- The representation invariant of `pipe_t`, and that the operations of pipe.c keep it.
use lighth_os.Common.{
  ℕ, zero, suc, ◌+◌, ◌-◌, ◌%◌, min, ◌≤◌, ◌<◌, ◌≡◌, ◌∙◌, ap, List, [], ◌∷◌, some, true, arith,
  length, length-set, length-take, length-replicate, take, set,
}
use lighth_os.Pipe.{
  Pipe, pipe_buf_size, create, add_reader, add_writer, close_reader, close_writer, copy_out,
  read_now, copy_in, write_now, chunk_of,
}

-- The buffer is whole, the positions are in it, and the write position is `count` bytes past the
-- read position, going round at the end.
pub record IsValid (p : Pipe) : Type 0 where
  pub storage : length p.buf ≡ pipe_buf_size
  pub read_in : p.read_pos < pipe_buf_size
  pub count_in : p.count ≤ pipe_buf_size
  pub write_at : p.write_pos ≡ (p.read_pos + p.count) % pipe_buf_size

pub create-IsValid : {p : Pipe} → create true ≡ some p → IsValid p
unfolding create
create-IsValid e = ground (arith, length-replicate {A = ℕ} pipe_buf_size 0)

pub add_reader-IsValid : {p : Pipe} → IsValid p → IsValid (add_reader p)
unfolding add_reader
add_reader-IsValid v = omega arith

pub add_writer-IsValid : {p : Pipe} → IsValid p → IsValid (add_writer p)
unfolding add_writer
add_writer-IsValid v = omega arith

pub close_reader-IsValid : {p p' : Pipe} → IsValid p → close_reader p ≡ some p' → IsValid p'
unfolding close_reader
close_reader-IsValid v e = ground arith

pub close_writer-IsValid : {p p' : Pipe} → IsValid p → close_writer p ≡ some p' → IsValid p'
unfolding close_writer
close_writer-IsValid v e = ground arith

-- what the copy loop of `pipe_read` leaves of the pipe
pub copy_out_pipe :
    (k : ℕ) (p : Pipe)
    → p.read_pos < pipe_buf_size
    → (copy_out k p).1 ≡ record p { read_pos = (p.read_pos + k) % pipe_buf_size }
unfolding copy_out
copy_out_pipe zero p h = ap (λ r. record p { read_pos = r }) (omega arith)
copy_out_pipe (suc k) p h =
    copy_out_pipe k (record p { read_pos = (p.read_pos + 1) % pipe_buf_size }) (omega arith)
    ∙ ap (λ r. record p { read_pos = r }) (omega arith)

-- what the copy loop of `pipe_write` leaves alone, and where it stops
pub record Stored (bs : List ℕ) (p q : Pipe) : Type 0 where
  pub storage : length q.buf ≡ length p.buf
  pub read_pos : q.read_pos ≡ p.read_pos
  pub count : q.count ≡ p.count
  pub readers : q.readers ≡ p.readers
  pub writers : q.writers ≡ p.writers
  pub write_pos : q.write_pos ≡ (p.write_pos + length bs) % pipe_buf_size

pub copy_in-Stored :
    (bs : List ℕ) (p : Pipe) → p.write_pos < pipe_buf_size → Stored bs p (copy_in bs p)
unfolding copy_in
copy_in-Stored [] p h = omega arith
copy_in-Stored (b ∷ bs) p h = omega (
  arith,
  length-set p.buf p.write_pos b,
  copy_in-Stored bs
      (record p { buf = set p.buf p.write_pos b; write_pos = (p.write_pos + 1) % pipe_buf_size })
      (omega arith),
)

pub chunk_of-min : (a b : ℕ) → chunk_of a b ≡ min a b
unfolding chunk_of
chunk_of-min a b = ground arith

-- `pipe_read` keeps the invariant, whatever it is asked for.
pub read_now-IsValid : (n : ℕ) {p : Pipe} → IsValid p → IsValid (read_now n p).1
unfolding read_now
read_now-IsValid n {p} v =
    ground (arith, chunk_of-min n p.count, copy_out_pipe (chunk_of n p.count) p v.read_in)

-- `pipe_write` keeps the invariant in each round.
pub write_now-IsValid : (src : List ℕ) {p : Pipe} → IsValid p → IsValid (write_now src p).1
unfolding write_now
write_now-IsValid src {p} v =
    let chunk = chunk_of (length src) (pipe_buf_size - p.count) in
    omega (
      arith,
      chunk_of-min (length src) (pipe_buf_size - p.count),
      copy_in-Stored (take chunk src) p (omega arith),
      length-take chunk src,
    )
