-- ===== src/Pipe/Transfer.antt =====
-- Bytes that go into a pipe come out of it.
use lighth_os.Common.{
  ℕ, ◌+◌, ◌≤◌, ◌<◌, ◌≡◌, refl, ◌∙◌, ap, List, [], ◌∷◌, ◌++◌, arith, length, take, drop, take-all,
  drop-all, false, ne→==,
}
use native.Mathlib.Nat.{zero-add}
use lighth_os.Pipe.{
  Pipe, pipe_buf_size, read, read_now, write, write_now, write_loop, Others, returns, no_room,
  no_data, wrote,
}
use lighth_os.Pipe.Inv.{IsValid, write_now-IsValid}
use lighth_os.Pipe.Waiting.{wait_while-now}
use lighth_os.Pipe.Queue.{contents, contents_empty, length-contents}
use lighth_os.Pipe.Reading.{read_now_lem}
use lighth_os.Pipe.Writing.{write_now_lem}

room_now : (p : Pipe) → p.count < pipe_buf_size → no_room p ≡ false
unfolding no_room
room_now p h = ground arith

data_now : (p : Pipe) → 0 < p.count → no_data p ≡ false
unfolding no_data
data_now p h = ground arith

-- Bytes that fit are all written at once, with no yield, and queue behind what the pipe holds.
pub write_fits :
    (others : Others) (src : List ℕ) {p : Pipe}
    → IsValid p
    → 0 < length src
    → p.count + length src ≤ pipe_buf_size
    → 0 < p.readers
    → let q = (write_now src p).1 in
      (write others p src ≡ returns (wrote (length src)) q others)
      × (contents q ≡ contents p ++ src)
unfolding write write_loop
write_fits others [] v h room r = absurd (omega arith)
write_fits others (b ∷ bs) {p} v h room r =
    let (size, held) = write_now_lem (b ∷ bs) v in
    let whole : (write_now (b ∷ bs) p).0 ≡ length (b ∷ bs) = omega (arith, size) in
    (
      rw
          (
            ne→== (length (b ∷ bs)) 0 (omega arith),
            ne→== p.readers 0 (omega arith),
            wait_while-now no_room others p (room_now p (omega arith)),
            ne→== p.readers 0 (omega arith),
            whole,
            drop-all (length (b ∷ bs)) (b ∷ bs) (omega arith),
            zero-add,
          )
          refl,
      held ∙ ap (λ l. contents p ++ l) (take-all _ (b ∷ bs) (omega arith)),
    )

-- With bytes in the pipe, a read returns at once with the oldest ones.
read_ready :
    (others : Others) (n : ℕ) {p : Pipe}
    → IsValid p
    → 0 < n
    → 0 < p.count
    → read others p n ≡ returns (take n (contents p)) (read_now n p).1 others
unfolding read
read_ready others n {p} v hn hc =
    rw
      (
        ne→== n 0 (omega arith),
        wait_while-now no_data others p (data_now p hc),
        (read_now_lem n v).0,
      )
      refl

-- What is written into an empty pipe, up to its capacity, comes out of it unchanged: a read of
-- `n` bytes gets the first `n` of them, and leaves the others in order.
pub read-write :
    (others : Others) (src : List ℕ) (n : ℕ) {p : Pipe}
    → IsValid p
    → p.count ≡ 0
    → 0 < p.readers
    → 0 < length src
    → length src ≤ pipe_buf_size
    → 0 < n
    → let q = (write_now src p).1 in
      (write others p src ≡ returns (wrote (length src)) q others)
      × (read others q n ≡ returns (take n src) (read_now n q).1 others)
      × (contents (read_now n q).1 ≡ drop n src)
read-write others src n {p} v z r some_src room hn =
    let q = (write_now src p).1 in
    let q-IsValid = write_now-IsValid src v in
    let (sent, held) = write_fits others src v some_src (omega arith) r in
    let all : contents q ≡ src = held ∙ ap (λ l. l ++ src) (contents_empty p z) in
    let size : 0 < q.count = omega (arith, length-contents q, ap (length {A = ℕ}) all) in
    (
      sent,
      read_ready others n q-IsValid hn size
          ∙ ap (λ l. returns (take n l) (read_now n q).1 others) all,
      (read_now_lem n q-IsValid).1 ∙ ap (drop n) all,
    )
