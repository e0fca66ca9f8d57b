-- ===== src/Pipe.antt =====
-- src/kernel/pipe.c and pipe.h: the pipe. `readers` and `writers` count descriptors and wrap like
-- the `uint32_t` that they are; a byte is any number, since the code only moves it.
pub mod Inv
pub mod Queue
pub mod Waiting
pub mod Reading
pub mod Writing
pub mod Transfer
mod Tests
use lighth_os.Common.{
  ℕ, zero, suc, ◌+◌, ◌-◌, ◌%◌, ◌^◌, min, Bool, true, false, ◌&&◌, Option, none, some, List, [], ◌∷◌,
  ◌==◌, ltb, if◌then◌else◌, get_or, set, take, drop, length, replicate,
}

abbrev pub pipe_buf_size : ℕ
pipe_buf_size = 4096

pub record Pipe : Type 0 where
  pub buf : List ℕ
  pub read_pos : ℕ
  pub write_pos : ℕ
  pub count : ℕ
  pub readers : ℕ
  pub writers : ℕ

abbrev pub u32 : ℕ → ℕ
u32 n = n % 2 ^ 32

-- `pipe_create`; the argument says whether `kmalloc` found room.
unfoldable pub create : Bool → Option Pipe
create room =
    if room
    then some (record {
      buf = replicate pipe_buf_size 0;
      read_pos = 0;
      write_pos = 0;
      count = 0;
      readers = 0;
      writers = 0;
    })
    else none

unfoldable pub add_reader : Pipe → Pipe
add_reader p = record p { readers = u32 (p.readers + 1) }

unfoldable pub add_writer : Pipe → Pipe
add_writer p = record p { writers = u32 (p.writers + 1) }

-- `pipe_maybe_free`: none when the pipe has been given back to the heap
unfoldable pub maybe_free : Pipe → Option Pipe
maybe_free p = if p.readers == 0 && p.writers == 0 then none else some p

unfoldable pub close_reader : Pipe → Option Pipe
unfolding maybe_free
close_reader p = maybe_free (if ltb 0 p.readers then record p { readers = p.readers - 1 } else p)

unfoldable pub close_writer : Pipe → Option Pipe
unfolding maybe_free
close_writer p = maybe_free (if ltb 0 p.writers then record p { writers = p.writers - 1 } else p)

-- What the other tasks make of the pipe during each `task_yield`, in order.
abbrev pub Others : Type 0
Others = List (Pipe → Pipe)

-- `waiting`: the task yields once more, and the others have nothing further to do.
pub data Outcome (A : Type 0) : Type 0 where
  waiting : Pipe → Outcome A
  returns : A → Pipe → Others → Outcome A

-- `while (test) task_yield();`
pub wait_while : (Pipe → Bool) → Others → Pipe → Outcome (Unit {0})
wait_while test [] p = if test p then waiting p else returns tt p []
wait_while test (f ∷ others) p =
    let rest = wait_while test others (f p) in if test p then rest else returns tt p (f ∷ others)

-- the rest of a system call, behind a wait
abbrev pub resume : {A : Type 0} → Outcome (Unit {0}) → (Pipe → Others → Outcome A) → Outcome A
resume (waiting p) k = waiting p
resume (returns _ p others) k = k p others

pub no_data : Pipe → Bool
no_data p = p.count == 0 && ltb 0 p.writers

pub no_room : Pipe → Bool
no_room p = p.count == pipe_buf_size && ltb 0 p.readers

-- `a < b ? a : b`, the size of the chunk that is copied
pub chunk_of : ℕ → ℕ → ℕ
chunk_of a b = if ltb a b then a else b

-- the copy loop of `pipe_read`: the bytes read, and the pipe with its `read_pos` moved
pub copy_out : ℕ → Pipe → List ℕ × Pipe
copy_out zero p = ([], p)
copy_out (suc k) p =
    let (bytes, p') = copy_out k (record p { read_pos = (p.read_pos + 1) % pipe_buf_size }) in
    (get_or p.buf p.read_pos 0 ∷ bytes, p')

-- the part of `pipe_read` behind the wait
pub read_now : ℕ → Pipe → List ℕ × Pipe
read_now n p =
    let chunk = chunk_of n p.count in
    let (bytes, p') = copy_out chunk p in
    if p.count == 0 then ([], p) else (bytes, record p' { count = p'.count - chunk })

-- `pipe_read`: the bytes that arrive in the caller's buffer; the call returns their number.
pub read : Others → Pipe → ℕ → Outcome (List ℕ)
read others p n =
    if n == 0
    then returns [] p others
    else resume (wait_while no_data others p)
        (λ p' rest. returns (read_now n p').0 (read_now n p').1 rest)

-- the copy loop of `pipe_write`
pub copy_in : List ℕ → Pipe → Pipe
copy_in [] p = p
copy_in (b ∷ bs) p =
    copy_in bs
      (record p { buf = set p.buf p.write_pos b; write_pos = (p.write_pos + 1) % pipe_buf_size })

-- one round of `pipe_write` behind the wait: what is stored, and the pipe
pub write_now : List ℕ → Pipe → ℕ × Pipe
write_now src p =
    let chunk = chunk_of (length src) (pipe_buf_size - p.count) in
    let p' = copy_in (take chunk src) p in (chunk, record p' { count = u32 (p'.count + chunk) })

-- the result of `pipe_write`: a number of bytes, or -1
pub data Written : Type 0 where
  wrote : ℕ → Written
  broken : Written
  out_of_fuel : Written

-- `while (done < n) { … }`, on fuel; `src` is what is still to be written.
pub write_loop : ℕ → ℕ → List ℕ → Others → Pipe → Outcome Written
write_loop fuel done [] others p = returns (wrote done) p others
write_loop zero done (b ∷ bs) others p = returns out_of_fuel p others
write_loop (suc fuel) done (b ∷ bs) others p = resume (wait_while no_room others p) λ p' rest.
    let next =
      write_loop fuel (done + (write_now (b ∷ bs) p').0) (drop (write_now (b ∷ bs) p').0 (b ∷ bs))
        rest (write_now (b ∷ bs) p').1 in
    if p'.readers == 0 then returns (if ltb 0 done then wrote done else broken) p' rest else next

-- `pipe_write`: each round stores a byte or more, so as many rounds as bytes are enough.
pub write : Others → Pipe → List ℕ → Outcome Written
unfolding write_loop
write others p src =
    if length src == 0
    then returns (wrote 0) p others
    else if p.readers == 0
    then returns broken p others
    else write_loop (length src) 0 src others p
