-- ===== src/Fds.antt =====
-- src/kernel/process.c, the descriptors of a process: the table `fds`, and the calls that take a
-- descriptor to a file, a pipe or the console. A pointer to a pipe is its place in the list of all
-- pipes; none stands for one that has been freed.
pub mod Refs
pub mod Counted
pub mod Opening
pub mod Bytes
pub mod Sequence
mod Tests
use lighth_os.CString.{ℤ, pos, negsuc, strncpy}
use lighth_os.Pipe
use lighth_os.Pipe.{Pipe, Others, Outcome, waiting, returns, Written, wrote, broken, out_of_fuel}
use lighth_os.Common.Bits.{bit}
use lighth_os.Common.{
  ℕ, zero, suc, ◌+◌, ◌-◌, ◌%◌, ◌^◌, Bool, true, false, ◌&&◌, ◌||◌, not, Option, none, some, List,
  [], ◌∷◌, ◌++◌, ◌==◌, ltb, leb, if◌then◌else◌, get_or, set, length, replicate,
}

abbrev pub fd_max : ℕ
fd_max = 16

-- `fd_type_t`, but `none` is a name of the options
pub data FdType : Type 0 where
  unused : FdType
  console : FdType
  file : FdType
  pipe_read : FdType
  pipe_write : FdType

-- `fd_entry_t`
pub record Fd : Type 0 where
  pub kind : FdType
  pub path : List ℕ
  pub offset : ℕ
  pub flags : ℕ
  pub pipe : Option ℕ

-- the descriptors of the current process, and the pipes of the kernel
pub record Files : Type 0 where
  pub fds : List Fd
  pub pipes : List (Option Pipe)

-- an entry that `fd_drop_ref` has cleared
abbrev pub no_fd : Fd
no_fd = record { kind = unused; path = replicate 256 0; offset = 0; flags = 0; pipe = none }

pub is_unused : FdType → Bool
is_unused unused = true
is_unused _ = false

pub is_console : FdType → Bool
is_console console = true
is_console _ = false

abbrev pub fd_at : ℕ → Files → Fd
fd_at fd s = get_or s.fds fd no_fd

abbrev pub pipe_at : Option ℕ → List (Option Pipe) → Option Pipe
pipe_at none pipes = none
pipe_at (some q) pipes = get_or pipes q none

-- a call on a pipe that leaves it, or frees it
pub change_found : (Pipe → Option Pipe) → ℕ → Option Pipe → List (Option Pipe) → List (Option Pipe)
change_found f q none pipes = pipes
change_found f q (some p) pipes = set pipes q (f p)

pub change_pipe : (Pipe → Option Pipe) → Option ℕ → List (Option Pipe) → List (Option Pipe)
change_pipe f none pipes = pipes
change_pipe f (some q) pipes = change_found f q (get_or pipes q none) pipes

-- `fd_drop_ref`, on the pipes
unfoldable pub drop_pipe : FdType → Option ℕ → List (Option Pipe) → List (Option Pipe)
drop_pipe pipe_read pipe pipes = change_pipe Pipe.close_reader pipe pipes
drop_pipe pipe_write pipe pipes = change_pipe Pipe.close_writer pipe pipes
drop_pipe _ pipe pipes = pipes

-- `fd_drop_ref`; only the first byte of the path is cleared.
unfoldable pub drop_ref : ℕ → Files → Files
drop_ref fd s = record {
  fds = set s.fds fd (record no_fd { path = set (fd_at fd s).path 0 0 });
  pipes = drop_pipe (fd_at fd s).kind (fd_at fd s).pipe s.pipes;
}

-- `fd_close`: whether it succeeds. A descriptor is not negative here.
unfoldable pub close : ℕ → Files → Bool × Files
close fd s =
    if leb fd_max fd
    then (false, s)
    else if is_unused (fd_at fd s).kind
    then (false, s)
    else if is_console (fd_at fd s).kind
    then (true, s)
    else (true, drop_ref fd s)

-- the first unused entry, from entry `i` on
unfoldable pub find_unused : List Fd → ℕ → Option ℕ
find_unused [] i = none
find_unused (e ∷ fds) i =
    let rest = find_unused fds (i + 1) in if leb 3 i && is_unused e.kind then some i else rest

pub with_second : ℕ → Option ℕ → Option (ℕ × ℕ)
with_second r none = none
with_second r (some w) = some (r, w)

-- the first two, as the loop of `fd_pipe` finds them
unfoldable pub find_two : List Fd → ℕ → Option (ℕ × ℕ)
find_two [] i = none
find_two (e ∷ fds) i =
    let rest = find_two fds (i + 1) in
    if leb 3 i && is_unused e.kind then with_second i (find_unused fds (i + 1)) else rest

-- an entry for an end of pipe `q`
pub end_of : FdType → ℕ → Fd → Fd
end_of kind q e = record e { kind = kind; pipe = some q }

-- `fd_pipe` behind its search and `pipe_create`
unfoldable pub with_pipe : Option (ℕ × ℕ) → Option Pipe → Files → Option (ℕ × ℕ) × Files
with_pipe none p s = (none, s)
with_pipe (some (r, w)) none s = (none, s)
with_pipe (some (r, w)) (some p) s = (
  some (r, w),
  record {
    fds =
        set (set s.fds r (end_of pipe_read (length s.pipes) (fd_at r s))) w
          (end_of pipe_write (length s.pipes) (fd_at w s));
    pipes = s.pipes ++ some (Pipe.add_writer (Pipe.add_reader p)) ∷ [];
  },
)

-- `fd_pipe`; `room` says whether `kmalloc` finds room for the pipe.
unfoldable pub open_pipe : Bool → Files → Option (ℕ × ℕ) × Files
open_pipe room s = with_pipe (find_two s.fds 0) (Pipe.create room) s

-- whether `fd_dup2` drops the old entry
pub is_dropped : FdType → Bool
is_dropped file = true
is_dropped pipe_read = true
is_dropped pipe_write = true
is_dropped _ = false

-- the last lines of `fd_dup2`, on the pipes
unfoldable pub share_pipe : FdType → Option ℕ → List (Option Pipe) → List (Option Pipe)
share_pipe pipe_read pipe pipes = change_pipe (λ p. some (Pipe.add_reader p)) pipe pipes
share_pipe pipe_write pipe pipes = change_pipe (λ p. some (Pipe.add_writer p)) pipe pipes
share_pipe _ pipe pipes = pipes

-- `fd_dup2`, behind its tests
unfoldable pub duplicate : ℕ → ℕ → Files → Files
duplicate oldfd newfd s =
    let s' = if is_dropped (fd_at newfd s).kind then drop_ref newfd s else s in
    record {
      fds = set s'.fds newfd (fd_at oldfd s');
      pipes = share_pipe (fd_at oldfd s').kind (fd_at oldfd s').pipe s'.pipes;
    }

-- `fd_dup2`
unfoldable pub dup2 : ℕ → ℕ → Files → Option ℕ × Files
dup2 oldfd newfd s =
    if leb fd_max oldfd || leb fd_max newfd
    then (none, s)
    else if is_unused (fd_at oldfd s).kind
    then (none, s)
    else if oldfd == newfd
    then (some newfd, s)
    else (some newfd, duplicate oldfd newfd s)
