-- ===== src/Fds/Tests.antt =====
-- Runs of the calls on descriptors.
use lighth_os.Pipe
use lighth_os.Pipe.{Pipe}
use lighth_os.CString.{ℤ, pos, negsuc, strncmp, strlen, is_zero, byte_diff}
use lighth_os.Vfs.Calls as Calls
use lighth_os.Vfs.{Ops, Mount, resolve, find_mount, find_from, covers, remainder, walk}
use lighth_os.Fds.Bytes.{Console}
use lighth_os.Fds.Sequence.{Holds, Continues, read-Continues}
use lighth_os.Fds.Refs.{reads_at, writes_at, count, Agrees, IsCounted}
use lighth_os.Fds.Opening.{Call, closes, dup2s, pipes, run, run-IsCounted}
use lighth_os.Fds.{
  is_unused, with_pipe, find_two, with_second, find_unused, end_of, duplicate, is_dropped,
  is_console, drop_ref, drop_pipe, change_pipe, change_found, share_pipe, pipe_at, file, console,
  Fd, Files, no_fd, close, dup2, open_pipe,
}
use lighth_os.Common.{
  ℕ, ◌≡◌, refl, arith, true, Option, some, none, List, [], ◌∷◌, replicate, take, drop, length,
}

-- the table of a fresh process
abbrev fresh : Files
fresh =
    let tty : Fd = record no_fd { kind = console } in
    record { fds = tty ∷ tty ∷ tty ∷ replicate 13 no_fd; pipes = [] }

fresh-IsCounted : IsCounted (λ _. 0) (λ _. 0) fresh
unfolding replicate count reads_at writes_at Agrees
fresh-IsCounted = record {
  sized = refl;
  agrees = λ q. (refl, refl);
  few_r = λ q. omega arith;
  few_w = λ q. omega arith;
}

-- a shell's redirection of its output into a pipe
abbrev redirect : List Call
redirect = pipes true ∷ dup2s 4 1 ∷ closes 4 ∷ closes 3 ∷ []

abbrev counts : Option Pipe → ℕ × ℕ
counts none = (0, 0)
counts (some p) = (p.readers, p.writers)

counts-redirect : counts (pipe_at (some 0) (run redirect fresh).pipes) ≡ (0, 1)
unfolding close dup2 open_pipe is_unused with_pipe find_two replicate with_second find_unused
    Pipe.create end_of duplicate is_dropped is_console drop_ref drop_pipe change_pipe change_found
    share_pipe Pipe.add_writer Pipe.close_writer Pipe.close_reader Pipe.maybe_free Pipe.add_reader
counts-redirect = refl

run-IsCounted_example : IsCounted (λ _. 0) (λ _. 0) (run redirect fresh)
run-IsCounted_example = run-IsCounted (λ _. 0) (λ _. 0) redirect fresh fresh-IsCounted

-- a file system with one file, the root
read_at : ℕ → ℤ → List ℕ → Option (List ℕ)
read_at size (pos o) fs = some (take size (drop o fs))
read_at size (negsuc o) fs = none

abbrev one_file : Unit {0} → Ops (List ℕ) (Unit {0})
one_file _ = record {
  op_read = some (λ node size offset fs. read_at size offset fs);
  op_write = none;
  op_readdir = none;
  op_finddir = none;
  op_create = none;
  op_unlink = none;
  op_stat = none;
  op_mkdir = none;
}

abbrev root_mount : List (Mount (Unit {0}))
root_mount = record { mount_point = 47 ∷ []; root = tt; in_use = true } ∷ []

abbrev silent : Console (Unit {0})
silent = record { read_byte = λ tty. (none, tty); write_bytes = λ bytes tty. (0, tty) }

abbrev reading : Files
reading =
    let f : Fd = record no_fd { kind = file; path = 47 ∷ 0 ∷ [] } in
    record { fds = no_fd ∷ no_fd ∷ no_fd ∷ f ∷ replicate 12 no_fd; pipes = [] }

root-Holds : Holds one_file root_mount silent (47 ∷ 0 ∷ []) (1 ∷ 2 ∷ 3 ∷ []) (1 ∷ 2 ∷ 3 ∷ [])
unfolding Holds Calls.read resolve find_mount find_from covers strncmp strlen is_zero byte_diff
    remainder walk read_at
root-Holds n o = refl

length-reading : length reading.fds ≡ 16
unfolding replicate
length-reading = refl

read-Continues_example : Continues one_file root_mount silent [] 3 1 5 reading (1 ∷ 2 ∷ 3 ∷ []) tt
read-Continues_example =
    read-Continues one_file root_mount silent [] 3 1 5 reading (1 ∷ 2 ∷ 3 ∷ []) tt (1 ∷ 2 ∷ 3 ∷ [])
      length-reading (omega arith) refl (omega arith) (omega arith) root-Holds
