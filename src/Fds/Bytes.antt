-- ===== src/Fds/Bytes.antt =====
-- src/kernel/process.c: the calls that open, read, write and move along what a descriptor stands for.
-- The console is an interface, the record `Console`, over its state `Tty`.
use lighth_os.CString.{ℤ, pos, negsuc, strncpy}
use lighth_os.Pipe
use lighth_os.Pipe.{Pipe, Others, Outcome, Written}
use lighth_os.Vfs.{Ops, Mount, Stat, vfs_max_path}
use lighth_os.Vfs.Calls as Calls
use lighth_os.Common.Bits.{bit}
use lighth_os.Fds.{
  FdType, unused, console, file, pipe_read, pipe_write, Fd, Files, fd_max, fd_at, pipe_at,
  find_unused,
}
use lighth_os.Common.{
  ℕ, zero, suc, ◌+◌, ◌-◌, ◌%◌, ◌^◌, Bool, true, false, Option, none, some, List, [], ◌∷◌, ◌==◌, ltb,
  leb, if◌then◌else◌, set, length,
}

-- `(off_t)` of a `uint64_t`, and back
unfoldable pub to_off : ℕ → ℤ
to_off n = if ltb n (2 ^ 63) then pos n else negsuc (2 ^ 64 - 1 - n)

unfoldable pub of_off : ℤ → ℕ
of_off (pos n) = n % 2 ^ 64
of_off (negsuc n) = 2 ^ 64 - 1 - n % 2 ^ 64

-- console_read for one byte, and console_write
pub record Console (Tty : Type 0) : Type 0 where
  pub read_byte : Tty → Option ℕ × Tty
  pub write_bytes : List ℕ → Tty → ℕ × Tty

-- What a call does: it fails, in a file system that may have changed, or it leaves the table, the file system, the console or a pipe changed.
pub data Reply (Fs Tty A : Type 0) : Type 0 where
  failed : Reply Fs Tty A
  failed_on : Fs → Reply Fs Tty A
  on_file : A → Files → Fs → Reply Fs Tty A
  on_console : A → Tty → Reply Fs Tty A
  on_pipe : Option ℕ → Outcome A → Reply Fs Tty A

-- `r > 0 ? e->offset += r`
unfoldable pub move_on : ℕ → ℕ → Files → Files
move_on fd r s = record s {
  fds = set s.fds fd (record (fd_at fd s) { offset = ((fd_at fd s).offset + r) % 2 ^ 64 });
}

-- the loop of `fd_read` on the console: up to `n` bytes, or the end of a line
unfoldable pub read_line : {Tty : Type 0} → Console Tty → ℕ → Tty → List ℕ × Tty
read_line con zero tty = ([], tty)
read_line con (suc n) tty =
    let r = con.read_byte tty in
    let rest = read_line con n r.1 in
    elim r.0 [ none ↦ ([], r.1) | some c ↦ if c == 10 then (c ∷ [], r.1) else (c ∷ rest.0, rest.1) ]

module _ {Fs Node Tty : Type 0} (ops : Node → Ops Fs Node) (ms : List (Mount Node))
    (con : Console Tty) where
  unfoldable pub read_reply : ℕ → Files → Fs → Option (List ℕ) → Reply Fs Tty (List ℕ)
  read_reply fd s fs none = failed
  read_reply fd s fs (some bytes) = on_file bytes (move_on fd (length bytes) s) fs

  pub read_pipe : Others → Option ℕ → Option Pipe → ℕ → Reply Fs Tty (List ℕ)
  read_pipe others q none n = failed
  read_pipe others q (some p) n = on_pipe q (Pipe.read others p n)

  -- `fd_read`, for an entry of the table
  unfoldable pub read_entry : Others → FdType → ℕ → ℕ → Files → Fs → Tty → Reply Fs Tty (List ℕ)
  read_entry others console fd n s fs tty = let r = read_line con n tty in on_console r.0 r.1
  read_entry others file fd n s fs tty =
      read_reply fd s fs (Calls.read ops ms (fd_at fd s).path n (to_off (fd_at fd s).offset) fs)
  read_entry others pipe_read fd n s fs tty =
      read_pipe others (fd_at fd s).pipe (pipe_at (fd_at fd s).pipe s.pipes) n
  read_entry others pipe_write fd n s fs tty = failed
  read_entry others unused fd n s fs tty = failed

  -- `fd_read`; a descriptor is not negative here, nor in the calls below.
  unfoldable pub read : Others → ℕ → ℕ → Files → Fs → Tty → Reply Fs Tty (List ℕ)
  read others fd n s fs tty =
      if leb fd_max fd then failed else read_entry others (fd_at fd s).kind fd n s fs tty

  unfoldable pub write_reply : ℕ → Files → Option ℕ × Fs → Reply Fs Tty Written
  write_reply fd s (none, fs) = failed_on fs
  write_reply fd s (some r, fs) = on_file (Written.wrote r) (move_on fd r s) fs

  pub write_pipe : Others → Option ℕ → Option Pipe → List ℕ → Reply Fs Tty Written
  write_pipe others q none bytes = failed
  write_pipe others q (some p) bytes = on_pipe q (Pipe.write others p bytes)

  unfoldable pub write_entry :
      Others → FdType → ℕ → List ℕ → Files → Fs → Tty → Reply Fs Tty Written
  write_entry others console fd bytes s fs tty =
      let r = con.write_bytes bytes tty in on_console (Written.wrote r.0) r.1
  write_entry others file fd bytes s fs tty =
      write_reply fd s (Calls.write ops ms (fd_at fd s).path bytes (to_off (fd_at fd s).offset) fs)
  write_entry others pipe_write fd bytes s fs tty =
      write_pipe others (fd_at fd s).pipe (pipe_at (fd_at fd s).pipe s.pipes) bytes
  write_entry others pipe_read fd bytes s fs tty = failed
  write_entry others unused fd bytes s fs tty = failed

  -- `fd_write`
  unfoldable pub write : Others → ℕ → List ℕ → Files → Fs → Tty → Reply Fs Tty Written
  write others fd bytes s fs tty =
      if leb fd_max fd then failed else write_entry others (fd_at fd s).kind fd bytes s fs tty

  pub is_file : FdType → Bool
  is_file file = true
  is_file _ = false

  -- `new_off` of `fd_lseek`; none is -1.
  unfoldable pub new_offset : ℕ → ℤ → ℕ → Option Stat → Option ℕ
  new_offset offset off zero st = some (of_off off)
  new_offset offset off (suc zero) st = some ((offset + of_off off) % 2 ^ 64)
  new_offset offset off (suc (suc zero)) none = none
  new_offset offset off (suc (suc zero)) (some st) = some ((st.size + of_off off) % 2 ^ 64)
  new_offset offset off (suc (suc (suc whence))) st = none

  unfoldable pub seek_to : ℕ → Files → Option ℕ → Option ℤ × Files
  seek_to fd s none = (none, s)
  seek_to fd s (some n) =
      (some (to_off n), record s { fds = set s.fds fd (record (fd_at fd s) { offset = n }) })

  -- `fd_lseek`
  unfoldable pub lseek : ℕ → ℤ → ℕ → Files → Fs → Option ℤ × Files
  lseek fd off whence s fs =
      if leb fd_max fd
      then (none, s)
      else if is_file (fd_at fd s).kind
      then seek_to fd s
          (new_offset (fd_at fd s).offset off whence (Calls.stat ops ms (fd_at fd s).path fs))
      else (none, s)

  -- the entry that `fd_open` fills; bit 10 of the flags is O_APPEND.
  pub opened : List ℕ → ℕ → Stat → Fd → Fd
  opened path flags st e = record e {
    kind = file;
    path = set (strncpy e.path path (vfs_max_path - 1)) (vfs_max_path - 1) 0;
    offset = if bit flags 10 then st.size else 0;
    flags = flags;
  }

  -- the loop of `fd_open`, with what vfs_stat has returned
  unfoldable pub open_at : List ℕ → ℕ → Option Stat → Option ℕ → Files → Option ℕ × Files
  open_at path flags none slot s = (none, s)
  open_at path flags (some st) none s = (none, s)
  open_at path flags (some st) (some i) s =
      (some i, record s { fds = set s.fds i (opened path flags st (fd_at i s)) })

  -- `fd_open` up to its loop: the file, and the file system; bit 6 is O_CREAT and bit 9 O_TRUNC.
  unfoldable pub create_and_stat : List ℕ → Fs → Option Stat × Fs
  create_and_stat path fs =
      let made = Calls.create ops ms path 1 fs in
      (if made.0 then Calls.stat ops ms path made.1 else none, made.1)

  unfoldable pub prepare : List ℕ → ℕ → Option Stat → Fs → Option Stat × Fs
  prepare path flags none fs = if bit flags 6 then create_and_stat path fs else (none, fs)
  prepare path flags (some st) fs =
      if bit flags 9 then create_and_stat path (Calls.unlink ops ms path fs).1 else (some st, fs)

  -- `fd_open`: the descriptor
  unfoldable pub open_file : List ℕ → ℕ → Files → Fs → Option ℕ × Files × Fs
  open_file path flags s fs =
      let ready = prepare path flags (Calls.stat ops ms path fs) fs in
      let r = open_at path flags ready.0 (find_unused s.fds 0) s in (r.0, r.1, ready.1)
