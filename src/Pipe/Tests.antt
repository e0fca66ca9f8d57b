-- ===== src/Pipe/Tests.antt =====
-- Runs of the pipe, and its theorems at concrete inputs.
use lighth_os.Common.{ℕ, ◌≡◌, refl, List, [], ◌∷◌, none, arith, length-replicate, replicate}
use lighth_os.Pipe.{
  Pipe, pipe_buf_size, close_reader, read, read_now, write, write_now, returns, wrote,
}
use lighth_os.Pipe.Inv.{IsValid, read_now-IsValid, write_now-IsValid}
use lighth_os.Pipe.Queue.{contents}
use lighth_os.Pipe.Reading.{Read, read-Read}
use lighth_os.Pipe.Writing.{Course, write-Course}
use lighth_os.Pipe.Transfer.{write_fits, read-write}

-- one reader, one writer, nothing buffered, near the end of the buffer
abbrev idle : Pipe
idle = record {
  buf = replicate pipe_buf_size 7;
  read_pos = 4095;
  write_pos = 4095;
  count = 0;
  readers = 1;
  writers = 1;
}

abbrev text : List ℕ
text = 104 ∷ 105 ∷ 10 ∷ []

idle-IsValid : IsValid idle
idle-IsValid = omega (arith, length-replicate {A = ℕ} pipe_buf_size 7)

last_reader : close_reader (record idle { writers = 0 }) ≡ none
unfolding close_reader
last_reader = refl

read-write_example :
    let q = (write_now text idle).1 in
    (write [] idle text ≡ returns (wrote 3) q [])
    × (read [] q 2 ≡ returns (104 ∷ 105 ∷ []) (read_now 2 q).1 [])
    × (contents (read_now 2 q).1 ≡ 10 ∷ [])
read-write_example =
    read-write [] text 2 idle-IsValid refl (omega arith) (omega arith) (omega arith) (omega arith)

-- the other task writes three bytes while the reader waits
read-Read_example :
    Read ((λ p. (write_now text p).1) ∷ []) idle 2 (read ((λ p. (write_now text p).1) ∷ []) idle 2)
read-Read_example =
    read-Read ((λ p. (write_now text p).1) ∷ []) 2 ((λ p v. write_now-IsValid text v), tt)
      idle-IsValid

write-Course_example :
    Course 0 text
      ((λ p. (read_now 1 p).1) ∷ [])
      idle
      (write ((λ p. (read_now 1 p).1) ∷ []) idle text)
write-Course_example =
    write-Course ((λ p. (read_now 1 p).1) ∷ []) text ((λ p v. read_now-IsValid 1 v), tt)
      idle-IsValid

write_fits_example :
    let q = (write_now text idle).1 in
    (write [] idle text ≡ returns (wrote 3) q []) × (contents q ≡ text)
unfolding contents
write_fits_example = write_fits [] text idle-IsValid (omega arith) (omega arith) (omega arith)

write_now-IsValid_test : IsValid (write_now text idle).1
write_now-IsValid_test = write_now-IsValid text idle-IsValid

read_now-IsValid_example : IsValid (read_now 5 idle).1
read_now-IsValid_example = read_now-IsValid 5 idle-IsValid
