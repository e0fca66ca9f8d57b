-- ===== src/Fds/Sequence.antt =====
-- src/kernel/process.c: two reads of a file in a row give what one read of both sizes gives.
use lighth_os.CString.{pos}
use lighth_os.Pipe.{Others}
use lighth_os.Vfs.{Ops, Mount}
use lighth_os.Vfs.Calls as Calls
use lighth_os.Fds.{file, Fd, Files, fd_max, fd_at, no_fd}
use lighth_os.Fds.Bytes.{to_off, Console, on_file, move_on, read_reply, read_entry, read}
use lighth_os.Common.{
  ℕ, zero, suc, ◌+◌, ◌%◌, ◌^◌, ◌<◌, ◌≡◌, refl, ap, sym, subst, ◌∙◌, false, some, List, [], ◌∷◌,
  ◌++◌, leb, set, take, drop, length, arith, length-append, length-take, length-drop,
  get_or-set_self, lt→ltb,
}

take_more :
    (n m : ℕ) (d : List ℕ) → take (n + m) d ≡ take n d ++ take m (drop (length (take n d)) d)
take_more zero m d = ap (λ k. take k d) {y = m} (omega arith)
take_more (suc n) m [] = ap (λ k. take k []) {y = suc (n + m)} (omega arith) ∙ sym (nothing m)
  where
    nothing : (m : ℕ) → take {A = ℕ} m [] ≡ []
    nothing zero = refl
    nothing (suc m) = refl
take_more (suc n) m (x ∷ d) =
    ap (λ k. take k (x ∷ d)) {y = suc (n + m)} (omega arith) ∙ ap (λ l. x ∷ l) (take_more n m d)

drop_more : (o k : ℕ) (c : List ℕ) → drop (o + k) c ≡ drop k (drop o c)
drop_more zero k c = ap (λ n. drop n c) {y = k} (omega arith)
drop_more (suc o) k [] = ap (λ n. drop n []) {y = suc (o + k)} (omega arith) ∙ sym (nothing k)
  where
    nothing : (k : ℕ) → drop {A = ℕ} k [] ≡ []
    nothing zero = refl
    nothing (suc k) = refl
drop_more (suc o) k (x ∷ c) =
    ap (λ n. drop n (x ∷ c)) {y = suc (o + k)} (omega arith) ∙ drop_more o k c

set_twice : (fds : List Fd) (i : ℕ) (x y : Fd) → set (set fds i x) i y ≡ set fds i y
set_twice [] i x y = refl
set_twice (e ∷ fds) zero x y = refl
set_twice (e ∷ fds) (suc i) x y = ap (λ l. e ∷ l) (set_twice fds i x y)

module _ {Fs Node Tty : Type 0} (ops : Node → Ops Fs Node) (ms : List (Mount Node))
    (con : Console Tty) where
  -- The file of the path holds `content`.
  unfoldable pub Holds : List ℕ → Fs → List ℕ → Type 0
  Holds path fs content =
      (n o : ℕ) → Calls.read ops ms path n (pos o) fs ≡ some (take n (drop o content))

  -- what one read of an open file gives
  abbrev pub part : ℕ → ℕ → Files → List ℕ → List ℕ
  part fd n s content = take n (drop (fd_at fd s).offset content)

  read-part :
      (others : Others) (fd n : ℕ) (s : Files) (fs : Fs) (tty : Tty) (content : List ℕ)
      → (leb fd_max fd) ≡ false
      → (fd_at fd s).kind ≡ file
      → (fd_at fd s).offset < 2 ^ 63
      → Holds (fd_at fd s).path fs content
      → read ops ms con others fd n s fs tty
        ≡ on_file (part fd n s content) (move_on fd (length (part fd n s content)) s) fs
  unfolding read read_entry read_reply to_off Holds
  read-part others fd n s fs tty content inside kind low law =
      rw (inside, kind, lt→ltb (fd_at fd s).offset (2 ^ 63) low, law n (fd_at fd s).offset) refl

  fd_at-move_on :
      (fd r : ℕ) (s : Files)
      → fd < length s.fds
      → fd_at fd (move_on fd r s)
        ≡ record (fd_at fd s) { offset = ((fd_at fd s).offset + r) % 2 ^ 64 }
  unfolding move_on
  fd_at-move_on fd r s h = get_or-set_self s.fds fd _ no_fd h

  abbrev at_offset : Fd → ℕ → Fd
  at_offset e o = record e { offset = o }

  abbrev with_fds : Files → List Fd → Files
  with_fds s fds = record s { fds = fds }

  move_on-twice :
      (fd r q : ℕ) (s : Files)
      → fd < length s.fds
      → move_on fd q (move_on fd r s) ≡ move_on fd (r + q) s
  unfolding move_on
  move_on-twice fd r q s h = ap (with_fds s) (
      set_twice s.fds fd _ _
      ∙ ap (λ e. set s.fds fd e)
          (ap (λ e. at_offset e ((e.offset + q) % 2 ^ 64)) (fd_at-move_on fd r s h)
            ∙ ap (at_offset (fd_at fd s)) (omega arith)))

  -- Two reads in a row, and one of both sizes.
  pub record Continues (others : Others) (fd n m : ℕ) (s : Files) (fs : Fs) (tty : Tty)
      : Type 0 where
    pub bytes : List ℕ
    pub more : List ℕ
    pub between : Files
    pub last : Files
    pub first_read : read ops ms con others fd n s fs tty ≡ on_file bytes between fs
    pub second_read : read ops ms con others fd m between fs tty ≡ on_file more last fs
    pub one_read : read ops ms con others fd (n + m) s fs tty ≡ on_file (bytes ++ more) last fs

  -- Two reads of a file in a row give the bytes, and leave the table, that one read of both sizes
  -- gives and leaves. The descriptor stands for a file, the file system answers each read with the
  -- bytes of its contents, and the contents and the offset are below 2 ^ 62.
  pub read-Continues :
      (others : Others) (fd n m : ℕ) (s : Files) (fs : Fs) (tty : Tty) (content : List ℕ)
      → length s.fds ≡ fd_max
      → fd < fd_max
      → (fd_at fd s).kind ≡ file
      → (fd_at fd s).offset < 2 ^ 62
      → length content < 2 ^ 62
      → Holds (fd_at fd s).path fs content
      → Continues others fd n m s fs tty
  read-Continues others fd n m s fs tty content sized inside kind low short law = record {
    bytes = a;
    more = b;
    between = s1;
    last = move_on fd (length b) s1;
    first_read = read-part others fd n s fs tty content out kind (omega (arith, low)) law;
    second_read =
        read-part others fd m s1 fs tty content out (ap (λ e. e.kind) at ∙ kind)
          (omega (arith, low, moved, small))
          (subst (λ p. Holds p fs content) (sym (ap (λ e. e.path) at)) law);
    one_read =
        read-part others fd (n + m) s fs tty content out kind (omega (arith, low)) law
        ∙ ap (λ l. on_file l (move_on fd (length l) s) fs) joined
        ∙ ap (λ k. on_file (a ++ b) (move_on fd k s) fs) (length-append a b)
        ∙ ap (λ t. on_file (a ++ b) t fs)
            (sym (move_on-twice fd (length a) (length b) s (omega (arith, sized, inside))));
  }
    where
      a : List ℕ
      a = part fd n s content

      s1 : Files
      s1 = move_on fd (length a) s

      b : List ℕ
      b = part fd m s1 content

      out : leb fd_max fd ≡ false
      out = ground (arith, inside)

      at : fd_at fd s1 ≡ record (fd_at fd s) { offset = ((fd_at fd s).offset + length a) % 2 ^ 64 }
      at = fd_at-move_on fd (length a) s (omega (arith, sized, inside))

      small : length a < 2 ^ 62
      small = omega (
        arith,
        short,
        length-take n (drop (fd_at fd s).offset content),
        length-drop (fd_at fd s).offset content,
      )

      moved : (fd_at fd s1).offset ≡ (fd_at fd s).offset + length a
      moved = ap (λ e. e.offset) at ∙ omega (arith, low, small)

      joined : part fd (n + m) s content ≡ a ++ b
      joined =
          take_more n m (drop (fd_at fd s).offset content)
          ∙ ap (λ l. a ++ take m l)
              (sym (drop_more (fd_at fd s).offset (length a) content)
                ∙ ap (λ o. drop o content) (sym moved))
