-- ===== src/Fds/Refs.antt =====
-- The counts of readers and writers of a pipe agree with the descriptors that point to it, through
-- every call of src/kernel/process.c that changes the table of descriptors.
use lighth_os.Pipe
use lighth_os.Pipe.{Pipe}
use lighth_os.Fds.{
  FdType, unused, console, file, pipe_read, pipe_write, Fd, Files, no_fd, fd_max, change_found,
  change_pipe, drop_pipe, share_pipe,
}
use lighth_os.Common.{
  ℕ, zero, suc, ◌+◌, ◌-◌, ◌^◌, ◌≤◌, ◌<◌, ◌≡◌, ◌≢◌, refl, ap, sym, subst, ◌∙◌, Bool, false, ◌&&◌,
  Option, none, some, List, [], ◌∷◌, ◌==◌, if◌then◌else◌, get_or, set, length, inl, inr, arith,
  Bool-cases, Option-cases, get_or-set_self, get_or-set_ne, get_or-some, ==→eq, ==→ne, ne→==,
  lt→ltb,
}

-- whether an entry is the reading, or the writing, end of pipe `q`
unfoldable pub is_end : ℕ → Option ℕ → Bool
is_end q none = false
is_end q (some p) = p == q

unfoldable pub reads_at : ℕ → FdType → Option ℕ → Bool
reads_at q pipe_read pipe = is_end q pipe
reads_at q _ pipe = false

unfoldable pub writes_at : ℕ → FdType → Option ℕ → Bool
writes_at q pipe_write pipe = is_end q pipe
writes_at q _ pipe = false

abbrev pub reads : ℕ → Fd → Bool
reads q e = reads_at q e.kind e.pipe

abbrev pub writes : ℕ → Fd → Bool
writes q e = writes_at q e.kind e.pipe

abbrev pub one : Bool → ℕ
one b = if b then 1 else 0

-- how many entries there are
unfoldable pub count : (Fd → Bool) → List Fd → ℕ
count f [] = 0
count f (e ∷ fds) = one (f e) + count f fds

-- A pipe has `r` readers and `w` writers; one that has been freed has none.
unfoldable pub Agrees : ℕ → ℕ → Option Pipe → Type 0
Agrees r w none = (r ≡ 0) × (w ≡ 0)
Agrees r w (some p) = (p.readers ≡ r) × (p.writers ≡ w) × 0 < r + w

-- The counts of every pipe are the entries of this process and those of other processes, `held_r`
-- and `held_w`, which are fewer than 2 ^ 31.
pub record IsCounted (held_r held_w : ℕ → ℕ) (s : Files) : Type 0 where
  pub sized : length s.fds ≡ fd_max
  pub agrees :
      (q : ℕ)
      → Agrees
          (held_r q + count (reads q) s.fds)
          (held_w q + count (writes q) s.fds)
          (get_or s.pipes q none)
  pub few_r : (q : ℕ) → held_r q < 2 ^ 31
  pub few_w : (q : ℕ) → held_w q < 2 ^ 31

-- an entry more, and the one that was there less
pub count-set :
    (f : Fd → Bool) (fds : List Fd) (i : ℕ) (e : Fd)
    → i < length fds
    → count f (set fds i e) + one (f (get_or fds i no_fd)) ≡ count f fds + one (f e)
unfolding count
count-set f [] i e h = absurd (omega arith)
count-set f (x ∷ fds) zero e h = omega arith
count-set f (x ∷ fds) (suc i) e h = omega (arith, count-set f fds i e (omega arith))

pub count_le : (f : Fd → Bool) (fds : List Fd) → count f fds ≤ length fds
unfolding count
count_le f [] = omega arith
count_le f (x ∷ fds) = ground (arith, count_le f fds)

both_zero : (a b : ℕ) → (a == 0 && b == 0) ≡ false → 0 < a + b
both_zero a b h = ground (arith, h)

Agrees-maybe_free :
    (r w : ℕ) (p : Pipe) → p.readers ≡ r → p.writers ≡ w → Agrees r w (Pipe.maybe_free p)
unfolding Agrees Pipe.maybe_free
Agrees-maybe_free r w p e f = elim (Bool-cases (p.readers == 0 && p.writers == 0)) [
  | inl t ↦ rw t (grind (arith, ==→eq))
  | inr t ↦ rw t (e, f, grind (arith, ne→==, both_zero))
]

Agrees-close_reader :
    (r w : ℕ) (p : Pipe) → Agrees (r + 1) w (some p) → Agrees r w (Pipe.close_reader p)
unfolding Agrees Pipe.close_reader
Agrees-close_reader r w p (e, f, l) =
    rw (lt→ltb 0 p.readers (omega arith)) (Agrees-maybe_free r w _ (omega arith) f)

Agrees-close_writer :
    (r w : ℕ) (p : Pipe) → Agrees r (w + 1) (some p) → Agrees r w (Pipe.close_writer p)
unfolding Agrees Pipe.close_writer
Agrees-close_writer r w p (e, f, l) =
    rw (lt→ltb 0 p.writers (omega arith)) (Agrees-maybe_free r w _ e (omega arith))

Agrees-add_reader :
    (r w : ℕ) (p : Pipe)
    → r < 2 ^ 32 - 1
    → Agrees r w (some p)
    → Agrees (r + 1) w (some (Pipe.add_reader p))
unfolding Agrees Pipe.add_reader
Agrees-add_reader r w p h (e, f, l) = (omega arith, f, omega arith)

Agrees-add_writer :
    (r w : ℕ) (p : Pipe)
    → w < 2 ^ 32 - 1
    → Agrees r w (some p)
    → Agrees r (w + 1) (some (Pipe.add_writer p))
unfolding Agrees Pipe.add_writer
Agrees-add_writer r w p h (e, f, l) = (e, omega arith, omega arith)

change_here :
    (f : Pipe → Option Pipe) (q : ℕ) (pipes : List (Option Pipe)) (p : Pipe)
    → get_or pipes q none ≡ some p
    → get_or (change_pipe f (some q) pipes) q none ≡ f p
unfolding change_found change_pipe
change_here f q pipes p e =
    ap (λ o. get_or (change_found f q o pipes) q none) e
    ∙ get_or-set_self pipes q (f p) none (get_or-some pipes q p e)

found_elsewhere :
    (f : Pipe → Option Pipe) (i q : ℕ) (o : Option Pipe) (pipes : List (Option Pipe))
    → i ≢ q
    → get_or (change_found f i o pipes) q none ≡ get_or pipes q none
unfolding change_found
found_elsewhere f i q none pipes ne = refl
found_elsewhere f i q (some p) pipes ne = get_or-set_ne pipes i q (f p) none ne

change_elsewhere :
    (f : Pipe → Option Pipe) (i q : ℕ) (pipes : List (Option Pipe))
    → i ≢ q
    → get_or (change_pipe f (some i) pipes) q none ≡ get_or pipes q none
unfolding change_pipe
change_elsewhere f i q pipes ne = found_elsewhere f i q (get_or pipes i none) pipes ne

-- A call on pipe `i` turns what holds of pipe `q` into what is to hold of it.
change-Holds :
    (A B : Option Pipe → Type 0) (f : Pipe → Option Pipe) (i q : ℕ) (pipes : List (Option Pipe))
    → (i ≡ q → (p : Pipe) → A (some p) → B (f p))
    → (i ≡ q → ¬ A none)
    → (i ≢ q → (o : Option Pipe) → A o → B o)
    → A (get_or pipes q none)
    → B (get_or (change_pipe f (some i) pipes) q none)
change-Holds A B f i q pipes here live there a = elim (Bool-cases (i == q)) [
  | inl t ↦ elim (Option-cases (get_or pipes q none)) [
    | inl e ↦ absurd (live (==→eq i q t) (subst A e a))
    | inr (p, e) ↦
        subst (λ j. B (get_or (change_pipe f (some j) pipes) q none)) (sym (==→eq i q t))
          (subst B (sym (change_here f q pipes p e)) (here (==→eq i q t) p (subst A e a)))
  ]
  | inr t ↦ subst B (sym (change_elsewhere f i q pipes (==→ne i q t))) (there (==→ne i q t) _ a)
]

pub Agrees-at : (o : Option Pipe) {r r' w w' : ℕ} → r ≡ r' → w ≡ w' → Agrees r w o → Agrees r' w' o
Agrees-at o {r} {w'} e f a = subst (λ n. Agrees n w' o) e (subst (λ n. Agrees r n o) f a)

Agrees-live : (r w : ℕ) → 0 < r + w → ¬ Agrees r w none
unfolding Agrees
Agrees-live r w h (e, f) = omega arith

one-here : (r i q : ℕ) → i ≡ q → r + one (i == q) ≡ r + 1
one-here r i q e = ground arith

one-there : (r i q : ℕ) → i ≢ q → r + one (i == q) ≡ r
one-there r i q e = ground arith

-- An entry that goes takes its reader or writer along.
pub drop-Agrees :
    (kind : FdType) (pipe : Option ℕ) (pipes : List (Option Pipe)) (q r w : ℕ)
    → Agrees
        (r + one (reads_at q kind pipe))
        (w + one (writes_at q kind pipe))
        (get_or pipes q none)
    → Agrees r w (get_or (drop_pipe kind pipe pipes) q none)
unfolding drop_pipe reads_at writes_at is_end change_pipe
drop-Agrees pipe_read (some i) pipes q r w a =
    change-Holds (λ o. Agrees (r + one (i == q)) (w + 0) o) (Agrees r w) Pipe.close_reader i q pipes
      (λ e p x. Agrees-close_reader r w p (Agrees-at (some p) (one-here r i q e) (omega arith) x))
      (λ e x. Agrees-live _ _ (ground (arith, one-here r i q e)) x)
      (λ e o x. Agrees-at o (one-there r i q e) (omega arith) x) a
drop-Agrees pipe_write (some i) pipes q r w a =
    change-Holds (λ o. Agrees (r + 0) (w + one (i == q)) o) (Agrees r w) Pipe.close_writer i q pipes
      (λ e p x. Agrees-close_writer r w p (Agrees-at (some p) (omega arith) (one-here w i q e) x))
      (λ e x. Agrees-live _ _ (ground (arith, one-here w i q e)) x)
      (λ e o x. Agrees-at o (omega arith) (one-there w i q e) x) a
drop-Agrees pipe_read none pipes q r w a = Agrees-at _ (omega arith) (omega arith) a
drop-Agrees pipe_write none pipes q r w a = Agrees-at _ (omega arith) (omega arith) a
drop-Agrees unused pipe pipes q r w a = Agrees-at _ (omega arith) (omega arith) a
drop-Agrees console pipe pipes q r w a = Agrees-at _ (omega arith) (omega arith) a
drop-Agrees file pipe pipes q r w a = Agrees-at _ (omega arith) (omega arith) a

-- An entry that comes brings its reader or writer, if there was one of the pipe before.
pub share-Agrees :
    (kind : FdType) (pipe : Option ℕ) (pipes : List (Option Pipe)) (q r w : ℕ)
    → r < 2 ^ 32 - 1
    → w < 2 ^ 32 - 1
    → one (reads_at q kind pipe) ≤ r
    → one (writes_at q kind pipe) ≤ w
    → Agrees r w (get_or pipes q none)
    → Agrees
        (r + one (reads_at q kind pipe))
        (w + one (writes_at q kind pipe))
        (get_or (share_pipe kind pipe pipes) q none)
unfolding share_pipe reads_at writes_at is_end change_pipe
share-Agrees pipe_read (some i) pipes q r w hr hw lr lw a =
    change-Holds (Agrees r w) (λ o. Agrees (r + one (i == q)) (w + 0) o) _ i q pipes
      (λ e p x. Agrees-at _ (sym (one-here r i q e)) (omega arith) (Agrees-add_reader r w p hr x))
      (λ e x. Agrees-live _ _ (ground (arith, one-here 0 i q e, lr)) x)
      (λ e o x. Agrees-at o (sym (one-there r i q e)) (omega arith) x) a
share-Agrees pipe_write (some i) pipes q r w hr hw lr lw a =
    change-Holds (Agrees r w) (λ o. Agrees (r + 0) (w + one (i == q)) o) _ i q pipes
      (λ e p x. Agrees-at _ (omega arith) (sym (one-here w i q e)) (Agrees-add_writer r w p hw x))
      (λ e x. Agrees-live _ _ (ground (arith, one-here 0 i q e, lw)) x)
      (λ e o x. Agrees-at o (omega arith) (sym (one-there w i q e)) x) a
share-Agrees pipe_read none pipes q r w hr hw lr lw a = Agrees-at _ (omega arith) (omega arith) a
share-Agrees pipe_write none pipes q r w hr hw lr lw a = Agrees-at _ (omega arith) (omega arith) a
share-Agrees unused pipe pipes q r w hr hw lr lw a = Agrees-at _ (omega arith) (omega arith) a
share-Agrees console pipe pipes q r w hr hw lr lw a = Agrees-at _ (omega arith) (omega arith) a
share-Agrees file pipe pipes q r w hr hw lr lw a = Agrees-at _ (omega arith) (omega arith) a
